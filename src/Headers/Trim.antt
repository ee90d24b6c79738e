-- ===== src/Headers/Trim.antt =====
-- What `trim_field_value` takes away.
use proxy_cache_server.Prelude.{
  ℕ, ◌+◌, ◌-◌, ◌≡◌, refl, ap, ◌∙◌, true, false, [], ◌∷◌, ◌++◌, none, some, arith, All, length,
}
use proxy_cache_server.Text.{Bytes, contains_byte, first_not_of, last_not_of, last_byte}
use proxy_cache_server.Headers.{whitespace, trim_field_value}
use proxy_cache_server.Message.Body.Overflow.{substr_middle}

-- Spaces and tabs alone.
abbrev pub Blank : Bytes → Type 0
Blank = All (λ c. contains_byte whitespace c ≡ true)

-- Some bytes, of which neither the first nor the last is a space or a tab.
abbrev pub Solid : Bytes → Type 0
Solid [] = ⊥
Solid (c ∷ s) =
    (contains_byte whitespace c ≡ false)
    × ((d : ℕ) × (last_byte (c ∷ s) ≡ some d) × (contains_byte whitespace d ≡ false))

first_not_of-Blank :
    (i : ℕ) (before : Bytes) (c : ℕ) (rest : Bytes)
    → Blank before
    → contains_byte whitespace c ≡ false
    → first_not_of whitespace i (before ++ c ∷ rest) ≡ some (i + length before)
unfolding first_not_of
first_not_of-Blank i [] c rest b e = rw e (ap some (omega arith))
first_not_of-Blank i (d ∷ before) c rest (blank, b) e =
    rw blank (first_not_of-Blank (i + 1) before c rest b e ∙ ap some (omega arith))

last_not_of-Blank : (i : ℕ) (after : Bytes) → Blank after → last_not_of whitespace i after ≡ none
unfolding last_not_of
last_not_of-Blank i [] b = refl
last_not_of-Blank i (c ∷ after) (blank, b) = rw (last_not_of-Blank (i + 1) after b, blank) refl

last_not_of-core :
    (i : ℕ) (c : ℕ) (s after : Bytes) (d : ℕ)
    → Blank after
    → last_byte (c ∷ s) ≡ some d
    → contains_byte whitespace d ≡ false
    → last_not_of whitespace i ((c ∷ s) ++ after) ≡ some (i + length s)
unfolding last_not_of last_byte
last_not_of-core i c [] after d b e solid = rw (last_not_of-Blank (i + 1) after b) (ground arith)
last_not_of-core i c (c' ∷ s) after d b e solid =
    rw (last_not_of-core (i + 1) c' s after d b e solid) (ap some (omega arith))

last_not_of-before :
    (i j : ℕ) (before s : Bytes)
    → last_not_of whitespace (i + length before) s ≡ some j
    → last_not_of whitespace i (before ++ s) ≡ some j
unfolding last_not_of
last_not_of-before i j [] s e = ap (λ (n : ℕ). last_not_of whitespace n s) (omega arith) ∙ e
last_not_of-before i j (c ∷ before) s e =
    let rest =
      last_not_of-before (i + 1) j before s
        (ap (λ (n : ℕ). last_not_of whitespace n s) (omega arith) ∙ e) in
    rw rest refl

Blank-first_not_of : (i : ℕ) (s : Bytes) → Blank s → first_not_of whitespace i s ≡ none
unfolding first_not_of
Blank-first_not_of i [] b = refl
Blank-first_not_of i (c ∷ s) (blank, b) = rw blank (Blank-first_not_of (i + 1) s b)

-- Spaces and tabs alone are trimmed to the empty string.
trim_field_value-Blank : (s : Bytes) → Blank s → trim_field_value s ≡ []
unfolding trim_field_value
trim_field_value-Blank s b = rw (Blank-first_not_of 0 s b, trim_field_value) refl

-- Spaces and tabs around a text that begins and ends with other bytes are taken away, and nothing
-- else is.
pub trim_field_value-append :
    (before core after : Bytes)
    → Blank before
    → Solid core
    → Blank after
    → trim_field_value (before ++ (core ++ after)) ≡ core
unfolding trim_field_value
trim_field_value-append before [] after b solid b' = absurd solid
trim_field_value-append before (c ∷ s) after b (first, (d, last, end_solid)) b' =
    let starts = first_not_of-Blank 0 before c (s ++ after) b first in
    let ends =
      last_not_of-before 0 _ before ((c ∷ s) ++ after)
        (last_not_of-core (0 + length before) c s after d b' last end_solid) in
    let size : 0 + length before + length s - (0 + length before) + 1 ≡ length (c ∷ s) =
      omega arith in
    rw
      (
        starts,
        ends,
        trim_field_value,
        size,
        substr_middle before (c ∷ s) after (0 + length before) (length (c ∷ s)) (omega arith) refl,
      )
      refl
