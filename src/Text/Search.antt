-- ===== src/Text/Search.antt =====
-- What `find` returns.
use proxy_cache_server.Prelude.{
  ℕ, ◌+◌, ◌≤◌, ◌≡◌, ◌≢◌, ap, ◌∙◌, true, false, [], ◌∷◌, ◌++◌, some, arith, length, drop, All,
  le→leb, drop-append, length-append, length-drop,
}
use proxy_cache_server.Text.{contains_byte, Bytes, starts_with, find_at, find}

-- No byte of the text is `c`.
abbrev pub Lacks : ℕ → Bytes → Type 0
Lacks c = All (λ b. b ≢ c)

-- The test of the source decides it.
pub contains_byte-Lacks : (c : ℕ) (s : Bytes) → contains_byte s c ≡ false → Lacks c s
unfolding contains_byte
contains_byte-Lacks c [] e = tt
contains_byte-Lacks c (b ∷ s) e = (λ same. ground arith, contains_byte-Lacks c s (ground arith))

-- A needle is found behind a text that lacks its first byte.
pub find_at-append :
    (x : ℕ) (p before after : Bytes) (i : ℕ)
    → Lacks x before
    → starts_with (x ∷ p) after ≡ true
    → find_at (x ∷ p) i (before ++ after) ≡ some (i + length before)
unfolding find_at
find_at-append x p [] [] i h e = unfold starts_with in cc
find_at-append x p [] (c ∷ after) i h e = rw (e) (ap some (omega arith))
find_at-append x p (b ∷ before) after i h e =
    let rest = find_at-append x p before after (i + 1) h.1 e in
    let skip : starts_with (x ∷ p) (b ∷ (before ++ after)) ≡ false =
      unfold starts_with in ground (arith, h.0) in
    rw skip (rest ∙ ap some (omega arith))

-- The same for a search that begins at the position where the text begins.
pub find-append :
    (start : Bytes) (x : ℕ) (p before after : Bytes) (i : ℕ)
    → i ≡ length start
    → Lacks x before
    → starts_with (x ∷ p) after ≡ true
    → find (start ++ (before ++ after)) (x ∷ p) i ≡ some (length start + length before)
unfolding find
find-append start x p before after i e h q =
    rw
      (
        e,
        le→leb (length start) (length (start ++ (before ++ after)))
            (omega (arith, length-append start (before ++ after))),
        drop-append start (before ++ after),
      )
      (find_at-append x p before after (length start) h q)

-- A position that is found is at or behind the first byte, and the needle fits behind it.
pub starts_with-length : (p s : Bytes) → starts_with p s ≡ true → length p ≤ length s
unfolding starts_with
starts_with-length [] s h = omega arith
starts_with-length (x ∷ p) [] h = cc
starts_with-length (x ∷ p) (c ∷ s) h = ground (arith, starts_with-length p s)

pub find_at_bounds :
    (needle s : Bytes) (i j : ℕ)
    → find_at needle i s ≡ some j
    → (i ≤ j) × (j + length needle ≤ i + length s)
unfolding find_at
find_at_bounds needle [] i j h = ground (arith, starts_with-length needle [])
find_at_bounds needle (c ∷ s) i j h =
    ground (arith, starts_with-length needle (c ∷ s), find_at_bounds needle s (i + 1) j)

pub find_bounds :
    (s needle : Bytes) (i j : ℕ)
    → find s needle i ≡ some j
    → (i ≤ j) × (j + length needle ≤ length s)
unfolding find
find_bounds s needle i j h = ground (arith, find_at_bounds needle (drop i s) i j, length-drop i s)
