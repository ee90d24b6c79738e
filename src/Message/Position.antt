-- ===== src/Message/Position.antt =====
-- The positions of a text at which a line begins.
use proxy_cache_server.Prelude.{
  ℕ, zero, suc, ◌+◌, ◌<◌, ◌≡◌, refl, sym, ap, ◌∙◌, ◌⊎◌, Bool, true, false, [], ◌∷◌, some, arith,
  ◌==◌, length, take, drop, drop-drop,
}
use proxy_cache_server.Text.{Bytes, crlf, substr, bytes_eq, split_at}
use proxy_cache_server.Text.Equality.{bytes_eq_iff}

-- A line feed stands in front of the position.
abbrev pub after_line : Bytes → ℕ → Bool
after_line s zero = false
after_line s (suc i) = elim (drop i s) [ [] ↦ false | c ∷ rest ↦ c == b'\n' ]

-- A line begins at the position, or it is behind the text.
abbrev pub Lined : Bytes → ℕ → Type 0
Lined s i = (after_line s i ≡ true) ⊎ (length s < i)

pub drop-cons : (s : Bytes) (i c : ℕ) (rest : Bytes) → drop i s ≡ c ∷ rest → drop (i + 1) s ≡ rest
drop-cons s i c rest e = sym (drop-drop i 1 s) ∙ ap (λ (t : Bytes). drop 1 t) e

pub after_line-drop :
    (s : Bytes) (i : ℕ) (rest : Bytes) → drop i s ≡ b'\n' ∷ rest → after_line s (i + 1) ≡ true
after_line-drop s i rest e =
    ap (after_line s) (let next : i + 1 ≡ suc i = omega arith in next) ∙ rw (e, after_line) refl

take_two : (t : Bytes) → take 2 t ≡ crlf → (rest : Bytes) × (t ≡ b'\r' ∷ b'\n' ∷ rest)
take_two [] e = cc
take_two (c ∷ []) e = cc
take_two (c ∷ d ∷ rest) e = (rest, ground arith)

-- Behind a "\r\n" a line begins.
pub substr_line :
    (s : Bytes) (i : ℕ) (mark : Bytes)
    → substr s i 2 ≡ some mark
    → bytes_eq mark crlf ≡ true
    → after_line s (i + 2) ≡ true
unfolding substr
substr_line s i mark e same =
    let cut : take 2 (drop i s) ≡ crlf = ground (arith, bytes_eq_iff mark crlf) in
    let (rest, here) = take_two (drop i s) cut in
    let next = drop-cons s i b'\r' (b'\n' ∷ rest) here in
    ap (after_line s) (let sum : i + 2 ≡ i + 1 + 1 = omega arith in sum)
    ∙ after_line-drop s (i + 1) rest next

-- What `split_at` leaves behind the delimiter.
pub split_at_found :
    (delim : ℕ) (s : Bytes)
    → (split_at delim s).2 ≡ true
    → drop (length (split_at delim s).0) s ≡ delim ∷ (split_at delim s).1
unfolding split_at
split_at_found delim [] e = cc
split_at_found delim (c ∷ s) e = ground (arith, split_at_found delim s)

pub split_at_missed :
    (delim : ℕ) (s : Bytes) → (split_at delim s).2 ≡ false → length (split_at delim s).0 ≡ length s
unfolding split_at
split_at_missed delim [] e = refl
split_at_missed delim (c ∷ s) e = ground (arith, split_at_missed delim s)
