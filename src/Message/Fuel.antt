-- ===== src/Message/Fuel.antt =====
-- The fuel of the loops over chunks and over trailer lines, and the positions that they reach.
use proxy_cache_server.Prelude.{
  ℕ, zero, suc, ◌+◌, ◌-◌, ◌%◌, ◌≤◌, ◌<◌, ◌≡◌, refl, inl, inr, Bool, true, not, ◌&&◌, ◌||◌, Option,
  none, some, arith, ltb, length, take, drop, Bool-cases, Option-cases, ◌==◌,
}
use proxy_cache_server.Text.{substr, Bytes, crlf, find, is_empty}
use proxy_cache_server.Text.Number.{stoul}
use proxy_cache_server.Text.Search.{find_bounds}
use proxy_cache_server.Message.{Progress}
use proxy_cache_server.Message.Position.{after_line, Lined, substr_line}
use proxy_cache_server.Message.Bind.{Ensures, >>=-Ensures}
use proxy_cache_server.Message.Body.{
  u32, crlf_line, chunk_size_str, take_chunk, read_chunks, or_throw, trailer_field, read_trailer,
  drop_length, read_length, read_chunked, read_body,
}

-- The size that a line which begins at a position asks for fits: no sum of the loop wraps round.
abbrev size_fits : Bytes → ℕ → Bool
size_fits s i = not (after_line s i) || elim (find s crlf i) [
  | none ↦ true
  | some line_end ↦ elim (stoul 16 (chunk_size_str (take (line_end - i) (drop i s)))) [
    | none ↦ true
    | some n ↦ ltb (n % u32 + length s + 2) u32
  ]
]

abbrev all_below : ℕ → (ℕ → Bool) → Bool
all_below zero test = true
all_below (suc n) test = test n && all_below n test

-- So it does at every position of the text.
abbrev pub sizes_fit : Bytes → Bool
sizes_fit s = all_below (length s) (size_fits s)

all_below_sound :
    (n : ℕ) (test : ℕ → Bool) (i : ℕ) → all_below n test ≡ true → i < n → test i ≡ true
all_below_sound zero test i h lt = absurd (omega arith)
all_below_sound (suc n) test i h lt = ground (arith, all_below_sound n test i)

-- A chunk that is taken moves the position forward, within the text.
take_chunk-Ensures :
    (s : Bytes) (size : ℕ) (p : Progress)
    → p.chars_read ≤ length s
    → size + length s + 2 < u32
    → Ensures
        (λ q.
          (p.chars_read ≤ q.chars_read)
          × (q.chars_read ≤ length s)
          × (after_line s q.chars_read ≡ true))
        (take_chunk s size p)
unfolding take_chunk
take_chunk-Ensures s size p within small =
    let at_end : (p.chars_read + size) % u32 ≡ p.chars_read + size = omega arith in
    let behind : (p.chars_read + size + 2) % u32 ≡ p.chars_read + size + 2 = omega arith in
    rw (at_end, behind)
      (elim (Option-cases (substr s (p.chars_read + size) 2)) [
        | inl outside ↦ rw outside (ground arith)
        | inr (mark, found) ↦
            rw found (ground (arith, substr_line s (p.chars_read + size) mark found))
      ])

-- A line that was found ends in front of the end of the text, and behind where it began. Where the
-- sizes fit and the line holds one, it fits.
abbrev IsLine : Bytes → Progress → Bytes × Progress → Type 0
IsLine s p (line, q) =
    (p.chars_read + 2 ≤ q.chars_read)
    × (q.chars_read ≤ length s)
    × (sizes_fit s ≡ true
        → Lined s p.chars_read
        → (n : ℕ) → stoul 16 (chunk_size_str line) ≡ some n
        → n % u32 + length s + 2 < u32)

crlf_line-Ensures : (s : Bytes) (p : Progress) → Ensures (IsLine s p) (crlf_line s p)
unfolding crlf_line
crlf_line-Ensures s p = elim (Option-cases (find s crlf p.chars_read)) [
  | inl missing ↦ rw (missing, crlf_line) tt
  | inr (j, found) ↦
      let bounds = find_bounds s crlf p.chars_read j found in
      rw (found, crlf_line)
        (
          omega arith,
          omega arith,
          λ fit lined n reads. ground (
            arith,
            lined,
            all_below_sound (length s) (size_fits s) p.chars_read fit (omega arith),
          ),
        )
]

or_throw-Ensures {ℓ} :
    {A : Type ℓ} (P : A → Type 0) (o : Option A) (p : Progress)
    → ((a : A) → o ≡ some a → P a)
    → Ensures P (or_throw o p)
or_throw-Ensures P none p h = tt
or_throw-Ensures P (some a) p h = h a refl

-- The loop over the chunks, on a text whose sizes fit: any fuel above the bytes that are left is
-- enough, and the position stays within the text.
pub read_chunks-Ensures :
    (fuel : ℕ) (s : Bytes) (len : ℕ) (p : Progress)
    → sizes_fit s ≡ true
    → Lined s p.chars_read
    → p.chars_read ≤ length s + 3
    → length s + 3 < fuel + p.chars_read
    → Ensures (λ a. a.1.chars_read ≤ length s) (read_chunks fuel s len p)
unfolding read_chunks
read_chunks-Ensures zero s len p fit lined within h = absurd (omega arith)
read_chunks-Ensures (suc fuel) s len p fit lined within h =
    >>=-Ensures (IsLine s p) _ (crlf_line s p) _ (crlf_line-Ensures s p) λ (line, at_data) is_line.
      >>=-Ensures (λ n. n % u32 + length s + 2 < u32) _ _ _
        (or_throw-Ensures _ _ at_data (λ n. is_line.2 fit lined n))
        λ n small.
          let chunks =
            >>=-Ensures _ (λ (a : ℕ × Progress). a.1.chars_read ≤ length s)
              (take_chunk s (n % u32) at_data)
              (λ next. read_chunks fuel s ((len + n % u32) % u32) next)
              (take_chunk-Ensures s (n % u32) at_data is_line.1 small)
              λ next moved.
                read_chunks-Ensures fuel s ((len + n % u32) % u32) next fit (inl moved.2)
                  (omega arith) (omega arith) in
          elim (Bool-cases (n % u32 == 0)) [
            | inl last ↦ rw last is_line.1
            | inr more ↦ rw more chunks
          ]

trailer_field-Ensures :
    (valid : Bytes → Bool) (line : Bytes) (p : Progress)
    → Ensures (λ q. q.chars_read ≡ p.chars_read) (trailer_field valid line p)
unfolding trailer_field
trailer_field-Ensures valid line p = ground arith

pub read_trailer-Ensures :
    (valid : Bytes → Bool) (fuel : ℕ) (s : Bytes) (p : Progress)
    → p.chars_read ≤ length s
    → length s < fuel + p.chars_read
    → Ensures (λ q. q.chars_read ≤ length s) (read_trailer valid fuel s p)
unfolding read_trailer
read_trailer-Ensures valid zero s p within h = absurd (omega arith)
read_trailer-Ensures valid (suc fuel) s p within h =
    >>=-Ensures (IsLine s p) _ (crlf_line s p) _ (crlf_line-Ensures s p) λ (line, next) is_line.
      let rest =
        >>=-Ensures _ (λ (q : Progress). q.chars_read ≤ length s) (trailer_field valid line next)
          (λ stored. read_trailer valid fuel s stored) (trailer_field-Ensures valid line next)
          λ stored same. read_trailer-Ensures valid fuel s stored (omega arith) (omega arith) in
      elim (Bool-cases (is_empty line)) [ inl final ↦ rw final is_line.1 | inr more ↦ rw more rest ]

-- The whole body. Where it is chunked the position stays within the text too.
pub read_body-Ensures :
    (valid : Bytes → Bool) (fuel : ℕ) (s : Bytes) (has_chunked : Bool) (p : Progress)
    → sizes_fit s ≡ true
    → Lined s p.chars_read
    → p.chars_read ≤ length s + 3
    → length s + 3 < fuel
    → Ensures (λ q. Unit {0}) (read_body valid fuel s has_chunked p)
unfolding read_body
read_body-Ensures valid fuel s has_chunked p fit lined within h =
    ground (arith, by_length, in_chunks)
  where
    q : Progress
    q = record p { headers = drop_length p.headers }

    by_length : Ensures (λ q. Unit {0}) (read_length s q)
    by_length = unfold read_length in ground arith

    in_chunks : Ensures (λ q. Unit {0}) (read_chunked valid fuel s q)
    in_chunks =
        unfold read_chunked in
        >>=-Ensures (λ a. a.1.chars_read ≤ length s) _ (read_chunks fuel s 0 q) _
          (read_chunks-Ensures fuel s 0 q fit lined within (omega arith))
          λ (len, behind) inside.
            >>=-Ensures _ (λ q. Unit {0}) (read_trailer valid (length s + 1) s behind) _
              (read_trailer-Ensures valid (length s + 1) s behind inside (omega arith)) (λ _ _. tt)
