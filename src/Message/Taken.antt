-- ===== src/Message/Taken.antt =====
-- Where the parsers are in the text when they have read a body.
use proxy_cache_server.Prelude.{
  ℕ, zero, suc, ◌+◌, ◌%◌, ◌≡◌, refl, ap, ◌∙◌, ◌⊎◌, inl, inr, Bool, true, [], ◌∷◌, some, arith, leb,
  ltb, take, drop, length, Bool-cases, Option-cases,
}
use proxy_cache_server.Text.{Bytes, crlf, starts_with, find_at, find, substr, is_empty}
use proxy_cache_server.Text.Number.{stoul}
use proxy_cache_server.Headers.{get_header, has_header}
use proxy_cache_server.Message.{Progress, Parse, ok}
use proxy_cache_server.Message.Bind.{Yields, >>=-Yields, Yields-map}
use proxy_cache_server.Message.Position.{after_line, Lined, drop-cons, after_line-drop}
use proxy_cache_server.Message.Body.{
  u32, content_length, transfer_encoding, crlf_line, trailer_field, read_trailer, decoded_headers,
  read_chunks, read_chunked, read_length, drop_length, read_body,
}

-- A message that ends at a position of the text: a line begins there, or the body of a length stands in
-- front of it, from the beginning of a line on, up to the wrap round of the sum.
abbrev pub EndsAt : Bytes → Bytes → ℕ → Type 0
EndsAt s body k =
    Lined s k
    ⊎ ((head : ℕ) × (n : ℕ) × Lined s head × (k ≡ (head + n) % u32) × (body ≡ take n (drop head s)))

Yields-any {ℓ} : {A : Type ℓ} (m : Parse A) → Yields (λ a. Unit {0}) m
Yields-any (ok a) = tt
Yields-any _ = tt

find_at-starts_with :
    (needle t s : Bytes) (i j : ℕ)
    → drop i s ≡ t
    → find_at needle i t ≡ some j
    → starts_with needle (drop j s) ≡ true
unfolding find_at
find_at-starts_with needle [] s i j e found = elim (Bool-cases (starts_with needle [])) [
  | inl begins ↦ let here : i ≡ j = ground arith in rw⁻¹ here (rw e begins)
  | inr other ↦ let never = rw other at found in ground arith
]
find_at-starts_with needle (c ∷ t) s i j e found = elim (Bool-cases (starts_with needle (c ∷ t))) [
  | inl begins ↦ let here : i ≡ j = ground arith in rw⁻¹ here (rw e begins)
  | inr other ↦ find_at-starts_with needle t s (i + 1) j (drop-cons s i c t e) (ground arith)
]

crlf-starts_with :
    (t : Bytes) → starts_with crlf t ≡ true → (rest : Bytes) × (t ≡ b'\r' ∷ b'\n' ∷ rest)
unfolding starts_with
crlf-starts_with [] e = absurd cc
crlf-starts_with (c ∷ []) e = ground arith
crlf-starts_with (c ∷ d ∷ rest) e = (rest, ground arith)

-- Behind a line that was read a line begins.
crlf_line-Lined : (s : Bytes) (p : Progress) → Yields (λ a. Lined s a.1.chars_read) (crlf_line s p)
unfolding crlf_line find
crlf_line-Lined s p = elim (Option-cases (find s crlf p.chars_read)) [
  | inl missing ↦ rw (missing, crlf_line) tt
  | inr (j, found) ↦
      let begins = find_at-starts_with crlf _ s p.chars_read j refl (ground arith) in
      let (rest, here) = crlf-starts_with (drop j s) begins in
      let next = drop-cons s j b'\r' (b'\n' ∷ rest) here in
      rw (found, crlf_line)
        (inl (
          ap (after_line s) (let sum : j + 2 ≡ j + 1 + 1 = omega arith in sum)
          ∙ after_line-drop s (j + 1) rest next))
]

read_trailer-Lined :
    (valid : Bytes → Bool) (fuel : ℕ) (s : Bytes) (p : Progress)
    → Yields (λ q. Lined s q.chars_read) (read_trailer valid fuel s p)
unfolding read_trailer
read_trailer-Lined valid zero s p = tt
read_trailer-Lined valid (suc fuel) s p =
    >>=-Yields _ _ (crlf_line s p) _ (crlf_line-Lined s p) λ (line, next) lined.
      let rest =
        >>=-Yields (λ q. Unit {0}) (λ (q : Progress). Lined s q.chars_read)
          (trailer_field valid line next) (λ stored. read_trailer valid fuel s stored)
          (Yields-any (trailer_field valid line next))
          (λ stored _. read_trailer-Lined valid fuel s stored) in
      elim (Bool-cases (is_empty line)) [ inl final ↦ rw final lined | inr more ↦ rw more rest ]

read_chunked-Lined :
    (valid : Bytes → Bool) (fuel : ℕ) (s : Bytes) (p : Progress)
    → Yields (λ q. Lined s q.chars_read) (read_chunked valid fuel s p)
unfolding read_chunked
read_chunked-Lined valid fuel s p =
    >>=-Yields (λ a. Unit {0}) (λ (q : Progress). Lined s q.chars_read) (read_chunks fuel s 0 p) _
      (Yields-any (read_chunks fuel s 0 p))
      λ (len, behind) _.
        >>=-Yields (λ q. Lined s q.chars_read) (λ (q : Progress). Lined s q.chars_read)
          (read_trailer valid (length s + 1) s behind)
          (λ q. ok (record q { headers = decoded_headers len q.headers }))
          (read_trailer-Lined valid (length s + 1) s behind) (λ q lined. lined)

read_length-EndsAt :
    (s : Bytes) (p : Progress)
    → Lined s p.chars_read
    → Yields (λ q. EndsAt s q.body q.chars_read) (read_length s p)
unfolding read_length substr
read_length-EndsAt s p lined =
    elim (Option-cases (stoul 10 (get_header content_length p.headers))) [
      | inl unread ↦ rw (unread, read_length) tt
      | inr (n, read) ↦
          let after = (p.chars_read + n % u32) % u32 in
          elim (Bool-cases (ltb (length s) after)) [
            | inl missing ↦ rw (read, read_length, missing) tt
            | inr whole ↦ elim (Bool-cases (leb p.chars_read (length s))) [
              | inr outside ↦ rw (read, read_length, whole, substr, outside) tt
              | inl inside ↦
                  rw (read, read_length, whole, substr, inside)
                    (inr (p.chars_read, n % u32, lined, refl, refl))
            ]
          ]
    ]

pub read_body-EndsAt :
    (valid : Bytes → Bool) (fuel : ℕ) (s : Bytes) (has_chunked : Bool) (p : Progress)
    → Lined s p.chars_read
    → Yields (λ q. EndsAt s q.body q.chars_read) (read_body valid fuel s has_chunked p)
unfolding read_body
read_body-EndsAt valid fuel s has_chunked p lined =
    let q : Progress = record p { headers = drop_length p.headers } in
    elim (Bool-cases (has_header content_length q.headers)) [
      | inl sized ↦ rw (sized, read_body) (read_length-EndsAt s q lined)
      | inr unsized ↦ elim (Bool-cases (has_header transfer_encoding q.headers)) [
        | inr bare ↦ rw (unsized, bare, read_body) (inl lined)
        | inl encoded ↦ elim (Bool-cases has_chunked) [
          | inl chunked ↦
              rw (unsized, encoded, chunked, read_body)
                (Yields-map _ _ (read_chunked valid fuel s q) (λ _ l. inl l)
                  (read_chunked-Lined valid fuel s q))
          | inr other ↦ rw (unsized, encoded, other, read_body) tt
        ]
      ]
    ]
