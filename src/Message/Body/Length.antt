-- ===== src/Message/Body/Length.antt =====
-- The Content-Length field that the decoder of chunks writes.
use proxy_cache_server.Prelude.{
  ℕ, ◌+◌, ◌%◌, ◌≡◌, ◌≢◌, refl, ◌∙◌, ◌⊎◌, inl, inr, true, false, [], ◌∷◌, some, arith, ltb, ◌==◌,
  Bool-cases,
}
use proxy_cache_server.Text.{codes, bytes_eq}
use proxy_cache_server.Text.Number.{
  is_space, skip_space, read_sign, digit_value, read_digits, read_number, stoul,
}
use proxy_cache_server.Headers.{Headers, lookup, get_header, insert, erase}
use proxy_cache_server.Headers.Laws.{lookup-insert, lookup-erase_ne}
use proxy_cache_server.Message.Body.{content_length, transfer_encoding, decoded_headers}

-- A decimal digit is 48 above its value.
digit_value_lem : (c : ℕ) → ltb (digit_value c) 10 ≡ true → digit_value c + 48 ≡ c
unfolding digit_value
digit_value_lem c e = ground arith

read_digits_one :
    (c : ℕ)
    → (read_digits 10 0 false (c ∷ [])).1 ≡ true
    → (read_digits 10 0 false (c ∷ [])).0 + 48 ≡ c
unfolding read_digits
read_digits_one c e = ground (arith, digit_value_lem c)

-- A sign alone has no digit behind it.
sign_cases : (c : ℕ) → ((read_sign (c ∷ [])).1 ≡ []) ⊎ (read_sign (c ∷ []) ≡ (false, c ∷ []))
unfolding read_sign
sign_cases c = elim (Bool-cases (c == b'-')) [
  | inl minus ↦ inl (ground arith)
  | inr other ↦ elim (Bool-cases (c == b'+')) [
    | inl plus ↦ inl (ground arith)
    | inr neither ↦ inr (ground arith)
  ]
]

-- A number of one byte is a digit.
read_number_one :
    (c : ℕ)
    → (read_number 10 (c ∷ [])).2 ≡ true
    → ((read_number 10 (c ∷ [])).0 ≡ false) × ((read_number 10 (c ∷ [])).1 + 48 ≡ c)
unfolding read_number
read_number_one c e = elim (Bool-cases (is_space c)) [
  | inl space ↦
      let nothing : skip_space (c ∷ []) ≡ [] = unfold skip_space in ground arith in
      let none_read : false ≡ true = unfold read_sign read_digits in rw nothing at e in absurd cc
  | inr solid ↦
      let all : skip_space (c ∷ []) ≡ c ∷ [] = unfold skip_space in ground arith in
      rw all (elim (sign_cases c) [
        | inl signed ↦
            let some_read = rw all at e in
            let none_read : false ≡ true = unfold read_digits in rw signed at some_read in absurd cc
        | inr plain ↦ rw plain (refl, read_digits_one c (ground arith))
      ])
]

stoul_one : (c v : ℕ) → stoul 10 (c ∷ []) ≡ some v → v + 48 ≡ c
unfolding stoul
stoul_one c v e = ground (arith, read_number_one c)

decoded_headers_length :
    (len : ℕ) (h : Headers)
    → lookup content_length (decoded_headers len h) ≡ some ((len % 256) ∷ [])
unfolding decoded_headers
decoded_headers_length len h =
    let g = insert content_length ((len % 256) ∷ []) h in
    lookup-erase_ne (codes "Trailer") content_length (erase transfer_encoding g)
      (unfold bytes_eq in refl)
    ∙ lookup-erase_ne transfer_encoding content_length g (unfold bytes_eq in refl)
    ∙ lookup-insert content_length content_length ((len % 256) ∷ []) h
    ∙ (unfold bytes_eq in refl)

-- The Content-Length that the decoder of a chunked body writes never reads back as the length of the
-- body: it is one byte, the length modulo 256, and not the length in digits.
pub decoded_headers-stoul :
    (len : ℕ) (h : Headers)
    → stoul 10 (get_header content_length (decoded_headers len h)) ≢ some len
unfolding get_header
decoded_headers-stoul len h = λ reads.
    let byte = decoded_headers_length len h in
    let e : stoul 10 ((len % 256) ∷ []) ≡ some len = ground (arith, byte) in
    let digit = stoul_one (len % 256) len e in omega arith
