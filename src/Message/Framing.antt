-- ===== src/Message/Framing.antt =====
-- What the parsers keep of the header map.
use proxy_cache_server.Prelude.{
  ℕ, zero, suc, ◌+◌, ◌%◌, ◌≡◌, refl, ◌∙◌, inl, inr, Bool, true, false, [], ◌∷◌, none, some, arith,
  Bool-cases, Option-cases, if◌then◌else◌, ◌==◌, not, ◌||◌, ◌&&◌, take, length,
}
use proxy_cache_server.Text.{Bytes, codes, bytes_eq, is_empty, find}
use proxy_cache_server.Text.Equality.{bytes_eq_iff}
use proxy_cache_server.Text.Number.{stoul}
use proxy_cache_server.Headers.{Headers, lookup, insert, erase, add_field, member, has_header}
use proxy_cache_server.Headers.Laws.{
  lookup-insert, lookup-erase_ne, lookup-erase_self, IsUnique, insert-IsUnique, erase-IsUnique,
  add_field_keeps,
}
use proxy_cache_server.Message.{Progress, Parse, ok, malformed}
use proxy_cache_server.Message.Bind.{Yields, >>=-Yields, Yields-map}
use proxy_cache_server.Message.Body.{
  crlf_line, take_chunk, read_chunks, trailer_field, read_trailer, or_throw, drop_length,
  read_length, read_chunked, read_body, content_length, transfer_encoding, decoded_headers,
  chunk_size_str, u32, forbidden_in_trailer,
}

abbrev host_name : Bytes
host_name = codes "Host"

-- One entry for each name, and the same Host as in `h`.
abbrev Keeps : Headers → Progress → Type 0
Keeps h q = IsUnique q.headers × (lookup host_name q.headers ≡ lookup host_name h)

crlf_line-Yields :
    (s : Bytes) (p : Progress) → Yields (λ a. a.1.headers ≡ p.headers) (crlf_line s p)
unfolding crlf_line
crlf_line-Yields s p = ground arith

take_chunk-Yields :
    (s : Bytes) (n : ℕ) (p : Progress) (h : Headers)
    → p.headers ≡ h
    → Yields (λ q. q.headers ≡ h) (take_chunk s n p)
unfolding take_chunk
take_chunk-Yields s n p h e = ground arith

read_chunks-Yields :
    (fuel : ℕ) (s : Bytes) (len : ℕ) (p : Progress) (h : Headers)
    → p.headers ≡ h
    → Yields (λ a. a.1.headers ≡ h) (read_chunks fuel s len p)
unfolding read_chunks
read_chunks-Yields zero s len p h e = tt
read_chunks-Yields (suc fuel) s len p h e =
    >>=-Yields (λ a. a.1.headers ≡ p.headers) _ (crlf_line s p) _ (crlf_line-Yields s p)
      λ (line, at_data) same.
        >>=-Yields (λ n. Unit {0}) _ (or_throw (stoul 16 (chunk_size_str line)) at_data) _
          (ground arith)
          λ n _.
            let chunks =
              >>=-Yields (λ q. q.headers ≡ h) (λ (a : ℕ × Progress). a.1.headers ≡ h)
                (take_chunk s (n % u32) at_data)
                (λ next. read_chunks fuel s ((len + n % u32) % u32) next)
                (take_chunk-Yields s (n % u32) at_data h (same ∙ e))
                (λ next kept. read_chunks-Yields fuel s ((len + n % u32) % u32) next h kept) in
            elim (Bool-cases (n % u32 == 0)) [
              | inl last ↦ rw last (same ∙ e)
              | inr more ↦ rw more chunks
            ]

-- No field of a trailer is the Host.
trailer_host : (key : Bytes) → forbidden_in_trailer key ≡ false → bytes_eq key host_name ≡ false
unfolding member
trailer_host key e = ground (arith, bytes_eq_iff key host_name, bytes_eq_iff host_name key)

trailer_field-Yields :
    (valid : Bytes → Bool) (line : Bytes) (p : Progress) (h : Headers)
    → Keeps h p
    → Yields (Keeps h) (trailer_field valid line p)
unfolding trailer_field
trailer_field-Yields valid line p h k = elim (Option-cases (find line (codes ":") 0)) [
  | inl missing ↦ rw (missing, trailer_field) tt
  | inr (i, colon) ↦ rw (colon, trailer_field) (checked (take i line) _)
]
  where
    added :
        (key value : Bytes)
        → bytes_eq key host_name ≡ false
        → Yields (Keeps h) (elim (add_field key value p.headers) as (λ _. Parse Progress) [
          | none ↦ malformed p
          | some g ↦ ok (record p { headers = g })
        ])
    added key value other = elim (Option-cases (add_field key value p.headers)) [
      | inl refused ↦ rw refused tt
      | inr (g, stored) ↦
          let kept = add_field_keeps key value p.headers stored k.0 in
          rw stored (kept.0, kept.1 host_name other ∙ k.1)
    ]

    checked :
        (key value : Bytes)
        → Yields (Keeps h) (
            if not (valid key) || forbidden_in_trailer key
            then malformed p
            else (elim (add_field key value p.headers) as (λ _. Parse Progress) [
              | none ↦ malformed p
              | some g ↦ ok (record p { headers = g })
            ]))
    checked key value = elim (Bool-cases (not (valid key) || forbidden_in_trailer key)) [
      | inl bad_ ↦ rw bad_ tt
      | inr good ↦ rw good (added key value (trailer_host key (ground arith)))
    ]

read_trailer-Yields :
    (valid : Bytes → Bool) (fuel : ℕ) (s : Bytes) (p : Progress) (h : Headers)
    → Keeps h p
    → Yields (Keeps h) (read_trailer valid fuel s p)
unfolding read_trailer
read_trailer-Yields valid zero s p h k = tt
read_trailer-Yields valid (suc fuel) s p h k =
    >>=-Yields (λ a. a.1.headers ≡ p.headers) _ (crlf_line s p) _ (crlf_line-Yields s p)
      λ (line, next) same.
        let kept : Keeps h next = rw same k in
        let rest =
          >>=-Yields (Keeps h) (Keeps h) (trailer_field valid line next)
            (λ stored. read_trailer valid fuel s stored)
            (trailer_field-Yields valid line next h kept)
            (λ stored still. read_trailer-Yields valid fuel s stored h still) in
        elim (Bool-cases (is_empty line)) [ inl final ↦ rw final kept | inr more ↦ rw more rest ]

decoded_headers_lem :
    (len : ℕ) (h : Headers)
    → IsUnique h
    → IsUnique (decoded_headers len h)
      × (lookup host_name (decoded_headers len h) ≡ lookup host_name h)
      × (lookup transfer_encoding (decoded_headers len h) ≡ none)
unfolding decoded_headers
decoded_headers_lem len h u =
    let g = insert content_length ((len % 256) ∷ []) h in
    let u' = insert-IsUnique content_length ((len % 256) ∷ []) h u in
    let t = erase transfer_encoding g in
    (
      erase-IsUnique (codes "Trailer") t (erase-IsUnique transfer_encoding g u'),
      lookup-erase_ne (codes "Trailer") host_name t (unfold bytes_eq in refl)
          ∙ lookup-erase_ne transfer_encoding host_name g (unfold bytes_eq in refl)
          ∙ lookup-insert content_length host_name ((len % 256) ∷ []) h
          ∙ (unfold bytes_eq in refl),
      lookup-erase_ne (codes "Trailer") transfer_encoding t (unfold bytes_eq in refl)
          ∙ lookup-erase_self transfer_encoding g u',
    )

drop_length_lem :
    (h : Headers)
    → IsUnique h
    → IsUnique (drop_length h)
      × (lookup host_name (drop_length h) ≡ lookup host_name h)
      × (has_header content_length (drop_length h) ≡ true
          → lookup transfer_encoding (drop_length h) ≡ none)
unfolding drop_length
drop_length_lem h u =
    elim (Bool-cases (has_header content_length h && has_header transfer_encoding h)) [
      | inl both ↦
          rw (both, drop_length)
            (
              erase-IsUnique content_length h u,
              lookup-erase_ne content_length host_name h (unfold bytes_eq in refl),
              λ e. absurd (ground (arith, lookup-erase_self content_length h u)),
            )
      | inr one ↦ rw (one, drop_length) (u, refl, λ e. ground arith)
    ]

-- What the body leaves of the map.
abbrev pub IsDecoded : Headers → Progress → Type 0
IsDecoded h q =
    IsUnique q.headers
    × (lookup (codes "Host") q.headers ≡ lookup (codes "Host") h)
    × (lookup transfer_encoding q.headers ≡ none)

read_length-Yields :
    (s : Bytes) (p : Progress) → Yields (λ q. q.headers ≡ p.headers) (read_length s p)
unfolding read_length
read_length-Yields s p = ground arith

read_chunked-Yields :
    (valid : Bytes → Bool) (fuel : ℕ) (s : Bytes) (p : Progress) (h : Headers)
    → Keeps h p
    → Yields (IsDecoded h) (read_chunked valid fuel s p)
unfolding read_chunked
read_chunked-Yields valid fuel s p h k =
    >>=-Yields (λ a. a.1.headers ≡ p.headers) (IsDecoded h) (read_chunks fuel s 0 p) _
      (read_chunks-Yields fuel s 0 p p.headers refl)
      λ (len, behind) same.
        >>=-Yields (Keeps h) (IsDecoded h) (read_trailer valid (length s + 1) s behind) _
          (read_trailer-Yields valid (length s + 1) s behind h (rw same k))
          λ q kept.
            let decoded = decoded_headers_lem len q.headers kept.0 in
            (decoded.0, decoded.1 ∙ kept.1, decoded.2)

pub read_body-Yields :
    (valid : Bytes → Bool) (fuel : ℕ) (s : Bytes) (has_chunked : Bool) (p : Progress)
    → IsUnique p.headers
    → Yields (IsDecoded p.headers) (read_body valid fuel s has_chunked p)
unfolding read_body
read_body-Yields valid fuel s has_chunked p u =
    let dropped = drop_length_lem p.headers u in
    let q = record p { headers = drop_length p.headers } in
    let in_chunks = read_chunked-Yields valid fuel s q p.headers (dropped.0, dropped.1) in
    elim (Bool-cases (has_header content_length q.headers)) [
      | inl sized ↦
          rw (sized, read_body)
            (Yields-map (λ r. r.headers ≡ q.headers) (IsDecoded p.headers) (read_length s q)
              (λ r same. rw same (dropped.0, dropped.1, dropped.2 sized)) (read_length-Yields s q))
      | inr unsized ↦ elim (Bool-cases (has_header transfer_encoding q.headers)) [
        | inl coded ↦ elim (Bool-cases has_chunked) [
          | inl last ↦ rw (unsized, coded, last, read_body) in_chunks
          | inr other ↦ rw (unsized, coded, other, read_body) tt
        ]
        | inr plain ↦ rw (unsized, plain, read_body) (dropped.0, dropped.1, ground arith)
      ]
    ]
