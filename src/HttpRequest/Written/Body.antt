-- ===== src/HttpRequest/Written/Body.antt =====
-- The body behind a written header.
use proxy_cache_server.Prelude.{
  Bool, ℕ, ◌+◌, ◌<◌, ◌≡◌, refl, ap, ◌⊎◌, inl, inr, true, false, [], ◌∷◌, ◌++◌, none, some, arith,
  length, length-append, All, is_some, ltb, ◌%◌,
}
use proxy_cache_server.Text.{Bytes}
use proxy_cache_server.Text.Number.{stoul}
use proxy_cache_server.Headers.{Headers, lookup, get_header}
use proxy_cache_server.Message.{ok}
use proxy_cache_server.Message.Body.{
  u32, content_length, transfer_encoding, read_length, drop_length, read_body,
}
use proxy_cache_server.Message.Body.Overflow.{substr_middle}
use proxy_cache_server.HttpRequest.Written.Fields.{IsPlain}

IsPlain-lookup : (h : Headers) → All IsPlain h → lookup transfer_encoding h ≡ none
unfolding lookup
IsPlain-lookup [] plains = refl
IsPlain-lookup ((k, v) ∷ h) (plain, plains) = ground (arith, IsPlain-lookup h plains)

-- The body that the fields frame: none without a Content-Length, or as many bytes as that says.
abbrev pub Frames : Headers → Bytes → Type 0
Frames h body =
    ((lookup content_length h ≡ none) × (body ≡ []))
    ⊎ ((is_some (lookup content_length h) ≡ true)
        × (stoul 10 (get_header content_length h) ≡ some (length body)))

read_length-written :
    (h : Headers) (head body rest : Bytes)
    → stoul 10 (get_header content_length h) ≡ some (length body)
    → length head + length body < u32
    → read_length
        (head ++ (body ++ rest))
        (record { headers = h; body = []; chars_read = length head })
      ≡ ok (record { headers = h; body = body; chars_read = length head + length body })
unfolding read_length
read_length-written h head body rest said small =
    let len : length body % u32 ≡ length body = ground arith in
    let after : (length head + length body) % u32 ≡ length head + length body = ground arith in
    let enough : ltb (length (head ++ (body ++ rest))) (length head + length body) ≡ false =
      ground (arith, length-append head (body ++ rest), length-append body rest) in
    let taken = substr_middle head body rest (length head) (length body) refl refl in
    rw (said, read_length, len, after, enough, taken)
      (ap (λ n. ok (record { headers = h; body = body; chars_read = n })) (rw len after))

pub read_body-written :
    (valid : Bytes → Bool) (fuel : ℕ) (h : Headers) (head body rest : Bytes)
    → All IsPlain h
    → Frames h body
    → length head + length body < u32
    → read_body valid fuel
        (head ++ (body ++ rest))
        false
        (record { headers = h; body = []; chars_read = length head })
      ≡ ok (record { headers = h; body = body; chars_read = length head + length body })
unfolding read_body drop_length
read_body-written valid fuel h head body rest plains framed small =
    let unchunked = IsPlain-lookup h plains in
    elim framed [
      | inl (unsized, empty) ↦
          rw (unsized, unchunked, drop_length)
            (rw (unsized, empty)
              (ap (λ n. ok (record { headers = h; body = []; chars_read = n })) (omega arith)))
      | inr (sized, said) ↦
          rw (unchunked, sized) (rw sized (read_length-written h head body rest said small))
    ]
