-- ===== src/Message/Body.antt =====
-- The body of a message, by Content-Length or in chunks, and the trailer:
-- docker-deploy/src/HttpRequest.cpp from "parse body if there is one", and the same lines of
-- HttpResponse.cpp. `int + uint32_t` is a `uint32_t`, so those sums are reduced modulo 2^32.
pub mod Length
pub mod Overflow
pub mod Chunks
use proxy_cache_server.Prelude.{
  ℕ, zero, suc, ◌+◌, ◌-◌, ◌%◌, ◌^◌, Bool, not, ◌&&◌, ◌||◌, [], ◌∷◌, ◌++◌, Option, none, some, ltb,
  ◌==◌, if◌then◌else◌, length, take, drop,
}
use proxy_cache_server.Text.{Bytes, codes, crlf, bytes_eq, is_empty, find, substr}
use proxy_cache_server.Text.Number.{stoul}
use proxy_cache_server.Headers.{
  Headers, lookup, has_header, get_header, insert, erase, add_field, member, trim_field_value,
}
use proxy_cache_server.Message.{Progress, Parse, ok, short, malformed, thrown, out_of_fuel, ◌>>=◌}

abbrev pub u32 : ℕ
u32 = 2 ^ 32

abbrev pub content_length : Bytes
content_length = codes "Content-Length"

abbrev pub transfer_encoding : Bytes
transfer_encoding = codes "Transfer-Encoding"

-- A value, or the exception that its computation raises.
abbrev pub or_throw {ℓ} : {A : Type ℓ} → Option A → Progress → Parse A
or_throw none p = thrown p
or_throw (some a) p = ok a

-- The body of a given length. An exception inside is caught, and the message malformed.
unfoldable pub read_length : Bytes → Progress → Parse Progress
read_length s p = elim (stoul 10 (get_header content_length p.headers)) [
  | none ↦ malformed p
  | some n ↦
      let len = n % u32 in
      let after = (p.chars_read + len) % u32 in
      if ltb (length s) after then short p else elim (substr s p.chars_read len) [
        | none ↦ malformed p
        | some body ↦ ok (record p { body = body; chars_read = after })
      ]
]

-- A line up to "\r\n", read from the current position; without one there is not enough data.
unfoldable pub crlf_line : Bytes → Progress → Parse (Bytes × Progress)
crlf_line s p = elim (find s crlf p.chars_read) [
  | none ↦ short p
  | some line_end ↦
      ok (
        take (line_end - p.chars_read) (drop p.chars_read s),
        record p { chars_read = line_end + 2 },
      )
]

-- The part of a chunk's first line before the extensions.
unfoldable pub chunk_size_str : Bytes → Bytes
chunk_size_str line = elim (find line (codes ";") 0) [ none ↦ line | some i ↦ take i line ]

-- The data of a chunk and its "\r\n".
unfoldable pub take_chunk : Bytes → ℕ → Progress → Parse Progress
take_chunk s chunk_size p =
    let chunk_end = (p.chars_read + chunk_size) % u32 in
    let after = (p.chars_read + chunk_size + 2) % u32 in
    let read = do
      mark ← or_throw (substr s chunk_end 2) p
      chunk ← or_throw (substr s p.chars_read chunk_size) p
      let next = record p { body = p.body ++ chunk; chars_read = after }
      if bytes_eq mark crlf then ok next else malformed p
    in if ltb (length s) after then short p else read

-- The loop over the chunks: the value of `len`, and the position behind the last chunk's line.
unfoldable pub read_chunks : ℕ → Bytes → ℕ → Progress → Parse (ℕ × Progress)
read_chunks zero s len p = out_of_fuel
read_chunks (suc fuel) s len p = do
  (line, at_data) ← crlf_line s p
  size ← or_throw (stoul 16 (chunk_size_str line)) at_data
  let chunk_size = size % u32
  let chunks = do
    next ← take_chunk s chunk_size at_data
    read_chunks fuel s ((len + chunk_size) % u32) next
  if chunk_size == 0 then ok (len, at_data) else chunks

abbrev pub forbidden_in_trailer : Bytes → Bool
forbidden_in_trailer key = member key (
    transfer_encoding
    ∷ content_length
    ∷ codes "Host"
    ∷ codes "Content-Encoding"
    ∷ codes "Content-Type"
    ∷ codes "Content-Range"
    ∷ codes "Trailer"
    ∷ [])

-- One field of the trailer enters the map.
unfoldable pub trailer_field : (Bytes → Bool) → Bytes → Progress → Parse Progress
trailer_field valid line p = elim (find line (codes ":") 0) [
  | none ↦ malformed p
  | some i ↦
      let key = take i line in
      let value = trim_field_value (drop (i + 1) line) in
      if not (valid key) || forbidden_in_trailer key
      then malformed p
      else elim (add_field key value p.headers) [
        | none ↦ malformed p
        | some h ↦ ok (record p { headers = h })
      ]
]

unfoldable pub read_trailer : (Bytes → Bool) → ℕ → Bytes → Progress → Parse Progress
read_trailer valid zero s p = out_of_fuel
read_trailer valid (suc fuel) s p = do
  (line, next) ← crlf_line s p
  let fields = do stored ← trailer_field valid line next; read_trailer valid fuel s stored
  if is_empty line then ok next else fields

-- The headers of a decoded message. `headers["Content-Length"] = len` assigns a number to a
-- string, which makes it the one byte that the number converts to.
unfoldable pub decoded_headers : ℕ → Headers → Headers
decoded_headers len h =
    erase (codes "Trailer") (erase transfer_encoding (insert content_length ((len % 256) ∷ []) h))

-- The chunked body and its trailer. The fuel is for the chunks; a trailer has fewer lines than the
-- text has bytes.
unfoldable pub read_chunked : (Bytes → Bool) → ℕ → Bytes → Progress → Parse Progress
read_chunked valid fuel s p = do
  (len, behind) ← read_chunks fuel s 0 p
  q ← read_trailer valid (length s + 1) s behind
  ok (record q { headers = decoded_headers len q.headers })

-- Transfer-Encoding overrides Content-Length.
unfoldable pub drop_length : Headers → Headers
drop_length h =
    if has_header content_length h && has_header transfer_encoding h
    then erase content_length h
    else h

-- The body by the field that frames it; without one there is none.
unfoldable pub read_body : (Bytes → Bool) → ℕ → Bytes → Bool → Progress → Parse Progress
read_body valid fuel s has_chunked p =
    let q = record p { headers = drop_length p.headers } in
    let chunked = read_chunked valid fuel s q in
    if has_header content_length q.headers
    then read_length s q
    else if has_header transfer_encoding q.headers
    then if has_chunked then chunked else malformed q
    else ok q
