-- ===== src/Message/Body/Overflow.antt =====
-- What the 32-bit sums of the body do where they wrap round.
use proxy_cache_server.Prelude.{
  ℕ, zero, suc, ◌+◌, ◌-◌, ◌%◌, ◌≤◌, ◌<◌, ◌≡◌, refl, ap, [], ◌∷◌, ◌++◌, some, arith, length, take,
  drop, le→leb, drop-append, take-append, length-append, append_assoc, length-drop, take_long,
}
use proxy_cache_server.Text.{Bytes, crlf, substr}
use proxy_cache_server.Text.Number.{stoul}
use proxy_cache_server.Text.Search.{Lacks, find-append}
use proxy_cache_server.Text.Equality.{bytes_eq_refl, starts_with-append}
use proxy_cache_server.Headers.{get_header}
use proxy_cache_server.Message.{Progress, ok, out_of_fuel}
use proxy_cache_server.Message.Body.{
  u32, content_length, read_length, crlf_line, chunk_size_str, take_chunk, read_chunks,
}

-- A piece that stands at a position is cut out by its length.
pub take-drop_middle :
    (start piece after : Bytes) (i n : ℕ)
    → i ≡ length start
    → n ≡ length piece
    → take n (drop i (start ++ (piece ++ after))) ≡ piece
take-drop_middle start piece after i n e f =
    rw (e, f, drop-append start (piece ++ after)) (take-append piece after)

-- A line that stands at the current position is read, and the position moves behind it.
pub crlf_line_lem :
    (start line after : Bytes) (p : Progress)
    → p.chars_read ≡ length start
    → Lacks b'\r' line
    → crlf_line (start ++ (line ++ (crlf ++ after))) p
      ≡ ok (line, record p { chars_read = length start + length line + 2 })
unfolding crlf_line
crlf_line_lem start line after p e h =
    rw
      (
        find-append start b'\r' (b'\n' ∷ []) line (crlf ++ after) p.chars_read e h
            (starts_with-append crlf after),
        crlf_line,
      )
      (rw (
        take-drop_middle start line (crlf ++ after) p.chars_read
          (length start + length line - p.chars_read) e (omega arith)))

-- `substr` within the text.
pub substr_middle :
    (start piece after : Bytes) (i n : ℕ)
    → i ≡ length start
    → n ≡ length piece
    → substr (start ++ (piece ++ after)) i n ≡ some piece
unfolding substr
substr_middle start piece after i n e f =
    rw
      (le→leb i (length (start ++ (piece ++ after)))
        (omega (arith, length-append start (piece ++ after))))
      (ap some (take-drop_middle start piece after i n e f))

-- A chunk's data and mark at the current position are taken.
pub take_chunk_lem :
    (start chunk after : Bytes) (p : Progress) (size : ℕ)
    → p.chars_read ≡ length start
    → size ≡ length chunk
    → length start + length chunk + 2 < u32
    → take_chunk (start ++ (chunk ++ (crlf ++ after))) size p
      ≡ ok (record p { body = p.body ++ chunk; chars_read = length start + length chunk + 2 })
unfolding take_chunk
take_chunk_lem start chunk after p size e f small = ground (
  arith,
  substr_middle start chunk (crlf ++ after) p.chars_read size e f,
  mark_lem,
  length-append start (chunk ++ (crlf ++ after)),
  length-append chunk (crlf ++ after),
  bytes_eq_refl crlf,
)
  where
    mark_lem :
        substr (start ++ (chunk ++ (crlf ++ after))) ((p.chars_read + size) % u32) 2 ≡ some crlf
    mark_lem = rw (← append_assoc start chunk (crlf ++ after)) (
        substr_middle (start ++ chunk) crlf after _ 2 (omega (arith, length-append start chunk))
          refl)

-- The text of a message whose chunk line sends the parser back: behind a line end at `start`, a
-- line whose size is 2^32 less the length of the line and of its two line ends.
module _ (before line after : Bytes) (n : ℕ) (no_cr : Lacks b'\r' line)
    (reads : stoul 16 (chunk_size_str line) ≡ some n) (wraps : n % u32 + length line + 4 ≡ u32)
    (short_text : length before + length line + 4 < u32) where
  take_chunk_back :
      (p : Progress)
      → p.chars_read ≡ length before + 2 + length line + 2
      → (b : Bytes) × (take_chunk ((before ++ crlf) ++ (line ++ (crlf ++ after))) (n % u32) p
          ≡ ok (record p { body = b; chars_read = length before + 2 }))
  unfolding take_chunk
  take_chunk_back p e = (
    p.body ++ take (n % u32) (drop p.chars_read text),
    ground (arith, mark_lem, data_lem, length_lem, bytes_eq_refl crlf),
  )
    where
      text : Bytes
      text = (before ++ crlf) ++ (line ++ (crlf ++ after))

      length_lem : length text ≡ length before + 4 + length line + length after
      length_lem = omega (
        arith,
        length-append (before ++ crlf) (line ++ (crlf ++ after)),
        length-append before crlf,
        length-append line (crlf ++ after),
      )

      mark_lem : substr text ((p.chars_read + n % u32) % u32) 2 ≡ some crlf
      mark_lem =
          rw (append_assoc before crlf (line ++ (crlf ++ after)))
            (substr_middle before crlf (line ++ (crlf ++ after)) _ 2 (omega arith) refl)

      data_lem : substr text p.chars_read (n % u32) ≡ some (take (n % u32) (drop p.chars_read text))
      data_lem = unfold substr in rw (le→leb p.chars_read (length text) (omega (arith, length_lem)))

  -- No fuel is enough for the loop at a line, without a carriage return and in a text of less than
  -- 2 ^ 32 bytes up to its end, whose size is 2 ^ 32 less the length of the line and of its two line
  -- ends: every round reads the same line again and appends to the body.
  pub read_chunks-diverges :
      (fuel len : ℕ) (p : Progress)
      → p.chars_read ≡ length before + 2
      → read_chunks fuel ((before ++ crlf) ++ (line ++ (crlf ++ after))) len p ≡ out_of_fuel
  unfolding read_chunks
  read_chunks-diverges zero len p e = refl
  read_chunks-diverges (suc fuel) len p e =
      let here = length-append before crlf in
      let at_data = record p { chars_read = length (before ++ crlf) + length line + 2 } in
      let (b, back) = take_chunk_back at_data (omega (arith, here)) in
      let again = record p { body = b; chars_read = length before + 2 } in
      ground (
        arith,
        crlf_line_lem (before ++ crlf) line after p (omega (arith, here)) no_cr,
        back,
        read_chunks-diverges fuel ((len + n % u32) % u32) again refl,
      )

-- A Content-Length that is 2^32 less `k` modulo 2^32, for a positive `k` no greater than the position,
-- in a buffer of less than 2^32 bytes that reaches to the position: the sum wraps round, the test for
-- missing data passes, the body is all that the buffer holds behind the position, and the position
-- moves back by `k`.
pub read_length-wraps :
    (s : Bytes) (p : Progress) (n k : ℕ)
    → stoul 10 (get_header content_length p.headers) ≡ some n
    → n % u32 + k ≡ u32
    → 0 < k
    → k ≤ p.chars_read
    → p.chars_read ≤ length s
    → length s < u32
    → read_length s p ≡ ok (record p { body = drop p.chars_read s; chars_read = p.chars_read - k })
unfolding read_length substr
read_length-wraps s p n k reads wraps positive back within small =
    ground (arith, length-drop p.chars_read s, take_long (n % u32) (drop p.chars_read s))
