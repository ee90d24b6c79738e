-- ===== src/Message/Body/Chunks.antt =====
-- The chunked coding: an encoder, and what the decoder makes of its text.
use proxy_cache_server.Prelude.{
  ℕ, zero, suc, ◌+◌, ◌%◌, ◌<◌, ◌≡◌, refl, ap, ◌∙◌, List, [], ◌∷◌, ◌++◌, some, arith, length, All,
  length-append, append_assoc, append-nil,
}
use proxy_cache_server.Text.{Bytes, crlf}
use proxy_cache_server.Text.Number.{stoul}
use proxy_cache_server.Text.Search.{Lacks}
use proxy_cache_server.Message.{Progress, ok}
use proxy_cache_server.Message.Body.{u32, chunk_size_str, take_chunk, read_chunks}
use proxy_cache_server.Message.Body.Overflow.{crlf_line_lem, take_chunk_lem}

-- A chunk as an encoder writes it: the line with the size and any extensions, and the data.
pub record Chunk : Type 0 where
  pub size_line : Bytes
  pub content : Bytes

pub record IsChunk (c : Chunk) : Type 0 where
  pub no_cr : Lacks b'\r' c.size_line
  pub size : stoul 16 (chunk_size_str c.size_line) ≡ some (length c.content)
  pub positive : 0 < length c.content

-- The chunks, the line of the last chunk, and what follows.
abbrev pub encode : List Chunk → Bytes → Bytes → Bytes
encode [] last rest = last ++ (crlf ++ rest)
encode (c ∷ cs) last rest = c.size_line ++ (crlf ++ (c.content ++ (crlf ++ encode cs last rest)))

abbrev pub contents : List Chunk → Bytes
contents [] = []
contents (c ∷ cs) = c.content ++ contents cs

pub length-encode :
    (cs : List Chunk) (last rest : Bytes)
    → length (encode cs last rest) ≡ length (encode cs last []) + length rest
length-encode [] last rest =
    omega (arith, length-append last (crlf ++ rest), length-append last crlf)
length-encode (c ∷ cs) last rest = omega (
  arith,
  length-append c.size_line (crlf ++ (c.content ++ (crlf ++ encode cs last rest))),
  length-append c.size_line (crlf ++ (c.content ++ (crlf ++ encode cs last []))),
  length-append c.content (crlf ++ encode cs last rest),
  length-append c.content (crlf ++ encode cs last []),
  length-encode cs last rest,
)

-- The same text, split behind the line of a chunk, and behind the chunk.
at_content :
    (start line after : Bytes)
    → start ++ (line ++ (crlf ++ after)) ≡ (start ++ (line ++ crlf)) ++ after
at_content start line after = simp append_assoc

behind_chunk :
    (start line chunk after : Bytes)
    → start ++ (line ++ (crlf ++ (chunk ++ (crlf ++ after))))
      ≡ (start ++ (line ++ (crlf ++ (chunk ++ crlf)))) ++ after
behind_chunk start line chunk after = simp append_assoc

-- The data of a chunk behind its line.
take_chunk_at :
    (start line chunk after : Bytes) (p : Progress)
    → p.chars_read ≡ length start + length line + 2
    → length start + length line + length chunk + 4 < u32
    → take_chunk (start ++ (line ++ (crlf ++ (chunk ++ (crlf ++ after))))) (length chunk) p
      ≡ ok (record p {
        body = p.body ++ chunk;
        chars_read = length start + length line + length chunk + 4;
      })
take_chunk_at start line chunk after p e small =
    let here = length-append start (line ++ crlf) in
    let there = length-append line crlf in
    rw (at_content start line (chunk ++ (crlf ++ after))) (
      take_chunk_lem (start ++ (line ++ crlf)) chunk after p (length chunk)
        (omega (arith, here, there)) refl (omega (arith, here, there))
      ∙ ap (λ (n : ℕ). ok (record p { body = p.body ++ chunk; chars_read = n }))
          (omega (arith, here, there)))

-- One chunk.
read_chunks_step :
    (fuel : ℕ) (start after : Bytes) (c : Chunk) (len : ℕ) (p : Progress)
    → IsChunk c
    → p.chars_read ≡ length start
    → length start + length c.size_line + length c.content + 4 < u32
    → len + length c.content < u32
    → read_chunks
        (suc fuel)
        (start ++ (c.size_line ++ (crlf ++ (c.content ++ (crlf ++ after)))))
        len
        p
      ≡ read_chunks fuel
          (start ++ (c.size_line ++ (crlf ++ (c.content ++ (crlf ++ after)))))
          (len + length c.content)
          (record p {
            body = p.body ++ c.content;
            chars_read = length start + length c.size_line + length c.content + 4;
          })
unfolding read_chunks
read_chunks_step fuel start after c len p good e small total =
    let at_data = record p { chars_read = length start + length c.size_line + 2 } in
    let size_lem : length c.content % u32 ≡ length c.content = omega arith in
    let len_lem : (len + length c.content) % u32 ≡ len + length c.content = omega arith in
    rw
      (
        crlf_line_lem start c.size_line (c.content ++ (crlf ++ after)) p e good.no_cr,
        good.size,
        size_lem,
        take_chunk_at start c.size_line c.content after at_data refl small,
        len_lem,
      )
      (ground arith)

-- The last chunk.
read_chunks_last :
    (fuel : ℕ) (start last rest : Bytes) (len : ℕ) (p : Progress)
    → Lacks b'\r' last
    → stoul 16 (chunk_size_str last) ≡ some 0
    → p.chars_read ≡ length start
    → read_chunks (suc fuel) (start ++ (last ++ (crlf ++ rest))) len p
      ≡ ok (len, record p { chars_read = length start + length last + 2 })
unfolding read_chunks
read_chunks_last fuel start last rest len p no_cr zero_size e =
    rw (crlf_line_lem start last rest p e no_cr, zero_size)

-- What the encoder writes is decoded, with more fuel than there are chunks and where no sum reaches
-- 2 ^ 32: the body is the concatenation of the data, `len` its length, and the position is behind the
-- last line, whatever stands before and after. Each chunk has data and a line without a carriage
-- return that reads as their length, and the last line reads as 0.
pub read_chunks-encode :
    (cs : List Chunk) (fuel : ℕ) (start last rest : Bytes) (len : ℕ) (p : Progress)
    → All IsChunk cs
    → Lacks b'\r' last
    → stoul 16 (chunk_size_str last) ≡ some 0
    → length cs < fuel
    → p.chars_read ≡ length start
    → length start + length (encode cs last []) < u32
    → len + length (contents cs) < u32
    → read_chunks fuel (start ++ encode cs last rest) len p
      ≡ ok (
        len + length (contents cs),
        record p {
          body = p.body ++ contents cs;
          chars_read = length start + length (encode cs last []);
        },
      )
read_chunks-encode cs zero start last rest len p good no_cr zero_size f e small total = elim f [ ]
read_chunks-encode [] (suc fuel) start last rest len p good no_cr zero_size f e small total =
    read_chunks_last fuel start last rest len p no_cr zero_size e
    ∙ ground (arith, length-append last crlf, append-nil p.body)
read_chunks-encode (c ∷ cs) (suc fuel) start last rest len p good no_cr zero_size f e small total =
    read_chunks_step fuel start (encode cs last rest) c len p good.0 e (omega (arith, sizes))
      (omega (arith, length-append c.content (contents cs)))
    ∙ rw (behind_chunk start c.size_line c.content (encode cs last rest)) (
        read_chunks-encode cs fuel behind last rest (len + length c.content)
          (record p {
            body = p.body ++ c.content;
            chars_read = length start + length c.size_line + length c.content + 4;
          })
          good.1 no_cr zero_size (omega arith) (omega (arith, behind_lem))
          (omega (arith, sizes, behind_lem)) (omega (arith, length-append c.content (contents cs)))
        ∙ ground (
          arith,
          sizes,
          behind_lem,
          length-append c.content (contents cs),
          append_assoc p.body c.content (contents cs),
        ))
  where
    behind : Bytes
    behind = start ++ (c.size_line ++ (crlf ++ (c.content ++ crlf)))

    behind_lem : length behind ≡ length start + length c.size_line + length c.content + 4
    behind_lem = omega (
      arith,
      length-append start (c.size_line ++ (crlf ++ (c.content ++ crlf))),
      length-append c.size_line (crlf ++ (c.content ++ crlf)),
      length-append c.content crlf,
    )

    sizes :
        length (encode (c ∷ cs) last [])
        ≡ length c.size_line + length c.content + 4 + length (encode cs last [])
    sizes = omega (
      arith,
      length-append c.size_line (crlf ++ (c.content ++ (crlf ++ encode cs last []))),
      length-append c.content (crlf ++ encode cs last []),
    )
