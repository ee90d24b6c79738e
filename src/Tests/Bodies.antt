-- ===== src/Tests/Bodies.antt =====
-- Witnesses of the body's parser.
use proxy_cache_server.Prelude.{◌≢◌, some, ◌+◌, ◌≡◌, refl, List, [], ◌∷◌, ◌++◌, arith, length, All}
use proxy_cache_server.Text.{codes, crlf}
use proxy_cache_server.Headers.{get_header}
use proxy_cache_server.Text.Number.{stoul}
use proxy_cache_server.Message.Body.Length.{decoded_headers-stoul}
use proxy_cache_server.Text.Search.{contains_byte-Lacks}
use proxy_cache_server.Message.{Progress, ok, out_of_fuel}
use proxy_cache_server.Message.Body.{decoded_headers, content_length, read_length, read_chunks}
use proxy_cache_server.Message.Body.Chunks.{Chunk, IsChunk, encode, contents, read_chunks-encode}
use proxy_cache_server.Message.Body.Overflow.{read_chunks-diverges, read_length-wraps}
use proxy_cache_server.Tests.Program.{program}

at_two : Progress
at_two = record { headers = []; body = []; chars_read = 2 }

chunks : List Chunk
chunks =
    record { size_line = codes "3;x=1"; content = codes "abc" }
    ∷ record { size_line = codes "1"; content = codes "d" }
    ∷ []

chunks_good : All IsChunk chunks
unfolding chunks program
chunks_good = (
  record {
    no_cr = contains_byte-Lacks b'\r' (codes "3;x=1") refl;
    size = refl;
    positive = omega arith;
  },
  (
    record {
      no_cr = contains_byte-Lacks b'\r' (codes "1") refl;
      size = refl;
      positive = omega arith;
    },
    tt,
  ),
)

read_chunks-encode_example :
    read_chunks 3 (crlf ++ encode chunks (codes "0") (codes "rest")) 0 at_two
    ≡ ok (
      0 + length (contents chunks),
      record at_two {
        body = [] ++ contents chunks;
        chars_read = 2 + length (encode chunks (codes "0") []);
      },
    )
unfolding at_two chunks program
read_chunks-encode_example =
    read_chunks-encode chunks 3 crlf (codes "0") (codes "rest") 0 at_two chunks_good
      (contains_byte-Lacks b'\r' (codes "0") refl) refl (omega arith) refl (omega arith)
      (omega arith)

read_chunks-diverges_example :
    read_chunks 1000
      ((codes "\r\n" ++ crlf) ++ (codes "fffffff4" ++ (crlf ++ [])))
      0
      (record at_two { chars_read = 4 })
    ≡ out_of_fuel
unfolding at_two program
read_chunks-diverges_example =
    read_chunks-diverges (codes "\r\n") (codes "fffffff4") [] 4294967284
      (contains_byte-Lacks b'\r' (codes "fffffff4") refl) refl refl (omega arith) 1000 0
      (record at_two { chars_read = 4 }) refl

claimed : Progress
claimed = record {
  headers = (codes "Content-Length", codes "4294967295") ∷ [];
  body = [];
  chars_read = 3;
}

read_length-wraps_example :
    read_length (codes "GETxyz") claimed
    ≡ ok (record claimed { body = codes "xyz"; chars_read = 2 })
unfolding claimed program
read_length-wraps_example =
    read_length-wraps (codes "GETxyz") claimed 4294967295 1 refl refl (omega arith) (omega arith)
      (omega arith) (omega arith)

decoded_headers-stoul_example : stoul 10 (get_header content_length (decoded_headers 5 [])) ≢ some 5
decoded_headers-stoul_example = decoded_headers-stoul 5 []
