-- ===== src/LineTest/Laws.antt =====
-- The program that tries the request line, against the parser.
use proxy_cache_server.Prelude.{◌≡◌, [], arith}
use proxy_cache_server.Prelude.Int.{ℤ}
use proxy_cache_server.Text.{Bytes, stream, getline}
use proxy_cache_server.HttpRequest.{HttpRequest, fresh, known_method, check_line, request_line}
use proxy_cache_server.LineTest.{judge_parts, judge, judge_line}

judge-check_line :
    (q : HttpRequest) → (judge q.method q.url q.http_version).returned ≡ (check_line q).1
unfolding judge check_line judge_parts known_method
judge-check_line q = ground arith

-- The program accepts the lines that the parser goes on with, and no others.
pub judge_line-request_line :
    (code : ℤ) (line : Bytes) → (judge_line line).returned ≡ (request_line (fresh code) line).1
unfolding judge_line request_line
judge_line-request_line code line =
    let (method, after_method, _) = getline b' ' [] (stream line) in
    let (url, after_url, _) = getline b' ' [] after_method in
    let (version, _, _) = getline b'\n' [] after_url in
    judge-check_line (record (fresh code) { method = method; url = url; http_version = version })
