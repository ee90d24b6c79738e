-- ===== src/Tests/Parsing.antt =====
-- Runs and witnesses of the parser of requests.
use proxy_cache_server.Prelude.{◌++◌, ◌≢◌, arith, ◌≡◌, ◌⊎◌, refl, none, some, List, [], ◌∷◌}
use proxy_cache_server.Prelude.Int.{pos}
use proxy_cache_server.Text.{Bytes, codes}
use proxy_cache_server.Headers.{trim_field_value, Headers, add_field, lookup}
use mathlib.Core.Option.{map}
use proxy_cache_server.Headers.Joined.{add_all, values, further, appended, joined, occurs, repeats}
use proxy_cache_server.Headers.Joined.Laws.{add_all-joined}
use proxy_cache_server.Headers.Trim.{trim_field_value-append}
use proxy_cache_server.HttpRequest.{HttpRequest, fresh, parse_request}
use proxy_cache_server.HttpRequest.Buffer.{parse_request-ne-exhausted}
use proxy_cache_server.HttpRequest.Verdict.{IsAccepted, IsRejected, parse_request-complete}
use proxy_cache_server.Message.{complete, exhausted}
use proxy_cache_server.Tests.Program.{program}

simple : Bytes
simple =
    codes "xxGET /index.html HTTP/1.1\r\nHost: example.com\r\nUser-Agent: Mozilla/5.0\r\n\r\nPOST"

parsed : HttpRequest
parsed = record {
  method = codes "GET";
  url = codes "/index.html";
  host = codes "example.com";
  http_version = codes "HTTP/1.1";
  headers = (codes "Host", codes "example.com") ∷ (codes "User-Agent", codes "Mozilla/5.0") ∷ [];
  body = [];
  client_error_code = pos 7;
}

parse_simple : parse_request 0 (fresh (pos 7)) simple ≡ complete parsed (codes "POST")
unfolding simple parsed program
parse_simple = refl

chunked : Bytes
chunked =
    codes
      "POST / HTTP/1.1\r\nHost: a\r\nTransfer-Encoding: chunked\r\n\r\n3;x=1\r\nabc\r\n2\r\nde\r\n0\r\nX: y\r\n\r\nrest"

parse_chunked :
    parse_request 5 (fresh (pos 0)) chunked
    ≡ complete
        (record {
          method = codes "POST";
          url = codes "/";
          host = codes "a";
          http_version = codes "HTTP/1.1";
          headers =
              (codes "Host", codes "a")
              ∷ (codes "X", codes "y")
              ∷ (codes "Content-Length", 5 ∷ [])
              ∷ [];
          body = codes "abcde";
          client_error_code = pos 0;
        })
        (codes "rest")
unfolding chunked program
parse_chunked = refl

parse_request-complete_example : IsRejected parsed ⊎ IsAccepted (pos 7) parsed
parse_request-complete_example = parse_request-complete 0 (pos 7) simple parse_simple

parse_request-ne-exhausted_example : parse_request 200 (fresh (pos 0)) chunked ≢ exhausted
unfolding chunked program
parse_request-ne-exhausted_example =
    parse_request-ne-exhausted 200 (fresh (pos 0)) chunked refl (omega arith)

accepting : Headers
accepting = (codes "Accept", codes "text/html") ∷ (codes "Host", codes "a") ∷ []

add_accept :
    add_field (codes "Accept") (codes "*/*") accepting
    ≡ some ((codes "Accept", codes "text/html, */*") ∷ (codes "Host", codes "a") ∷ [])
unfolding accepting program
add_accept = refl

-- A name that may be repeated, and one that may not.
repeated : List (Bytes × Bytes)
repeated =
    (codes "Host", codes "a")
    ∷ (codes "Accept", codes "x")
    ∷ (codes "Accept", [])
    ∷ (codes "Accept", codes "y")
    ∷ []

add_all-joined_example :
    map (lookup (codes "Accept")) (add_all repeated []) ≡ some (some (codes "x, y"))
unfolding repeated add_all values further appended joined occurs repeats program
add_all-joined_example = add_all-joined repeated (codes "Accept")

two_hosts-add_all : add_all ((codes "Host", codes "a") ∷ repeated) [] ≡ none
unfolding repeated add_all program
two_hosts-add_all = refl

trim_field_value-append_example :
    trim_field_value (codes " \t" ++ (codes "a b" ++ codes " ")) ≡ codes "a b"
unfolding program
trim_field_value-append_example =
    trim_field_value-append (codes " \t") (codes "a b") (codes " ") (refl, (refl, tt))
      (refl, (b'b', refl, refl)) (refl, tt)
