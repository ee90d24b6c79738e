-- ===== src/Tests/RoundTrips.antt =====
-- Runs and witnesses of the parser on what the program writes, and of the stand-ins for its parts.
use proxy_cache_server.Prelude.{
  none, ◌≡◌, refl, inl, inr, true, false, is_some, [], ◌∷◌, ◌++◌, arith,
}
use proxy_cache_server.Prelude.Int.{pos, ◌+ℤ◌}
use proxy_cache_server.Text.{Bytes, codes}
use proxy_cache_server.Text.Search.{contains_byte-Lacks}
use proxy_cache_server.HttpRequest.{HttpRequest, fresh, serialize, parse_request}
use proxy_cache_server.HttpRequest.RoundTrip.{IsWritable, parse_request-serialize}
use proxy_cache_server.Message.{complete}
use proxy_cache_server.HttpResponse
use proxy_cache_server.HttpResponse.{HttpResponse}
use proxy_cache_server.HttpResponse.RoundTrip.{parse_response-serialize}
use proxy_cache_server.Libc.{Libc}
use proxy_cache_server.FakeCache.{is_in_cache, get_cached_response}
use proxy_cache_server.FakeCache.Laws.{
  Stores, store_all, last_stored, get_cached_response-store_all,
}
use proxy_cache_server.LineTest.{judge_line, request_line_parsing_test}
use proxy_cache_server.LineTest.Laws.{judge_line-request_line}
use proxy_cache_server.HttpRequest.{request_line}
use proxy_cache_server.Tests.Program.{program}

form : HttpRequest
form = record {
  method = codes "POST";
  url = codes "http://a/b";
  host = codes "a";
  http_version = codes "HTTP/1.1";
  headers = (codes "Host", codes "a") ∷ (codes "Content-Length", codes "2") ∷ (codes "X", []) ∷ [];
  body = codes "hi";
  client_error_code = pos 7;
}

form-IsWritable : IsWritable (λ h. h) form
unfolding form program
form-IsWritable = record {
  known = refl;
  locates = record {
    given = refl;
    unspaced = contains_byte-Lacks b' ' form.url refl;
    one_line = contains_byte-Lacks b'\n' form.url refl;
  };
  version = refl;
  fields = (
    record {
      named = refl;
      valued = record {
        trimmed = inr (refl, (b'a', refl, refl));
        one_line = contains_byte-Lacks b'\n' (codes "a") refl;
      };
    },
    (
      record {
        named = refl;
        valued = record {
          trimmed = inr (refl, (b'2', refl, refl));
          one_line = contains_byte-Lacks b'\n' (codes "2") refl;
        };
      },
      (record { named = refl; valued = record { trimmed = inl refl; one_line = tt } }, tt),
    ),
  );
  plain = (refl, (refl, (refl, tt)));
  unique = (refl, (refl, (refl, tt)));
  hosted = refl;
  framed = inr (refl, refl);
  small = ground arith;
}

parse_request-serialize_example :
    parse_request 0 (fresh (pos 9)) (serialize (λ h. h) form ++ codes "GET")
    ≡ complete (record form { client_error_code = pos 9 }) (codes "GET")
unfolding form
parse_request-serialize_example =
    parse_request-serialize 0 (pos 9) (λ h. h) form (codes "GET") form-IsWritable

ok_response : Bytes → HttpResponse
ok_response text = record {
  status_line = codes "HTTP/1.1 200 OK";
  headers = [];
  body = text;
  expiry_time = pos 0;
  requires_validation = false;
  parse_error = false;
}

stores : Stores
stores =
    (codes "/a", ok_response (codes "new"))
    ∷ (codes "/b", ok_response [])
    ∷ (codes "/a", ok_response (codes "old"))
    ∷ []

get_cached_response-store_all_example :
    (get_cached_response (codes "/a") (store_all stores) ≡ last_stored (codes "/a") stores)
    × (is_in_cache (codes "/a") (store_all stores) ≡ is_some (last_stored (codes "/a") stores))
get_cached_response-store_all_example = get_cached_response-store_all (codes "/a") stores

request_line_parsing_test-returned : request_line_parsing_test.returned ≡ true
unfolding program
request_line_parsing_test-returned = refl

judge_line-request_line_example :
    (judge_line (codes "GET  / HTTP/1.1\r")).returned
    ≡ (request_line (fresh (pos 0)) (codes "GET  / HTTP/1.1\r")).1
judge_line-request_line_example = judge_line-request_line (pos 0) (codes "GET  / HTTP/1.1\r")

plain : Libc
plain = record {
  mktime_http = λ date. pos 100;
  timegm_asctime = λ date. none;
  strftime = λ time. [];
  order = λ h. h;
}

page : HttpResponse
page = record (ok_response (codes "hi")) {
  headers = (codes "Cache-Control", codes "max-age=60") ∷ (codes "Content-Length", codes "2") ∷ [];
}

page-IsWritable : HttpResponse.RoundTrip.IsWritable (λ h. h) page
unfolding page ok_response program
page-IsWritable = record {
  status = record {
    version = codes "HTTP/1.1";
    code = codes "200";
    message = codes "OK";
    spelled = refl;
    protocol = refl;
    version_word = (refl, (refl, (refl, (refl, (refl, (refl, (refl, (refl, tt))))))));
    code_given = refl;
    code_word = (refl, (refl, (refl, tt)));
    unblank = refl;
    one_line = contains_byte-Lacks b'\n' (codes "OK") refl;
  };
  some_field = λ e. cc;
  fields = (
    record {
      named = refl;
      valued = record {
        trimmed = inr (refl, (b'0', refl, refl));
        one_line = contains_byte-Lacks b'\n' (codes "max-age=60") refl;
      };
    },
    (
      record {
        named = refl;
        valued = record {
          trimmed = inr (refl, (b'2', refl, refl));
          one_line = contains_byte-Lacks b'\n' (codes "2") refl;
        };
      },
      tt,
    ),
  );
  plain = (refl, (refl, tt));
  unique = (refl, (refl, tt));
  framed = inr (refl, refl);
  small = ground arith;
}

parse_response-serialize_example :
    let s = HttpResponse.serialize (λ h. h) page in
    HttpResponse.parse_response plain 0 (pos 10) (ok_response []) (s ++ [])
    ≡ complete (HttpResponse.expires_expiry plain (record page { expiry_time = pos 70 })) (s ++ [])
unfolding page ok_response program ◌+ℤ◌
parse_response-serialize_example =
    parse_response-serialize plain 0 (pos 10) (λ h. h) (ok_response []) page
      (record page { expiry_time = pos 70 }) [] page-IsWritable refl

-- A response without fields is taken as malformed.
bare : HttpResponse
bare = record (ok_response []) { status_line = codes "HTTP/1.1 204 No Content" }

parse_response-bare :
    HttpResponse.parse_response plain 0 (pos 10) bare (codes "HTTP/1.1 204 No Content\r\n\r\n")
    ≡ complete (record bare { parse_error = true }) (codes "HTTP/1.1 204 No Content\r\n\r\n")
unfolding plain bare ok_response program
parse_response-bare = refl

-- What follows the header is not taken where there is no Content-Length.
unframed : HttpResponse
unframed = record (ok_response []) {
  headers =
      (codes "Cache-Control", codes "max-age=3600")
      ∷ (codes "Content-Type", codes "text/html")
      ∷ [];
}

unframed_text : Bytes
unframed_text =
    codes
      "HTTP/1.1 200 OK\r\nCache-Control: max-age=3600\r\nContent-Type: text/html\r\n\r\nHello, World!"

parse_response-unframed :
    HttpResponse.parse_response plain 0 (pos 10) bare unframed_text
    ≡ complete (record unframed { expiry_time = pos 3610 }) unframed_text
unfolding plain bare unframed unframed_text ok_response program ◌+ℤ◌
parse_response-unframed = refl
