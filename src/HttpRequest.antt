-- ===== src/HttpRequest.antt =====
-- docker-deploy/src/HttpRequest.h and HttpRequest.cpp: the request object, its parser and its
-- serializer. The static helpers are in Headers, the loops of the parser in Message and
-- Message/Body. A parser call takes the object as it is before the call, because the source leaves
-- `client_error_code` uninitialized.
pub mod Buffer
pub mod RoundTrip
pub mod Taken
pub mod Verdict
pub mod Written
use proxy_cache_server.Prelude.{
  ℕ, ◌+◌, Bool, true, false, not, ◌&&◌, ◌||◌, [], ◌∷◌, ◌++◌, Option, none, some, min, ◌==◌,
  if◌then◌else◌, length, drop,
}
use proxy_cache_server.Prelude.Int.{ℤ, pos}
use proxy_cache_server.Text.{
  Bytes, codes, crlf, bytes_eq, is_empty, find, last_byte, drop_last, stream, getline,
}
use proxy_cache_server.Headers.{Headers, lookup, valid_field_name}
use proxy_cache_server.Message.{
  Progress, Parse, ok, short, malformed, thrown, undefined, out_of_fuel, ◌>>=◌, Scan, next_line,
  scan_fields, end_of_header, Outcome, complete, incomplete, raised, faulted, exhausted,
}
use proxy_cache_server.Message.Body.{read_body}

pub record HttpRequest : Type 0 where
  pub method : Bytes
  pub url : Bytes
  pub host : Bytes
  pub http_version : Bytes
  pub headers : Headers
  pub body : Bytes
  pub client_error_code : ℤ

-- `HttpRequest request;` with the value that its error code happens to have
abbrev pub fresh : ℤ → HttpRequest
fresh code = record {
  method = [];
  url = [];
  host = [];
  http_version = [];
  headers = [];
  body = [];
  client_error_code = code;
}

abbrev pub bad_request : HttpRequest → HttpRequest
bad_request r = record r { client_error_code = pos 400 }

abbrev pub end_mark : Bytes
end_mark = codes "\r\n\r\n"

-- `std::min` on two positions
unfoldable pub earliest : Option ℕ → Option ℕ → Option ℕ
earliest none b = b
earliest (some a) none = some a
earliest (some a) (some b) = some (min a b)

unfoldable pub method_start : Bytes → Option ℕ
method_start s =
    earliest (earliest (find s (codes "GET") 0) (find s (codes "POST") 0))
      (find s (codes "CONNECT") 0)

unfoldable pub known_method : Bytes → Bool
known_method m =
    bytes_eq m (codes "GET") || bytes_eq m (codes "POST") || bytes_eq m (codes "CONNECT")

-- The checks on the version and the method, and whether to go on.
unfoldable pub check_line : HttpRequest → HttpRequest × Bool
check_line r =
    if is_empty r.method || is_empty r.url || is_empty r.http_version
    then (r, false)
    else elim (last_byte r.http_version) [
      | none ↦ (r, false)
      | some c ↦
          let trimmed = record r { http_version = drop_last r.http_version } in
          if not (c == b'\r')
          then (r, false)
          else (trimmed, known_method r.method && bytes_eq trimmed.http_version (codes "HTTP/1.1"))
    ]

-- The request line, read into the three fields of the object.
unfoldable pub request_line : HttpRequest → Bytes → HttpRequest × Bool
request_line r line =
    let (m, after_method, _) = getline b' ' r.method (stream line) in
    let (u, after_url, _) = getline b' ' r.url after_method in
    let (v, _, _) = getline b'\n' r.http_version after_url in
    check_line (record r { method = m; url = u; http_version = v })

abbrev pub stored : HttpRequest → Progress → HttpRequest
stored r p = record r { headers = p.headers; body = p.body }

-- The end of the call, with what has been read.
unfoldable pub settle : HttpRequest → Bytes → Parse Progress → Outcome HttpRequest
settle r s (ok p) = complete (stored r p) (drop p.chars_read s)
settle r s (short p) = incomplete (stored r p) s
settle r s (malformed p) = complete (bad_request (stored r p)) s
settle r s (thrown p) = raised (stored r p) s
settle r s undefined = faulted
settle r s out_of_fuel = exhausted

-- What follows the header: the host, then the body.
unfoldable pub after_header : ℕ → HttpRequest → Bytes → Parse Scan → Outcome HttpRequest
after_header fuel r s (ok sc) = elim (lookup (codes "Host") sc.progress.headers) [
  | none ↦ settle r s (malformed sc.progress)
  | some host ↦
      settle (record r { host = host }) s
        (read_body valid_field_name fuel s sc.has_chunked sc.progress)
]
after_header fuel r s (short p) = settle r s (short p)
after_header fuel r s (malformed p) = settle r s (malformed p)
after_header fuel r s (thrown p) = settle r s (thrown p)
after_header fuel r s undefined = settle r s undefined
after_header fuel r s out_of_fuel = settle r s out_of_fuel

-- The variables of the parser at the start of the request line.
abbrev pub start : HttpRequest → Bytes → Scan
start r s = record {
  progress = record { headers = r.headers; body = r.body; chars_read = 0 };
  has_chunked = false;
  line = [];
  rest = stream s;
}

-- The header fields, by the loop on enough fuel, and the line that ends them.
unfoldable pub read_header : Bytes → Scan → Parse Scan
read_header s first =
    scan_fields valid_field_name (length s + 1) (find s end_mark 0) first >>= end_of_header

-- The call from the place where the junk before the method has been erased.
unfoldable pub parse_from : ℕ → HttpRequest → Bytes → Outcome HttpRequest
parse_from fuel r s =
    let (first, _) = next_line (start r s) in
    let (named, good) = request_line r first.line in
    if good then after_header fuel named s (read_header s first) else complete (bad_request named) s

unfoldable pub parse_request : ℕ → HttpRequest → Bytes → Outcome HttpRequest
parse_request fuel r s = elim (find s end_mark 0) [
  | none ↦ incomplete r s
  | some _ ↦ elim (method_start s) [
    | none ↦ complete (bad_request r) s
    | some i ↦ parse_from fuel r (drop i s)
  ]
]

-- The lines of the fields, in the order in which the map yields them.
unfoldable pub field_lines : Headers → Bytes → Bytes
field_lines [] rest = rest
field_lines ((k, v) ∷ h) rest = k ++ (codes ": " ++ (v ++ (crlf ++ field_lines h rest)))

-- `serialize`; `order` is the unspecified order of `std::unordered_map`.
unfoldable pub serialize : (Headers → Headers) → HttpRequest → Bytes
serialize order r =
    r.method
    ++ (b' '
        ∷ (r.url
            ++ (b' '
                ∷ (r.http_version ++ (crlf ++ field_lines (order r.headers) (crlf ++ r.body))))))
