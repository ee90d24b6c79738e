-- ===== src/HttpResponse.antt =====
-- docker-deploy/src/HttpResponse.h and HttpResponse.cpp: the response object, its parser, the test
-- whether it may be cached, and its serializer. The loops of the parser are those of Message and
-- Message/Body, with no check of the field names.
pub mod Caching
pub mod Ends
pub mod RoundTrip
pub mod Status
use proxy_cache_server.Prelude.{
  ℕ, ◌+◌, Bool, true, false, not, ◌||◌, [], ◌∷◌, ◌++◌, Option, none, some, ◌==◌, if◌then◌else◌,
  length, drop,
}
use proxy_cache_server.Prelude.Int.{ℤ, pos, ◌+ℤ◌}
use proxy_cache_server.Text.{
  Bytes, codes, crlf, is_empty, find, includes, first_not_of, last_byte, drop_last, stream, getline,
}
use proxy_cache_server.Text.Number.{is_space, skip_space, stoi}
use proxy_cache_server.Headers.{Headers, lookup}
use proxy_cache_server.Libc.{Libc}
use proxy_cache_server.Message.{
  Progress, Parse, ok, short, malformed, thrown, undefined, out_of_fuel, ◌>>=◌, Scan, next_line,
  scan_fields, end_of_header, Outcome, complete, incomplete, raised, faulted, exhausted,
}
use proxy_cache_server.Message.Body.{read_body}
use proxy_cache_server.HttpRequest.{end_mark, field_lines}

pub record HttpResponse : Type 0 where
  pub status_line : Bytes
  pub headers : Headers
  pub body : Bytes
  pub expiry_time : ℤ
  pub requires_validation : Bool
  pub parse_error : Bool

-- The default constructor.
abbrev pub bad_gateway : HttpResponse
bad_gateway = record {
  status_line = codes "HTTP/1.1 502 Bad Gateway";
  headers = (codes "Content-Type", codes "text/html") ∷ [];
  body = codes "<html><body><h1>502 Bad Gateway</h1></body></html>";
  expiry_time = pos 0;
  requires_validation = false;
  parse_error = false;
}

-- `HttpResponse(status)`, which leaves two members with the values that they happen to have.
abbrev pub with_status : Bytes → Bool → Bool → HttpResponse
with_status status validation error = record {
  status_line = status;
  headers = [];
  body = [];
  expiry_time = pos 86400;
  requires_validation = validation;
  parse_error = error;
}

-- What the parser clears at the start of a call.
abbrev pub cleared : HttpResponse → HttpResponse
cleared r = record r { status_line = []; headers = []; body = [] }

abbrev pub any_name : Bytes → Bool
any_name field = true

-- The bytes up to the first white space, and the rest from there on.
unfoldable pub split_word : Bytes → Bytes × Bytes
split_word [] = ([], [])
split_word (c ∷ s) =
    let (word, rest) = split_word s in if is_space c then ([], c ∷ s) else (c ∷ word, rest)

-- `in >> word`
unfoldable pub read_word : Bytes → Bytes × Bytes
read_word s = split_word (skip_space s)

-- `status_message.erase(0, status_message.find_first_not_of(" "))`
unfoldable pub skip_blanks : Bytes → Bytes
skip_blanks s = elim (first_not_of (codes " ") 0 s) [ none ↦ [] | some i ↦ drop i s ]

unfoldable pub trim_cr : Bytes → Bytes
trim_cr s = elim (last_byte s) [ none ↦ s | some c ↦ if c == b'\r' then drop_last s else s ]

-- The status line of the object, from the first line of the text.
unfoldable pub read_status_line : Bytes → Bytes
read_status_line line =
    let (http_version, after_version) = read_word line in
    let (status_code, after_code) = read_word after_version in
    let (message, _, _) =
      getline b'\n' [] (record { unread = after_code; eof = is_empty after_code }) in
    trim_cr (http_version ++ (b' ' ∷ (status_code ++ (b' ' ∷ skip_blanks message))))

-- The number behind "max-age=": no such text, or what `std::stoi` makes of what follows it.
unfoldable pub max_age : Bytes → Option (Option ℤ)
max_age cache_control = elim (find cache_control (codes "max-age=") 0) [
  | none ↦ none
  | some i ↦ some (stoi (drop (i + 8) cache_control))
]

-- The Cache-Control field sets the expiry time; `none` is an exception.
unfoldable pub control_expiry : ℤ → HttpResponse → Option HttpResponse
control_expiry now r = elim (lookup (codes "Cache-Control") r.headers) [
  | none ↦ some r
  | some cache_control ↦
      if includes cache_control (codes "no-store") then some r else elim (max_age cache_control) [
        | none ↦ some r
        | some none ↦ none
        | some (some n) ↦ some (record r { expiry_time = now +ℤ n })
      ]
]

unfoldable pub expires_expiry : Libc → HttpResponse → HttpResponse
expires_expiry libc r = elim (lookup (codes "Expires") r.headers) [
  | none ↦ r
  | some date ↦ record r { expiry_time = libc.mktime_http date }
]

abbrev pub stored : HttpResponse → Progress → HttpResponse
stored r p = record r { headers = p.headers; body = p.body }

-- The end of the call: the buffer keeps the whole response.
unfoldable pub settle : Libc → ℤ → HttpResponse → Bytes → Parse Progress → Outcome HttpResponse
settle libc now r s (ok p) = elim (control_expiry now (stored r p)) [
  | none ↦ raised (stored r p) s
  | some timed ↦ complete (expires_expiry libc timed) s
]
settle libc now r s (short p) = incomplete (stored r p) s
settle libc now r s (malformed p) = complete (record (stored r p) { parse_error = true }) s
settle libc now r s (thrown p) = raised (stored r p) s
settle libc now r s undefined = faulted
settle libc now r s out_of_fuel = exhausted

-- The loop over the header lines.
abbrev pub header_fields : Bytes → Scan → Parse Scan
header_fields s first = scan_fields any_name (length s + 1) (find s end_mark 0) first

-- The body behind the header, by Content-Length or in chunks with a trailer.
abbrev pub body_behind : ℕ → Bytes → Scan → Parse Progress
body_behind fuel s ended = read_body any_name fuel s ended.has_chunked ended.progress

-- The header fields and the body.
unfoldable pub read_message : ℕ → Bytes → Scan → Parse Progress
read_message fuel s first = do
  sc ← header_fields s first
  ended ← end_of_header sc
  body_behind fuel s ended

-- The call from the place where what stands before "HTTP" has been erased.
unfoldable pub parse_from : Libc → ℕ → ℤ → HttpResponse → Bytes → Outcome HttpResponse
parse_from libc fuel now r s =
    let (first, got) = next_line (record {
      progress = record { headers = []; body = []; chars_read = 0 };
      has_chunked = false;
      line = [];
      rest = stream s;
    }) in
    if not got || is_empty first.line
    then incomplete r s
    else settle libc now (record r { status_line = read_status_line first.line }) s
        (read_message fuel s first)

unfoldable pub parse_response : Libc → ℕ → ℤ → HttpResponse → Bytes → Outcome HttpResponse
parse_response libc fuel now r s = elim (find s end_mark 0) [
  | none ↦ incomplete (cleared r) s
  | some _ ↦ elim (find s (codes "HTTP") 0) [
    | none ↦ complete (record (cleared r) { parse_error = true }) s
    | some i ↦ parse_from libc fuel now (cleared r) (drop i s)
  ]
]

-- What Cache-Control says: whether the response may be cached, and the mutable member.
unfoldable pub control_allows : Bytes → HttpResponse → Bool × HttpResponse
control_allows cache_control r =
    if includes cache_control (codes "no-store")
    then (false, r)
    else if includes cache_control (codes "private")
    then (false, r)
    else if includes cache_control (codes "must-revalidate")
    then (true, record r { requires_validation = true })
    else (true, r)

-- `is_cacheable`, with the object that it leaves.
unfoldable pub is_cacheable : HttpResponse → Bool × HttpResponse
is_cacheable r =
    let (allowed, marked) =
      let controlled : Bool × HttpResponse = elim (lookup (codes "Cache-Control") r.headers) [
        | none ↦ (true, r)
        | some cache_control ↦ control_allows cache_control r
      ] in
      controlled in
    if not (includes r.status_line (codes "200 OK"))
    then (false, r)
    else if not allowed
    then (false, marked)
    else (not (includes r.status_line (codes "206 Partial Content")), marked)

-- `serialize`
unfoldable pub serialize : (Headers → Headers) → HttpResponse → Bytes
serialize order r = r.status_line ++ (crlf ++ field_lines (order r.headers) (crlf ++ r.body))
