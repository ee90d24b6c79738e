-- ===== src/HttpRequest/Buffer.antt =====
-- The end of every call of `parse_request`.
use proxy_cache_server.Prelude.{
  ℕ, ◌+◌, ◌<◌, ◌≤◌, ◌≡◌, ◌≢◌, refl, true, false, [], none, some, inl, inr, arith, length, drop,
  length-drop, Bool-cases, Option-cases,
}
use proxy_cache_server.Text.{Bytes, codes, find}
use proxy_cache_server.Headers.{lookup, valid_field_name}
use proxy_cache_server.Message.{
  Parse, ok, malformed, out_of_fuel, exhausted, Scan, next_line, scan_fields, end_of_header,
  Progress,
}
use proxy_cache_server.Message.Position.{Lined}
use proxy_cache_server.Message.Lines.Starts.{header-Lined}
use proxy_cache_server.Message.Bind.{Yields, Ensures, >>=-Ensures}
use proxy_cache_server.Message.Fuel.{sizes_fit, read_body-Ensures}
use proxy_cache_server.Message.Lines.{
  InText, scan_fields-Ensures, end_of_header-Ensures, next_line_first,
}
use proxy_cache_server.HttpRequest.{
  HttpRequest, end_mark, method_start, settle, after_header, read_header, parse_from, parse_request,
  start, request_line,
}

-- The buffer from the first method name on.
abbrev pub request_text : Bytes → Bytes
request_text s = elim (method_start s) [ none ↦ [] | some i ↦ drop i s ]

settle-ne-exhausted :
    (r : HttpRequest) (s : Bytes) (m : Parse Progress)
    → Ensures (λ p. Unit {0}) m
    → settle r s m ≢ exhausted
unfolding settle
settle-ne-exhausted r s (ok p) h = λ e. cc
settle-ne-exhausted r s out_of_fuel h = absurd h
settle-ne-exhausted r s _ h = λ e. cc

after_header-ne-exhausted :
    (fuel : ℕ) (r : HttpRequest) (s : Bytes) (m : Parse Scan)
    → sizes_fit s ≡ true
    → length s + 3 < fuel
    → Ensures (λ sc. sc.progress.chars_read ≤ length s + 3) m
    → Yields (λ sc. Lined s sc.progress.chars_read) m
    → after_header fuel r s m ≢ exhausted
unfolding after_header
after_header-ne-exhausted fuel r s (ok sc) fit h within lined =
    elim (Option-cases (lookup (codes "Host") sc.progress.headers)) [
      | inl missing ↦
          rw (missing, after_header) (settle-ne-exhausted r s (malformed sc.progress) tt)
      | inr (host, found) ↦
          rw (found, after_header)
            (settle-ne-exhausted (record r { host = host }) s _
              (read_body-Ensures valid_field_name fuel s sc.has_chunked sc.progress fit lined within
                h))
    ]
after_header-ne-exhausted fuel r s out_of_fuel fit h within lined = absurd within
after_header-ne-exhausted fuel r s _ fit h within lined = unfold settle in λ e. cc

read_header-Ensures :
    (r : HttpRequest) (s : Bytes)
    → Ensures
        (λ sc. sc.progress.chars_read ≤ length s + 3)
        (read_header s (next_line (start r s)).0)
unfolding read_header
read_header-Ensures r s =
    let p : Progress = record { headers = r.headers; body = r.body; chars_read = 0 } in
    let first = next_line_first s [] false p refl in
    >>=-Ensures (InText s) _ (scan_fields valid_field_name (length s + 1) (find s end_mark 0) _)
      end_of_header
      (scan_fields-Ensures valid_field_name (length s + 1) _ s _ first.0 (omega arith))
      (end_of_header-Ensures s)

pub read_header-Lined :
    (r : HttpRequest) (s : Bytes)
    → Yields (λ sc. Lined s sc.progress.chars_read) (read_header s (next_line (start r s)).0)
unfolding read_header
read_header-Lined r s =
    let p : Progress = record { headers = r.headers; body = r.body; chars_read = 0 } in
    header-Lined valid_field_name (length s + 1) (find s end_mark 0) s [] false p refl

parse_from-ne-exhausted :
    (fuel : ℕ) (r : HttpRequest) (s : Bytes)
    → sizes_fit s ≡ true
    → length s + 3 < fuel
    → parse_from fuel r s ≢ exhausted
unfolding parse_from
parse_from-ne-exhausted fuel r s fit h =
    let first = (next_line (start r s)).0 in
    let named = (request_line r first.line).0 in
    elim (Bool-cases (request_line r first.line).1) [
      | inl good ↦
          rw (good, parse_from)
            (after_header-ne-exhausted fuel named s (read_header s first) fit h
              (read_header-Ensures r s) (read_header-Lined r s))
      | inr refused ↦ rw (refused, parse_from) (λ e. cc)
    ]

-- With more fuel than the buffer has bytes, and three, a call ends, on every text in which no line
-- begins with a hexadecimal number that makes a 32-bit sum of the loop over the chunks wrap round.
pub parse_request-ne-exhausted :
    (fuel : ℕ) (r : HttpRequest) (s : Bytes)
    → sizes_fit (request_text s) ≡ true
    → length s + 3 < fuel
    → parse_request fuel r s ≢ exhausted
unfolding parse_request
parse_request-ne-exhausted fuel r s fit h = elim (Option-cases (find s end_mark 0)) [
  | inl unfinished ↦ rw (unfinished, parse_request) (λ e. cc)
  | inr (at, ended) ↦ elim (Option-cases (method_start s)) [
    | inl unknown ↦ rw (ended, unknown, parse_request) (λ e. cc)
    | inr (i, known) ↦
        rw (ended, known, parse_request)
          (parse_from-ne-exhausted fuel r (drop i s) (rw (known, request_text) at fit)
            (omega (arith, length-drop i s)))
  ]
]
