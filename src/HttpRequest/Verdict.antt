-- ===== src/HttpRequest/Verdict.antt =====
-- What `parse_request` has checked when it accepts a request.
use proxy_cache_server.Prelude.{
  ℕ, ◌+◌, ◌≡◌, ◌≢◌, refl, ◌∙◌, ◌⊎◌, inl, inr, true, false, [], ◌∷◌, none, some, arith, length, drop,
  Bool-cases, Option-cases,
}
use proxy_cache_server.Prelude.Int.{ℤ, pos}
use proxy_cache_server.Text.{Bytes, codes, is_empty, find, drop_last}
use proxy_cache_server.Text.Equality.{bytes_eq_iff}
use proxy_cache_server.Headers.{Headers, lookup, valid_field_name}
use proxy_cache_server.Headers.Laws.{IsUnique}
use proxy_cache_server.Message.{
  Parse, ok, malformed, Outcome, complete, Scan, next_line, scan_fields, end_of_header, Progress,
}
use proxy_cache_server.Message.Bind.{Yields, >>=-Yields}
use proxy_cache_server.Message.Body.{transfer_encoding}
use proxy_cache_server.Message.Lines.Fields.{scan_fields-Yields, end_of_header-Yields}
use proxy_cache_server.Message.Framing.{IsDecoded, read_body-Yields}
use proxy_cache_server.HttpRequest.{
  HttpRequest, fresh, end_mark, method_start, known_method, check_line, request_line, settle,
  after_header, read_header, parse_from, parse_request, start,
}

-- A request that the handler may forward. `code` is what the object held before the call.
pub record IsAccepted (code : ℤ) (r : HttpRequest) : Type 0 where
  pub method_known : known_method r.method ≡ true
  pub url_present : r.url ≢ []
  pub version : r.http_version ≡ codes "HTTP/1.1"
  pub host_is : lookup (codes "Host") r.headers ≡ some r.host
  pub decoded : lookup transfer_encoding r.headers ≡ none
  pub unique : IsUnique r.headers
  pub code_kept : r.client_error_code ≡ code

abbrev pub IsRejected : HttpRequest → Type 0
IsRejected r = r.client_error_code ≡ pos 400

abbrev Verdict : ℤ → Outcome HttpRequest → Type 0
Verdict code (complete r b) = IsRejected r ⊎ IsAccepted code r
Verdict code _ = Unit

-- What the request line has settled.
record IsNamed (code : ℤ) (r : HttpRequest) : Type 0 where
  method_known : known_method r.method ≡ true
  url_present : r.url ≢ []
  version : r.http_version ≡ codes "HTTP/1.1"
  code_kept : r.client_error_code ≡ code

not_empty : (s : Bytes) → is_empty s ≡ false → s ≢ []
unfolding is_empty
not_empty [] e = cc
not_empty (c ∷ s) e = λ n. cc

check_line-IsNamed :
    (r : HttpRequest) → (check_line r).1 ≡ true → IsNamed r.client_error_code (check_line r).0
unfolding check_line
check_line-IsNamed r e =
    ground (arith, bytes_eq_iff (drop_last r.http_version) (codes "HTTP/1.1"), not_empty r.url)

request_line-IsNamed :
    (r : HttpRequest) (line : Bytes)
    → (request_line r line).1 ≡ true
    → IsNamed r.client_error_code (request_line r line).0
unfolding request_line
request_line-IsNamed r line e = check_line-IsNamed _ e

settle-Verdict :
    (code : ℤ) (r : HttpRequest) (s : Bytes) (h : Headers) (m : Parse Progress)
    → IsNamed code r
    → lookup (codes "Host") h ≡ some r.host
    → Yields (IsDecoded h) m
    → Verdict code (settle r s m)
unfolding settle
settle-Verdict code r s h (ok p) n host (u, same, none_left) = inr (record {
  method_known = n.method_known;
  url_present = n.url_present;
  version = n.version;
  host_is = same ∙ host;
  decoded = none_left;
  unique = u;
  code_kept = n.code_kept;
})
settle-Verdict code r s h (malformed p) n host y = inl refl
settle-Verdict code r s h _ n host y = tt

after_header-Verdict :
    (fuel : ℕ) (code : ℤ) (r : HttpRequest) (s : Bytes) (m : Parse Scan)
    → IsNamed code r
    → Yields (λ sc. IsUnique sc.progress.headers) m
    → Verdict code (after_header fuel r s m)
unfolding after_header
after_header-Verdict fuel code r s (ok sc) n u =
    elim (Option-cases (lookup (codes "Host") sc.progress.headers)) [
      | inl missing ↦ rw (missing, after_header) (unfold settle in inl refl)
      | inr (host, found) ↦
          let named : IsNamed code (record r { host = host }) = record {
            method_known = n.method_known;
            url_present = n.url_present;
            version = n.version;
            code_kept = n.code_kept;
          } in
          rw (found, after_header)
            (settle-Verdict code (record r { host = host }) s sc.progress.headers _ named found
              (read_body-Yields valid_field_name fuel s sc.has_chunked sc.progress u))
    ]
after_header-Verdict fuel code r s (malformed p) n u = unfold settle in inl refl
after_header-Verdict fuel code r s _ n u = unfold settle in tt

parse_from-Verdict :
    (fuel : ℕ) (r : HttpRequest) (s : Bytes)
    → IsUnique r.headers
    → Verdict r.client_error_code (parse_from fuel r s)
unfolding parse_from
parse_from-Verdict fuel r s u =
    let first = (next_line (start r s)).0 in
    let header : Yields (λ sc. IsUnique sc.progress.headers) (read_header s first) =
      unfold read_header in
      >>=-Yields (λ (sc : Scan). IsUnique sc.progress.headers)
        (λ (sc : Scan). IsUnique sc.progress.headers)
        (scan_fields valid_field_name (length s + 1) _ first) end_of_header
        (scan_fields-Yields valid_field_name (length s + 1) _ first (unfold next_line in u))
        (λ sc. end_of_header-Yields sc) in
    elim (Bool-cases (request_line r first.line).1) [
      | inl good ↦
          rw (good, parse_from)
            (after_header-Verdict fuel r.client_error_code _ s (read_header s first)
              (request_line-IsNamed r first.line good) header)
      | inr refused ↦ rw (refused, parse_from) (inl refl)
    ]

parse_request-Verdict :
    (fuel : ℕ) (r : HttpRequest) (s : Bytes)
    → IsUnique r.headers
    → Verdict r.client_error_code (parse_request fuel r s)
unfolding parse_request
parse_request-Verdict fuel r s u = elim (Option-cases (find s end_mark 0)) [
  | inl unfinished ↦ rw (unfinished, parse_request) tt
  | inr (at, ended) ↦ elim (Option-cases (method_start s)) [
    | inl unknown ↦ rw (ended, unknown, parse_request) (inl refl)
    | inr (i, known) ↦ rw (ended, known, parse_request) (parse_from-Verdict fuel r (drop i s) u)
  ]
]

-- A call on a new object that returns true either notes error 400, or has read a request with a
-- known method, a URL, version HTTP/1.1, the Host field that is its host, one entry for each header
-- name and no Transfer-Encoding left; and then its error code is the one that the object came with.
pub parse_request-complete :
    (fuel : ℕ) (code : ℤ) (s : Bytes) {r : HttpRequest} {rest : Bytes}
    → parse_request fuel (fresh code) s ≡ complete r rest
    → IsRejected r ⊎ IsAccepted code r
parse_request-complete fuel code s e = rw e at (parse_request-Verdict fuel (fresh code) s tt)
