-- ===== src/HttpRequest/RoundTrip.antt =====
-- The parser on what `serialize` writes.
use proxy_cache_server.Prelude.{
  ℕ, ◌+◌, ◌<◌, ◌≡◌, sym, ap, ◌∙◌, inl, inr, true, [], ◌∷◌, ◌++◌, some, arith, append_assoc, length,
  length-append, drop, drop-append, drop-drop, List-cases, All,
}
use proxy_cache_server.Prelude.Int.{ℤ}
use proxy_cache_server.Text.{Bytes, codes, crlf, find}
use proxy_cache_server.Headers.{Headers, valid_field_name, lookup}
use proxy_cache_server.Headers.Laws.{IsUnique}
use proxy_cache_server.Message.{ok, next_line, complete}
use proxy_cache_server.Message.Body.{u32}
use proxy_cache_server.HttpRequest.{
  HttpRequest, fresh, end_mark, method_start, known_method, settle, after_header, start,
  read_header, parse_from, parse_request, field_lines, serialize,
}
use proxy_cache_server.HttpRequest.Written.EndMark.{IsField}
use proxy_cache_server.HttpRequest.Written.Fields.{IsPlain, between, next_line-between}
use proxy_cache_server.HttpRequest.Written.RequestLine.{
  version_text, line_of, IsUrl, method_start-known, line_of-Lacks, request_line-written,
}
use proxy_cache_server.HttpRequest.Written.Header.{
  header_of, header_of-append, end_of_header-written, end_mark-written, scan_header,
}
use proxy_cache_server.HttpRequest.Written.Body.{Frames, read_body-written}

-- A request that the parser reads as it was written: the line's parts are on one line and not empty, the
-- map yields valid names with values that have no blanks around them, each name once, with the Host and
-- without Transfer-Encoding, the body is as long as Content-Length says, and all is below 2^32 bytes.
pub record IsWritable (order : Headers → Headers) (r : HttpRequest) : Type 0 where
  pub known : known_method r.method ≡ true
  pub locates : IsUrl r.url
  pub version : r.http_version ≡ codes "HTTP/1.1"
  pub fields : All IsField (order r.headers)
  pub plain : All IsPlain (order r.headers)
  pub unique : IsUnique (order r.headers)
  pub hosted : lookup (codes "Host") (order r.headers) ≡ some r.host
  pub framed : Frames (order r.headers) r.body
  pub small : length (serialize order r) < u32

serialize-header_of :
    (order : Headers → Headers) (r : HttpRequest) (rest : Bytes)
    → r.http_version ≡ codes "HTTP/1.1"
    → serialize order r ++ rest ≡ header_of (line_of r) (order r.headers) ++ (r.body ++ rest)
unfolding serialize
serialize-header_of order r rest version =
    let h = order r.headers in
    let fields = field_lines h (crlf ++ r.body) in
    let written : serialize order r ≡ line_of r ++ b'\n' ∷ fields =
      ap (λ t. r.method ++ (b' ' ∷ (r.url ++ (b' ' ∷ (t ++ (crlf ++ fields)))))) version
      ∙ ap (λ t. r.method ++ (b' ' ∷ t))
          (sym (append_assoc r.url (b' ' ∷ version_text) (b'\n' ∷ fields)))
      ∙ sym (append_assoc r.method (b' ' ∷ (r.url ++ (b' ' ∷ version_text))) (b'\n' ∷ fields)) in
    ap (λ t. t ++ rest) (written ∙ sym (header_of-append (line_of r) h r.body))
    ∙ append_assoc (header_of (line_of r) h) r.body rest

-- The fields of a written header are read, and its end.
read_header-written :
    (r : HttpRequest) (k v : Bytes) (h : Headers) (t : Bytes)
    → known_method r.method ≡ true
    → IsUrl r.url
    → All IsField ((k, v) ∷ h)
    → All IsPlain ((k, v) ∷ h)
    → IsUnique ((k, v) ∷ h)
    → let fields = field_lines ((k, v) ∷ h) (crlf ++ t) in
      read_header
        (line_of r ++ b'\n' ∷ fields)
        (between [] [] (length (line_of r) + 1) (line_of r) fields)
      ≡ ok (between ((k, v) ∷ h) [] (length (header_of (line_of r) ((k, v) ∷ h))) (b'\r' ∷ []) t)
unfolding read_header
read_header-written r k v h t known u fs plains unique =
    let (n, last, scanned, size) =
      scan_header valid_field_name (line_of r) k v h t (λ j e. e) (line_of-Lacks r known u) fs
        plains unique in
    rw scanned (
      end_of_header-written ((k, v) ∷ h) last t n
      ∙ ap (λ m. ok (between ((k, v) ∷ h) [] m (b'\r' ∷ []) t)) size)

after_header-written :
    (fuel : ℕ) (q : HttpRequest) (h : Headers) (head body rest host line : Bytes)
    → All IsPlain h
    → Frames h body
    → length head + length body < u32
    → lookup (codes "Host") h ≡ some host
    → after_header fuel q
        (head ++ (body ++ rest))
        (ok (between h [] (length head) line (body ++ rest)))
      ≡ complete (record q { host = host; headers = h; body = body }) rest
unfolding after_header settle
after_header-written fuel q h head body rest host line plains framed small hosted =
    let read = read_body-written valid_field_name fuel h head body rest plains framed small in
    let left : drop (length head + length body) (head ++ (body ++ rest)) ≡ rest =
      sym (drop-drop (length head) (length body) (head ++ (body ++ rest)))
      ∙ ap (drop (length body)) (drop-append head (body ++ rest))
      ∙ drop-append body rest in
    rw (hosted, after_header, read)
      (ap (complete (record q { host = host; headers = h; body = body })) left)

parse_from-fields :
    (fuel : ℕ) (code : ℤ) (r : HttpRequest) (k v : Bytes) (h : Headers) (rest : Bytes)
    → known_method r.method ≡ true
    → IsUrl r.url
    → r.http_version ≡ codes "HTTP/1.1"
    → All IsField ((k, v) ∷ h)
    → All IsPlain ((k, v) ∷ h)
    → IsUnique ((k, v) ∷ h)
    → lookup (codes "Host") ((k, v) ∷ h) ≡ some r.host
    → Frames ((k, v) ∷ h) r.body
    → length (header_of (line_of r) ((k, v) ∷ h)) + length r.body < u32
    → parse_from fuel (fresh code) (header_of (line_of r) ((k, v) ∷ h) ++ (r.body ++ rest))
      ≡ complete (record r { headers = (k, v) ∷ h; client_error_code = code }) rest
unfolding parse_from
parse_from-fields fuel code r k v h rest known u version fs plains unique hosted framed small =
    let hs = (k, v) ∷ h in
    let t = r.body ++ rest in
    let s = header_of (line_of r) hs ++ t in
    let line = line_of r in
    let split = header_of-append (line_of r) hs t in
    let fields = field_lines hs (crlf ++ t) in
    let first : next_line (start (fresh code) s)
        ≡ (between [] [] (length line + 1) line fields, true) =
      ap (λ u. next_line (between [] [] 0 [] u)) split
      ∙ next_line-between [] [] [] line fields 0 (line_of-Lacks r known u)
      ∙ ap (λ n. (between [] [] n line fields, true)) (omega arith) in
    let read : read_header s (between [] [] (length line + 1) line fields)
        ≡ ok (between hs [] (length (header_of (line_of r) hs)) (b'\r' ∷ []) t) =
      ap (λ u. read_header u (between [] [] (length line + 1) line fields)) split
      ∙ read_header-written r k v h t known u fs plains unique in
    rw (first, parse_from, request_line-written code r known u, read)
      (after_header-written fuel _ hs (header_of (line_of r) hs) r.body rest r.host (b'\r' ∷ [])
          plains framed small hosted
        ∙ ap
            (λ t.
              complete (record r { http_version = t; headers = hs; client_error_code = code }) rest)
            (sym version))

-- A writable request, at the start of a buffer with any bytes behind it: whatever the fuel, a new object
-- parses what `serialize` writes to the request itself, but for its error code, with the fields in the order
-- in which the map yields them, and leaves in the buffer the bytes behind it.
pub parse_request-serialize :
    (fuel : ℕ) (code : ℤ) (order : Headers → Headers) (r : HttpRequest) (rest : Bytes)
    → IsWritable order r
    → parse_request fuel (fresh code) (serialize order r ++ rest)
      ≡ complete (record r { headers = order r.headers; client_error_code = code }) rest
unfolding parse_request
parse_request-serialize fuel code order r rest w = elim (List-cases (order r.headers)) [
  | inl nothing ↦
      let hosted : lookup (codes "Host") [] ≡ some r.host = rw nothing at w.hosted in
      absurd (unfold lookup in cc)
  | inr ((k, v), h, e) ↦
      let t = r.body ++ rest in
      let fs = rw e at w.fields in
      let written = serialize-header_of order r rest w.version in
      let begins : method_start (serialize order r ++ rest) ≡ some 0 =
        unfold serialize in
        ap method_start (append_assoc r.method _ rest) ∙ method_start-known r.method _ w.known in
      let (n, end, _) =
        end_mark-written (line_of r) k v h t (line_of-Lacks r w.known w.locates) fs in
      let found : find (serialize order r ++ rest) end_mark 0 ≡ some n =
        ap (λ u. find u end_mark 0)
          (written
            ∙ ap (λ q. header_of (line_of r) q ++ t) e
            ∙ header_of-append (line_of r) ((k, v) ∷ h) t)
        ∙ end in
      let size : length (header_of (line_of r) ((k, v) ∷ h)) + length r.body < u32 = omega (
        arith,
        w.small,
        ap length (serialize-header_of order r [] w.version),
        length-append (serialize order r) [],
        length-append (header_of (line_of r) (order r.headers)) (r.body ++ []),
        length-append r.body [],
        ap (λ q. length (header_of (line_of r) q)) e,
      ) in
      rw (found, begins, parse_request)
        (ap (λ u. parse_from fuel (fresh code) u)
            (written ∙ ap (λ q. header_of (line_of r) q ++ t) e)
          ∙ rw e (
              parse_from-fields fuel code r k v h rest w.known w.locates w.version fs
                (rw e at w.plain) (rw e at w.unique) (rw e at w.hosted) (rw e at w.framed) size))
]
