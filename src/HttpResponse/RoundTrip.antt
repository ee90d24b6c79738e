-- ===== src/HttpResponse/RoundTrip.antt =====
-- The parser of responses on what `serialize` writes.
use proxy_cache_server.Prelude.{
  ℕ, ◌+◌, ◌<◌, ◌≡◌, ◌≢◌, refl, sym, ap, ◌∙◌, inl, inr, true, false, [], ◌∷◌, ◌++◌, some, arith,
  append_assoc, length, length-append, All, List-cases,
}
use proxy_cache_server.Prelude.Int.{ℤ}
use proxy_cache_server.Text.{Bytes, codes, crlf, is_empty, find, find_at, starts_with}
use proxy_cache_server.Text.Search.{Lacks}
use proxy_cache_server.Headers.{Headers}
use proxy_cache_server.Headers.Laws.{IsUnique}
use proxy_cache_server.Libc.{Libc}
use proxy_cache_server.Message.{ok, next_line, scan_fields, complete}
use proxy_cache_server.Message.Body.{u32}
use proxy_cache_server.HttpRequest.{end_mark, field_lines}
use proxy_cache_server.HttpRequest.Written.EndMark.{IsField}
use proxy_cache_server.HttpRequest.Written.Fields.{IsPlain, between, next_line-between}
use proxy_cache_server.HttpRequest.Written.RequestLine.{find_zero}
use proxy_cache_server.HttpRequest.Written.Header.{
  header_of, header_of-append, end_of_header-written, end_mark-written, scan_header,
}
use proxy_cache_server.HttpRequest.Written.Body.{Frames, read_body-written}
use proxy_cache_server.HttpResponse.{
  HttpResponse, cleared, any_name, control_expiry, expires_expiry, settle, read_message, parse_from,
  parse_response, serialize,
}
use proxy_cache_server.HttpResponse.Status.{IsStatus, read_status_line-written, status-Lacks}

-- A response that the parser reads as it was written: a status line of three parts, fields with valid names
-- and with values that have no blanks around them, at least one and each name once, without
-- Transfer-Encoding, a body as long as Content-Length says, and all below 2^32 bytes.
pub record IsWritable (order : Headers → Headers) (r : HttpResponse) : Type 0 where
  pub status : IsStatus r.status_line
  pub some_field : order r.headers ≢ []
  pub fields : All IsField (order r.headers)
  pub plain : All IsPlain (order r.headers)
  pub unique : IsUnique (order r.headers)
  pub framed : Frames (order r.headers) r.body
  pub small : length (serialize order r) < u32

abbrev line_of : HttpResponse → Bytes
line_of r = r.status_line ++ b'\r' ∷ []

serialize-header_of :
    (order : Headers → Headers) (r : HttpResponse) (rest : Bytes)
    → serialize order r ++ rest ≡ header_of (line_of r) (order r.headers) ++ (r.body ++ rest)
unfolding serialize
serialize-header_of order r rest =
    let h = order r.headers in
    let fields = field_lines h (crlf ++ r.body) in
    let written : serialize order r ≡ line_of r ++ b'\n' ∷ fields =
      sym (append_assoc r.status_line (b'\r' ∷ []) (b'\n' ∷ fields)) in
    ap (λ t. t ++ rest) (written ∙ sym (header_of-append (line_of r) h r.body))
    ∙ append_assoc (header_of (line_of r) h) r.body rest

read_message-written :
    (fuel : ℕ) (line k v : Bytes) (h : Headers) (body rest : Bytes)
    → Lacks b'\n' line
    → All IsField ((k, v) ∷ h)
    → All IsPlain ((k, v) ∷ h)
    → IsUnique ((k, v) ∷ h)
    → Frames ((k, v) ∷ h) body
    → length (header_of line ((k, v) ∷ h)) + length body < u32
    → read_message fuel
        (header_of line ((k, v) ∷ h) ++ (body ++ rest))
        (between [] [] (length line + 1) line (field_lines ((k, v) ∷ h) (crlf ++ (body ++ rest))))
      ≡ ok (record {
        headers = (k, v) ∷ h;
        body = body;
        chars_read = length (header_of line ((k, v) ∷ h)) + length body;
      })
unfolding read_message
read_message-written fuel line k v h body rest lacks fs plains unique framed small =
    let hs = (k, v) ∷ h in
    let t = body ++ rest in
    let (n, last, scanned, size) =
      scan_header any_name line k v h t (λ j e. refl) lacks fs plains unique in
    let ended =
      end_of_header-written hs last t n ∙ ap (λ m. ok (between hs [] m (b'\r' ∷ []) t)) size in
    let read =
      read_body-written any_name fuel hs (header_of line hs) body rest plains framed small in
    let first = between [] [] (length line + 1) line (field_lines hs (crlf ++ t)) in
    let scanned' =
      ap (λ u. scan_fields any_name (length u + 1) (find u end_mark 0) first)
        (header_of-append line hs t)
      ∙ scanned in
    rw (scanned', ended) read

starts_with-extend : (p s t : Bytes) → starts_with p s ≡ true → starts_with p (s ++ t) ≡ true
unfolding starts_with
starts_with-extend [] s t e = refl
starts_with-extend (x ∷ p) [] t e = cc
starts_with-extend (x ∷ p) (c ∷ s) t e = ground (arith, starts_with-extend p s t)

snoc_given : (s : Bytes) (c : ℕ) → is_empty (s ++ c ∷ []) ≡ false
unfolding is_empty
snoc_given [] c = refl
snoc_given (b ∷ s) c = refl

line_of_start :
    (r : HttpResponse)
    → IsStatus r.status_line
    → (t : Bytes) → starts_with (codes "HTTP") (line_of r ++ t) ≡ true
line_of_start r w t =
    let begins : starts_with (codes "HTTP") r.status_line ≡ true =
      rw w.spelled (starts_with-extend (codes "HTTP") w.version _ w.protocol) in
    starts_with-extend (codes "HTTP") (line_of r) t
      (starts_with-extend (codes "HTTP") r.status_line (b'\r' ∷ []) begins)

find_http : (t : Bytes) → starts_with (codes "HTTP") t ≡ true → find t (codes "HTTP") 0 ≡ some 0
unfolding find_at
find_http [] e = unfold starts_with in absurd cc
find_http (c ∷ t) e = find_zero (c ∷ t) (codes "HTTP") ∙ rw e refl

parse_from-fields :
    (libc : Libc) (fuel : ℕ) (now : ℤ) (q r timed : HttpResponse) (k v : Bytes) (h : Headers)
    (rest : Bytes)
    → IsStatus r.status_line
    → All IsField ((k, v) ∷ h)
    → All IsPlain ((k, v) ∷ h)
    → IsUnique ((k, v) ∷ h)
    → Frames ((k, v) ∷ h) r.body
    → length (header_of (line_of r) ((k, v) ∷ h)) + length r.body < u32
    → control_expiry now
        (record q { status_line = r.status_line; headers = (k, v) ∷ h; body = r.body })
      ≡ some timed
    → let s = header_of (line_of r) ((k, v) ∷ h) ++ (r.body ++ rest) in
      parse_from libc fuel now q s ≡ complete (expires_expiry libc timed) s
unfolding parse_from settle
parse_from-fields libc fuel now q r timed k v h rest w fs plains unique framed small dated =
    let hs = (k, v) ∷ h in
    let t = r.body ++ rest in
    let line = line_of r in
    let s = header_of line hs ++ t in
    let fields = field_lines hs (crlf ++ t) in
    let first : next_line (between [] [] 0 [] s)
        ≡ (between [] [] (length line + 1) line fields, true) =
      ap (λ u. next_line (between [] [] 0 [] u)) (header_of-append line hs t)
      ∙ next_line-between [] [] [] line fields 0 (status-Lacks r.status_line w)
      ∙ ap (λ n. (between [] [] n line fields, true)) (omega arith) in
    let given : is_empty line ≡ false = snoc_given r.status_line b'\r' in
    let status = read_status_line-written r.status_line w in
    let read =
      read_message-written fuel line k v h r.body rest (status-Lacks r.status_line w) fs plains
        unique framed small in
    rw (first, given, status, read) (rw (dated, settle) refl)

-- A writable response, at the start of a buffer with any bytes behind it, whose max-age, if it has one, is a
-- number: whatever the fuel, the object takes the status line, the fields in the order in which the map
-- yields them, and the body, its expiry time is that which Cache-Control and Expires set, and the buffer
-- keeps the whole text. The body of a writable response without Content-Length is empty, and so is what
-- the object takes, also where bytes follow.
pub parse_response-serialize :
    (libc : Libc) (fuel : ℕ) (now : ℤ) (order : Headers → Headers) (q r timed : HttpResponse)
    (rest : Bytes)
    → IsWritable order r
    → control_expiry now
        (record q { status_line = r.status_line; headers = order r.headers; body = r.body })
      ≡ some timed
    → parse_response libc fuel now q (serialize order r ++ rest)
      ≡ complete (expires_expiry libc timed) (serialize order r ++ rest)
unfolding parse_response
parse_response-serialize libc fuel now order q r timed rest w dated =
    elim (List-cases (order r.headers)) [
      | inl nothing ↦ absurd (w.some_field nothing)
      | inr ((k, v), h, e) ↦
          let t = r.body ++ rest in
          let line = line_of r in
          let fs = rw e at w.fields in
          let written = serialize-header_of order r rest ∙ ap (λ q. header_of line q ++ t) e in
          let (n, end, _) =
            end_mark-written line k v h t (status-Lacks r.status_line w.status) fs in
          let split = header_of-append line ((k, v) ∷ h) t in
          let found : find (serialize order r ++ rest) end_mark 0 ≡ some n =
            ap (λ u. find u end_mark 0) (written ∙ split) ∙ end in
          let begins : find (serialize order r ++ rest) (codes "HTTP") 0 ≡ some 0 =
            ap (λ u. find u (codes "HTTP") 0) (written ∙ split)
            ∙ find_http _ (line_of_start r w.status _) in
          let size : length (header_of line ((k, v) ∷ h)) + length r.body < u32 = omega (
            arith,
            w.small,
            ap length (serialize-header_of order r []),
            length-append (serialize order r) [],
            length-append (header_of line (order r.headers)) (r.body ++ []),
            length-append r.body [],
            ap (λ q. length (header_of line q)) e,
          ) in
          rw (found, begins, parse_response)
            (ap (parse_from libc fuel now (cleared q)) written
              ∙ parse_from-fields libc fuel now (cleared q) r timed k v h rest w.status fs
                  (rw e at w.plain) (rw e at w.unique) (rw e at w.framed) size (rw e at dated)
              ∙ ap (complete (expires_expiry libc timed)) (sym written))
    ]
