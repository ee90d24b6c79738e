-- ===== src/HttpResponse/Ends.antt =====
-- The end of every call of `parse_response`.
use proxy_cache_server.Prelude.{
  ℕ, ◌+◌, ◌<◌, ◌≤◌, ◌≡◌, ◌≢◌, refl, true, false, not, ◌||◌, [], none, some, inl, inr, arith, length,
  drop, length-drop, Bool-cases, Option-cases,
}
use proxy_cache_server.Prelude.Int.{ℤ}
use proxy_cache_server.Text.{Bytes, codes, find, stream, is_empty}
use proxy_cache_server.Libc.{Libc}
use proxy_cache_server.Message.{
  Parse, ok, short, malformed, thrown, undefined, out_of_fuel, exhausted, Scan, next_line,
  scan_fields, end_of_header, ◌>>=◌, Progress,
}
use proxy_cache_server.Message.Bind.{Ensures, >>=-Ensures, >>=-assoc, Ensures-both}
use proxy_cache_server.Message.Position.{Lined}
use proxy_cache_server.Message.Fuel.{sizes_fit, read_body-Ensures}
use proxy_cache_server.Message.Lines.{
  InText, scan_fields-Ensures, end_of_header-Ensures, next_line_first,
}
use proxy_cache_server.Message.Lines.Starts.{header-Lined}
use proxy_cache_server.Message.Body.{read_body}
use proxy_cache_server.HttpRequest.{end_mark}
use proxy_cache_server.HttpResponse.{
  HttpResponse, any_name, stored, control_expiry, settle, read_message, parse_from, parse_response,
  cleared,
}

-- The buffer from the first "HTTP" on.
abbrev pub response_text : Bytes → Bytes
response_text s = elim (find s (codes "HTTP") 0) [ none ↦ [] | some i ↦ drop i s ]

abbrev initial : Progress
initial = record { headers = []; body = []; chars_read = 0 }

abbrev first_line : Bytes → Scan
first_line s =
    (next_line (record { progress = initial; has_chunked = false; line = []; rest = stream s })).0

read_message-Ensures :
    (fuel : ℕ) (s : Bytes)
    → sizes_fit s ≡ true
    → length s + 3 < fuel
    → Ensures (λ p. Unit {0}) (read_message fuel s (first_line s))
unfolding read_message
read_message-Ensures fuel s fit h =
    let e = find s end_mark 0 in
    let first = next_line_first s [] false initial refl in
    let fields = scan_fields any_name (length s + 1) e (first_line s) in
    let header : Ensures
        (λ r. (r.progress.chars_read ≤ length s + 3) × Lined s r.progress.chars_read)
        (fields >>= end_of_header) =
      Ensures-both _ _ (fields >>= end_of_header)
        (>>=-Ensures (InText s) _ fields end_of_header
          (scan_fields-Ensures any_name (length s + 1) e s _ first.0 (omega arith))
          (end_of_header-Ensures s))
        (header-Lined any_name (length s + 1) e s [] false initial refl) in
    let body : Scan → Parse Progress = λ r. read_body any_name fuel s r.has_chunked r.progress in
    rw (← >>=-assoc fields end_of_header body) (
      >>=-Ensures _ (λ p. Unit {0}) (fields >>= end_of_header) body header
        (λ r (within, lined).
          read_body-Ensures any_name fuel s r.has_chunked r.progress fit lined within h))

settle-ne-exhausted :
    (libc : Libc) (now : ℤ) (r : HttpResponse) (s : Bytes) (m : Parse Progress)
    → Ensures (λ p. Unit {0}) m
    → settle libc now r s m ≢ exhausted
unfolding settle
settle-ne-exhausted libc now r s (ok p) h = elim (Option-cases (control_expiry now (stored r p))) [
  | inl raises ↦ rw (raises, settle) (λ e. cc)
  | inr (timed, sets) ↦ rw (sets, settle) (λ e. cc)
]
settle-ne-exhausted libc now r s (short p) h = λ e. cc
settle-ne-exhausted libc now r s (malformed p) h = λ e. cc
settle-ne-exhausted libc now r s (thrown p) h = λ e. cc
settle-ne-exhausted libc now r s undefined h = λ e. cc
settle-ne-exhausted libc now r s out_of_fuel h = absurd h

parse_from-ne-exhausted :
    (libc : Libc) (fuel : ℕ) (now : ℤ) (r : HttpResponse) (s : Bytes)
    → sizes_fit s ≡ true
    → length s + 3 < fuel
    → parse_from libc fuel now r s ≢ exhausted
unfolding parse_from
parse_from-ne-exhausted libc fuel now r s fit h =
    let (_, got) =
      next_line (record { progress = initial; has_chunked = false; line = []; rest = stream s }) in
    elim (Bool-cases (not got || is_empty (first_line s).line)) [
      | inl empty ↦ rw (empty, parse_from) (λ e. cc)
      | inr line ↦
          rw (line, parse_from)
            (settle-ne-exhausted libc now _ s _ (read_message-Ensures fuel s fit h))
    ]

-- With more fuel than the buffer has bytes, and three, a call of `parse_response` ends, on every text
-- in which no line begins with a hexadecimal number that makes a 32-bit sum of the loop over the chunks
-- wrap round.
pub parse_response-ne-exhausted :
    (libc : Libc) (fuel : ℕ) (now : ℤ) (r : HttpResponse) (s : Bytes)
    → sizes_fit (response_text s) ≡ true
    → length s + 3 < fuel
    → parse_response libc fuel now r s ≢ exhausted
unfolding parse_response
parse_response-ne-exhausted libc fuel now r s fit h = elim (Option-cases (find s end_mark 0)) [
  | inl unfinished ↦ rw (unfinished, parse_response) (λ e. cc)
  | inr (at, ended) ↦ elim (Option-cases (find s (codes "HTTP") 0)) [
    | inl unknown ↦ rw (ended, unknown, parse_response) (λ e. cc)
    | inr (i, known) ↦
        rw (ended, known, parse_response)
          (parse_from-ne-exhausted libc fuel now (cleared r) (drop i s)
            (rw (known, response_text) at fit) (omega (arith, length-drop i s)))
  ]
]
