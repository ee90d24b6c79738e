-- ===== src/HttpRequest/Written/Header.antt =====
-- A written header, from its line to its end.
use proxy_cache_server.Prelude.{
  ℕ, Bool, ◌+◌, ◌≤◌, ◌<◌, ◌≡◌, refl, sym, ap, ◌∙◌, true, false, [], ◌∷◌, ◌++◌, some, arith,
  append_assoc, length, length-append, All,
}
use proxy_cache_server.Text.{Bytes, codes, crlf, bytes_eq, find, starts_with}
use proxy_cache_server.Text.Search.{Lacks}
use proxy_cache_server.Headers.{Headers, valid_field_name}
use proxy_cache_server.Headers.Laws.{IsUnique}
use proxy_cache_server.Message.{ok, scan_fields, end_of_header}
use proxy_cache_server.HttpRequest.{end_mark, field_lines}
use proxy_cache_server.HttpRequest.Written.EndMark.{
  IsField, find_end-line, find_end-fields, name_start,
}
use proxy_cache_server.HttpRequest.Written.Fields.{
  IsPlain, between, next_line-between, scan_fields-Written,
}
use proxy_cache_server.HttpRequest.Written.RequestLine.{find_zero}

field_lines-append : (h : Headers) (a b : Bytes) → field_lines h (a ++ b) ≡ field_lines h a ++ b
unfolding field_lines
field_lines-append [] a b = refl
field_lines-append ((k, v) ∷ h) a b =
    let rest = field_lines h a in
    ap (λ t. k ++ (codes ": " ++ (v ++ (crlf ++ t)))) (field_lines-append h a b)
    ∙ ap (λ t. k ++ (codes ": " ++ t)) (sym (append_assoc v (crlf ++ rest) b))
    ∙ sym (append_assoc k (codes ": " ++ (v ++ (crlf ++ rest))) b)

length_le-field_lines : (h : Headers) (t : Bytes) → length h ≤ length (field_lines h t)
unfolding field_lines
length_le-field_lines [] t = omega arith
length_le-field_lines ((k, v) ∷ h) t =
    let rest = codes ": " ++ (v ++ (crlf ++ field_lines h t)) in
    omega (
      arith,
      length-append k rest,
      length-append v (crlf ++ field_lines h t),
      length_le-field_lines h t,
    )

-- A header with its first line.
abbrev pub header_of : Bytes → Headers → Bytes
header_of line h = line ++ b'\n' ∷ field_lines h crlf

pub header_of-append :
    (line : Bytes) (h : Headers) (t : Bytes)
    → header_of line h ++ t ≡ line ++ b'\n' ∷ field_lines h (crlf ++ t)
header_of-append line h t =
    append_assoc line (b'\n' ∷ field_lines h crlf) t
    ∙ ap (λ u. line ++ b'\n' ∷ u) (sym (field_lines-append h crlf t))

pub length-header_of :
    (line : Bytes) (h : Headers)
    → length (header_of line h) ≡ length line + 1 + length (field_lines h []) + 2
length-header_of line h =
    let inner = ap length (field_lines-append h [] crlf) ∙ length-append (field_lines h []) crlf in
    omega (arith, length-append line (b'\n' ∷ field_lines h crlf), inner)

pub end_of_header-written :
    (h : Headers) (last t : Bytes) (n : ℕ)
    → end_of_header (between h [] n last (crlf ++ t)) ≡ ok (between h [] (n + 1 + 1) (b'\r' ∷ []) t)
unfolding end_of_header bytes_eq
end_of_header-written h last t n =
    rw (next_line-between h [] last (b'\r' ∷ []) t n (λ e. ground arith, tt)) refl

-- The end of a written header is found at its last field.
pub end_mark-written :
    (line : Bytes) (k v : Bytes) (h : Headers) (t : Bytes)
    → Lacks b'\n' line
    → All IsField ((k, v) ∷ h)
    → (e : ℕ) × (find (line ++ b'\n' ∷ field_lines ((k, v) ∷ h) (crlf ++ t)) end_mark 0 ≡ some e)
      × (e + 2 ≡ length line + 1 + length (field_lines ((k, v) ∷ h) []))
end_mark-written line k v h t lacks (f, fs) =
    let fields = field_lines ((k, v) ∷ h) (crlf ++ t) in
    let goes_on : starts_with crlf fields ≡ false = unfold field_lines in name_start k _ f.named in
    let (e, found, place) = find_end-fields k v h t (0 + length line + 1) (f, fs) in
    (
      e,
      find_zero (line ++ b'\n' ∷ fields) end_mark
          ∙ find_end-line line fields 0 (lacks) goes_on
          ∙ found,
      omega (arith, place),
    )

-- The loop over a written header, and the place that it reaches.
pub scan_header :
    (valid : Bytes → Bool) (line k v : Bytes) (h : Headers) (t : Bytes)
    → ((j : Bytes) → valid_field_name j ≡ true → valid j ≡ true)
    → Lacks b'\n' line
    → All IsField ((k, v) ∷ h)
    → All IsPlain ((k, v) ∷ h)
    → IsUnique ((k, v) ∷ h)
    → let fields = field_lines ((k, v) ∷ h) (crlf ++ t) in
      let s = line ++ b'\n' ∷ fields in
      (n : ℕ) × (last : Bytes) × (scan_fields valid
          (length s + 1)
          (find s end_mark 0)
          (between [] [] (length line + 1) line fields)
        ≡ ok (between ((k, v) ∷ h) [] n last (crlf ++ t)))
      × (n + 1 + 1 ≡ length (header_of line ((k, v) ∷ h)))
scan_header valid line k v h t admits lacks (f, fs) plains unique =
    let fields = field_lines ((k, v) ∷ h) (crlf ++ t) in
    let s = line ++ b'\n' ∷ fields in
    let (e, end, place) = end_mark-written line k v h t lacks (f, fs) in
    let fuel : length h < length s + 1 = omega (
      arith,
      length_le-field_lines ((k, v) ∷ h) (crlf ++ t),
      length-append line (b'\n' ∷ fields),
    ) in
    let (last, scanned) =
      scan_fields-Written valid admits (length s + 1) e k v h [] [] line t (length line + 1) fuel
        (omega (arith, place)) (f, fs) plains unique in
    let size : e + 2 + 1 + 1 ≡ length (header_of line ((k, v) ∷ h)) =
      omega (arith, place, length-header_of line ((k, v) ∷ h)) in
    (e + 2, last, rw end scanned, size)
