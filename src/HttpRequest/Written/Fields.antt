-- ===== src/HttpRequest/Written/Fields.antt =====
-- The loop over a written header reads the fields that were written.
use proxy_cache_server.Prelude.{
  Bool, ℕ, zero, suc, ◌+◌, ◌<◌, ◌≡◌, ◌≢◌, refl, ap, ◌∙◌, true, false, not, [], ◌∷◌, ◌++◌, none,
  some, arith, append_assoc, length, All, ◌==◌, if◌then◌else◌,
}
use proxy_cache_server.Text.{Bytes, codes, crlf, bytes_eq}
use proxy_cache_server.Text.Equality.{bytes_eq_iff}
use proxy_cache_server.Headers.{Headers, lookup, insert, add_field, valid_field_name}
use proxy_cache_server.Headers.Laws.{IsUnique}
use proxy_cache_server.Message.{ok, Scan, field, at_end, store_line, next_line, scan_fields}
use proxy_cache_server.HttpRequest.{field_lines}
use proxy_cache_server.HttpRequest.Written.{
  getline-line, field_line, field_lines-cons, decode_line-field,
}
use proxy_cache_server.HttpRequest.Written.EndMark.{
  IsField, name-Lacks, colon_token, field_line-Lacks, length-field_lines,
}

lookup_absent-append :
    (i k v : Bytes) (a h : Headers) → lookup i (a ++ (k, v) ∷ h) ≡ none → bytes_eq k i ≡ false
unfolding lookup
lookup_absent-append i k v [] h e = ground arith
lookup_absent-append i k v ((j, w) ∷ a) h e = ground (arith, lookup_absent-append i k v a h)

-- The name of a later field is none of the names before.
IsUnique-absent : (k v : Bytes) (a h : Headers) → IsUnique (a ++ (k, v) ∷ h) → lookup k a ≡ none
unfolding lookup
IsUnique-absent k v [] h u = refl
IsUnique-absent k v ((i, w) ∷ a) h (absent, u) =
    let other = lookup_absent-append i k v a h absent in
    ground (arith, bytes_eq_iff i k, bytes_eq_iff k i, IsUnique-absent k v a h u)

insert_absent : (k v : Bytes) (a : Headers) → lookup k a ≡ none → insert k v a ≡ a ++ (k, v) ∷ []
unfolding lookup insert
insert_absent k v [] e = refl
insert_absent k v ((i, w) ∷ a) e = ground (arith, insert_absent k v a)

abbrev pub IsPlain : Bytes × Bytes → Type 0
IsPlain f = bytes_eq f.0 (codes "Transfer-Encoding") ≡ false

-- The variables of the loop between two fields.
abbrev pub between : Headers → Bytes → ℕ → Bytes → Bytes → Scan
between h body n line unread = record {
  progress = record { headers = h; body = body; chars_read = n };
  has_chunked = false;
  line = line;
  rest = record { unread = unread; eof = false };
}

-- One turn of the loop.
store_line-field :
    (e : ℕ) (k v : Bytes) (acc : Headers) (body line unread : Bytes) (n : ℕ)
    → lookup k acc ≡ none
    → IsPlain (k, v)
    → store_line (some e) (between acc body n line unread) (field k v)
      ≡ ok (not (n == e + 2), between (acc ++ (k, v) ∷ []) body n line unread)
unfolding store_line at_end
store_line-field e k v acc body line unread n absent plain =
    let added : add_field k v acc ≡ some (acc ++ (k, v) ∷ []) =
      unfold add_field in rw (absent, add_field) (ap some (insert_absent k v acc absent)) in
    rw (added, store_line, plain) refl

pub next_line-between :
    (acc : Headers) (body old line rest : Bytes) (n : ℕ)
    → All (λ b. b ≢ b'\n') line
    → next_line (between acc body n old (line ++ b'\n' ∷ rest))
      ≡ (between acc body (n + length line + 1) line rest, true)
unfolding next_line
next_line-between acc body old line rest n lacks = rw (getline-line b'\n' old line rest lacks) refl

next_line-field :
    (acc : Headers) (body old k v : Bytes) (h : Headers) (t : Bytes) (n : ℕ)
    → IsField (k, v)
    → next_line (between acc body n old (field_lines ((k, v) ∷ h) t)) ≡ (
      between acc body (n + length (field_line k v) + 1) (field_line k v) (field_lines h t),
      true,
    )
next_line-field acc body old k v h t n f =
    ap (λ u. next_line (between acc body n old u)) (field_lines-cons k v h t)
    ∙ next_line-between acc body old (field_line k v) (field_lines h t) n (field_line-Lacks k v f)

-- For a check of the names that admits the valid ones.
module _ (valid : Bytes → Bool)
    (admits : (k : Bytes) → valid_field_name k ≡ true → valid k ≡ true) where
  -- One turn of the loop.
  scan_fields-field :
      (fuel e : ℕ) (k v : Bytes) (h acc : Headers) (body old t : Bytes) (n : ℕ)
      → IsField (k, v)
      → IsPlain (k, v)
      → lookup k acc ≡ none
      → scan_fields valid (suc fuel) (some e) (between acc body n old (field_lines ((k, v) ∷ h) t))
        ≡ (let line = field_line k v in
            let behind = n + length line + 1 in
            let s = between (acc ++ (k, v) ∷ []) body behind line (field_lines h t) in
            if not (behind == e + 2) then scan_fields valid fuel (some e) s else ok s)
  unfolding scan_fields
  scan_fields-field fuel e k v h acc body old t n f plain absent =
      let line = field_line k v in
      let next = next_line-field acc body old k v h t n f in
      let decoded =
        decode_line-field valid k v (admits k f.named) (name-Lacks b':' k colon_token f.named)
          f.valued in
      let stored =
        store_line-field e k v acc body line (field_lines h t) (n + length line + 1) absent plain in
      rw (next, decoded, stored) refl

  abbrev Written : ℕ → ℕ → Headers → Bytes → Bytes → Scan → Type 0
  Written fuel e h body t first =
      (last : Bytes) × (scan_fields valid fuel (some e) first
        ≡ ok (between h body (e + 2) last (crlf ++ t)))

  -- The loop from one field on, up to the last.
  pub scan_fields-Written :
      (fuel e : ℕ) (k v : Bytes) (h acc : Headers) (body old t : Bytes) (n : ℕ)
      → length h < fuel
      → e + 2 ≡ n + length (field_lines ((k, v) ∷ h) [])
      → All IsField ((k, v) ∷ h)
      → All IsPlain ((k, v) ∷ h)
      → IsUnique (acc ++ (k, v) ∷ h)
      → Written fuel e
          (acc ++ (k, v) ∷ h)
          body
          t
          (between acc body n old (field_lines ((k, v) ∷ h) (crlf ++ t)))
  scan_fields-Written zero e k v h acc body old t n fueled place fs plains u = absurd (omega arith)
  scan_fields-Written (suc fuel) e k v [] acc body old t n fueled place (f, fs) (plain, plains) u =
      let line = field_line k v in
      let behind = n + length line + 1 in
      let absent = IsUnique-absent k v acc [] u in
      let size = length-field_lines k v [] in
      let none_left : length (field_lines [] []) ≡ 0 = unfold field_lines in refl in
      let here : behind ≡ e + 2 = omega (arith, place, size, none_left) in
      let ends : not (behind == e + 2) ≡ false = ground arith in
      let turn = scan_fields-field fuel e k v [] acc body old (crlf ++ t) n f plain absent in
      (
        line,
        turn
            ∙ rw ends (
                unfold field_lines in
                ap (λ m. ok (between (acc ++ (k, v) ∷ []) body m line (crlf ++ t))) here),
      )
  scan_fields-Written (suc fuel) e k v ((j, w) ∷ h) acc body old t n fueled place (f, (g, fs))
        (plain, plains) u =
      let line = field_line k v in
      let behind = n + length line + 1 in
      let absent = IsUnique-absent k v acc ((j, w) ∷ h) u in
      let size = length-field_lines k v ((j, w) ∷ h) in
      let more = length-field_lines j w h in
      let goes_on : not (behind == e + 2) ≡ true = ground (arith, place) in
      let turn =
        scan_fields-field fuel e k v ((j, w) ∷ h) acc body old (crlf ++ t) n f plain absent in
      let regroup = append_assoc acc ((k, v) ∷ []) ((j, w) ∷ h) in
      let (last, rest) =
        scan_fields-Written fuel e j w h (acc ++ (k, v) ∷ []) body line t behind (omega arith)
          (omega (arith, place, size)) (g, fs) plains (rw regroup u) in
      (
        last,
        turn ∙ rw goes_on (rest ∙ ap (λ q. ok (between q body (e + 2) last (crlf ++ t))) regroup),
      )
