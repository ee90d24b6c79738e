-- ===== src/HttpRequest/Written/EndMark.antt =====
-- Where the end of a written header is found.
use proxy_cache_server.Prelude.{
  ℕ, ◌+◌, ◌≡◌, ◌≢◌, refl, sym, ap, ◌∙◌, true, false, [], ◌∷◌, ◌++◌, some, arith, append_assoc,
  length, length-append, All, All-append,
}
use proxy_cache_server.Text.{Bytes, codes, crlf, is_empty, starts_with, contains_byte, find_at}
use proxy_cache_server.Text.Search.{Lacks}
use proxy_cache_server.Headers.{Headers, valid_field_name, is_alnum, is_token_char}
use proxy_cache_server.HttpRequest.{end_mark, field_lines}
use proxy_cache_server.HttpRequest.Written.{IsValue, field_line, field_lines-cons, token-Lacks}

pub record IsField (f : Bytes × Bytes) : Type 0 where
  pub named : valid_field_name f.0 ≡ true
  pub valued : IsValue f.1

pub name-Lacks :
    (c : ℕ) (k : Bytes) → is_token_char c ≡ false → valid_field_name k ≡ true → Lacks c k
unfolding valid_field_name
name-Lacks c k e h = token-Lacks c k e (ground arith)

pub cr_token : is_token_char b'\r' ≡ false
unfolding is_token_char is_alnum contains_byte
cr_token = refl

pub lf_token : is_token_char b'\n' ≡ false
unfolding is_token_char is_alnum contains_byte
lf_token = refl

pub colon_token : is_token_char b':' ≡ false
unfolding is_token_char is_alnum contains_byte
colon_token = refl

pub name_start : (k rest : Bytes) → valid_field_name k ≡ true → starts_with crlf (k ++ rest) ≡ false
unfolding starts_with valid_field_name is_empty
name_start [] rest h = cc
name_start (c ∷ k) rest h =
    let other : c ≢ b'\r' = (token-Lacks b'\r' (c ∷ k) cr_token (ground arith)).0 in ground arith

-- A line that the end of the header does not follow.
pub find_end-line :
    (line t : Bytes) (i : ℕ)
    → Lacks b'\n' line
    → starts_with crlf t ≡ false
    → find_at end_mark i (line ++ b'\n' ∷ t) ≡ find_at end_mark (i + length line + 1) t
unfolding find_at starts_with
find_end-line [] t i h e = ap (λ n. find_at end_mark n t) (omega arith)
find_end-line (c ∷ []) t i h e =
    let skip : starts_with end_mark (c ∷ b'\n' ∷ t) ≡ false = ground arith in
    rw skip (find_end-line [] t (i + 1) tt e ∙ ap (λ n. find_at end_mark n t) (omega arith))
find_end-line (c ∷ d ∷ line) t i (ne, h) e =
    let skip : starts_with end_mark (c ∷ d ∷ (line ++ b'\n' ∷ t)) ≡ false = ground (arith, h.0) in
    rw skip (find_end-line (d ∷ line) t (i + 1) h e ∙ ap (λ n. find_at end_mark n t) (omega arith))

-- The last line of the header, behind which it ends.
find_end-last :
    (line t : Bytes) (i : ℕ)
    → Lacks b'\n' line
    → find_at end_mark i ((line ++ b'\r' ∷ []) ++ b'\n' ∷ (crlf ++ t)) ≡ some (i + length line)
unfolding find_at starts_with
find_end-last [] t i h = ap some (omega arith)
find_end-last (c ∷ []) t i h =
    let skip : starts_with end_mark (c ∷ b'\r' ∷ b'\n' ∷ (crlf ++ t)) ≡ false = ground arith in
    rw skip (find_end-last [] t (i + 1) tt ∙ ap some (omega arith))
find_end-last (c ∷ d ∷ line) t i (ne, h) =
    let skip : starts_with end_mark (c ∷ d ∷ ((line ++ b'\r' ∷ []) ++ b'\n' ∷ (crlf ++ t)))
        ≡ false =
      ground (arith, h.0) in
    rw skip (find_end-last (d ∷ line) t (i + 1) h ∙ ap some (omega arith))

-- A field's line without its line ends.
abbrev plain_line : Bytes → Bytes → Bytes
plain_line k v = k ++ (codes ": " ++ v)

plain_line-Lacks : (k v : Bytes) → IsField (k, v) → Lacks b'\n' (plain_line k v)
plain_line-Lacks k v f =
    All-append (λ b. b ≢ b'\n') k (codes ": " ++ v) (name-Lacks b'\n' k lf_token f.named)
      (λ e. ground arith, (λ e. ground arith, f.valued.one_line))

field_line_snoc : (k v : Bytes) → field_line k v ≡ plain_line k v ++ b'\r' ∷ []
field_line_snoc k v = sym (append_assoc k (codes ": " ++ v) (b'\r' ∷ []))

pub field_line-Lacks : (k v : Bytes) → IsField (k, v) → Lacks b'\n' (field_line k v)
field_line-Lacks k v f = rw (field_line_snoc k v) (
    All-append (λ b. b ≢ b'\n') (plain_line k v) (b'\r' ∷ []) (plain_line-Lacks k v f)
      (λ e. ground arith, tt))

pub length-field_lines :
    (k v : Bytes) (h : Headers)
    → length (field_lines ((k, v) ∷ h) []) ≡ length (field_line k v) + 1 + length (field_lines h [])
length-field_lines k v h =
    ap length (field_lines-cons k v h [])
    ∙ length-append (field_line k v) (b'\n' ∷ field_lines h [])
    ∙ omega arith

-- The end of the header stands at the line ends of its last field.
pub find_end-fields :
    (k v : Bytes) (h : Headers) (t : Bytes) (i : ℕ)
    → All IsField ((k, v) ∷ h)
    → (e : ℕ) × (find_at end_mark i (field_lines ((k, v) ∷ h) (crlf ++ t)) ≡ some e)
      × (e + 2 ≡ i + length (field_lines ((k, v) ∷ h) []))
find_end-fields k v [] t i (f, fs) =
    let size = length-field_lines k v [] in
    let none_behind : length (field_lines [] []) ≡ 0 = unfold field_lines in refl in
    let long : length (field_line k v) ≡ length (plain_line k v) + 1 =
      ap length (field_line_snoc k v) ∙ length-append (plain_line k v) (b'\r' ∷ []) in
    let found : find_at end_mark i (field_lines ((k, v) ∷ []) (crlf ++ t))
        ≡ some (i + length (plain_line k v)) =
      rw (field_lines-cons k v [] (crlf ++ t), field_line_snoc k v)
        (unfold field_lines in find_end-last (plain_line k v) t i (plain_line-Lacks k v f)) in
    (i + length (plain_line k v), found, omega (arith, size, none_behind, long))
find_end-fields k v ((j, w) ∷ h) t i (f, (g, fs)) =
    let rest = field_lines ((j, w) ∷ h) (crlf ++ t) in
    let (e, found, place) = find_end-fields j w h t (i + length (field_line k v) + 1) (g, fs) in
    let goes_on : starts_with crlf rest ≡ false = unfold field_lines in name_start j _ g.named in
    (
      e,
      ap (find_at end_mark i) (field_lines-cons k v ((j, w) ∷ h) (crlf ++ t))
          ∙ find_end-line (field_line k v) rest i (field_line-Lacks k v f) goes_on
          ∙ found,
      omega (arith, place, length-field_lines k v ((j, w) ∷ h)),
    )
