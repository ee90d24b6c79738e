-- ===== src/HttpRequest/Written.antt =====
-- A header as `serialize` writes it, and the reads of the parsers on it.
pub mod Body
pub mod EndMark
pub mod Fields
pub mod Header
pub mod RequestLine
use proxy_cache_server.Prelude.{
  ℕ, suc, ◌+◌, ◌≡◌, ◌≢◌, refl, sym, ap, ◌∙◌, ◌⊎◌, inl, inr, Bool, true, false, ◌&&◌, ◌||◌, not, [],
  ◌∷◌, ◌++◌, none, some, arith, append-nil, append_assoc, length, length-append, take, drop,
  take-append, drop-append, drop-drop, All, All-append, Bool-cases, if◌then◌else◌,
}
use proxy_cache_server.Text.{
  Bytes, codes, crlf, is_empty, starts_with, find_at, find, first_not_of, contains_byte, last_byte,
  drop_last, Stream, split_at, read_line, getline,
}
use proxy_cache_server.Text.Search.{Lacks, find-append}
use proxy_cache_server.Headers.{
  Headers, valid_field_name, all_token, is_token_char, trim_field_value,
}
use proxy_cache_server.Headers.Trim.{Solid, trim_field_value-append}
use proxy_cache_server.Message.{field, decode_line, decode_value}
use proxy_cache_server.HttpRequest.{end_mark, field_lines}

pub split_at-line :
    (d : ℕ) (line rest : Bytes) → Lacks d line → split_at d (line ++ d ∷ rest) ≡ (line, rest, true)
unfolding split_at
split_at-line d [] rest h = ground arith
split_at-line d (c ∷ line) rest (ne, h) = ground (arith, split_at-line d line rest h)

split_at-all : (d : ℕ) (line : Bytes) → Lacks d line → split_at d line ≡ (line, [], false)
unfolding split_at
split_at-all d [] h = refl
split_at-all d (c ∷ line) (ne, h) = ground (arith, split_at-all d line h)

-- A line with its delimiter is read whole.
pub getline-line :
    (d : ℕ) (old line rest : Bytes)
    → Lacks d line
    → getline d old (record { unread = line ++ d ∷ rest; eof = false })
      ≡ (line, record { unread = rest; eof = false }, true)
unfolding getline read_line
getline-line d old [] rest h = let e = split_at-line d [] rest h in rw e refl
getline-line d old (c ∷ line) rest h = let e = split_at-line d (c ∷ line) rest h in rw e refl

-- What is left is read whole where no delimiter is in it.
pub getline-all :
    (d c : ℕ) (old line : Bytes)
    → Lacks d (c ∷ line)
    → (getline d old (record { unread = c ∷ line; eof = false })).0 ≡ c ∷ line
unfolding getline read_line
getline-all d c old line h = let e = split_at-all d (c ∷ line) h in rw e refl

-- A field's line, without its line feed.
abbrev pub field_line : Bytes → Bytes → Bytes
field_line k v = k ++ (codes ": " ++ (v ++ b'\r' ∷ []))

pub field_lines-cons :
    (k v : Bytes) (h : Headers) (rest : Bytes)
    → field_lines ((k, v) ∷ h) rest ≡ field_line k v ++ b'\n' ∷ field_lines h rest
unfolding field_lines
field_lines-cons k v h rest =
    ap (λ t. k ++ (codes ": " ++ t))
      (sym (append_assoc v (b'\r' ∷ []) (b'\n' ∷ field_lines h rest)))
    ∙ sym (append_assoc k (codes ": " ++ (v ++ b'\r' ∷ [])) (b'\n' ∷ field_lines h rest))

pub token-Lacks : (c : ℕ) (k : Bytes) → is_token_char c ≡ false → all_token k ≡ true → Lacks c k
unfolding all_token
token-Lacks c [] e h = tt
token-Lacks c (b ∷ k) e h = (
  λ same. let is : is_token_char c ≡ true = rw (← same) (ground arith) in cc,
  token-Lacks c k e (ground arith),
)

-- A value that is written as it is read: none, or one without blanks around it, on one line.
pub record IsValue (v : Bytes) : Type 0 where
  pub trimmed : (v ≡ []) ⊎ Solid v
  pub one_line : Lacks b'\n' v

trim_value : (v : Bytes) → IsValue v → trim_field_value (b' ' ∷ v) ≡ v
unfolding trim_field_value first_not_of contains_byte
trim_value v w = elim w.trimmed [
  | inl empty ↦ rw empty refl
  | inr solid ↦
      ap (λ t. trim_field_value (b' ' ∷ t)) (sym (append-nil v))
      ∙ trim_field_value-append (b' ' ∷ []) v [] (ground arith, tt) solid tt
]

pub last_byte-snoc : (s : Bytes) (c : ℕ) → last_byte (s ++ c ∷ []) ≡ some c
unfolding last_byte
last_byte-snoc [] c = refl
last_byte-snoc (d ∷ []) c = refl
last_byte-snoc (d ∷ e ∷ s) c = last_byte-snoc (e ∷ s) c

pub drop_last-snoc : (s : Bytes) (c : ℕ) → drop_last (s ++ c ∷ []) ≡ s
unfolding drop_last
drop_last-snoc [] c = refl
drop_last-snoc (d ∷ []) c = refl
drop_last-snoc (d ∷ e ∷ s) c = ap (◌∷◌ d) (drop_last-snoc (e ∷ s) c)

pub decode_line-field :
    (valid : Bytes → Bool) (k v : Bytes)
    → valid k ≡ true
    → Lacks b':' k
    → IsValue v
    → decode_line valid (field_line k v) ≡ field k v
unfolding decode_line decode_value
decode_line-field valid k v named plain w =
    let value = b' ' ∷ (v ++ b'\r' ∷ []) in
    let colon : find (field_line k v) (codes ":") 0 ≡ some (length k) =
      find-append [] b':' [] k (codes ": " ++ (v ++ b'\r' ∷ [])) 0 refl plain
        (unfold starts_with in refl)
      ∙ ap some (omega arith) in
    let name : take (length k) (field_line k v) ≡ k = take-append k (b':' ∷ value) in
    let behind : drop (length k + 1) (field_line k v) ≡ value =
      sym (drop-drop (length k) 1 (field_line k v)) ∙ ap (drop 1) (drop-append k (b':' ∷ value)) in
    let allowed : valid (take (length k) (field_line k v)) ≡ true = rw name named in
    let final : last_byte (drop (length k + 1) (field_line k v)) ≡ some b'\r' =
      rw behind (last_byte-snoc (b' ' ∷ v) b'\r') in
    let cut : drop_last value ≡ b' ' ∷ v = drop_last-snoc (b' ' ∷ v) b'\r' in
    rw (colon, decode_line, allowed, final, decode_value)
      (rw (name, behind) (ap (field k) (ap trim_field_value cut ∙ trim_value v w)))
