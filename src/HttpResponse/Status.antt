-- ===== src/HttpResponse/Status.antt =====
-- A status line as `serialize` writes it, and the one that the parser makes of it.
use proxy_cache_server.Prelude.{
  ℕ, ◌≡◌, ◌≢◌, refl, sym, ap, ◌∙◌, true, false, [], ◌∷◌, ◌++◌, some, arith, append_assoc, All,
  All-append,
}
use proxy_cache_server.Text.{Bytes, codes, is_empty, starts_with, contains_byte, first_not_of}
use proxy_cache_server.Text.Number.{is_space, skip_space}
use proxy_cache_server.Text.Search.{Lacks}
use proxy_cache_server.HttpRequest.Written.{getline-all, last_byte-snoc, drop_last-snoc}
use proxy_cache_server.HttpResponse.{split_word, read_word, skip_blanks, trim_cr, read_status_line}

abbrev pub IsWord : Bytes → Type 0
IsWord = All (λ b. is_space b ≡ false)

-- The version, the code and the message with a space between them, on one line.
pub record IsStatus (status : Bytes) : Type 0 where
  pub version : Bytes
  pub code : Bytes
  pub message : Bytes
  pub spelled : status ≡ version ++ (b' ' ∷ (code ++ (b' ' ∷ message)))
  pub protocol : starts_with (codes "HTTP") version ≡ true
  pub version_word : IsWord version
  pub code_given : is_empty code ≡ false
  pub code_word : IsWord code
  pub unblank : starts_with (codes " ") message ≡ false
  pub one_line : Lacks b'\n' message

split_word-word :
    (w rest : Bytes) (c : ℕ)
    → IsWord w
    → is_space c ≡ true
    → split_word (w ++ c ∷ rest) ≡ (w, c ∷ rest)
unfolding split_word
split_word-word [] rest c h space = rw space refl
split_word-word (b ∷ w) rest c (h, hs) space =
    let e = split_word-word w rest c hs space in rw (h, e) refl

read_word-word :
    (w rest : Bytes) (c : ℕ)
    → IsWord w
    → is_empty w ≡ false
    → is_space c ≡ true
    → read_word (w ++ c ∷ rest) ≡ (w, c ∷ rest)
unfolding read_word skip_space is_empty
read_word-word [] rest c h given space = cc
read_word-word (b ∷ w) rest c (h, hs) given space =
    rw h (split_word-word (b ∷ w) rest c (h, hs) space)

read_word-space : (s : Bytes) → read_word (b' ' ∷ s) ≡ read_word s
unfolding read_word skip_space is_space
read_word-space s = refl

skip_blanks-message :
    (message : Bytes)
    → starts_with (codes " ") message ≡ false
    → skip_blanks (b' ' ∷ (message ++ b'\r' ∷ [])) ≡ message ++ b'\r' ∷ []
unfolding skip_blanks first_not_of contains_byte starts_with
skip_blanks-message [] e = refl
skip_blanks-message (c ∷ m) e =
    let found : first_not_of (codes " ") 0 (b' ' ∷ c ∷ (m ++ b'\r' ∷ [])) ≡ some 1 = ground arith in
    rw (found, skip_blanks) refl

trim_cr-snoc : (s : Bytes) → trim_cr (s ++ b'\r' ∷ []) ≡ s
unfolding trim_cr
trim_cr-snoc s = rw (last_byte-snoc s b'\r', trim_cr) (drop_last-snoc s b'\r')

word-Lacks : (w : Bytes) → IsWord w → Lacks b'\n' w
unfolding is_space
word-Lacks [] h = tt
word-Lacks (b ∷ w) (h, hs) = (λ same. ground arith, word-Lacks w hs)

spelled_line :
    (status : Bytes) (w : IsStatus status)
    → status ++ b'\r' ∷ [] ≡ w.version ++ (b' ' ∷ (w.code ++ (b' ' ∷ (w.message ++ b'\r' ∷ []))))
spelled_line status w =
    ap (λ t. t ++ b'\r' ∷ []) w.spelled
    ∙ append_assoc w.version (b' ' ∷ (w.code ++ (b' ' ∷ w.message))) (b'\r' ∷ [])
    ∙ ap (λ t. w.version ++ (b' ' ∷ t)) (append_assoc w.code (b' ' ∷ w.message) (b'\r' ∷ []))

version_given : (v : Bytes) → starts_with (codes "HTTP") v ≡ true → is_empty v ≡ false
unfolding starts_with is_empty
version_given [] e = cc
version_given (b ∷ v) e = refl

-- The parser makes the status line again.
pub read_status_line-written :
    (status : Bytes) → IsStatus status → read_status_line (status ++ b'\r' ∷ []) ≡ status
unfolding read_status_line is_space is_empty
read_status_line-written status w =
    let message = w.message ++ b'\r' ∷ [] in
    let behind = b' ' ∷ message in
    let given = version_given w.version w.protocol in
    let first = read_word-word w.version (w.code ++ behind) b' ' w.version_word given refl in
    let second =
      read_word-space (w.code ++ behind)
      ∙ read_word-word w.code message b' ' w.code_word w.code_given refl in
    let third = getline-all b'\n' b' ' [] message (
      λ same. ground arith,
      All-append (λ b. b ≢ b'\n') w.message (b'\r' ∷ []) w.one_line (λ same. ground arith, tt),
    ) in
    rw (spelled_line status w, first, second, third)
      (ap trim_cr (
          ap (λ t. w.version ++ (b' ' ∷ (w.code ++ (b' ' ∷ t))))
            (skip_blanks-message w.message w.unblank)
          ∙ sym (spelled_line status w))
        ∙ trim_cr-snoc status)

pub status-Lacks : (status : Bytes) → IsStatus status → Lacks b'\n' (status ++ b'\r' ∷ [])
status-Lacks status w = rw (spelled_line status w) (
    All-append (λ b. b ≢ b'\n') w.version _ (word-Lacks w.version w.version_word)
      (
        λ same. ground arith,
        All-append (λ b. b ≢ b'\n') w.code _ (word-Lacks w.code w.code_word)
            (
              λ same. ground arith,
              All-append (λ b. b ≢ b'\n') w.message (b'\r' ∷ []) w.one_line
                  (λ same. ground arith, tt),
            ),
      ))
