-- ===== src/HttpRequest/Written/RequestLine.antt =====
-- A request line as `serialize` writes it, and its parts as the parser reads them.
use proxy_cache_server.Prelude.{
  ℕ, ◌≡◌, ◌≢◌, refl, ap, ◌∙◌, ◌⊎◌, inl, inr, true, false, [], ◌∷◌, ◌++◌, Option, none, some, arith,
  length, All-append, le→leb,
}
use proxy_cache_server.Prelude.Int.{ℤ}
use proxy_cache_server.Text.{
  Bytes, codes, bytes_eq, is_empty, find_at, find, last_byte, drop_last, contains_byte,
}
use proxy_cache_server.Text.Equality.{bytes_eq_iff, starts_with-append}
use proxy_cache_server.Text.Search.{Lacks, contains_byte-Lacks}
use proxy_cache_server.HttpRequest.{
  HttpRequest, fresh, earliest, method_start, known_method, check_line, request_line,
}
use proxy_cache_server.HttpRequest.Written.{getline-line, getline-all}

-- The three parts of the request line, without its line feed.
abbrev pub line_of : HttpRequest → Bytes
line_of r = r.method ++ (b' ' ∷ (r.url ++ (b' ' ∷ (codes "HTTP/1.1" ++ b'\r' ∷ []))))

-- The URL of a request that can be written.
pub record IsUrl (u : Bytes) : Type 0 where
  pub given : is_empty u ≡ false
  pub unspaced : Lacks b' ' u
  pub one_line : Lacks b'\n' u

known_cases :
    (m : Bytes)
    → known_method m ≡ true
    → (m ≡ codes "GET") ⊎ (m ≡ codes "POST") ⊎ (m ≡ codes "CONNECT")
unfolding known_method
known_cases m e = ground (
  arith,
  bytes_eq_iff m (codes "GET"),
  bytes_eq_iff m (codes "POST"),
  bytes_eq_iff m (codes "CONNECT"),
)

pub find_zero : (s p : Bytes) → find s p 0 ≡ find_at p 0 s
unfolding find
find_zero s p = rw (le→leb 0 (length s) (omega arith)) refl

find_start : (p t : Bytes) → is_empty p ≡ false → find (p ++ t) p 0 ≡ some 0
unfolding find_at is_empty
find_start [] t e = cc
find_start (c ∷ p) t e = find_zero ((c ∷ p) ++ t) (c ∷ p) ∙ rw (starts_with-append (c ∷ p) t) refl

earliest_left : (b : Option ℕ) → earliest (some 0) b ≡ some 0
unfolding earliest
earliest_left none = refl
earliest_left (some n) = ap some (omega arith)

earliest_right : (a : Option ℕ) → earliest a (some 0) ≡ some 0
unfolding earliest
earliest_right none = refl
earliest_right (some n) = ap some (omega arith)

-- A text that begins with a method has its start there.
pub method_start-known : (m t : Bytes) → known_method m ≡ true → method_start (m ++ t) ≡ some 0
unfolding method_start is_empty
method_start-known m t e = elim (known_cases m e) [
  | inl get ↦ rw (get, find_start (codes "GET") t refl, earliest_left _) (earliest_left _)
  | inr (inl post) ↦ rw (post, find_start (codes "POST") t refl, earliest_right _) (earliest_left _)
  | inr (inr connect) ↦ rw (connect, find_start (codes "CONNECT") t refl) (earliest_right _)
]

-- A method is one word.
method-Lacks :
    (m : Bytes) → known_method m ≡ true → Lacks b' ' m × Lacks b'\n' m × (is_empty m ≡ false)
unfolding is_empty contains_byte
method-Lacks m e = elim (known_cases m e) [
  | inl get ↦ rw get (
    contains_byte-Lacks b' ' (codes "GET") refl,
    contains_byte-Lacks b'\n' (codes "GET") refl,
    refl,
  )
  | inr (inl post) ↦ rw post (
    contains_byte-Lacks b' ' (codes "POST") refl,
    contains_byte-Lacks b'\n' (codes "POST") refl,
    refl,
  )
  | inr (inr connect) ↦ rw connect (
    contains_byte-Lacks b' ' (codes "CONNECT") refl,
    contains_byte-Lacks b'\n' (codes "CONNECT") refl,
    refl,
  )
]

abbrev pub version_text : Bytes
version_text = codes "HTTP/1.1" ++ b'\r' ∷ []

version-Lacks : Lacks b'\n' version_text
unfolding contains_byte
version-Lacks = contains_byte-Lacks b'\n' version_text refl

pub line_of-Lacks :
    (r : HttpRequest) → known_method r.method ≡ true → IsUrl r.url → Lacks b'\n' (line_of r)
line_of-Lacks r known u =
    All-append (λ b. b ≢ b'\n') r.method (b' ' ∷ (r.url ++ (b' ' ∷ version_text)))
      (method-Lacks r.method known).1
      (
        λ e. ground arith,
        All-append (λ b. b ≢ b'\n') r.url (b' ' ∷ version_text) u.one_line
            (λ e. ground arith, version-Lacks),
      )

check_line-written :
    (q : HttpRequest)
    → known_method q.method ≡ true
    → is_empty q.method ≡ false
    → is_empty q.url ≡ false
    → q.http_version ≡ version_text
    → check_line q ≡ (record q { http_version = codes "HTTP/1.1" }, true)
unfolding check_line is_empty last_byte drop_last bytes_eq
check_line-written q known method url version =
    rw (method, url, version, check_line, known)
      (ap
        (λ v. (record q { http_version = drop_last v }, bytes_eq (drop_last v) (codes "HTTP/1.1")))
        version)

pub request_line-written :
    (code : ℤ) (r : HttpRequest)
    → known_method r.method ≡ true
    → IsUrl r.url
    → request_line (fresh code) (line_of r) ≡ (
      record (fresh code) { method = r.method; url = r.url; http_version = codes "HTTP/1.1" },
      true,
    )
unfolding request_line
request_line-written code r known u =
    let (spaces, _, given) = method-Lacks r.method known in
    let first = getline-line b' ' [] r.method (r.url ++ (b' ' ∷ version_text)) spaces in
    let second = getline-line b' ' [] r.url version_text u.unspaced in
    let third = getline-all b'\n' b'H' [] (codes "TTP/1.1" ++ b'\r' ∷ []) version-Lacks in
    rw (first, second, third) (check_line-written _ known given u.given refl)
