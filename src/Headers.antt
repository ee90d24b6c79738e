-- ===== src/Headers.antt =====
-- The header fields of a message, `std::unordered_map<std::string, std::string>`, and the static
-- helpers of docker-deploy/src/HttpRequest.cpp that both parsers use on one field. The map is an
-- association list with one entry for each name; names are compared byte by byte, as the map does.
pub mod Joined
pub mod Laws
pub mod Trim
use proxy_cache_server.Prelude.{
  ℕ, ◌+◌, ◌-◌, Bool, true, false, not, ◌&&◌, ◌||◌, List, [], ◌∷◌, ◌++◌, Option, none, some, leb,
  if◌then◌else◌, is_some,
}
use proxy_cache_server.Text.{
  Bytes, codes, bytes_eq, is_empty, contains_byte, first_not_of, last_not_of, substr,
}

abbrev pub Headers : Type 0
Headers = List (Bytes × Bytes)

-- `headers.find(key)`
unfoldable pub lookup : Bytes → Headers → Option Bytes
lookup key [] = none
lookup key ((k, v) ∷ h) = if bytes_eq k key then some v else lookup key h

abbrev pub has_header : Bytes → Headers → Bool
has_header key h = is_some (lookup key h)

-- `headers[key] = value`
unfoldable pub insert : Bytes → Bytes → Headers → Headers
insert key value [] = (key, value) ∷ []
insert key value ((k, v) ∷ h) =
    if bytes_eq k key then (k, value) ∷ h else (k, v) ∷ insert key value h

-- `headers.erase(key)`
unfoldable pub erase : Bytes → Headers → Headers
erase key [] = []
erase key ((k, v) ∷ h) = if bytes_eq k key then h else (k, v) ∷ erase key h

-- The value of a field, and "" where the map has none: `get_header` of both classes.
unfoldable pub get_header : Bytes → Headers → Bytes
get_header key h = elim (lookup key h) [ none ↦ [] | some v ↦ v ]

-- `std::isalnum`, in the "C" locale
unfoldable pub is_alnum : ℕ → Bool
is_alnum c = leb b'0' c && leb c b'9' || leb b'A' c && leb c b'Z' || leb b'a' c && leb c b'z'

abbrev pub special_chars : Bytes
special_chars = codes "!#$%&'*+-.^_`|~"

unfoldable pub is_token_char : ℕ → Bool
is_token_char c = is_alnum c || contains_byte special_chars c

unfoldable pub all_token : Bytes → Bool
all_token [] = true
all_token (c ∷ s) = is_token_char c && all_token s

unfoldable pub valid_field_name : Bytes → Bool
valid_field_name field = not (is_empty field) && all_token field

abbrev pub whitespace : Bytes
whitespace = codes " \t"

-- A `substr` from a position that was found raises nothing; `[]` stands for the exception.
unfoldable pub trim_field_value : Bytes → Bytes
trim_field_value value = elim (first_not_of whitespace 0 value) [
  | none ↦ []
  | some start ↦ elim (last_not_of whitespace 0 value) [
    | none ↦ []
    | some end ↦ elim (substr value start (end - start + 1)) [ none ↦ [] | some v ↦ v ]
  ]
]

unfoldable pub member : Bytes → List Bytes → Bool
member key [] = false
member key (k ∷ ks) = bytes_eq k key || member key ks

abbrev pub can_duplicate : List Bytes
can_duplicate =
    codes "A-IM"
    ∷ codes "Accept"
    ∷ codes "Accept-Charset"
    ∷ codes "Accept-Encoding"
    ∷ codes "Accept-Language"
    ∷ codes "Access-Control-Request-Headers"
    ∷ codes "Cache-Control"
    ∷ codes "Connection"
    ∷ codes "Content-Encoding"
    ∷ codes "Expect"
    ∷ codes "Forwarded"
    ∷ codes "If-Match"
    ∷ codes "If-None-Match"
    ∷ codes "Range"
    ∷ codes "TE"
    ∷ codes "Trailer"
    ∷ codes "Transfer-Encoding"
    ∷ codes "Upgrade"
    ∷ codes "Via"
    ∷ codes "Warning"
    ∷ codes "Set-Cookie"
    ∷ []

unfoldable pub can_duplicate_field_name : Bytes → Bool
can_duplicate_field_name field_name = member field_name can_duplicate

-- A further field of a name that the map has already.
unfoldable pub combine : Bytes → Bytes → Bytes → Headers → Option Headers
combine key old value h =
    if not (can_duplicate_field_name key)
    then none
    else if not (bytes_eq key (codes "Set-Cookie")) && not (is_empty value)
    then some (insert key (old ++ (codes ", " ++ value)) h)
    else some h

-- One field enters the map; `none` is a name that may not be repeated.
unfoldable pub add_field : Bytes → Bytes → Headers → Option Headers
add_field key value h = elim (lookup key h) [
  | none ↦ some (insert key value h)
  | some old ↦ combine key old value h
]
