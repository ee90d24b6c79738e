-- ===== src/Text.antt =====
-- What the program uses of `std::string`, of `std::getline` on a `std::istringstream`, and of
-- `std::stoul` and `std::stoi`. A string is the list of its bytes, 0 to 255, and a position is a
-- number: `none` stands for `std::string::npos`.
pub mod Equality
pub mod Number
pub mod Search
use Prim.Native.Char.{code}
use Prim.Native.String.{String}
use proxy_cache_server.Prelude.{
  ℕ, ◌+◌, Bool, true, false, not, ◌&&◌, ◌||◌, List, [], ◌∷◌, Option, none, some, leb, ◌==◌,
  if◌then◌else◌, length, take, drop,
}

abbrev pub Bytes : Type 0
Bytes = List ℕ

-- The bytes of a literal of the source; all of these are ASCII.
abbrev pub codes : String → Bytes
codes String.[] = []
codes (String.◌∷◌ c s) = code c ∷ codes s

abbrev pub crlf : Bytes
crlf = b'\r' ∷ b'\n' ∷ []

-- `operator==`
unfoldable pub bytes_eq : Bytes → Bytes → Bool
bytes_eq [] [] = true
bytes_eq (x ∷ xs) (y ∷ ys) = x == y && bytes_eq xs ys
bytes_eq _ _ = false

unfoldable pub is_empty : Bytes → Bool
is_empty [] = true
is_empty (c ∷ s) = false

unfoldable pub contains_byte : Bytes → ℕ → Bool
contains_byte [] c = false
contains_byte (b ∷ s) c = b == c || contains_byte s c

unfoldable pub starts_with : Bytes → Bytes → Bool
starts_with [] s = true
starts_with (x ∷ p) [] = false
starts_with (x ∷ p) (c ∷ s) = x == c && starts_with p s

-- The first occurrence of `needle` in a text whose first byte has position `i`.
unfoldable pub find_at : Bytes → ℕ → Bytes → Option ℕ
find_at needle i [] = if starts_with needle [] then some i else none
find_at needle i (c ∷ s) = if starts_with needle (c ∷ s) then some i else find_at needle (i + 1) s

-- `s.find(needle, pos)`
unfoldable pub find : Bytes → Bytes → ℕ → Option ℕ
find s needle p = if leb p (length s) then find_at needle p (drop p s) else none

-- `s.find(needle) != std::string::npos`
unfoldable pub includes : Bytes → Bytes → Bool
includes s needle = elim (find s needle 0) [ none ↦ false | some i ↦ true ]

unfoldable pub first_not_of : Bytes → ℕ → Bytes → Option ℕ
first_not_of set i [] = none
first_not_of set i (c ∷ s) = if contains_byte set c then first_not_of set (i + 1) s else some i

unfoldable pub last_not_of : Bytes → ℕ → Bytes → Option ℕ
last_not_of set i [] = none
last_not_of set i (c ∷ s) = elim (last_not_of set (i + 1) s) [
  | some j ↦ some j
  | none ↦ if contains_byte set c then none else some i
]

-- `s.substr(pos, n)`; `none` is the exception `std::out_of_range`.
unfoldable pub substr : Bytes → ℕ → ℕ → Option Bytes
substr s p n = if leb p (length s) then some (take n (drop p s)) else none

-- The last byte of a string, `s[s.length() - 1]`; `none` is the read outside an empty string.
unfoldable pub last_byte : Bytes → Option ℕ
last_byte [] = none
last_byte (c ∷ []) = some c
last_byte (c ∷ d ∷ s) = last_byte (d ∷ s)

-- `s.erase(s.length() - 1)`, on a string that is not empty
unfoldable pub drop_last : Bytes → Bytes
drop_last [] = []
drop_last (c ∷ []) = []
drop_last (c ∷ d ∷ s) = c ∷ drop_last (d ∷ s)

-- A `std::istringstream`: what is unread, and the flag that an earlier read met the end.
pub record Stream : Type 0 where
  pub unread : Bytes
  pub eof : Bool

abbrev pub stream : Bytes → Stream
stream s = record { unread = s; eof = false }

-- The bytes before the delimiter, those behind it, and whether there is one.
unfoldable pub split_at : ℕ → Bytes → Bytes × Bytes × Bool
split_at delim [] = ([], [], false)
split_at delim (c ∷ s) =
    let (before, after, found) = split_at delim s in
    if c == delim then ([], s, true) else (c ∷ before, after, found)

unfoldable pub read_line : ℕ → Bytes → Bool → Bytes → Bytes × Stream × Bool
read_line delim line true unread = (line, record { unread = unread; eof = true }, false)
read_line delim line false [] = ([], record { unread = []; eof = true }, false)
read_line delim line false (c ∷ s) =
    let (before, after, found) = split_at delim (c ∷ s) in
    (before, record { unread = after; eof = not found }, true)

-- `std::getline(in, line, delim)`: the new `line`, the new stream, and whether the read succeeded.
-- At a stream that has met its end the string is left as it was; a stream with nothing unread
-- empties it and fails.
unfoldable pub getline : ℕ → Bytes → Stream → Bytes × Stream × Bool
getline delim line st = read_line delim line st.eof st.unread
