-- ===== src/Text/Number.antt =====
-- `std::stoul`, `std::stoi` and `std::to_string`. `none` is an exception, `std::invalid_argument`
-- or `std::out_of_range`. An `unsigned long` has 64 bits, an `int` 32.
use proxy_cache_server.Prelude.{
  ℕ, zero, suc, ◌+◌, ◌-◌, ◌*◌, ◌/◌, ◌%◌, ◌^◌, Bool, true, false, ◌&&◌, ◌||◌, [], ◌∷◌, Option, none,
  some, ltb, leb, ◌==◌, if◌then◌else◌,
}
use proxy_cache_server.Prelude.Int.{ℤ, pos, sub_ℕ}
use proxy_cache_server.Text.{Bytes}

-- `isspace`, in the "C" locale
unfoldable pub is_space : ℕ → Bool
is_space c = c == b' ' || leb 9 c && leb c 13

unfoldable pub skip_space : Bytes → Bytes
skip_space [] = []
skip_space (c ∷ s) = if is_space c then skip_space s else c ∷ s

-- An optional sign: whether it is a minus, and what follows.
unfoldable pub read_sign : Bytes → Bool × Bytes
read_sign [] = (false, [])
read_sign (c ∷ s) =
    if c == b'-' then (true, s) else if c == b'+' then (false, s) else (false, c ∷ s)

-- The value of a digit; 36 for a byte that is no digit in any base.
unfoldable pub digit_value : ℕ → ℕ
digit_value c =
    if leb b'0' c && leb c b'9'
    then c - b'0'
    else if leb b'a' c && leb c b'z'
    then c - 87
    else if leb b'A' c && leb c b'Z'
    then c - 55
    else 36

-- The prefix "0x" or "0X" is part of a number in base 16 where a digit follows it.
unfoldable pub skip_prefix : Bytes → Bytes
skip_prefix (z ∷ x ∷ d ∷ s) =
    if z == b'0' && (x == b'x' || x == b'X') && ltb (digit_value d) 16 then d ∷ s else z ∷ x ∷ d ∷ s
skip_prefix s = s

-- The longest run of digits: its value on top of `acc`, and whether a digit was read.
unfoldable pub read_digits : ℕ → ℕ → Bool → Bytes → ℕ × Bool
read_digits base acc any [] = (acc, any)
read_digits base acc any (c ∷ s) =
    let more = read_digits base (acc * base + digit_value c) true s in
    if ltb (digit_value c) base then more else (acc, any)

-- Sign, magnitude and whether there is a digit.
unfoldable pub read_number : ℕ → Bytes → Bool × ℕ × Bool
read_number base s =
    let (negative, digits) = read_sign (skip_space s) in
    let (value, any) =
      read_digits base 0 false (if base == 16 then skip_prefix digits else digits) in
    (negative, value, any)

-- `std::stoul(s, nullptr, base)`: a minus sign negates modulo 2^64.
unfoldable pub stoul : ℕ → Bytes → Option ℕ
stoul base s =
    let (negative, value, any) = read_number base s in
    if any && ltb value (2 ^ 64)
    then some (if negative then (2 ^ 64 - value) % 2 ^ 64 else value)
    else none

-- `std::stoi(s)`
unfoldable pub stoi : Bytes → Option ℤ
stoi s =
    let (negative, value, any) = read_number 10 s in
    if any && (if negative then leb value (2 ^ 31) else ltb value (2 ^ 31))
    then some (if negative then sub_ℕ 0 value else pos value)
    else none

-- The decimal digits of a number, on fuel: a number has at most as many digits as its own value
-- and one.
unfoldable pub digits_of : ℕ → ℕ → Bytes → Bytes
digits_of zero n rest = rest
digits_of (suc fuel) n rest =
    let digit = (b'0' + n % 10) ∷ rest in
    let more = digits_of fuel (n / 10) digit in if ltb n 10 then digit else more

-- `std::to_string(n)`, for a number that is not negative
unfoldable pub to_string : ℕ → Bytes
to_string n = digits_of (n + 1) n []
