-- ===== src/Message.antt =====
-- What HttpRequest::parse_request and HttpResponse::parse_response do alike: the header fields and
-- the end of the header. The two differ in the check of a field's name, which is an argument here,
-- and in how they note a malformed message (`client_error_code`, `parse_error`).
-- A position is an `int` of the source that was never negative, or the 32-bit pattern of one that
-- has wrapped round; texts are shorter than 2^31 bytes.
pub mod Bind
pub mod Body
pub mod Fuel
pub mod Framing
pub mod Lines
pub mod Position
pub mod Taken
use proxy_cache_server.Prelude.{
  ℕ, zero, suc, ◌+◌, Bool, true, false, not, ◌&&◌, ◌||◌, [], ◌∷◌, ◌++◌, Option, none, some, ◌==◌,
  if◌then◌else◌, length, take, drop,
}
use proxy_cache_server.Text.{Bytes, codes, bytes_eq, find, last_byte, drop_last, Stream, getline}
use proxy_cache_server.Headers.{Headers, add_field, trim_field_value}

-- What a parser has stored in its object, and how many bytes it has read.
pub record Progress : Type 0 where
  pub headers : Headers
  pub body : Bytes
  pub chars_read : ℕ

-- How a part of a parser ends: with a value, by `return false` for want of data, by noting a
-- malformed message and `return true`, by an exception, by a read outside a string, or, in the
-- model alone, without fuel.
pub data Parse {ℓ} (A : Type ℓ) : Type ℓ where
  ok : A → Parse A
  short malformed thrown : Progress → Parse A
  undefined out_of_fuel : Parse A

infixl 5 ◌>>=◌
abbrev pub ◌>>=◌ {ℓ κ} : {A : Type ℓ} {B : Type κ} → Parse A → (A → Parse B) → Parse B
ok a >>= f = f a
short p >>= f = short p
malformed p >>= f = malformed p
thrown p >>= f = thrown p
undefined >>= f = undefined
out_of_fuel >>= f = out_of_fuel

-- How a whole call ends, with the object and the buffer that the caller keeps: it returns true or
-- false, lets an exception out, reads outside a string, or the fuel of the model runs out.
pub data Outcome (M : Type 0) : Type 0 where
  complete incomplete raised : M → Bytes → Outcome M
  faulted exhausted : Outcome M

-- One line of the header: a field, no field, or a read outside an empty value.
pub data Line : Type 0 where
  field : Bytes → Bytes → Line
  bad unreadable : Line

unfoldable pub decode_value : Bytes → Bytes → Option ℕ → Line
decode_value key value none = unreadable
decode_value key value (some c) =
    if c == b'\r' then field key (trim_field_value (drop_last value)) else bad

-- The line is split at its first colon, its name checked, and its carriage return removed.
unfoldable pub decode_line : (Bytes → Bool) → Bytes → Line
decode_line valid line = elim (find line (codes ":") 0) [
  | none ↦ bad
  | some p ↦
      let value = drop (p + 1) line in
      if valid (take p line) then decode_value (take p line) value (last_byte value) else bad
]

-- The variables of the loop over the header.
pub record Scan : Type 0 where
  pub progress : Progress
  pub has_chunked : Bool
  pub line : Bytes
  pub rest : Stream

-- `chars_read == headers_end + sizeof("\r\n") - 1`, where `npos` plus 2 is 1 in a `size_t`
unfoldable pub at_end : ℕ → Option ℕ → Bool
at_end chars_read none = chars_read == 1
at_end chars_read (some headers_end) = chars_read == headers_end + 2

-- What the body of the loop does with a line: whether to go on, with the new variables.
unfoldable pub store_line : Option ℕ → Scan → Line → Parse (Bool × Scan)
store_line headers_end sc unreadable = undefined
store_line headers_end sc bad = malformed sc.progress
store_line headers_end sc (field key value) = elim (add_field key value sc.progress.headers) [
  | none ↦ malformed sc.progress
  | some h ↦ ok (
    not (at_end sc.progress.chars_read headers_end),
    record sc {
      progress = record sc.progress { headers = h };
      has_chunked =
          sc.has_chunked
          || bytes_eq key (codes "Transfer-Encoding") && bytes_eq value (codes "chunked");
    },
  )
]

-- `std::getline(request_stream, line)` and `chars_read += line.length() + 1`
unfoldable pub next_line : Scan → Scan × Bool
next_line sc =
    let (line, rest, got) = getline b'\n' sc.line sc.rest in
    (
      record sc {
        progress = record sc.progress { chars_read = sc.progress.chars_read + length line + 1 };
        line = line;
        rest = rest;
      },
      got,
    )

-- The loop over the header. The failing read that ends it leaves `chars_read` alone.
unfoldable pub scan_fields : (Bytes → Bool) → ℕ → Option ℕ → Scan → Parse Scan
scan_fields valid zero headers_end sc = out_of_fuel
scan_fields valid (suc fuel) headers_end sc =
    let (next, got) = next_line sc in
    let fields = do
      (more, stored) ← store_line headers_end next (decode_line valid next.line)
      let others = scan_fields valid fuel headers_end stored
      if more then others else ok stored
    in if got then fields else ok (record next { progress = sc.progress })

-- The empty line that ends the header.
unfoldable pub end_of_header : Scan → Parse Scan
end_of_header sc =
    let (next, got) = next_line sc in
    if bytes_eq next.line (b'\r' ∷ []) then ok next else malformed next.progress
