-- ===== src/Message/Lines.antt =====
-- The loop over the header: its fuel, and the positions that it reaches.
pub mod Fields
pub mod Starts
use proxy_cache_server.Prelude.{
  ℕ, zero, suc, ◌+◌, ◌≤◌, ◌<◌, ◌≡◌, refl, ap, Bool, true, false, [], ◌∷◌, Option, arith, length,
  Bool-cases, inl, inr, if◌then◌else◌,
}
use proxy_cache_server.Text.{Bytes, Stream, stream, split_at, read_line, getline, bytes_eq}
use proxy_cache_server.Text.Equality.{bytes_eq_iff}
use proxy_cache_server.Message.{
  Progress, Scan, Line, field, bad, unreadable, next_line, store_line, scan_fields, end_of_header,
}
use proxy_cache_server.Message.Bind.{Ensures, >>=-Ensures}

length-split_at :
    (delim : ℕ) (s : Bytes)
    → length (split_at delim s).0
        + length (split_at delim s).1
        + (if (split_at delim s).2 then 1 else 0)
      ≡ length s
unfolding split_at
length-split_at delim [] = refl
length-split_at delim (c ∷ s) = ground (arith, length-split_at delim s)

-- A read that succeeds takes at least a byte. With the delimiter found, the line and the delimiter
-- are what is taken; without it the line is all that was unread.
abbrev Reads : ℕ → Bytes × Stream × Bool → Type 0
Reads n (line, rest, got) =
    got ≡ true
    → (length rest.unread + 1 ≤ n)
      × (length line + length rest.unread + (if rest.eof then 0 else 1) ≤ n)

read_line-Reads :
    (delim : ℕ) (line : Bytes) (eof : Bool) (unread : Bytes)
    → Reads (length unread) (read_line delim line eof unread)
unfolding read_line
read_line-Reads delim line true unread e = cc
read_line-Reads delim line false [] e = cc
read_line-Reads delim line false (c ∷ s) e =
    ground (arith, length-split_at delim (c ∷ s), first_length)
  where
    first_length : length (split_at delim (c ∷ s)).1 + 1 ≤ length (c ∷ s)
    first_length = unfold split_at in ground (arith, length-split_at delim s)

-- The position is within the text that the stream was made of; at its end it may be one further,
-- for the line feed that the source counts and that is not there.
abbrev pub InText : Bytes → Scan → Type 0
InText s sc =
    sc.progress.chars_read + length sc.rest.unread ≤ length s + (if sc.rest.eof then 1 else 0)

next_line-Reads : (sc : Scan) → Reads (length sc.rest.unread) (getline b'\n' sc.line sc.rest)
unfolding getline
next_line-Reads sc = read_line-Reads b'\n' sc.line sc.rest.eof sc.rest.unread

got_not-eof :
    (delim : ℕ) (line : Bytes) (eof : Bool) (unread : Bytes)
    → (read_line delim line eof unread).2 ≡ true
    → eof ≡ false
unfolding read_line
got_not-eof delim line true unread e = cc
got_not-eof delim line false unread e = refl

next_line_got :
    (s : Bytes) (sc : Scan)
    → InText s sc
    → (next_line sc).1 ≡ true
    → InText s (next_line sc).0 × (length (next_line sc).0.rest.unread + 1 ≤ length sc.rest.unread)
unfolding next_line
next_line_got s sc within got =
    let reads = next_line-Reads sc got in
    let fresh : sc.rest.eof ≡ false =
      unfold getline in got_not-eof b'\n' sc.line sc.rest.eof sc.rest.unread got in
    ground arith

next_line_missed :
    (s : Bytes) (sc : Scan)
    → InText s sc
    → (next_line sc).1 ≡ false
    → InText s (record (next_line sc).0 { progress = sc.progress })
unfolding next_line getline
next_line_missed s sc within missed =
    missed_lem b'\n' sc.line sc.rest.eof sc.rest.unread within missed
  where
    missed_lem :
        (delim : ℕ) (line : Bytes) (eof : Bool) (unread : Bytes)
        → sc.progress.chars_read + length unread ≤ length s + (if eof then 1 else 0)
        → (read_line delim line eof unread).2 ≡ false
        → sc.progress.chars_read + length (read_line delim line eof unread).1.unread
          ≤ length s + (if (read_line delim line eof unread).1.eof then 1 else 0)
    missed_lem delim line true unread h e = unfold read_line in omega arith
    missed_lem delim line false [] h e = unfold read_line in omega arith
    missed_lem delim line false (c ∷ rest) h e = absurd (unfold read_line in cc)

-- Storing a line leaves the position and the stream alone.
store_line-Ensures :
    (e : Option ℕ) (sc : Scan) (l : Line)
    → Ensures
        (λ a. (a.1.progress.chars_read ≡ sc.progress.chars_read) × (a.1.rest ≡ sc.rest))
        (store_line e sc l)
unfolding store_line
store_line-Ensures e sc unreadable = tt
store_line-Ensures e sc bad = tt
store_line-Ensures e sc (field key value) = ground arith

pub scan_fields-Ensures :
    (valid : Bytes → Bool) (fuel : ℕ) (e : Option ℕ) (s : Bytes) (sc : Scan)
    → InText s sc
    → length sc.rest.unread < fuel
    → Ensures (InText s) (scan_fields valid fuel e sc)
unfolding scan_fields
scan_fields-Ensures valid zero e s sc within h = absurd (omega arith)
scan_fields-Ensures valid (suc fuel) e s sc within h = elim (Bool-cases (next_line sc).1) [
  | inl got ↦
      let inside = next_line_got s sc within got in
      rw got (
        >>=-Ensures _ (InText s) (store_line e (next_line sc).0 _) _ (store_line-Ensures e _ _)
          λ (more, stored) (at_same, rest_same).
            let kept : InText s stored = rw (at_same, rest_same) inside.0 in
            let others =
              scan_fields-Ensures valid fuel e s stored kept (rw rest_same (omega arith)) in
            ground arith)
  | inr missed ↦ rw missed (next_line_missed s sc within missed)
]

-- The line that ends the header.
pub end_of_header-Ensures :
    (s : Bytes) (sc : Scan)
    → InText s sc
    → Ensures (λ r. r.progress.chars_read ≤ length s + 3) (end_of_header sc)
unfolding end_of_header next_line
end_of_header-Ensures s sc within = elim (Bool-cases (bytes_eq line (b'\r' ∷ []))) [
  | inl ends ↦ rw ends (omega (arith, ap length ((bytes_eq_iff line (b'\r' ∷ [])).0 ends), eof_le))
  | inr other ↦ rw other tt
]
  where
    line : Bytes
    line = (getline b'\n' sc.line sc.rest).0

    eof_le : (if sc.rest.eof then 1 else 0) ≤ 1
    eof_le = ground arith

-- The first line of a text.
pub next_line_first :
    (s line : Bytes) (b : Bool) (p : Progress)
    → p.chars_read ≡ 0
    → let first =
        (next_line (record { progress = p; has_chunked = b; line = line; rest = stream s })).0 in
      InText s first × (length first.rest.unread ≤ length s)
unfolding next_line getline read_line
next_line_first [] line b p e = omega arith
next_line_first (c ∷ s) line b p e = ground (arith, read_line-Reads b'\n' line false (c ∷ s))
