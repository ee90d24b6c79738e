-- ===== src/Message/Lines/Starts.antt =====
-- The position that the loop over the header has counted, and the stream.
use proxy_cache_server.Prelude.{
  ℕ, zero, suc, ◌+◌, ◌<◌, ◌≡◌, refl, sym, ap, ◌∙◌, ◌⊎◌, inl, inr, Bool, true, false, [], ◌∷◌,
  Option, arith, length, drop, drop-drop, length-drop, Bool-cases,
}
use proxy_cache_server.Text.{Bytes, Stream, stream, split_at, read_line, getline, bytes_eq}
use proxy_cache_server.Text.Equality.{bytes_eq_iff}
use proxy_cache_server.Message.{
  Progress, ◌>>=◌, Scan, Line, field, bad, unreadable, next_line, store_line, scan_fields,
  end_of_header,
}
use proxy_cache_server.Message.Bind.{Yields, >>=-Yields}
use proxy_cache_server.Message.Position.{
  Lined, after_line-drop, drop-cons, split_at_found, split_at_missed,
}

-- A position and what the stream has left there: the rest of the text or, at the end, a position
-- behind the text.
abbrev Agrees : Bytes → ℕ → Stream → Type 0
Agrees s i st = (st.eof ≡ false → drop i s ≡ st.unread) × (st.eof ≡ true → length s < i)

-- The same, or a stream at its end whose last read has given nothing.
abbrev Streams : Bytes → Scan → Type 0
Streams s sc = Agrees s sc.progress.chars_read sc.rest ⊎ ((sc.rest.eof ≡ true) × (sc.line ≡ []))

-- One read: the position behind the line that it gives, and where it gives none an empty line.
abbrev Reads : Bytes → ℕ → Bytes × Stream × Bool → Type 0
Reads s i (line, rest, got) =
    (got ≡ true → Agrees s (i + length line + 1) rest × Lined s (i + length line + 1))
    × (got ≡ false → (rest.eof ≡ true) × (line ≡ []))

read_line-Reads :
    (s : Bytes) (i : ℕ) (line unread : Bytes)
    → drop i s ≡ unread
    → Reads s i (read_line b'\n' line false unread)
unfolding read_line
read_line-Reads s i line [] e = (λ got. cc, λ missed. (refl, refl))
read_line-Reads s i line (c ∷ unread) e =
    let (before, after, _) = split_at b'\n' (c ∷ unread) in
    let n = length before in
    let rest_lem : length s ≡ i + length (c ∷ unread) =
      omega (arith, length-drop i s, ap length e) in
    elim (Bool-cases (split_at b'\n' (c ∷ unread)).2) [
      | inl found ↦
          let here : drop (i + n) s ≡ b'\n' ∷ after =
            sym (drop-drop i n s)
            ∙ ap (λ (t : Bytes). drop n t) e
            ∙ split_at_found b'\n' (c ∷ unread) found in
          (
            λ got. (
              (λ goes_on. drop-cons s (i + n) b'\n' after here, λ at_end. absurd (ground arith)),
              inl (after_line-drop s (i + n) after here),
            ),
            λ missed. cc,
          )
      | inr none_left ↦
          let past : length s < i + n + 1 =
            omega (arith, rest_lem, split_at_missed b'\n' (c ∷ unread) none_left) in
          (λ got. ((λ goes_on. absurd (ground arith), λ at_end. past), inr past), λ missed. cc)
    ]

getline-Reads :
    (s : Bytes) (i : ℕ) (line : Bytes) (st : Stream)
    → st.eof ≡ false
    → drop i s ≡ st.unread
    → Reads s i (getline b'\n' line st)
unfolding getline
getline-Reads s i line st goes_on e = rw goes_on (read_line-Reads s i line st.unread e)

-- A stream that has met its end leaves the line as it is.
getline_ended :
    (line : Bytes) (st : Stream)
    → st.eof ≡ true
    → getline b'\n' line st ≡ (line, record { unread = st.unread; eof = true }, false)
unfolding getline read_line
getline_ended line st ended = rw (ended, read_line) refl

next_line_got :
    (s : Bytes) (sc : Scan)
    → Streams s sc
    → (next_line sc).1 ≡ true
    → Agrees s (next_line sc).0.progress.chars_read (next_line sc).0.rest
unfolding next_line
next_line_got s sc streams got = elim (Bool-cases sc.rest.eof) [
  | inl ended ↦ let same = getline_ended sc.line sc.rest ended in absurd (ground arith)
  | inr goes_on ↦ elim streams [
    | inl agrees ↦
        ((getline-Reads s sc.progress.chars_read sc.line sc.rest goes_on (agrees.0 goes_on)).0
          got).0
    | inr done ↦ absurd (ground arith)
  ]
]

next_line_missed :
    (s : Bytes) (sc : Scan)
    → Streams s sc
    → (next_line sc).1 ≡ false
    → Streams s (record (next_line sc).0 { progress = sc.progress })
unfolding next_line
next_line_missed s sc streams missed = elim (Bool-cases sc.rest.eof) [
  | inl ended ↦ rw (getline_ended sc.line sc.rest ended) (elim streams [
    | inl agrees ↦ inl (λ goes_on. absurd (ground arith), λ at_end. agrees.1 ended)
    | inr done ↦ inr (refl, done.1)
  ])
  | inr goes_on ↦ elim streams [
    | inl agrees ↦ inr (
        (getline-Reads s sc.progress.chars_read sc.line sc.rest goes_on (agrees.0 goes_on)).1
          missed)
    | inr done ↦ absurd (ground arith)
  ]
]

-- The line that ends the header is no empty one.
next_line_end :
    (s : Bytes) (sc : Scan)
    → Streams s sc
    → bytes_eq (next_line sc).0.line (b'\r' ∷ []) ≡ true
    → Lined s (next_line sc).0.progress.chars_read
unfolding next_line
next_line_end s sc streams ends =
    let is_cr = (bytes_eq_iff (next_line sc).0.line (b'\r' ∷ [])).0 ends in
    elim (Bool-cases sc.rest.eof) [
      | inl ended ↦
          let same = getline_ended sc.line sc.rest ended in
          elim streams [
            | inl agrees ↦ inr (let past = agrees.1 ended in omega (arith, past))
            | inr done ↦ absurd (ground (arith, bytes_eq_iff sc.line (b'\r' ∷ [])))
          ]
      | inr goes_on ↦ elim streams [
        | inl agrees ↦
            let reads =
              getline-Reads s sc.progress.chars_read sc.line sc.rest goes_on (agrees.0 goes_on) in
            elim (Bool-cases (getline b'\n' sc.line sc.rest).2) [
              | inl got ↦ (reads.0 got).1
              | inr missed ↦
                  let (_, empty) = reads.1 missed in
                  absurd
                    (ground (arith, bytes_eq_iff (getline b'\n' sc.line sc.rest).0 (b'\r' ∷ [])))
            ]
        | inr done ↦ absurd (ground arith)
      ]
    ]

-- Storing a line leaves the position and the stream alone.
store_line-Agrees :
    (s : Bytes) (e : Option ℕ) (sc : Scan) (l : Line)
    → Agrees s sc.progress.chars_read sc.rest
    → Yields (λ a. Agrees s a.1.progress.chars_read a.1.rest) (store_line e sc l)
unfolding store_line
store_line-Agrees s e sc unreadable agrees = tt
store_line-Agrees s e sc bad agrees = tt
store_line-Agrees s e sc (field key value) agrees = ground arith

scan_fields-Streams :
    (valid : Bytes → Bool) (fuel : ℕ) (e : Option ℕ) (s : Bytes) (sc : Scan)
    → Streams s sc
    → Yields (Streams s) (scan_fields valid fuel e sc)
unfolding scan_fields
scan_fields-Streams valid zero e s sc streams = tt
scan_fields-Streams valid (suc fuel) e s sc streams = elim (Bool-cases (next_line sc).1) [
  | inl got ↦ rw got (
      >>=-Yields (λ a. Agrees s a.1.progress.chars_read a.1.rest) (Streams s)
        (store_line e (next_line sc).0 _) _
        (store_line-Agrees s e (next_line sc).0 _ (next_line_got s sc streams got))
        λ (more, stored) agrees. elim (Bool-cases more) [
          | inl on ↦ rw on (scan_fields-Streams valid fuel e s stored (inl agrees))
          | inr last ↦ rw last (inl agrees)
        ])
  | inr missed ↦ rw missed (next_line_missed s sc streams missed)
]

end_of_header-Lined :
    (s : Bytes) (sc : Scan)
    → Streams s sc
    → Yields (λ r. Lined s r.progress.chars_read) (end_of_header sc)
unfolding end_of_header
end_of_header-Lined s sc streams = elim (Bool-cases (bytes_eq (next_line sc).0.line (b'\r' ∷ []))) [
  | inl ends ↦ rw ends (next_line_end s sc streams ends)
  | inr other ↦ rw other tt
]

first_line-Streams :
    (s line : Bytes) (b : Bool) (p : Progress)
    → p.chars_read ≡ 0
    → Streams s
        (next_line (record { progress = p; has_chunked = b; line = line; rest = stream s })).0
unfolding next_line
first_line-Streams s line b p e =
    let start : drop p.chars_read s ≡ s = rw e refl in
    let reads = getline-Reads s p.chars_read line (stream s) refl start in
    elim (Bool-cases (getline b'\n' line (stream s)).2) [
      | inl got ↦ inl (reads.0 got).0
      | inr missed ↦ inr (reads.1 missed)
    ]

-- A header that is read to its end leaves the position at the beginning of a line.
pub header-Lined :
    (valid : Bytes → Bool) (fuel : ℕ) (e : Option ℕ) (s line : Bytes) (b : Bool) (p : Progress)
    → p.chars_read ≡ 0
    → let first =
        (next_line (record { progress = p; has_chunked = b; line = line; rest = stream s })).0 in
      Yields (λ r. Lined s r.progress.chars_read) (scan_fields valid fuel e first >>= end_of_header)
header-Lined valid fuel e s line b p at_start =
    >>=-Yields (Streams s) _ _ end_of_header
      (scan_fields-Streams valid fuel e s _ (first_line-Streams s line b p at_start))
      (end_of_header-Lined s)
