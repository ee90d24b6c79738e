-- ===== src/Message/Lines/Fields.antt =====
-- What the loop over the header keeps of the header map.
use proxy_cache_server.Prelude.{
  ℕ, zero, suc, inl, inr, Bool, Option, arith, Bool-cases, Option-cases, if◌then◌else◌,
}
use proxy_cache_server.Text.{Bytes}
use proxy_cache_server.Headers.{add_field}
use proxy_cache_server.Headers.Laws.{IsUnique, add_field_keeps}
use proxy_cache_server.Message.{
  ok, Scan, Line, field, bad, unreadable, next_line, store_line, decode_line, scan_fields,
  end_of_header,
}
use proxy_cache_server.Message.Bind.{Yields, >>=-Yields}

store_line-Yields :
    (e : Option ℕ) (sc : Scan) (l : Line)
    → IsUnique sc.progress.headers
    → Yields (λ a. IsUnique a.1.progress.headers) (store_line e sc l)
unfolding store_line
store_line-Yields e sc unreadable u = tt
store_line-Yields e sc bad u = tt
store_line-Yields e sc (field key value) u =
    elim (Option-cases (add_field key value sc.progress.headers)) [
      | inl refused ↦ rw (refused, store_line) tt
      | inr (g, added) ↦ rw (added, store_line) (add_field_keeps key value _ added u).0
    ]

-- The loop over the header leaves one entry for each name.
pub scan_fields-Yields :
    (valid : Bytes → Bool) (fuel : ℕ) (e : Option ℕ) (sc : Scan)
    → IsUnique sc.progress.headers
    → Yields (λ r. IsUnique r.progress.headers) (scan_fields valid fuel e sc)
unfolding scan_fields
scan_fields-Yields valid zero e sc u = tt
scan_fields-Yields valid (suc fuel) e sc u =
    let next = (next_line sc).0 in
    let fields =
      >>=-Yields (λ a. IsUnique a.1.progress.headers) (λ (r : Scan). IsUnique r.progress.headers)
        (store_line e next (decode_line valid next.line))
        (λ a. let others = scan_fields valid fuel e a.1 in if a.0 then others else ok a.1)
        (store_line-Yields e next _ (unfold next_line in u))
        λ (more, stored) kept. elim (Bool-cases more) [
          | inl on ↦ rw on (scan_fields-Yields valid fuel e stored kept)
          | inr last ↦ rw last kept
        ] in
    elim (Bool-cases (next_line sc).1) [
      | inl got ↦ rw (got, scan_fields) fields
      | inr missed ↦ rw (missed, scan_fields) u
    ]

pub end_of_header-Yields :
    (sc : Scan)
    → IsUnique sc.progress.headers
    → Yields (λ r. IsUnique r.progress.headers) (end_of_header sc)
unfolding end_of_header next_line
end_of_header-Yields sc u = ground arith
