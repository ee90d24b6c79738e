-- ===== src/Headers/Joined/Entered.antt =====
-- What one field does to the map.
use proxy_cache_server.Prelude.{
  ◌≡◌, refl, ap, ◌⊎◌, inl, inr, true, false, not, ◌&&◌, ◌||◌, List, ◌∷◌, ◌++◌, none, some, arith,
  append_assoc, if◌then◌else◌, Bool-cases, Option-cases,
}
use proxy_cache_server.Text.{Bytes, codes, bytes_eq, is_empty}
use proxy_cache_server.Text.Equality.{bytes_eq_iff}
use proxy_cache_server.Headers.{
  Headers, lookup, has_header, insert, member, can_duplicate, can_duplicate_field_name, combine,
  add_field,
}
use proxy_cache_server.Headers.Laws.{lookup-insert}
use proxy_cache_server.Headers.Joined.{further, appended, joined, extended}

-- The map after a field, as its reads show it.
pub record Entered (key value : Bytes) (h g : Headers) : Type 0 where
  pub names : (j : Bytes) → has_header j g ≡ (bytes_eq key j || has_header j h)
  pub entry :
      (j : Bytes) (vs : List Bytes)
      → extended j (lookup j g) vs
        ≡ extended j (lookup j h) (if bytes_eq key j then value ∷ vs else vs)

insert-Entered :
    (key value : Bytes) (h : Headers)
    → lookup key h ≡ none
    → Entered key value h (insert key value h)
unfolding extended joined
insert-Entered key value h missing = record {
  names = λ j. ground (arith, lookup-insert key j value h);
  entry = λ j vs. elim (Bool-cases (bytes_eq key j)) [
    | inr other ↦ rw (lookup-insert key j value h, other) refl
    | inl same ↦
        let one : key ≡ j = (bytes_eq_iff key j).0 same in
        let gone : lookup j h ≡ none = rw one at missing in
        rw (lookup-insert key j value h, same, gone) refl
  ];
}

appended-cons :
    (name value : Bytes) (vs : List Bytes)
    → appended name (value ∷ vs) ≡ (
        if not (bytes_eq name (codes "Set-Cookie")) && not (is_empty value)
        then codes ", " ++ (value ++ appended name vs)
        else appended name vs)
unfolding appended further
appended-cons name value vs = ground arith

longer-Entered :
    (key old value : Bytes) (h : Headers)
    → lookup key h ≡ some old
    → (not (bytes_eq key (codes "Set-Cookie")) && not (is_empty value)) ≡ true
    → Entered key value h (insert key (old ++ (codes ", " ++ value)) h)
unfolding extended
longer-Entered key old value h found longer =
    let new = old ++ (codes ", " ++ value) in
    record {
      names = λ j. elim (Bool-cases (bytes_eq key j)) [
        | inl same ↦ rw (lookup-insert key j new h, same) refl
        | inr other ↦ rw (lookup-insert key j new h, other) refl
      ];
      entry = λ j vs. elim (Bool-cases (bytes_eq key j)) [
        | inr other ↦ rw (lookup-insert key j new h, other) refl
        | inl same ↦
            let one : key ≡ j = (bytes_eq_iff key j).0 same in
            let there : lookup j h ≡ some old = rw one at found in
            let grows : (not (bytes_eq j (codes "Set-Cookie")) && not (is_empty value)) ≡ true =
              rw one at longer in
            rw (lookup-insert key j new h, same, there, appended-cons j value vs, grows)
              (ap some (append_assoc old (codes ", " ++ value) (appended j vs)))
      ];
    }

kept-Entered :
    (key old value : Bytes) (h : Headers)
    → lookup key h ≡ some old
    → (not (bytes_eq key (codes "Set-Cookie")) && not (is_empty value)) ≡ false
    → Entered key value h h
unfolding extended
kept-Entered key old value h found kept = record {
  names = λ j. elim (Bool-cases (bytes_eq key j)) [
    | inl same ↦
        let one : key ≡ j = (bytes_eq_iff key j).0 same in
        let there : lookup j h ≡ some old = rw one at found in rw (there, same) refl
    | inr other ↦ rw other refl
  ];
  entry = λ j vs. elim (Bool-cases (bytes_eq key j)) [
    | inr other ↦ rw other refl
    | inl same ↦
        let one : key ≡ j = (bytes_eq_iff key j).0 same in
        let there : lookup j h ≡ some old = rw one at found in
        let stays : (not (bytes_eq j (codes "Set-Cookie")) && not (is_empty value)) ≡ false =
          rw one at kept in
        rw (same, there, appended-cons j value vs, stays) refl
  ];
}

-- A field is refused where its name is there and may not be repeated, and enters the map elsewhere.
pub add_field-Entered :
    (key value : Bytes) (h : Headers)
    → (((has_header key h && not (member key can_duplicate)) ≡ true)
        × (add_field key value h ≡ none))
      ⊎ (((has_header key h && not (member key can_duplicate)) ≡ false)
          × (g : Headers) × (add_field key value h ≡ some g)
          × Entered key value h g)
unfolding add_field combine can_duplicate_field_name
add_field-Entered key value h = elim (Option-cases (lookup key h)) [
  | inl missing ↦ inr (
    rw missing refl,
    insert key value h,
    rw (missing, add_field) refl,
    insert-Entered key value h missing,
  )
  | inr (old, found) ↦ elim (Bool-cases (member key can_duplicate)) [
    | inr once ↦
        inl (
          rw (found, once) refl,
          rw (found, add_field, combine, can_duplicate_field_name, once) refl,
        )
    | inl repeatable ↦
        elim (Bool-cases (not (bytes_eq key (codes "Set-Cookie")) && not (is_empty value))) [
          | inl longer ↦ inr (
            rw (found, repeatable) refl,
            insert key (old ++ (codes ", " ++ value)) h,
            rw (found, add_field, combine, can_duplicate_field_name, repeatable, longer) refl,
            longer-Entered key old value h found longer,
          )
          | inr kept ↦ inr (
            rw (found, repeatable) refl,
            h,
            rw (found, add_field, combine, can_duplicate_field_name, repeatable, kept) refl,
            kept-Entered key old value h found kept,
          )
        ]
  ]
]
