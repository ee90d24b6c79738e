-- ===== src/Headers/Joined/Laws.antt =====
-- What the header map has after all the fields.
use proxy_cache_server.Prelude.{
  ◌≡◌, refl, sym, ap, ◌∙◌, inl, inr, Bool, true, false, not, ◌&&◌, ◌||◌, List, [], ◌∷◌, none, some,
  arith, append-nil, if◌then◌else◌, Bool-cases, Option-cases,
}
use mathlib.Core.Option.{map}
use proxy_cache_server.Text.{Bytes, bytes_eq}
use proxy_cache_server.Text.Equality.{bytes_eq_iff}
use proxy_cache_server.Headers.{Headers, lookup, has_header, member, can_duplicate}
use proxy_cache_server.Headers.Joined.{
  add_all, values, further, appended, joined, occurs, repeats, clash, extended,
}
use proxy_cache_server.Headers.Joined.Entered.{Entered, add_field-Entered}

either-absorb : (d a b c : Bool) → (not d || (a && not d || c)) ≡ (not d || (b && not d || c))
either-absorb false a b c = refl
either-absorb true true true c = refl
either-absorb true true false c = refl
either-absorb true false true c = refl
either-absorb true false false c = refl

or-swap : (a b c : Bool) → (a || (b || c)) ≡ (b || (a || c))
or-swap true true c = refl
or-swap true false c = refl
or-swap false true c = refl
or-swap false false c = refl

or-true : (a b : Bool) → ((a || b) || true) ≡ true
or-true true b = refl
or-true false true = refl
or-true false false = refl

or-false : (a : Bool) → (a || false) ≡ a
or-false true = refl
or-false false = refl

or-turn : (a b c : Bool) → (b || (a || c)) ≡ ((a || b) || c)
or-turn true true c = refl
or-turn true false c = refl
or-turn false true c = refl
or-turn false false c = refl

extended-nil : (name old : Bytes) → extended name (some old) [] ≡ some old
unfolding extended appended further
extended-nil name old = ground (arith, append-nil old)

-- What a field that has entered adds to the clashes of the fields behind it.
clash-Entered :
    (key value : Bytes) (h g : Headers) (fields : List (Bytes × Bytes))
    → Entered key value h g
    → clash fields g ≡ (occurs key fields && not (member key can_duplicate) || clash fields h)
unfolding clash occurs
clash-Entered key value h g [] entered = refl
clash-Entered key value h g ((j, v) ∷ fields) entered =
    let rest = clash-Entered key value h g fields entered in
    let name = entered.names j in
    elim (Bool-cases (bytes_eq key j)) [
      | inl same ↦
          let one : key ≡ j = (bytes_eq_iff key j).0 same in
          let alike : member key can_duplicate ≡ member j can_duplicate =
            ap (λ k. member k can_duplicate) one in
          rw (name, same, rest, alike)
            (either-absorb (member j can_duplicate) (occurs key fields) (has_header j h)
              (clash fields h))
      | inr other ↦
          rw (name, other, rest)
            (or-swap (has_header j h && not (member j can_duplicate)) _ (clash fields h))
    ]

-- From any map.
add_all-extended :
    (fields : List (Bytes × Bytes)) (h : Headers) (name : Bytes)
    → map (lookup name) (add_all fields h) ≡ (
        if repeats fields || clash fields h
        then none
        else some (extended name (lookup name h) (values name fields)))
unfolding add_all repeats clash values
add_all-extended [] h name = elim (Option-cases (lookup name h)) [
  | inl missing ↦ rw missing (unfold extended joined in refl)
  | inr (old, found) ↦ rw found (ap some (sym (extended-nil name old)))
]
add_all-extended ((key, value) ∷ fields) h name = elim (add_field-Entered key value h) [
  | inl (clashes, refused) ↦
      rw (refused, add_all, clashes)
        (sym (
          ap
            (λ b.
              if b
              then none
              else some (extended name (lookup name h) (values name ((key, value) ∷ fields))))
            (or-true _ (repeats fields))))
  | inr (fits, g, added, entered) ↦
      rw (added, add_all, fits)
        (add_all-extended fields g name
          ∙ rw (clash-Entered key value h g fields entered, entered.entry name (values name fields))
              (ap
                (λ b.
                  if b
                  then none
                  else some (extended name (lookup name h) (values name ((key, value) ∷ fields))))
                (or-turn _ (repeats fields) (clash fields h))))
]

clash-nil : (fields : List (Bytes × Bytes)) → clash fields [] ≡ false
unfolding clash lookup
clash-nil [] = refl
clash-nil ((key, value) ∷ fields) = clash-nil fields

-- All the fields of a header, added to an empty map: they are refused exactly where a name that is not
-- in the list of those that may be repeated stands twice. Elsewhere the entry of a name that stands in
-- the header is its first value, and behind it, except for Set-Cookie, the further ones that are not
-- empty, in order, each behind a comma and a space; and a name that does not stand there has none.
pub add_all-joined :
    (fields : List (Bytes × Bytes)) (name : Bytes)
    → map (lookup name) (add_all fields [])
      ≡ (if repeats fields then none else some (joined name (values name fields)))
unfolding extended lookup joined
add_all-joined fields name =
    add_all-extended fields [] name
    ∙ ap (λ b. if b then none else some (joined name (values name fields)))
        (ap (λ c. repeats fields || c) (clash-nil fields) ∙ or-false (repeats fields))
