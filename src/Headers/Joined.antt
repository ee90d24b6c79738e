-- ===== src/Headers/Joined.antt =====
-- All the fields of a header, added to the map one by one as both parsers of docker-deploy/src do, and what
-- the map has then by its names and values alone.
pub mod Entered
pub mod Laws
use proxy_cache_server.Prelude.{
  ◌≡◌, refl, sym, ap, ◌∙◌, ◌⊎◌, inl, inr, Bool, true, false, not, ◌&&◌, ◌||◌, List, [], ◌∷◌, ◌++◌,
  Option, none, some, is_some, arith, append-nil, append_assoc, if◌then◌else◌, Bool-cases,
  Option-cases,
}
use mathlib.Core.Option.{map}
use proxy_cache_server.Text.{Bytes, codes, bytes_eq, is_empty}
use proxy_cache_server.Text.Equality.{bytes_eq_iff, bytes_eq_refl}
use proxy_cache_server.Headers.{
  Headers, lookup, has_header, insert, member, can_duplicate, can_duplicate_field_name, combine,
  add_field,
}
use proxy_cache_server.Headers.Laws.{lookup-insert}

-- The fields of a header enter the map one by one, and a name that may not be repeated ends it.
unfoldable pub add_all : List (Bytes × Bytes) → Headers → Option Headers
add_all [] h = some h
add_all ((key, value) ∷ fields) h = elim (add_field key value h) [
  | none ↦ none
  | some g ↦ add_all fields g
]

-- The values of a name, in order.
unfoldable pub values : Bytes → List (Bytes × Bytes) → List Bytes
values name [] = []
values name ((key, value) ∷ fields) =
    let rest = values name fields in if bytes_eq key name then value ∷ rest else rest

-- Further values, without the empty ones, each behind a comma and a space.
unfoldable pub further : List Bytes → Bytes
further [] = []
further (v ∷ vs) = let rest = further vs in if is_empty v then rest else codes ", " ++ (v ++ rest)

-- What further values of a name add to the first: of Set-Cookie nothing.
unfoldable pub appended : Bytes → List Bytes → Bytes
appended name vs = if bytes_eq name (codes "Set-Cookie") then [] else further vs

-- The entry of a name by its values.
unfoldable pub joined : Bytes → List Bytes → Option Bytes
joined name [] = none
joined name (v ∷ vs) = some (v ++ appended name vs)

unfoldable pub occurs : Bytes → List (Bytes × Bytes) → Bool
occurs name [] = false
occurs name ((key, value) ∷ fields) = bytes_eq name key || occurs name fields

-- A name that is not in the list of those that may be repeated stands twice.
unfoldable pub repeats : List (Bytes × Bytes) → Bool
repeats [] = false
repeats ((key, value) ∷ fields) =
    occurs key fields && not (member key can_duplicate) || repeats fields

-- The same against the names of a map.
unfoldable pub clash : List (Bytes × Bytes) → Headers → Bool
clash [] h = false
clash ((key, value) ∷ fields) h =
    has_header key h && not (member key can_duplicate) || clash fields h

-- The entry of a name by that of the map before and its values behind.
unfoldable pub extended : Bytes → Option Bytes → List Bytes → Option Bytes
extended name none vs = joined name vs
extended name (some old) vs = some (old ++ appended name vs)
