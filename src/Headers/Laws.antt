-- ===== src/Headers/Laws.antt =====
-- Laws of the header map: reads after writes and erasures, and one entry for each name.
use proxy_cache_server.Prelude.{
  ◌≡◌, refl, ◌⊎◌, inl, inr, false, [], ◌∷◌, ◌++◌, none, some, arith, if◌then◌else◌, Bool-cases,
  Option-cases,
}
use proxy_cache_server.Text.{Bytes, codes, bytes_eq}
use proxy_cache_server.Text.Equality.{bytes_eq_iff}
use proxy_cache_server.Headers.{Headers, lookup, insert, erase, combine, add_field}

pub lookup-insert :
    (k j v : Bytes) (h : Headers)
    → lookup j (insert k v h) ≡ (if bytes_eq k j then some v else lookup j h)
unfolding lookup insert
lookup-insert k j v [] = refl
lookup-insert k j v ((i, w) ∷ h) =
    ground (arith, bytes_eq_iff k j, bytes_eq_iff i k, bytes_eq_iff i j, lookup-insert k j v h)

pub lookup-erase_ne :
    (k j : Bytes) (h : Headers) → bytes_eq k j ≡ false → lookup j (erase k h) ≡ lookup j h
unfolding lookup erase
lookup-erase_ne k j [] e = refl
lookup-erase_ne k j ((i, w) ∷ h) e =
    ground (arith, bytes_eq_iff k j, bytes_eq_iff i k, bytes_eq_iff i j, lookup-erase_ne k j h e)

-- No name stands twice.
abbrev pub IsUnique : Headers → Type 0
IsUnique [] = Unit
IsUnique ((k, v) ∷ h) = (lookup k h ≡ none) × IsUnique h

pub lookup-erase_self : (k : Bytes) (h : Headers) → IsUnique h → lookup k (erase k h) ≡ none
unfolding lookup erase
lookup-erase_self k [] u = refl
lookup-erase_self k ((i, w) ∷ h) (absent, u) =
    ground (arith, bytes_eq_iff i k, lookup-erase_self k h u)

pub insert-IsUnique : (k v : Bytes) (h : Headers) → IsUnique h → IsUnique (insert k v h)
unfolding insert lookup
insert-IsUnique k v [] u = (refl, tt)
insert-IsUnique k v ((i, w) ∷ h) (absent, u) = elim (Bool-cases (bytes_eq i k)) [
  | inl same ↦ rw (same, insert) (absent, u)
  | inr other ↦
      rw (other, insert)
        (
          ground (arith, lookup-insert k i v h, bytes_eq_iff k i, bytes_eq_iff i k),
          insert-IsUnique k v h u,
        )
]

erase_absent : (k j : Bytes) (h : Headers) → lookup j h ≡ none → lookup j (erase k h) ≡ none
unfolding lookup erase
erase_absent k j [] e = refl
erase_absent k j ((i, w) ∷ h) e = ground (arith, erase_absent k j h)

pub erase-IsUnique : (k : Bytes) (h : Headers) → IsUnique h → IsUnique (erase k h)
unfolding erase
erase-IsUnique k [] u = tt
erase-IsUnique k ((i, w) ∷ h) (absent, u) = elim (Bool-cases (bytes_eq i k)) [
  | inl same ↦ rw (same, erase) u
  | inr other ↦ rw (other, erase) (erase_absent k i h absent, erase-IsUnique k h u)
]

combine_cases :
    (key old value : Bytes) (h : Headers) {g : Headers}
    → combine key old value h ≡ some g
    → (g ≡ h) ⊎ (g ≡ insert key (old ++ (codes ", " ++ value)) h)
unfolding combine
combine_cases key old value h e = ground arith

-- The map after a field is the map before it, or has one entry written.
pub add_field_cases :
    (key value : Bytes) (h : Headers) {g : Headers}
    → add_field key value h ≡ some g
    → (g ≡ h) ⊎ ((w : Bytes) × (g ≡ insert key w h))
unfolding add_field
add_field_cases key value h e = elim (Option-cases (lookup key h)) [
  | inl missing ↦ inr (value, ground arith)
  | inr (old, found) ↦ elim (combine_cases key old value h (ground arith)) [
    | inl same ↦ inl same
    | inr written ↦ inr (old ++ (codes ", " ++ value), written)
  ]
]

-- A field changes the entry of its own name only, and leaves one entry for each name.
pub add_field_keeps :
    (key value : Bytes) (h : Headers) {g : Headers}
    → add_field key value h ≡ some g
    → IsUnique h
    → IsUnique g × ((j : Bytes) → bytes_eq key j ≡ false → lookup j g ≡ lookup j h)
add_field_keeps key value h e u = elim (add_field_cases key value h e) [
  | inl same ↦ rw same (u, λ j ne. refl)
  | inr (w, written) ↦
      rw written (insert-IsUnique key w h u, λ j ne. ground (arith, lookup-insert key j w h))
]
