-- ===== src/CacheManager/MapLaws.antt =====
-- Laws of `cache_map`, of the list's nodes, and of what each loses and keeps.
use proxy_cache_server.Prelude.{
  ℕ, ◌+◌, ◌≤◌, ◌<◌, ◌≡◌, ◌≢◌, refl, inl, inr, false, List, [], ◌∷◌, ◌++◌, none, some, arith, ◌==◌,
  if◌then◌else◌, Bool-cases, Option-cases, length, All,
}
use proxy_cache_server.Text.{Bytes, bytes_eq}
use proxy_cache_server.Text.Equality.{bytes_eq_iff}
use proxy_cache_server.CacheManager.{
  Node, Map, map_find, map_set, map_erase, deref, remove_node, pop_back,
}

pub map_find-map_set :
    (k j : Bytes) (a : ℕ) (m : Map)
    → map_find j (map_set k a m) ≡ (if bytes_eq k j then some a else map_find j m)
unfolding map_find map_set
map_find-map_set k j a [] = refl
map_find-map_set k j a ((i, b) ∷ m) =
    ground (arith, bytes_eq_iff k j, bytes_eq_iff i k, bytes_eq_iff i j, map_find-map_set k j a m)

pub map_find-map_erase_ne :
    (k j : Bytes) (m : Map) → bytes_eq k j ≡ false → map_find j (map_erase k m) ≡ map_find j m
unfolding map_find map_erase
map_find-map_erase_ne k j [] e = refl
map_find-map_erase_ne k j ((i, b) ∷ m) e =
    ground
      (arith, bytes_eq_iff k j, bytes_eq_iff i k, bytes_eq_iff i j, map_find-map_erase_ne k j m e)

-- One entry for each key.
abbrev pub IsUniqueMap : Map → Type 0
IsUniqueMap [] = Unit
IsUniqueMap ((k, a) ∷ m) = (map_find k m ≡ none) × IsUniqueMap m

pub map_find-map_erase_self :
    (k : Bytes) (m : Map) → IsUniqueMap m → map_find k (map_erase k m) ≡ none
unfolding map_find map_erase
map_find-map_erase_self k [] u = refl
map_find-map_erase_self k ((i, b) ∷ m) (absent, u) =
    ground (arith, bytes_eq_iff i k, map_find-map_erase_self k m u)

pub map_set-IsUniqueMap :
    (k : Bytes) (a : ℕ) (m : Map) → IsUniqueMap m → IsUniqueMap (map_set k a m)
unfolding map_set map_find
map_set-IsUniqueMap k a [] u = (refl, tt)
map_set-IsUniqueMap k a ((i, b) ∷ m) (absent, u) = elim (Bool-cases (bytes_eq i k)) [
  | inl same ↦ rw (same, map_set) (absent, u)
  | inr other ↦
      rw (other, map_set)
        (
          ground (arith, map_find-map_set k i a m, bytes_eq_iff k i, bytes_eq_iff i k),
          map_set-IsUniqueMap k a m u,
        )
]

pub map_erase_absent :
    (k j : Bytes) (m : Map) → map_find j m ≡ none → map_find j (map_erase k m) ≡ none
unfolding map_find map_erase
map_erase_absent k j [] e = refl
map_erase_absent k j ((i, b) ∷ m) e = ground (arith, map_erase_absent k j m)

pub map_erase-IsUniqueMap : (k : Bytes) (m : Map) → IsUniqueMap m → IsUniqueMap (map_erase k m)
unfolding map_erase
map_erase-IsUniqueMap k [] u = tt
map_erase-IsUniqueMap k ((i, b) ∷ m) (absent, u) = elim (Bool-cases (bytes_eq i k)) [
  | inl same ↦ rw (same, map_erase) u
  | inr other ↦ rw (other, map_erase) (map_erase_absent k i m absent, map_erase-IsUniqueMap k m u)
]

-- No two nodes have one address.
abbrev pub IsDistinct : List Node → Type 0
IsDistinct [] = Unit
IsDistinct (n ∷ l) = (deref n.address l ≡ none) × IsDistinct l

pub deref-address : (a : ℕ) (l : List Node) (n : Node) → deref a l ≡ some n → n.address ≡ a
unfolding deref
deref-address a [] n e = cc
deref-address a (m ∷ l) n e = ground (arith, deref-address a l n)

pub deref_below :
    (a bound : ℕ) (l : List Node) → All (λ n. n.address < bound) l → bound ≤ a → deref a l ≡ none
unfolding deref
deref_below a bound [] h le = refl
deref_below a bound (m ∷ l) (h, hs) le = ground (arith, deref_below a bound l hs)

-- To move a node to the front changes what no iterator points to.
pub deref-remove_node : (a b : ℕ) (l : List Node) → a ≢ b → deref a (remove_node b l) ≡ deref a l
unfolding deref remove_node
deref-remove_node a b [] ne = refl
deref-remove_node a b (m ∷ l) ne = ground (arith, deref-remove_node a b l)

deref_absent-remove_node :
    (a b : ℕ) (l : List Node) → deref a l ≡ none → deref a (remove_node b l) ≡ none
unfolding deref remove_node
deref_absent-remove_node a b [] e = refl
deref_absent-remove_node a b (m ∷ l) e = ground (arith, deref_absent-remove_node a b l)

pub deref-remove_node_self :
    (a : ℕ) (l : List Node) → IsDistinct l → deref a (remove_node a l) ≡ none
unfolding deref remove_node
deref-remove_node_self a [] d = refl
deref-remove_node_self a (m ∷ l) (absent, d) = ground (arith, deref-remove_node_self a l d)

pub remove_node-IsDistinct : (a : ℕ) (l : List Node) → IsDistinct l → IsDistinct (remove_node a l)
unfolding remove_node
remove_node-IsDistinct a [] d = tt
remove_node-IsDistinct a (m ∷ l) (absent, d) = elim (Bool-cases (m.address == a)) [
  | inl same ↦ rw (same, remove_node) d
  | inr other ↦
      rw (other, remove_node)
        (deref_absent-remove_node m.address a l absent, remove_node-IsDistinct a l d)
]

pub remove_node-All :
    (P : Node → Type 0) (a : ℕ) (l : List Node) → All P l → All P (remove_node a l)
unfolding remove_node
remove_node-All P a [] h = tt
remove_node-All P a (m ∷ l) (h, hs) = elim (Bool-cases (m.address == a)) [
  | inl same ↦ rw (same, remove_node) hs
  | inr other ↦ rw (other, remove_node) (h, remove_node-All P a l hs)
]

pub deref-All :
    (P : Node → Type 0) (a : ℕ) (l : List Node) {n : Node} → deref a l ≡ some n → All P l → P n
unfolding deref
deref-All P a [] e h = cc
deref-All P a (m ∷ l) {n} e (h, hs) = elim (Bool-cases (m.address == a)) [
  | inl same ↦ let is : m ≡ n = ground arith in rw (← is) h
  | inr other ↦ deref-All P a l (ground arith) hs
]

pub length-remove_node :
    (a : ℕ) (l : List Node) (n : Node)
    → deref a l ≡ some n
    → length (remove_node a l) + 1 ≡ length l
unfolding deref remove_node
length-remove_node a [] n e = cc
length-remove_node a (m ∷ l) n e = ground (arith, length-remove_node a l n)

-- The last node is taken from the end.
pub pop_back_snoc :
    (l : List Node) (last : Node) (rest : List Node)
    → pop_back l ≡ some (last, rest)
    → l ≡ rest ++ last ∷ []
unfolding pop_back
pop_back_snoc [] last rest e = cc
pop_back_snoc (n ∷ []) last rest e = ground arith
pop_back_snoc (n ∷ m ∷ l) last rest e = elim (Option-cases (pop_back (m ∷ l))) [
  | inl empty ↦ absurd (unfold pop_back in ground arith)
  | inr (a, popped) ↦ let shorter = pop_back_snoc (m ∷ l) a.0 a.1 popped in ground arith
]

pub deref-snoc_ne :
    (a : ℕ) (rest : List Node) (last : Node)
    → a ≢ last.address
    → deref a (rest ++ last ∷ []) ≡ deref a rest
unfolding deref
deref-snoc_ne a [] last ne = ground arith
deref-snoc_ne a (n ∷ rest) last ne = ground (arith, deref-snoc_ne a rest last ne)

pub IsDistinct-snoc :
    (rest : List Node) (last : Node)
    → IsDistinct (rest ++ last ∷ [])
    → IsDistinct rest × (deref last.address (rest ++ last ∷ []) ≡ some last)
unfolding deref
IsDistinct-snoc [] last d = (tt, ground arith)
IsDistinct-snoc (n ∷ rest) last (absent, d) =
    let (others, there) = IsDistinct-snoc rest last d in
    let other : n.address ≢ last.address = λ e. ground arith in
    ((ground (arith, deref-snoc_ne n.address rest last other), others), ground arith)

pub All-snoc :
    (P : Node → Type 0) (rest : List Node) (last : Node) → All P (rest ++ last ∷ []) → All P rest
All-snoc P [] last h = tt
All-snoc P (n ∷ rest) last (h, hs) = (h, All-snoc P rest last hs)
