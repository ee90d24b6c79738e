-- ===== src/CacheManager/Valid.antt =====
-- The invariant of the cache, on the iterators of its map, and the operations.
use proxy_cache_server.Prelude.{
  ℕ, suc, ◌+◌, ◌≤◌, ◌<◌, ◌≡◌, ◌≢◌, refl, sym, ap, ◌∙◌, ◌⊎◌, inl, inr, false, List, [], ◌∷◌, ◌++◌,
  none, some, arith, leb, ◌==◌, Bool-cases, Option-cases, length, length-append, All,
}
use proxy_cache_server.Text.{Bytes, bytes_eq}
use proxy_cache_server.Text.Equality.{bytes_eq_iff}
use proxy_cache_server.Logger.{Logger}
use proxy_cache_server.CacheManager.{
  CacheManager, CacheEntry, Node, Map, new_cache, map_find, map_set, map_erase, deref, remove_node,
  pop_back, evict_if_needed, push_front,
}
use proxy_cache_server.CacheManager.MapLaws.{
  map_find-map_set, map_find-map_erase_ne, IsUniqueMap, map_find-map_erase_self,
  map_set-IsUniqueMap, map_erase-IsUniqueMap, IsDistinct, deref-address, deref_below,
  deref-remove_node, deref-remove_node_self, remove_node-IsDistinct, remove_node-All, deref-All,
  length-remove_node, pop_back_snoc, deref-snoc_ne, IsDistinct-snoc, All-snoc,
}

abbrev pub Points : Map → List Node → Type 0
Points m l =
    (k : Bytes) (a : ℕ) → map_find k m ≡ some a → (n : Node) × (deref a l ≡ some n) × (n.key ≡ k)

pub record IsValid (c : CacheManager) : Type 0 where
  pub points : Points c.cache_map c.cache_list
  pub unique : IsUniqueMap c.cache_map
  pub distinct : IsDistinct c.cache_list
  pub fresh : All (λ n. n.address < c.next_address) c.cache_list
  pub bounded : (length c.cache_list ≤ c.cache_capacity) ⊎ (length c.cache_list ≤ 1)

pub new_cache-IsValid : (capacity : ℕ) → IsValid (new_cache capacity)
new_cache-IsValid capacity = record {
  points = λ k a e. absurd (unfold map_find in cc);
  unique = tt;
  distinct = tt;
  fresh = tt;
  bounded = ground arith;
}

-- To move a node to the front changes nothing that an iterator points to.
pub deref_splice :
    (a b : ℕ) (n : Node) (l : List Node)
    → deref a l ≡ some n
    → deref b (n ∷ remove_node n.address l) ≡ deref b l
deref_splice a b n l found = elim (Bool-cases (n.address == b)) [
  | inl same ↦ unfold deref in ground (arith, deref-address a l n found)
  | inr other ↦ unfold deref in ground (arith, deref-remove_node b n.address l (ground arith))
]

pub splice-IsValid :
    (c : CacheManager) (a : ℕ) (n : Node)
    → IsValid c
    → deref a c.cache_list ≡ some n
    → IsValid (record c { cache_list = n ∷ remove_node n.address c.cache_list })
splice-IsValid c a n v found = record {
  points = λ k b e.
      let (m, there, key) = v.points k b e in
      (m, deref_splice a b n c.cache_list found ∙ there, key);
  unique = v.unique;
  distinct = (
    deref-remove_node_self n.address c.cache_list v.distinct,
    remove_node-IsDistinct n.address c.cache_list v.distinct,
  );
  fresh = (
    deref-All (λ m. m.address < c.next_address) a c.cache_list found v.fresh,
    remove_node-All (λ m. m.address < c.next_address) n.address c.cache_list v.fresh,
  );
  bounded =
      let here = deref-address a c.cache_list n found in
      let size =
        length-remove_node n.address c.cache_list n (ap (λ b. deref b c.cache_list) here ∙ found) in
      ground (arith, size);
}

empty-pop_back : (l : List Node) → pop_back l ≡ none → length l ≡ 0
unfolding pop_back
empty-pop_back [] e = refl
empty-pop_back (n ∷ l) e = absurd (ground arith)

All-weaken :
    (bound : ℕ) (l : List Node)
    → All (λ n. n.address < bound) l
    → All (λ n. n.address < suc bound) l
All-weaken bound [] h = tt
All-weaken bound (n ∷ l) (h, hs) = (omega arith, All-weaken bound l hs)

-- Room for a new node.
abbrev HasRoom : CacheManager → Type 0
HasRoom c = (length c.cache_list < c.cache_capacity) ⊎ (length c.cache_list ≡ 0)

-- The cache without its last node.
abbrev pub evicted : CacheManager → Node → List Node → CacheManager
evicted c last rest = record c { cache_map = map_erase last.key c.cache_map; cache_list = rest }

-- The key of the last node has no entry left.
erased_ne :
    (c : CacheManager) (last : Node) (k : Bytes) (a : ℕ)
    → IsUniqueMap c.cache_map
    → map_find k (map_erase last.key c.cache_map) ≡ some a
    → bytes_eq last.key k ≡ false
erased_ne c last k a u found = elim (Bool-cases (bytes_eq last.key k)) [
  | inl same ↦
      let is : last.key ≡ k = (bytes_eq_iff last.key k).0 same in
      let gone = map_find-map_erase_self last.key c.cache_map u in absurd (ground arith)
  | inr other ↦ other
]

-- An entry of another key points to another node, which stays.
evicted-Points :
    (c : CacheManager) (last : Node) (rest : List Node)
    → IsValid c
    → c.cache_list ≡ rest ++ last ∷ []
    → deref last.address c.cache_list ≡ some last
    → Points (map_erase last.key c.cache_map) rest
evicted-Points c last rest v e at_end k a found =
    let other = erased_ne c last k a v.unique found in
    let before = sym (map_find-map_erase_ne last.key k c.cache_map other) ∙ found in
    let (n, there, key) = v.points k a before in
    let apart : a ≢ last.address = λ same. ground (arith, bytes_eq_iff last.key k) in
    (n, sym (deref-snoc_ne a rest last apart) ∙ ap (deref a) (sym e) ∙ there, key)

evicted-IsValid :
    (c : CacheManager) (last : Node) (rest : List Node)
    → IsValid c
    → c.cache_list ≡ rest ++ last ∷ []
    → IsValid (evicted c last rest) × HasRoom (evicted c last rest)
evicted-IsValid c last rest v e =
    let size : length c.cache_list ≡ length rest + 1 =
      ap length e ∙ length-append rest (last ∷ []) in
    let cut = IsDistinct-snoc rest last (rw e at v.distinct) in
    (
      record {
        points = evicted-Points c last rest v e (ap (deref last.address) e ∙ cut.1);
        unique = map_erase-IsUniqueMap last.key c.cache_map v.unique;
        distinct = cut.0;
        fresh = All-snoc (λ n. n.address < c.next_address) rest last (rw e at v.fresh);
        bounded = ground (arith, v.bounded);
      },
      ground (arith, v.bounded),
    )

-- What eviction does: nothing on a list with room, and else it drops the last node.
pub evict_cases :
    (c : CacheManager) (l : Logger)
    → (((evict_if_needed c l).0 ≡ c) × HasRoom c)
      ⊎ ((last : Node) × (rest : List Node) × (c.cache_list ≡ rest ++ last ∷ [])
          × ((evict_if_needed c l).0 ≡ evicted c last rest))
unfolding evict_if_needed
evict_cases c l = elim (Option-cases (pop_back c.cache_list)) [
  | inl empty ↦ inl (ground arith, inr (empty-pop_back c.cache_list empty))
  | inr ((last, rest), popped) ↦ elim (Bool-cases (leb c.cache_capacity (length c.cache_list))) [
    | inl full ↦ inr (last, rest, pop_back_snoc c.cache_list last rest popped, ground arith)
    | inr room ↦ inl (ground arith, inl (ground arith))
  ]
]

pub evict-IsValid :
    (c : CacheManager) (l : Logger)
    → IsValid c
    → IsValid (evict_if_needed c l).0 × HasRoom (evict_if_needed c l).0
evict-IsValid c l v = elim (evict_cases c l) [
  | inl (same, room) ↦ rw same (v, room)
  | inr (last, rest, e, after) ↦ rw after (evicted-IsValid c last rest v e)
]

push_front-Points :
    (key : Bytes) (entry : CacheEntry) (c : CacheManager)
    → IsValid c
    → Points
        (map_set key c.next_address c.cache_map)
        (record { address = c.next_address; key = key; entry = entry } ∷ c.cache_list)
push_front-Points key entry c v k a found =
    let written = map_find-map_set key k c.next_address c.cache_map in
    elim (Bool-cases (bytes_eq key k)) [
      | inl same ↦ (
        record { address = c.next_address; key = key; entry = entry },
        unfold deref in ground arith,
        (bytes_eq_iff key k).0 same,
      )
      | inr other ↦
          let (n, there, named) = v.points k a (ground arith) in
          let old = deref-All (λ m. m.address < c.next_address) a c.cache_list there v.fresh in
          let here = deref-address a c.cache_list n there in
          (n, unfold deref in ground arith, named)
    ]

pub push_front-IsValid :
    (key : Bytes) (entry : CacheEntry) (c : CacheManager)
    → IsValid c
    → HasRoom c
    → IsValid (push_front key entry c)
unfolding push_front
push_front-IsValid key entry c v room = record {
  points = push_front-Points key entry c v;
  unique = map_set-IsUniqueMap key c.next_address c.cache_map v.unique;
  distinct =
      (deref_below c.next_address c.next_address c.cache_list v.fresh (omega arith), v.distinct);
  fresh = (omega arith, All-weaken c.next_address c.cache_list v.fresh);
  bounded = ground (arith, room);
}
