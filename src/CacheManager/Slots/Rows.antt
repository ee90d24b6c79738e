-- ===== src/CacheManager/Slots/Rows.antt =====
-- The list of nodes and the map of iterators are a row of slots: each operation on the one is the
-- operation on the other.
use proxy_cache_server.Prelude.{
  ℕ, suc, ◌≡◌, ◌≢◌, ◌<◌, refl, ap, inl, inr, Bool, true, false, ◌&&◌, List, [], ◌∷◌, ◌++◌, map,
  Option, none, some, leb, arith, ◌==◌, Bool-cases, Option-cases, length, All,
}
use proxy_cache_server.Text.{Bytes, bytes_eq}
use proxy_cache_server.Text.Equality.{bytes_eq_iff, bytes_eq_refl}
use proxy_cache_server.Logger.{Logger}
use proxy_cache_server.CacheManager.{
  CacheManager, CacheEntry, Node, Map, map_find, map_set, map_erase, deref, remove_node, push_front,
  pop_back, evict_if_needed,
}
use proxy_cache_server.CacheManager.MapLaws.{
  map_find-map_set, map_find-map_erase_ne, map_find-map_erase_self, IsUniqueMap, pop_back_snoc,
}
use proxy_cache_server.CacheManager.Valid.{IsValid}
use proxy_cache_server.CacheManager.Slots.{
  Slot, find_live, take_out, retired, retire, last_slot, make_room, put,
}

-- A node is live where the map's iterator for its key points to it.
unfoldable pub points_to : Option ℕ → ℕ → Bool
points_to none a = false
points_to (some b) a = b == a

unfoldable pub slot_of : Map → Node → Slot
slot_of m n = record { key = n.key; entry = n.entry; live = points_to (map_find n.key m) n.address }

abbrev pub slots : Map → List Node → List Slot
slots m l = map (slot_of m) l

abbrev pub row : CacheManager → List Slot
row c = slots c.cache_map c.cache_list

skips :
    (m : Map) (key : Bytes) (n : Node)
    → map_find key m ≡ none
    → ((slot_of m n).live && bytes_eq (slot_of m n).key key) ≡ false
unfolding slot_of points_to
skips m key n absent = ground (arith, bytes_eq_iff n.key key)

pub find_live-none :
    (m : Map) (key : Bytes) (l : List Node)
    → map_find key m ≡ none
    → find_live key (slots m l) ≡ none
unfolding find_live
find_live-none m key [] absent = refl
find_live-none m key (n ∷ l) absent =
    rw (skips m key n absent, find_live) (find_live-none m key l absent)

-- The node of an iterator is the only one that the lookup of its key stops at.
stops :
    (m : Map) (key : Bytes) (a : ℕ) (n : Node)
    → map_find key m ≡ some a
    → n.address ≢ a
    → ((slot_of m n).live && bytes_eq (slot_of m n).key key) ≡ false
unfolding slot_of points_to
stops m key a n present other = ground (arith, bytes_eq_iff n.key key)

pub find_live-some :
    (m : Map) (key : Bytes) (a : ℕ) (l : List Node) (n : Node)
    → map_find key m ≡ some a
    → deref a l ≡ some n
    → n.key ≡ key
    → (find_live key (slots m l) ≡ some (slot_of m n))
      × (take_out key (slots m l) ≡ slots m (remove_node a l))
unfolding find_live take_out deref remove_node
find_live-some m key a [] n present found named = cc
find_live-some m key a (k ∷ l) n present found named = elim (Bool-cases (k.address == a)) [
  | inl same ↦
      let is : k ≡ n = ground arith in
      let hit : ((slot_of m k).live && bytes_eq (slot_of m k).key key) ≡ true =
        unfold slot_of points_to in ground (arith, bytes_eq_refl key) in
      rw (hit, find_live, take_out, same, remove_node) (ap (λ i. some (slot_of m i)) is, refl)
  | inr other ↦
      let later : deref a l ≡ some n = ground arith in
      let (rest, out) = find_live-some m key a l n present later named in
      let skip = stops m key a k present (ground arith) in
      rw (skip, find_live, take_out, other, remove_node) (rest, ap (◌∷◌ (slot_of m k)) out)
]

-- The entry of a key is erased: its slots are live no more.
slot_of-erase :
    (m : Map) (key : Bytes) (n : Node)
    → IsUniqueMap m
    → slot_of (map_erase key m) n ≡ retired key (slot_of m n)
unfolding slot_of retired points_to
slot_of-erase m key n u = elim (Bool-cases (bytes_eq key n.key)) [
  | inl same ↦
      let is = (bytes_eq_iff key n.key).0 same in
      let gone : map_find n.key (map_erase key m) ≡ none =
        rw (← is) (map_find-map_erase_self key m u) in
      ground (arith, bytes_eq_refl key)
  | inr other ↦
      let kept = map_find-map_erase_ne key n.key m other in
      ground (arith, bytes_eq_iff n.key key, bytes_eq_iff key n.key)
]

pub slots-erase :
    (m : Map) (key : Bytes) (l : List Node)
    → IsUniqueMap m
    → slots (map_erase key m) l ≡ retire key (slots m l)
slots-erase m key [] u = refl
slots-erase m key (n ∷ l) u = rw (slot_of-erase m key n u, slots-erase m key l u) refl

-- The entry of a key is set to a new node: its older slots are live no more.
slot_of-set :
    (m : Map) (key : Bytes) (a : ℕ) (n : Node)
    → n.address < a
    → slot_of (map_set key a m) n ≡ retired key (slot_of m n)
unfolding slot_of retired points_to
slot_of-set m key a n older =
    ground (arith, map_find-map_set key n.key a m, bytes_eq_iff n.key key, bytes_eq_iff key n.key)

pub slots-set :
    (m : Map) (key : Bytes) (a : ℕ) (l : List Node)
    → All (λ n. n.address < a) l
    → slots (map_set key a m) l ≡ retire key (slots m l)
slots-set m key a [] older = refl
slots-set m key a (n ∷ l) (older, rest) =
    rw (slot_of-set m key a n older, slots-set m key a l rest) refl

pub row-push_front :
    (key : Bytes) (entry : CacheEntry) (c : CacheManager)
    → IsValid c
    → row (push_front key entry c) ≡ put key entry (row c)
unfolding push_front put
row-push_front key entry c v =
    let n : Node = record { address = c.next_address; key = key; entry = entry } in
    let first : slot_of (map_set key c.next_address c.cache_map) n
        ≡ record { key = key; entry = entry; live = true } =
      unfold slot_of points_to in
      ground (arith, map_find-map_set key key c.next_address c.cache_map, bytes_eq_refl key) in
    rw (first, slots-set c.cache_map key c.next_address c.cache_list v.fresh) refl

pub last_slot_snoc : (row : List Slot) (s : Slot) → last_slot (row ++ s ∷ []) ≡ some (s, row)
unfolding last_slot
last_slot_snoc [] s = refl
last_slot_snoc (t ∷ row) s = rw (last_slot_snoc row s) refl

length-slots : (m : Map) (l : List Node) → length (slots m l) ≡ length l
length-slots m [] = refl
length-slots m (n ∷ l) = ap suc (length-slots m l)

slots-snoc :
    (m : Map) (l : List Node) (n : Node) → slots m (l ++ n ∷ []) ≡ slots m l ++ slot_of m n ∷ []
slots-snoc m [] n = refl
slots-snoc m (k ∷ l) n = ap (◌∷◌ (slot_of m k)) (slots-snoc m l n)

pop_back-none : (l : List Node) → pop_back l ≡ none → l ≡ []
unfolding pop_back
pop_back-none [] e = refl
pop_back-none (n ∷ l) e = absurd (ground arith)

pub row-evict :
    (c : CacheManager) (l : Logger)
    → IsValid c
    → row (evict_if_needed c l).0 ≡ make_room c.cache_capacity (row c)
unfolding evict_if_needed make_room
row-evict c l v = elim (Option-cases (pop_back c.cache_list)) [
  | inl empty ↦
      let nothing = pop_back-none c.cache_list empty in
      let none_left : last_slot (row c) ≡ none = rw nothing (unfold last_slot in refl) in
      rw (empty, evict_if_needed, none_left, make_room) refl
  | inr ((last, rest), popped) ↦
      let split = pop_back_snoc c.cache_list last rest popped in
      let size = length-slots c.cache_map c.cache_list in
      let cut : last_slot (row c) ≡ some (slot_of c.cache_map last, slots c.cache_map rest) =
        rw (split, slots-snoc) (last_slot_snoc _ _) in
      elim (Bool-cases (leb c.cache_capacity (length c.cache_list))) [
        | inl full ↦
            rw (popped, evict_if_needed, cut, make_room, size, full)
              (unfold slot_of in slots-erase c.cache_map last.key rest v.unique)
        | inr room ↦ rw (popped, evict_if_needed, cut, make_room, size, room) refl
      ]
]
