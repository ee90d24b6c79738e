-- ===== src/CacheManager/Shadow.antt =====
-- Keys that hide entries: that of a response with a Vary field, and one that two nodes have.
use proxy_cache_server.Prelude.{
  ℕ, ◌≡◌, ◌≢◌, ap, inl, inr, true, false, List, ◌∷◌, ◌++◌, none, some, is_some, arith, leb, length,
  length-append, Bool-cases, Option-cases,
}
use proxy_cache_server.Prelude.Int.{ℤ}
use proxy_cache_server.Text.{Bytes, codes, bytes_eq, is_empty}
use proxy_cache_server.Text.Equality.{bytes_eq_ne}
use proxy_cache_server.Headers.{get_header}
use proxy_cache_server.Libc.{Libc}
use proxy_cache_server.Logger.{Logger}
use proxy_cache_server.HttpResponse.{HttpResponse, is_cacheable}
use proxy_cache_server.CacheManager.{
  CacheManager, CacheEntry, Node, map_find, is_in_cache, pop_back, evict_if_needed, push_front,
  cache_key, get_expiry_time, store_cacheable, store_response,
}
use proxy_cache_server.CacheManager.MapLaws.{
  map_find-map_set, map_find-map_erase_self, map_erase_absent,
}
use proxy_cache_server.CacheManager.Valid.{IsValid}
use proxy_cache_server.CacheManager.Preserved.{announce_cache}

-- An eviction adds no key to the map.
evict_absent :
    (c : CacheManager) (l : Logger) (key : Bytes)
    → map_find key c.cache_map ≡ none
    → map_find key (evict_if_needed c l).0.cache_map ≡ none
unfolding evict_if_needed
evict_absent c l key absent = elim (Option-cases (pop_back c.cache_list)) [
  | inl empty ↦ rw (empty, evict_if_needed) absent
  | inr ((last, rest), popped) ↦ elim (Bool-cases (leb c.cache_capacity (length c.cache_list))) [
    | inl full ↦
        rw (popped, evict_if_needed, full) (map_erase_absent last.key key c.cache_map absent)
    | inr room ↦ rw (popped, evict_if_needed, room) absent
  ]
]

push_front_absent :
    (k key : Bytes) (entry : CacheEntry) (c : CacheManager)
    → bytes_eq k key ≡ false
    → map_find key c.cache_map ≡ none
    → map_find key (push_front k entry c).cache_map ≡ none
unfolding push_front
push_front_absent k key entry c other absent =
    ground (arith, map_find-map_set k key c.next_address c.cache_map)

-- A store adds no key to the map but that of the response.
store_absent :
    (libc : Libc) (now later : ℤ) (id : ℕ) (url : Bytes) (r : HttpResponse) (c : CacheManager)
    (l : Logger) (key : Bytes)
    → bytes_eq (cache_key url (is_cacheable r).1) key ≡ false
    → map_find key c.cache_map ≡ none
    → map_find key (store_response libc now later id url r c l).cache.cache_map ≡ none
unfolding store_response store_cacheable
store_absent libc now later id url r c l key other absent =
    let kept = evict_absent c l key absent in
    elim (Bool-cases (is_cacheable r).0) [
      | inr refused ↦ rw (refused, store_response) absent
      | inl cacheable ↦
          let (c', l') = evict_if_needed c l in
          elim (Option-cases (get_expiry_time libc now (is_cacheable r).1 l')) [
            | inl raised ↦ rw (cacheable, store_response, raised, store_cacheable) kept
            | inr ((expiry, l''), dated) ↦
                rw (cacheable, store_response, dated, store_cacheable, announce_cache)
                  (push_front_absent _ key _ c' other kept)
          ]
    ]

pub store-is_in_cache_none :
    (libc : Libc) (now later : ℤ) (id : ℕ) (url : Bytes) (r : HttpResponse) (c : CacheManager)
    (l : Logger) (key : Bytes)
    → bytes_eq (cache_key url (is_cacheable r).1) key ≡ false
    → is_in_cache key c ≡ false
    → is_in_cache key (store_response libc now later id url r c l).cache ≡ false
unfolding is_in_cache
store-is_in_cache_none libc now later id url r c l key other absent =
    let gone : map_find key c.cache_map ≡ none = ground arith in
    ap is_some (store_absent libc now later id url r c l key other gone)

longer_ne : (url vary : Bytes) → url ++ (b'|' ∷ vary) ≢ url
longer_ne url vary e =
    let sizes = ap length e in let size = length-append url (b'|' ∷ vary) in ground arith

-- A response with a Vary field that is not empty: `store_response` never puts the URL it is asked
-- to store under into the cache. `is_in_cache` of the URL is false after it where it was before.
pub store-is_in_cache_vary :
    (libc : Libc) (now later : ℤ) (id : ℕ) (url : Bytes) (r : HttpResponse) (c : CacheManager)
    (l : Logger)
    → is_empty (get_header (codes "Vary") (is_cacheable r).1.headers) ≡ false
    → is_in_cache url c ≡ false
    → is_in_cache url (store_response libc now later id url r c l).cache ≡ false
unfolding is_in_cache
store-is_in_cache_vary libc now later id url r c l varies absent =
    let vary = get_header (codes "Vary") (is_cacheable r).1.headers in
    let key : cache_key url (is_cacheable r).1 ≡ url ++ (b'|' ∷ vary) =
      unfold cache_key in ground arith in
    let other : bytes_eq (cache_key url (is_cacheable r).1) url ≡ false =
      bytes_eq_ne _ url (rw key (longer_ne url vary)) in
    let gone : map_find url c.cache_map ≡ none = ground arith in
    ap is_some (store_absent libc now later id url r c l url other gone)

-- A full cache: after a store of another key, the key of the last node is not in the cache, also
-- where a node that stays in the list has the same key, as a second store of one URL leaves it. The
-- entry used last is then lost while its node still takes up room.
pub store-is_in_cache_last :
    (libc : Libc) (now later : ℤ) (id : ℕ) (url : Bytes) (r : HttpResponse) (c : CacheManager)
    (l : Logger) (last : Node) (rest : List Node)
    → IsValid c
    → (is_cacheable r).0 ≡ true
    → pop_back c.cache_list ≡ some (last, rest)
    → leb c.cache_capacity (length c.cache_list) ≡ true
    → bytes_eq (cache_key url (is_cacheable r).1) last.key ≡ false
    → is_in_cache last.key (store_response libc now later id url r c l).cache ≡ false
unfolding is_in_cache store_response store_cacheable
store-is_in_cache_last libc now later id url r c l last rest v cacheable popped full other =
    let gone : map_find last.key (evict_if_needed c l).0.cache_map ≡ none =
      unfold evict_if_needed in
      rw (popped, evict_if_needed, full) (map_find-map_erase_self last.key c.cache_map v.unique) in
    let (c', l') = evict_if_needed c l in
    elim (Option-cases (get_expiry_time libc now (is_cacheable r).1 l')) [
      | inl raised ↦ rw (cacheable, store_response, raised, store_cacheable) (ap is_some gone)
      | inr ((expiry, l''), dated) ↦
          rw (cacheable, store_response, dated, store_cacheable, announce_cache)
            (ap is_some (push_front_absent _ last.key _ c' other gone))
    ]
