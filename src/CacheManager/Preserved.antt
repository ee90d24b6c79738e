-- ===== src/CacheManager/Preserved.antt =====
-- The operations of the cache and its invariant.
use proxy_cache_server.Prelude.{ℕ, ◌≡◌, ◌≢◌, inl, inr, some, arith, Bool-cases, Option-cases}
use proxy_cache_server.Prelude.Int.{ℤ}
use proxy_cache_server.Text.{Bytes}
use proxy_cache_server.Libc.{Libc}
use proxy_cache_server.Logger.{Logger}
use proxy_cache_server.HttpResponse.{HttpResponse, is_cacheable}
use proxy_cache_server.CacheManager.{
  CacheManager, Node, map_find, deref, is_expired, dangling, fetch_node, get_cached_response,
  evict_if_needed, get_expiry_time, announce, store_cacheable, store_response,
}
use proxy_cache_server.CacheManager.Valid.{
  IsValid, evict-IsValid, push_front-IsValid, splice-IsValid,
}

-- The log of a store does not touch the cache.
pub announce_cache :
    (libc : Libc) (later : ℤ) (id : ℕ) (r : HttpResponse) (c : CacheManager) (l : Logger)
    → (announce libc later id r c l).cache ≡ c
unfolding announce
announce_cache libc later id r c l = ground arith

-- Storing keeps the invariant, also where an exception leaves the call after the eviction.
pub store_response-IsValid :
    (libc : Libc) (now later : ℤ) (id : ℕ) (url : Bytes) (r : HttpResponse) (c : CacheManager)
    (l : Logger)
    → IsValid c
    → IsValid (store_response libc now later id url r c l).cache
unfolding store_response store_cacheable
store_response-IsValid libc now later id url r c l v = elim (Bool-cases (is_cacheable r).0) [
  | inr refused ↦ rw (refused, store_response) v
  | inl cacheable ↦
      let marked = (is_cacheable r).1 in
      let (c', l') = evict_if_needed c l in
      let (v', room) = evict-IsValid c l v in
      elim (Option-cases (get_expiry_time libc now marked l')) [
        | inl raised ↦ rw (cacheable, store_response, raised, store_cacheable) v'
        | inr ((expiry, l''), dated) ↦
            rw (cacheable, store_response, dated, store_cacheable, announce_cache)
              (push_front-IsValid _ _ c' v' room)
      ]
]

fetch_node-IsValid :
    (now : ℤ) (id a : ℕ) (n : Node) (c : CacheManager) (l : Logger)
    → IsValid c
    → deref a c.cache_list ≡ some n
    → IsValid (fetch_node now id n c l).0 × ((fetch_node now id n c l).2 ≢ dangling)
unfolding fetch_node
fetch_node-IsValid now id a n c l v found = elim (Bool-cases (is_expired now n.entry)) [
  | inl expired ↦ rw (expired, fetch_node) (v, λ e. cc)
  | inr current ↦ rw (current, fetch_node) (splice-IsValid c a n v found, λ e. cc)
]

-- Looking up keeps the invariant, and never reads through an iterator whose node is gone.
pub get_cached_response-IsValid :
    (now : ℤ) (id : ℕ) (url : Bytes) (c : CacheManager) (l : Logger)
    → IsValid c
    → IsValid (get_cached_response now id url c l).0
      × ((get_cached_response now id url c l).2 ≢ dangling)
unfolding get_cached_response
get_cached_response-IsValid now id url c l v = elim (Option-cases (map_find url c.cache_map)) [
  | inl absent ↦ rw (absent, get_cached_response) (v, λ e. cc)
  | inr (a, present) ↦
      let (n, found, key) = v.points url a present in
      rw (present, found, get_cached_response) (fetch_node-IsValid now id a n c l v found)
]
