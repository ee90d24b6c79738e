-- ===== src/CacheManager/Refinement.antt =====
-- The cache of CacheManager.cpp does what the row of slots does, in every sequence of calls.
use proxy_cache_server.Prelude.{
  ℕ, ◌≡◌, refl, ap, ◌∙◌, inl, inr, List, [], ◌∷◌, some, arith, Bool-cases, Option-cases,
}
use mathlib.Core.Option.{map}
use proxy_cache_server.Prelude.Int.{ℤ}
use proxy_cache_server.Text.{Bytes, codes, is_empty}
use proxy_cache_server.Headers.{get_header}
use proxy_cache_server.Libc.{Libc}
use proxy_cache_server.Logger.{Logger}
use proxy_cache_server.HttpResponse.{HttpResponse, is_cacheable}
use proxy_cache_server.CacheManager.{
  CacheManager, Node, new_cache, map_find, remove_node, is_expired, fetch_node, get_cached_response,
  evict_if_needed, control_time, expires_time, get_expiry_time, store_cacheable, store_response,
  announce, push_front,
}
use proxy_cache_server.CacheManager.MapLaws.{deref-address}
use proxy_cache_server.CacheManager.Valid.{IsValid, new_cache-IsValid, evict-IsValid}
use proxy_cache_server.CacheManager.Preserved.{
  announce_cache, store_response-IsValid, get_cached_response-IsValid,
}
use proxy_cache_server.CacheManager.Calls.{Call, store, fetch, run_calls}
use proxy_cache_server.CacheManager.Slots.{find_live, take_out, put, expiry, keep, recall, answers}
use proxy_cache_server.CacheManager.Slots.Rows.{
  row, slots, slot_of, find_live-none, find_live-some, row-push_front, row-evict,
}

-- The time that the code computes, whatever the log is.
expiry-get_expiry_time :
    (libc : Libc) (now : ℤ) (r : HttpResponse) (l : Logger)
    → expiry libc now r ≡ map (λ p. p.0) (get_expiry_time libc now r l)
unfolding get_expiry_time expiry expires_time
expiry-get_expiry_time libc now r l =
    let expires = get_header (codes "Expires") r.headers in
    elim (Option-cases (control_time now (get_header (codes "Cache-Control") r.headers))) [
      | inl raised ↦ rw (raised, expiry, get_expiry_time) refl
      | inr (base, controlled) ↦ elim (Bool-cases (is_empty expires)) [
        | inl plain ↦ rw (controlled, plain, expiry, get_expiry_time) refl
        | inr dated ↦ elim (Option-cases (libc.timegm_asctime expires)) [
          | inl unread ↦ rw (controlled, dated, unread, expiry, get_expiry_time) refl
          | inr (time, read) ↦ rw (controlled, dated, read, expiry, get_expiry_time) refl
        ]
      ]
    ]

row-store :
    (libc : Libc) (now later : ℤ) (id : ℕ) (url : Bytes) (r : HttpResponse) (c : CacheManager)
    (l : Logger)
    → IsValid c
    → row (store_response libc now later id url r c l).cache
      ≡ keep libc c.cache_capacity now url r (row c)
unfolding store_response store_cacheable keep
row-store libc now later id url r c l v = elim (Bool-cases (is_cacheable r).0) [
  | inr refused ↦ rw (refused, store_response, keep) refl
  | inl cacheable ↦
      let marked = (is_cacheable r).1 in
      let (c', l') = evict_if_needed c l in
      let (v', _) = evict-IsValid c l v in
      let time = expiry-get_expiry_time libc now marked l' in
      let room = row-evict c l v in
      elim (Option-cases (get_expiry_time libc now marked l')) [
        | inl raised ↦
            let undated = time ∙ ap (map (λ p. p.0)) raised in
            rw (cacheable, store_response, raised, store_cacheable, undated) room
        | inr ((t, l''), dated) ↦
            let timed = time ∙ ap (map (λ p. p.0)) dated in
            rw (cacheable, store_response, dated, store_cacheable, announce_cache, timed)
              (row-push_front _ _ c' v' ∙ ap (put _ _) room)
      ]
]

-- A node that the lookup has found, with the slot that the row finds.
row-fetch_node :
    (now : ℤ) (id : ℕ) (url : Bytes) (n : Node) (c : CacheManager) (l : Logger)
    → find_live url (row c) ≡ some (slot_of c.cache_map n)
    → take_out url (row c) ≡ slots c.cache_map (remove_node n.address c.cache_list)
    → (row (fetch_node now id n c l).0, (fetch_node now id n c l).2) ≡ recall now url (row c)
unfolding recall fetch_node
row-fetch_node now id url n c l live out = elim (Bool-cases (is_expired now n.entry)) [
  | inl expired ↦ rw (live, recall) (unfold slot_of in rw (expired, fetch_node) refl)
  | inr current ↦ rw (live, recall, out) (unfold slot_of in rw (current, fetch_node) refl)
]

pub row-fetch :
    (now : ℤ) (id : ℕ) (url : Bytes) (c : CacheManager) (l : Logger)
    → IsValid c
    → (row (get_cached_response now id url c l).0, (get_cached_response now id url c l).2)
      ≡ recall now url (row c)
unfolding get_cached_response
row-fetch now id url c l v = elim (Option-cases (map_find url c.cache_map)) [
  | inl absent ↦
      let gone = find_live-none c.cache_map url c.cache_list absent in
      rw (absent, get_cached_response) (unfold recall in rw (gone, recall) refl)
  | inr (a, present) ↦
      let (n, found, key) = v.points url a present in
      let (live, out) = find_live-some c.cache_map url a c.cache_list n present found key in
      let here = deref-address a c.cache_list n found in
      rw (present, found, get_cached_response) (row-fetch_node now id url n c l live (rw here out))
]

evict_capacity :
    (c : CacheManager) (l : Logger) → (evict_if_needed c l).0.cache_capacity ≡ c.cache_capacity
unfolding evict_if_needed
evict_capacity c l = ground arith

store_capacity :
    (libc : Libc) (now later : ℤ) (id : ℕ) (url : Bytes) (r : HttpResponse) (c : CacheManager)
    (l : Logger)
    → (store_response libc now later id url r c l).cache.cache_capacity ≡ c.cache_capacity
unfolding store_response store_cacheable announce push_front
store_capacity libc now later id url r c l = ground (arith, evict_capacity c l)

fetch_capacity :
    (now : ℤ) (id : ℕ) (url : Bytes) (c : CacheManager) (l : Logger)
    → (get_cached_response now id url c l).0.cache_capacity ≡ c.cache_capacity
unfolding get_cached_response fetch_node
fetch_capacity now id url c l = ground arith

-- The call by call comparison, from any valid cache.
pub row-run_calls :
    (libc : Libc) (calls : List Call) (capacity : ℕ) (c : CacheManager) (l : Logger)
    → IsValid c
    → c.cache_capacity ≡ capacity
    → (row (run_calls libc calls c l).cache, (run_calls libc calls c l).fetched)
      ≡ answers libc capacity calls (row c)
unfolding run_calls answers
row-run_calls libc [] capacity c l v sized = refl
row-run_calls libc (store now later id url r ∷ calls) capacity c l v sized =
    let s = store_response libc now later id url r c l in
    let v' = store_response-IsValid libc now later id url r c l v in
    let same = store_capacity libc now later id url r c l ∙ sized in
    row-run_calls libc calls capacity s.cache s.logger v' same
    ∙ ap (answers libc capacity calls)
        (row-store libc now later id url r c l v ∙ ap (λ k. keep libc k now url r (row c)) sized)
row-run_calls libc (fetch now id url ∷ calls) capacity c l v sized =
    let (c', l', f) = get_cached_response now id url c l in
    let (v', _) = get_cached_response-IsValid now id url c l v in
    let rest = row-run_calls libc calls capacity c' l' v' (fetch_capacity now id url c l ∙ sized) in
    ap (λ p. (p.0, f ∷ p.1)) rest
    ∙ ap (λ p. let (after, fs) = answers libc capacity calls p.0 in (after, p.1 ∷ fs))
        (row-fetch now id url c l v)

-- From the empty cache of a capacity, after any sequence of stores and lookups: the lookups have
-- returned what the row of slots returns, in order, and the nodes, each live where the map's iterator
-- for its key points to it, are the slots of the row, in order. The row dates its slots as `get_expiry_time` does, with a day
-- added to max-age where there is no Expires field, and keeps a slot that a lookup finds expired.
pub run_calls-answers :
    (libc : Libc) (capacity : ℕ) (calls : List Call) (l : Logger)
    → let t = run_calls libc calls (new_cache capacity) l in
      (row t.cache, t.fetched) ≡ answers libc capacity calls []
run_calls-answers libc capacity calls l =
    row-run_calls libc calls capacity (new_cache capacity) l (new_cache-IsValid capacity) refl
