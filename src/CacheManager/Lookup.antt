-- ===== src/CacheManager/Lookup.antt =====
-- A lookup after a store: what the cache returns for the URL of a response that it has just stored.
use proxy_cache_server.Prelude.{ℕ, ◌≡◌, refl, sym, ap, ◌∙◌, true, false, List, ◌∷◌, some, arith}
use proxy_cache_server.Prelude.Int.{ℤ, leb_ℤ}
use proxy_cache_server.Text.{Bytes, codes, is_empty}
use proxy_cache_server.Text.Equality.{bytes_eq_refl}
use proxy_cache_server.Headers.{get_header}
use proxy_cache_server.Libc.{Libc}
use proxy_cache_server.Logger.{Logger}
use proxy_cache_server.HttpResponse.{HttpResponse, is_cacheable}
use proxy_cache_server.CacheManager.{
  CacheManager, CacheEntry, Node, map_find, map_set, deref, remove_node, is_expired, hit,
  fetch_node, get_cached_response, evict_if_needed, push_front, cache_key, get_expiry_time,
  store_cacheable, store_response,
}
use proxy_cache_server.CacheManager.MapLaws.{map_find-map_set}
use proxy_cache_server.CacheManager.Preserved.{announce_cache}

-- What a store leaves, where the expiry can be computed.
pub stored_cache :
    (libc : Libc) (now later : ℤ) (id : ℕ) (url : Bytes) (r : HttpResponse) (c : CacheManager)
    (l : Logger) (expiry : ℤ) (l' : Logger)
    → (is_cacheable r).0 ≡ true
    → get_expiry_time libc now (is_cacheable r).1 (evict_if_needed c l).1 ≡ some (expiry, l')
    → (store_response libc now later id url r c l).cache
      ≡ push_front
          (cache_key url (is_cacheable r).1)
          (record { response = (is_cacheable r).1; expiry_time = expiry })
          (evict_if_needed c l).0
unfolding store_response store_cacheable
stored_cache libc now later id url r c l expiry l' cacheable dated =
    rw (cacheable, store_response, dated, store_cacheable, announce_cache) refl

deref_front : (n : Node) (l : List Node) → deref n.address (n ∷ l) ≡ some n
unfolding deref
deref_front n l = ground arith

remove_node_front : (n : Node) (l : List Node) → remove_node n.address (n ∷ l) ≡ l
unfolding remove_node
remove_node_front n l = ground arith

-- A node at the front that is not expired is returned, and stays where it is.
fetch_node_front :
    (now : ℤ) (id : ℕ) (n : Node) (nodes : List Node) (c : CacheManager) (l : Logger)
    → is_expired now n.entry ≡ false
    → c.cache_list ≡ n ∷ nodes
    → ((fetch_node now id n c l).2 ≡ hit n.entry.response) × ((fetch_node now id n c l).0 ≡ c)
unfolding fetch_node
fetch_node_front now id n nodes c l current e =
    let back : n ∷ remove_node n.address c.cache_list ≡ c.cache_list =
      ap (λ list. n ∷ remove_node n.address list) e
      ∙ ap (λ list. n ∷ list) (remove_node_front n nodes)
      ∙ sym e in
    rw (current, fetch_node) (refl, ap (λ list. record c { cache_list = list }) back)

-- The node that was pushed to the front is found by its key.
get-push_front :
    (now : ℤ) (id : ℕ) (key : Bytes) (entry : CacheEntry) (c : CacheManager) (l : Logger)
    → is_expired now entry ≡ false
    → ((get_cached_response now id key (push_front key entry c) l).2 ≡ hit entry.response)
      × ((get_cached_response now id key (push_front key entry c) l).0 ≡ push_front key entry c)
unfolding get_cached_response push_front
get-push_front now id key entry c l current =
    let n : Node = record { address = c.next_address; key = key; entry = entry } in
    let found : map_find key (map_set key c.next_address c.cache_map) ≡ some c.next_address =
      ground (arith, map_find-map_set key key c.next_address c.cache_map, bytes_eq_refl key) in
    rw (found, get_cached_response, deref_front n c.cache_list)
      (fetch_node_front now id n c.cache_list (push_front key entry c) l current
        (unfold push_front in refl))

evict_address :
    (c : CacheManager) (l : Logger) → (evict_if_needed c l).0.next_address ≡ c.next_address
unfolding evict_if_needed
evict_address c l = ground arith

-- A response that may be cached, has no Vary field and whose expiry can be computed: after
-- `store_response`, `get_cached_response` of the URL at any time before the expiry returns the
-- response, and leaves the cache as the store left it: its list has in front a new node, with the
-- URL, the response and the expiry. The expiry is the one that `get_expiry_time` computes, with a day
-- added to every max-age where there is no Expires field.
pub get-store :
    (libc : Libc) (now later : ℤ) (id : ℕ) (url : Bytes) (r : HttpResponse) (c : CacheManager)
    (l : Logger) (expiry : ℤ) (l' : Logger) (at : ℤ) (asker : ℕ) (l'' : Logger)
    → (is_cacheable r).0 ≡ true
    → get_expiry_time libc now (is_cacheable r).1 (evict_if_needed c l).1 ≡ some (expiry, l')
    → is_empty (get_header (codes "Vary") (is_cacheable r).1.headers) ≡ true
    → leb_ℤ expiry at ≡ false
    → let stored = (store_response libc now later id url r c l).cache in
      let (after, _, fetched) = get_cached_response at asker url stored l'' in
      (fetched ≡ hit (is_cacheable r).1)
      × (after ≡ stored)
      × (stored.cache_list
          ≡ record {
            address = c.next_address;
            key = url;
            entry = record { response = (is_cacheable r).1; expiry_time = expiry };
          }
            ∷ (evict_if_needed c l).0.cache_list)
get-store libc now later id url r c l expiry l' at asker l'' cacheable dated plain current =
    let left = stored_cache libc now later id url r c l expiry l' cacheable dated in
    let named : cache_key url (is_cacheable r).1 ≡ url = unfold cache_key in ground arith in
    let same = evict_address c l in
    let entry : CacheEntry = record { response = (is_cacheable r).1; expiry_time = expiry } in
    let (fetched, after) =
      get-push_front at asker url entry (evict_if_needed c l).0 l''
        (unfold is_expired in current) in
    rw (left, named) (fetched, after, unfold push_front in rw same refl)
