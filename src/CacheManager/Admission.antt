-- ===== src/CacheManager/Admission.antt =====
-- What a store does to the cache, by what the response says.
use proxy_cache_server.Prelude.{
  ℕ, ◌≡◌, refl, ◌⊎◌, inl, inr, true, ◌∷◌, none, some, arith, Bool-cases, Option-cases,
}
use proxy_cache_server.Prelude.Int.{ℤ}
use proxy_cache_server.Text.{Bytes}
use proxy_cache_server.Text.Equality.{bytes_eq_refl}
use proxy_cache_server.Libc.{Libc}
use proxy_cache_server.Logger.{Logger}
use proxy_cache_server.HttpResponse.{HttpResponse, is_cacheable}
use proxy_cache_server.HttpResponse.Caching.{
  MayBeCached, is_cacheable_same, is_cacheable_allowed, MayBeCached-is_cacheable,
}
use proxy_cache_server.CacheManager.{
  CacheManager, Node, map_find, evict_if_needed, push_front, cache_key, get_expiry_time,
  store_cacheable, store_response,
}
use proxy_cache_server.CacheManager.MapLaws.{map_find-map_set}
use proxy_cache_server.CacheManager.Preserved.{announce_cache}

-- The cache with a new node in front for the response, which its key leads to.
pub record Admits (url : Bytes) (r : HttpResponse) (before after : CacheManager) : Type 0 where
  pub node : Node
  pub front : after.cache_list ≡ node ∷ before.cache_list
  pub found : map_find node.key after.cache_map ≡ some node.address
  pub named : node.key ≡ cache_key url r
  pub status : node.entry.response.status_line ≡ r.status_line
  pub fields : node.entry.response.headers ≡ r.headers
  pub content : node.entry.response.body ≡ r.body

push_front-Admits :
    (url : Bytes) (r : HttpResponse) (expiry : ℤ) (c : CacheManager)
    → Admits url r c (
        push_front
          (cache_key url (is_cacheable r).1)
          (record { response = (is_cacheable r).1; expiry_time = expiry })
          c)
unfolding push_front cache_key
push_front-Admits url r expiry c =
    let (line, fields, body) = is_cacheable_same r in
    let key = cache_key url (is_cacheable r).1 in
    record {
      node = record {
        address = c.next_address;
        key = key;
        entry = record { response = (is_cacheable r).1; expiry_time = expiry };
      };
      front = refl;
      found =
          ground (arith, map_find-map_set key key c.next_address c.cache_map, bytes_eq_refl key);
      named = rw (cache_key, fields) refl;
      status = line;
      fields = fields;
      content = body;
    }

-- A response whose status line holds "200 OK" and not "206 Partial Content", and whose Cache-Control,
-- if it has one, names neither no-store nor private, is stored: after an eviction where the list is
-- full, a new node with its status line, fields and body is in front and found by its key, or an
-- exception has left the call where its expiry cannot be computed. Any other response leaves the cache as
-- it was. Chunks do not matter.
pub store_response-MayBeCached :
    (libc : Libc) (now later : ℤ) (id : ℕ) (url : Bytes) (r : HttpResponse) (c : CacheManager)
    (l : Logger)
    → let after = store_response libc now later id url r c l in
      let (room, l') = evict_if_needed c l in
      ((¬ MayBeCached r) × (after.cache ≡ c))
      ⊎ (MayBeCached r × Admits url r room after.cache)
      ⊎ (MayBeCached r
          × (get_expiry_time libc now (is_cacheable r).1 l' ≡ none)
          × (after.cache ≡ room)
          × (after.raised ≡ true))
unfolding store_response store_cacheable
store_response-MayBeCached libc now later id url r c l = elim (Bool-cases (is_cacheable r).0) [
  | inr refused ↦ inl (
    λ m. let never = MayBeCached-is_cacheable r m in ground arith,
    rw (refused, store_response) refl,
  )
  | inl cacheable ↦
      let allowed = is_cacheable_allowed r cacheable in
      let (room, l') = evict_if_needed c l in
      elim (Option-cases (get_expiry_time libc now (is_cacheable r).1 l')) [
        | inl undated ↦ inr (
            inr (
              allowed,
              undated,
              rw (cacheable, store_response, undated, store_cacheable) refl,
              rw (cacheable, store_response, undated, store_cacheable) refl,
            ))
        | inr ((expiry, l''), dated) ↦ inr (
            inl (
              allowed,
              rw (cacheable, store_response, dated, store_cacheable, announce_cache)
                  (push_front-Admits url r expiry room),
            ))
      ]
]
