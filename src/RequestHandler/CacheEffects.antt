-- ===== src/RequestHandler/CacheEffects.antt =====
-- What a request does to the cache, by its method and its URL.
use proxy_cache_server.Prelude.{ℕ, ap, ◌∙◌, is_some, ◌≡◌, refl, false, arith}
use proxy_cache_server.Text.{Bytes, codes, bytes_eq}
use proxy_cache_server.Logger.{Logger}
use proxy_cache_server.HttpRequest.{HttpRequest}
use proxy_cache_server.HttpResponse.{HttpResponse, is_cacheable}
use proxy_cache_server.CacheManager.{
  cache_key, map_find, fetch_node, CacheManager, is_in_cache, get_cached_response,
}
use proxy_cache_server.Prelude.Int.{ℤ}
use proxy_cache_server.CacheManager.Shadow.{store-is_in_cache_none}
use proxy_cache_server.CacheManager.Valid.{IsValid}
use proxy_cache_server.CacheManager.Preserved.{store_response-IsValid, get_cached_response-IsValid}
use proxy_cache_server.RequestHandler.{Setting, World, handle_request}
use proxy_cache_server.RequestHandler.CacheUse.{handle_request_cache}

-- A call on a request of another method than GET leaves the cache as it is, whatever the network
-- does and however the call ends.
pub handle_request_other :
    (s : Setting) (request : HttpRequest) (w : World)
    → bytes_eq request.method (codes "GET") ≡ false
    → (handle_request s request w).1.cache ≡ w.cache
handle_request_other s request w other =
    handle_request_cache (λ c. c ≡ w.cache) s request (λ get. absurd (ground arith))
      (λ get. absurd (ground arith)) w refl

-- A call keeps the invariant of the cache, if what other threads do to it keeps it.
pub handle_request-IsValid :
    (s : Setting) (request : HttpRequest) (w : World)
    → ((c : CacheManager) → IsValid c → IsValid (s.before_lookup c))
    → ((c : CacheManager) → IsValid c → IsValid (s.before_store c))
    → IsValid w.cache
    → IsValid (handle_request s request w).1.cache
handle_request-IsValid s request w lookup_ok store_ok v =
    handle_request_cache IsValid s request
      (λ get c l v'. (get_cached_response-IsValid _ _ _ _ l (lookup_ok c v')).0)
      (λ get r c l v'. store_response-IsValid _ _ _ _ _ r _ l (store_ok c v')) w v

get_cached_response_map :
    (now : ℤ) (id : ℕ) (url : Bytes) (c : CacheManager) (l : Logger)
    → (get_cached_response now id url c l).0.cache_map ≡ c.cache_map
unfolding get_cached_response fetch_node
get_cached_response_map now id url c l = ground arith

-- A call adds no key to the cache but the URL of its request, or that URL with a bar and a Vary field:
-- a key that differs from these is not in the cache after the call where it was not before, if
-- other threads do not add it.
pub handle_request_other_key :
    (s : Setting) (request : HttpRequest) (w : World) (key : Bytes)
    → ((r : HttpResponse) → bytes_eq (cache_key request.url r) key ≡ false)
    → ((c : CacheManager) → is_in_cache key c ≡ false → is_in_cache key (s.before_lookup c) ≡ false)
    → ((c : CacheManager) → is_in_cache key c ≡ false → is_in_cache key (s.before_store c) ≡ false)
    → is_in_cache key w.cache ≡ false
    → is_in_cache key (handle_request s request w).1.cache ≡ false
handle_request_other_key s request w key other lookup_ok store_ok =
    handle_request_cache (λ c. is_in_cache key c ≡ false) s request
      (λ get c l absent.
        unfold is_in_cache in
        ap (λ m. is_some (map_find key m))
          (get_cached_response_map s.looked_up_at s.request_id request.url (s.before_lookup c) l)
        ∙ lookup_ok c absent)
      (λ get r c l absent.
        store-is_in_cache_none s.libc s.stored_at s.announced_at s.request_id request.url r
          (s.before_store c) l key (other (is_cacheable r).1) (store_ok c absent))
      w
