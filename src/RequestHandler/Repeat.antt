-- ===== src/RequestHandler/Repeat.antt =====
-- A miss, and the same request again.
pub mod Found
pub mod Marked
pub mod Stored
use proxy_cache_server.Prelude.{
  ℕ, ◌<◌, ◌≤◌, ◌^◌, ◌≡◌, refl, sym, ap, ◌∙◌, inl, inr, true, false, ◌&&◌, List, ◌∷◌, ◌++◌, some,
  none, is_some, arith, length, Bool-cases, Option-cases,
}
use proxy_cache_server.Prelude.Int.{ℤ, pos, ◌+ℤ◌, leb_ℤ}
use proxy_cache_server.Text.{Bytes, codes, bytes_eq, includes, is_empty}
use proxy_cache_server.Text.Equality.{bytes_eq_iff, bytes_eq_refl}
use proxy_cache_server.Headers.{Headers, get_header, lookup}
use proxy_cache_server.Libc.{Libc}
use proxy_cache_server.Logger.{Logger, log_request, log_response}
use proxy_cache_server.HttpRequest.{HttpRequest}
use proxy_cache_server.HttpResponse.{HttpResponse, serialize, is_cacheable, control_allows, max_age}
use proxy_cache_server.HttpResponse.Caching.{is_cacheable_same}
use proxy_cache_server.Sending.Laws.{Advances, reliable_send-Transmits, reliable_send-all_sent}
use proxy_cache_server.Forwarding.{Origin, answered, forward_request, request_line_text}
use proxy_cache_server.RequestHandler.{
  Setting, World, Handling, keep_open, is_zero, send_to_client, is_conditional, store_answer,
  after_answer, answer, forward, with_response, dispatch, handle_request,
}
use proxy_cache_server.RequestHandler.Answers.{Serves, handle_request_hit}
use proxy_cache_server.CacheManager.Lookup.{get-store}
use proxy_cache_server.CacheManager.{
  map_find, null, Fetched, CacheManager, is_in_cache, get_cached_response, hit, store_response,
  control_time, expires_time, get_expiry_time, expires_text, announce, store_cacheable,
  evict_if_needed,
}
use proxy_cache_server.RequestHandler.Repeat.Marked.{serialize-is_cacheable}
use proxy_cache_server.RequestHandler.Repeat.Stored.{HasStored, dispatch_stores}
use proxy_cache_server.RequestHandler.Repeat.Found.{HasStored-hit, hit-is_in_cache}

-- A GET without error and without If-Modified-Since or If-None-Match whose URL is not in the cache,
-- answered by the server with a response that may be cached, has no Vary field, has a Cache-Control
-- that can be read and prints to less than 2 ^ 31 bytes, on a connection whose `send` calls do not
-- fail, take at least a byte each and are as many as these bytes: the call returns 0 and has sent
-- the client the response. Where the request comes again, on any connection, before the expiry that
-- the code computes (a day after the time of max-age where there is no Expires field) and with nothing done to the cache in between, the client is sent the response once more and nothing
-- else, all of it where the call returns 0, and no server is contacted.
pub handle_request_repeat :
    (s s' : Setting) (request : HttpRequest) (w w' : World) (r : HttpResponse) (origin : Origin)
    (others : List Origin) (base : ℤ)
    → is_zero request.client_error_code ≡ true
    → bytes_eq request.method (codes "GET") ≡ true
    → is_conditional request ≡ false
    → is_in_cache request.url w.cache ≡ false
    → w.origins ≡ origin ∷ others
    → ((l : Logger)
        → (forward_request s.libc s.fuel request s.request_id origin l).result ≡ answered r)
    → (is_cacheable r).0 ≡ true
    → is_empty (get_header (codes "Vary") r.headers) ≡ true
    → control_time s.stored_at (get_header (codes "Cache-Control") r.headers) ≡ some base
    → ((l : Logger)
        → leb_ℤ
            (expires_time s.libc base (get_header (codes "Expires") r.headers) l).0
            s'.looked_up_at
          ≡ false)
    → length (serialize s.libc.order r) < 2 ^ 31
    → Advances w.client.sends
    → length (serialize s.libc.order r) ≤ length w.client.sends
    → length (serialize s'.libc.order r) < 2 ^ 31
    → w'.cache ≡ (handle_request s request w).1.cache
    → ((c : CacheManager) → s'.before_lookup c ≡ c)
    → let (how, after) = handle_request s request w in
      (how ≡ keep_open)
      × (after.client.transmitted ≡ w.client.transmitted ++ serialize s.libc.order r)
      × Serves w'.client.transmitted (serialize s'.libc.order r) (handle_request s' request w')
      × ((handle_request s' request w').1.origins ≡ w'.origins)
unfolding handle_request
handle_request_repeat s s' request w w' r origin others base good get plain absent e replies
      cacheable unvaried dated current small adv enough small' same quiet =
    let l =
      log_request s.libc s.received_at s.request_id (request_line_text request) s.client_ip
        w.logger in
    let unknown : (bytes_eq request.method (codes "GET") && is_in_cache request.url w.cache)
        ≡ false =
      rw (get, absent) refl in
    let first : handle_request s request w ≡ dispatch s request (record w { logger = l }) =
      rw (good, unknown, handle_request) refl in
    let (how, sent, stored) =
      dispatch_stores s request r (record w { logger = l }) origin others base get e replies
        cacheable dated small adv enough in
    let stored' : HasStored s request r w.cache w'.cache = rw (same, first) stored in
    let found : (l' : Logger)
        → (get_cached_response s'.looked_up_at s'.request_id request.url w'.cache l').2
          ≡ hit (is_cacheable (is_cacheable r).1).1 =
      λ l'.
        HasStored-hit s request r w.cache w'.cache base s'.looked_up_at s'.request_id l' cacheable
          unvaried dated current stored' in
    let print =
      serialize-is_cacheable s'.libc.order (is_cacheable r).1
      ∙ serialize-is_cacheable s'.libc.order r in
    let (served, unasked, _) =
      handle_request_hit s' request w' (is_cacheable (is_cacheable r).1).1 good get plain
        (hit-is_in_cache _ _ _ _ l _ (found l)) (λ l'. rw (quiet w'.cache) (found l'))
        (rw print small') in
    (rw first how, rw first sent, rw print at served, unasked)
