-- ===== src/RequestHandler/Repeat/Stored.antt =====
-- The call on a GET whose URL is not in the cache.
use proxy_cache_server.Prelude.{
  ◌<◌, ◌≤◌, ◌^◌, ◌≡◌, refl, ap, ◌∙◌, true, false, ◌&&◌, List, ◌∷◌, ◌++◌, some, arith, length,
}
use proxy_cache_server.Prelude.Int.{ℤ}
use proxy_cache_server.Text.{codes, bytes_eq}
use proxy_cache_server.Text.Equality.{bytes_eq_iff}
use proxy_cache_server.Headers.{get_header}
use proxy_cache_server.Logger.{Logger, log_response}
use proxy_cache_server.HttpRequest.{HttpRequest}
use proxy_cache_server.HttpResponse.{HttpResponse, serialize, is_cacheable}
use proxy_cache_server.HttpResponse.Caching.{is_cacheable_same}
use proxy_cache_server.Sending.Laws.{Advances, reliable_send-Transmits, reliable_send-all_sent}
use proxy_cache_server.Forwarding.{Origin, answered, forward_request}
use proxy_cache_server.RequestHandler.{
  Setting, World, keep_open, send_to_client, store_answer, after_answer, answer, forward,
  with_response, dispatch,
}
use proxy_cache_server.CacheManager.{CacheManager, store_response, control_time}
use proxy_cache_server.RequestHandler.Repeat.Marked.{is_cacheable_marked, store_response_raised}

-- The cache is one that a store of the response has left.
abbrev pub HasStored : Setting → HttpRequest → HttpResponse → CacheManager → CacheManager → Type 0
HasStored s request r before after =
    (l : Logger) × (after
      ≡ (store_response s.libc s.stored_at s.announced_at s.request_id request.url
          (is_cacheable r).1 (s.before_store before) l).cache)

after_answer_stores :
    (s : Setting) (request : HttpRequest) (r : HttpResponse) (w : World) (base : ℤ)
    → bytes_eq request.method (codes "GET") ≡ true
    → (is_cacheable r).0 ≡ true
    → control_time s.stored_at (get_header (codes "Cache-Control") r.headers) ≡ some base
    → let (how, w') = after_answer s request r w in
      (how ≡ keep_open) × (w'.client ≡ w.client) × HasStored s request r w.cache w'.cache
unfolding after_answer store_answer
after_answer_stores s request r w base get cacheable dated =
    let both : (bytes_eq request.method (codes "GET") && (is_cacheable r).0) ≡ true =
      ground arith in
    let (_, fields, _) = is_cacheable_same r in
    let kept =
      store_response_raised s.libc s.stored_at s.announced_at s.request_id request.url
        (is_cacheable r).1 (s.before_store w.cache)
        (log_response s.request_id r.status_line w.logger) base (is_cacheable_marked r ∙ cacheable)
        (rw fields dated) in
    rw (both, after_answer, store_answer, kept)
      (refl, refl, (log_response s.request_id r.status_line w.logger, refl))

answer_stores :
    (s : Setting) (request : HttpRequest) (r : HttpResponse) (w : World) (base : ℤ)
    → bytes_eq request.method (codes "GET") ≡ true
    → (is_cacheable r).0 ≡ true
    → control_time s.stored_at (get_header (codes "Cache-Control") r.headers) ≡ some base
    → length (serialize s.libc.order r) < 2 ^ 31
    → Advances w.client.sends
    → length (serialize s.libc.order r) ≤ length w.client.sends
    → let (how, w') = answer s request r w in
      (how ≡ keep_open)
      × (w'.client.transmitted ≡ w.client.transmitted ++ serialize s.libc.order r)
      × HasStored s request r w.cache w'.cache
unfolding answer send_to_client
answer_stores s request r w base get cacheable dated small adv enough =
    let message = serialize s.libc.order r in
    let all = reliable_send-all_sent s.request_id message w.client w.logger small adv enough in
    let sent = reliable_send-Transmits s.request_id message w.client w.logger small in
    let (how, client, stored) = after_answer_stores s request r _ base get cacheable dated in
    rw (all, answer) (how, ap (λ c. c.transmitted) client ∙ (rw all at sent), stored)

pub dispatch_stores :
    (s : Setting) (request : HttpRequest) (r : HttpResponse) (w : World) (origin : Origin)
    (others : List Origin) (base : ℤ)
    → bytes_eq request.method (codes "GET") ≡ true
    → w.origins ≡ origin ∷ others
    → ((l : Logger)
        → (forward_request s.libc s.fuel request s.request_id origin l).result ≡ answered r)
    → (is_cacheable r).0 ≡ true
    → control_time s.stored_at (get_header (codes "Cache-Control") r.headers) ≡ some base
    → length (serialize s.libc.order r) < 2 ^ 31
    → Advances w.client.sends
    → length (serialize s.libc.order r) ≤ length w.client.sends
    → let (how, w') = dispatch s request w in
      (how ≡ keep_open)
      × (w'.client.transmitted ≡ w.client.transmitted ++ serialize s.libc.order r)
      × HasStored s request r w.cache w'.cache
unfolding dispatch forward with_response
dispatch_stores s request r w origin others base get e replies cacheable dated small adv enough =
    let named : request.method ≡ codes "GET" = (bytes_eq_iff request.method (codes "GET")).0 get in
    let other : bytes_eq request.method (codes "CONNECT") ≡ false =
      rw named (unfold bytes_eq in refl) in
    rw (other, dispatch, forward, e, replies w.logger, with_response)
      (answer_stores s request r _ base get cacheable dated small adv enough)
