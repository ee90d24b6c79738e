-- ===== src/RequestHandler/Answers.antt =====
-- What the client gets, and what reaches the server.
use proxy_cache_server.Prelude.{
  ℕ, ◌<◌, ◌≤◌, ◌^◌, ◌≡◌, refl, inl, inr, true, false, ◌&&◌, ◌++◌, arith, length, take,
}
use proxy_cache_server.Text.{Bytes, codes, bytes_eq}
use proxy_cache_server.Logger.{Logger, log_error, log_request}
use proxy_cache_server.HttpRequest.{HttpRequest}
use proxy_cache_server.HttpResponse.{HttpResponse, serialize}
use proxy_cache_server.CacheManager.{is_in_cache, get_cached_response, hit}
use proxy_cache_server.Sending.{reliable_send}
use proxy_cache_server.Sending.Laws.{
  Sending-cases, Advances, reliable_send-Transmits, reliable_send-all_sent,
}
use proxy_cache_server.Forwarding.{request_line_text}
use proxy_cache_server.RequestHandler.{
  Setting, World, Handling, keep_open, close_client, handler_waiting, is_zero, error_response,
  send_to_client, serve_copy, is_conditional, serve_cached, look_up, refuse_request, handle_request,
}

-- A request with an error code whose error response has less than 2 ^ 31 bytes, on a connection
-- whose `send` calls do not fail, take at least a byte each and are as many as the error response
-- has bytes: the call returns -1, and has sent the client the error response and nothing else.
-- Nothing goes to a server, and the cache is as it was.
pub handle_request_malformed :
    (s : Setting) (request : HttpRequest) (w : World)
    → is_zero request.client_error_code ≡ false
    → length (error_response request.client_error_code) < 2 ^ 31
    → Advances w.client.sends
    → length (error_response request.client_error_code) ≤ length w.client.sends
    → let (how, w') = handle_request s request w in
      (how ≡ close_client)
      × (w'.client.transmitted ≡ w.client.transmitted ++ error_response request.client_error_code)
      × (w'.origins ≡ w.origins)
      × (w'.cache ≡ w.cache)
unfolding handle_request refuse_request send_to_client
handle_request_malformed s request w bad small adv enough =
    let message = error_response request.client_error_code in
    let noted = log_error s.request_id (codes "Malformed request received, closing connection.") (
      log_request s.libc s.received_at s.request_id (request_line_text request) s.client_ip
        w.logger) in
    let all = reliable_send-all_sent s.request_id message w.client noted small adv enough in
    let sent = reliable_send-Transmits s.request_id message w.client noted small in
    rw (bad, handle_request, refuse_request, all) (refl, rw all at sent, refl, refl)

-- The client has got the copy where the call keeps the connection, and else a part of it.
abbrev pub Serves : Bytes → Bytes → Handling × World → Type 0
Serves before message (keep_open, w) = w.client.transmitted ≡ before ++ message
Serves before message (close_client, w) =
    (k : ℕ) × (k < length message) × (w.client.transmitted ≡ before ++ take k message)
Serves before message (handler_waiting, w) =
    (k : ℕ) × (k < length message) × (w.client.transmitted ≡ before ++ take k message)
Serves before message _ = ⊥

serve_copy-Serves :
    (s : Setting) (cached : HttpResponse) (w : World)
    → length (serialize s.libc.order cached) < 2 ^ 31
    → Serves w.client.transmitted (serialize s.libc.order cached) (serve_copy s cached w)
      × ((serve_copy s cached w).1.origins ≡ w.origins)
      × ((serve_copy s cached w).1.cache ≡ w.cache)
unfolding serve_copy send_to_client
serve_copy-Serves s cached w small =
    let message = serialize s.libc.order cached in
    let sent = reliable_send-Transmits s.request_id message w.client w.logger small in
    elim (Sending-cases (reliable_send s.request_id message w.client w.logger).0) [
      | inl all ↦ rw (all, serve_copy) (rw all at sent, refl, refl)
      | inr (inl failed) ↦ rw (failed, serve_copy) (rw failed at sent, refl, refl)
      | inr (inr waits) ↦ rw (waits, serve_copy) (rw waits at sent, refl, refl)
    ]

-- A GET without error and without If-Modified-Since or If-None-Match, for a URL that is in the cache
-- and whose entry, of less than 2 ^ 31 bytes in print, the lookup returns: the client is sent the copy and
-- nothing else, all of it where the call returns 0, and no server is contacted, also where the entry
-- has an ETag or a Last-Modified field. The cache is as the lookup leaves it.
pub handle_request_hit :
    (s : Setting) (request : HttpRequest) (w : World) (cached : HttpResponse)
    → is_zero request.client_error_code ≡ true
    → bytes_eq request.method (codes "GET") ≡ true
    → is_conditional request ≡ false
    → is_in_cache request.url w.cache ≡ true
    → ((l : Logger)
        → (get_cached_response s.looked_up_at s.request_id request.url
            (s.before_lookup w.cache)
            l).2
          ≡ hit cached)
    → length (serialize s.libc.order cached) < 2 ^ 31
    → Serves w.client.transmitted (serialize s.libc.order cached) (handle_request s request w)
      × ((handle_request s request w).1.origins ≡ w.origins)
      × ((l : Logger) × ((handle_request s request w).1.cache
            ≡ (get_cached_response s.looked_up_at s.request_id request.url
                (s.before_lookup w.cache)
                l).0))
unfolding handle_request look_up serve_cached
handle_request_hit s request w cached good get plain known found small =
    let l =
      log_request s.libc s.received_at s.request_id (request_line_text request) s.client_ip
        w.logger in
    let there : (bytes_eq request.method (codes "GET") && is_in_cache request.url w.cache) ≡ true =
      ground arith in
    let served = serve_copy-Serves s cached _ small in
    rw (good, handle_request, there, look_up, found l, plain, serve_cached)
      (served.0, served.1, (l, served.2))
