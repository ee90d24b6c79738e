-- ===== src/RequestHandler/Twice.antt =====
-- A conditional request whose answer is not 304.
use proxy_cache_server.Prelude.{
  ℕ, ◌<◌, ◌^◌, ◌≡◌, refl, ◌∙◌, inl, inr, true, false, ◌&&◌, List, [], ◌∷◌, ◌++◌, arith, length,
  take, take_long, append_assoc, Bool-cases, ap, sym,
}
use proxy_cache_server.Text.{Bytes, codes, bytes_eq, includes}
use proxy_cache_server.Logger.{Logger, log_request, log_cache_status}
use proxy_cache_server.HttpRequest
use proxy_cache_server.HttpRequest.{HttpRequest}
use proxy_cache_server.HttpResponse.{HttpResponse, serialize, is_cacheable}
use proxy_cache_server.Text.Equality.{bytes_eq_iff}
use proxy_cache_server.CacheManager.{is_in_cache, get_cached_response, hit}
use proxy_cache_server.Sending.{reliable_send}
use proxy_cache_server.Sending.Laws.{Sending-cases, reliable_send-Transmits}
use proxy_cache_server.Forwarding.{Origin, answered, forward_request, request_line_text}
use proxy_cache_server.RequestHandler.{
  Setting, World, is_zero, send_to_client, is_conditional, serve_cached, look_up, store_answer,
  after_answer, answer, forward, with_response, dispatch, revalidate, add_validators,
  handle_request,
}
use proxy_cache_server.Forwarding.Sent.{Takes, forward_request_sent}

forward_once :
    (s : Setting) (request : HttpRequest) (w : World) (origin : Origin) (others : List Origin)
    (r : HttpResponse)
    → let message = HttpRequest.serialize s.libc.order request in
      w.origins ≡ origin ∷ others
      → length message < 2 ^ 31
      → Takes request.host message origin
      → ((l : Logger)
          → (forward_request s.libc s.fuel request s.request_id origin l).result ≡ answered r)
      → let (f, w') = forward s request w in
        (f ≡ answered r)
        × (w'.origins ≡ others)
        × (w'.requests_sent ≡ w.requests_sent ++ message ∷ [])
        × (w'.client ≡ w.client)
unfolding forward
forward_once s request w origin others r e small takes replies =
    let sent =
      forward_request_sent s.libc s.fuel request s.request_id origin w.logger small takes in
    rw (e, forward) (replies w.logger, refl, ap (λ m. w.requests_sent ++ m ∷ []) sent, refl)

after_answer_rest :
    (s : Setting) (request : HttpRequest) (r : HttpResponse) (w : World)
    → let w' = (after_answer s request r w).1 in
      (w'.origins ≡ w.origins) × (w'.requests_sent ≡ w.requests_sent) × (w'.client ≡ w.client)
unfolding after_answer store_answer
after_answer_rest s request r w =
    elim (Bool-cases (bytes_eq request.method (codes "GET") && (is_cacheable r).0)) [
      | inl stored ↦ rw (stored, after_answer) (refl, refl, refl)
      | inr other ↦ rw (other, after_answer) (refl, refl, refl)
    ]

-- The client gets a beginning of the message and nothing else.
abbrev pub GetsPart : Bytes → Bytes → World → Type 0
GetsPart before message w = (k : ℕ) × (w.client.transmitted ≡ before ++ take k message)

answer_part :
    (s : Setting) (request : HttpRequest) (r : HttpResponse) (w : World)
    → length (serialize s.libc.order r) < 2 ^ 31
    → let w' = (answer s request r w).1 in
      (w'.origins ≡ w.origins)
      × (w'.requests_sent ≡ w.requests_sent)
      × GetsPart w.client.transmitted (serialize s.libc.order r) w'
unfolding answer send_to_client
answer_part s request r w small =
    let message = serialize s.libc.order r in
    let sent = reliable_send-Transmits s.request_id message w.client w.logger small in
    elim (Sending-cases (reliable_send s.request_id message w.client w.logger).0) [
      | inl all ↦
          let (origins, requests, client) = after_answer_rest s request r _ in
          let whole = rw all at sent in
          rw (all, answer)
            (
              origins,
              requests,
              (
                length message,
                ap (λ c. c.transmitted) client
                    ∙ whole
                    ∙ ap (λ m. w.client.transmitted ++ m)
                        (sym (take_long (length message) message (omega arith))),
              ),
            )
      | inr (inl failed) ↦
          let (k, _, part) = rw failed at sent in rw (failed, answer) (refl, refl, (k, part))
      | inr (inr waits) ↦
          let (k, _, part) = rw waits at sent in rw (waits, answer) (refl, refl, (k, part))
    ]

dispatch_part :
    (s : Setting) (request : HttpRequest) (w : World) (origin : Origin) (others : List Origin)
    (r : HttpResponse)
    → let message = HttpRequest.serialize s.libc.order request in
      bytes_eq request.method (codes "GET") ≡ true
      → w.origins ≡ origin ∷ others
      → length message < 2 ^ 31
      → Takes request.host message origin
      → ((l : Logger)
          → (forward_request s.libc s.fuel request s.request_id origin l).result ≡ answered r)
      → length (serialize s.libc.order r) < 2 ^ 31
      → let w' = (dispatch s request w).1 in
        (w'.origins ≡ others)
        × (w'.requests_sent ≡ w.requests_sent ++ message ∷ [])
        × GetsPart w.client.transmitted (serialize s.libc.order r) w'
unfolding dispatch with_response
dispatch_part s request w origin others r get e small takes replies short =
    let named : request.method ≡ codes "GET" = (bytes_eq_iff request.method (codes "GET")).0 get in
    let other : bytes_eq request.method (codes "CONNECT") ≡ false =
      rw named (unfold bytes_eq in refl) in
    let (f, origins, requests, client) =
      forward_once s request w origin others r e small takes replies in
    let (origins', requests', (k, part)) = answer_part s request r (forward s request w).1 short in
    rw (other, dispatch, f, with_response)
      (
        origins' ∙ origins,
        requests' ∙ requests,
        (k, part ∙ ap (λ c. c.transmitted ++ take k (serialize s.libc.order r)) client),
      )

revalidate_twice :
    (s : Setting) (request : HttpRequest) (w : World)
    (cached response second_response : HttpResponse) (first second : Origin) (others : List Origin)
    → let asked = add_validators cached request in
      let message = HttpRequest.serialize s.libc.order asked in
      bytes_eq request.method (codes "GET") ≡ true
      → w.origins ≡ first ∷ second ∷ others
      → length message < 2 ^ 31
      → Takes request.host message first
      → Takes request.host message second
      → ((l : Logger)
          → (forward_request s.libc s.fuel asked s.request_id first l).result ≡ answered response)
      → includes response.status_line (codes "304 Not Modified") ≡ false
      → ((l : Logger)
          → (forward_request s.libc s.fuel asked s.request_id second l).result
            ≡ answered second_response)
      → length (serialize s.libc.order second_response) < 2 ^ 31
      → let w' = (revalidate s request cached w).1 in
        (w'.origins ≡ others)
        × (w'.requests_sent ≡ w.requests_sent ++ message ∷ message ∷ [])
        × GetsPart w.client.transmitted (serialize s.libc.order second_response) w'
unfolding revalidate with_response add_validators
revalidate_twice s request w cached response second_response first second others get e small takes
      takes' replies modified replies' short =
    let asked = add_validators cached request in
    let message = HttpRequest.serialize s.libc.order asked in
    let note = codes "in cache, requires validation" in
    let noted = record w { logger = log_cache_status s.request_id note w.logger } in
    let (f, origins, requests, client) =
      forward_once s asked noted first (second ∷ others) response e small takes replies in
    let (origins', requests', (k, part)) =
      dispatch_part s asked (forward s asked noted).1 second others second_response get origins
        small takes' replies' short in
    rw (f, revalidate, with_response, modified)
      (
        origins',
        requests'
            ∙ ap (λ m. m ++ message ∷ []) requests
            ∙ append_assoc w.requests_sent (message ∷ []) (message ∷ []),
        (
          k,
          part ∙ ap (λ c. c.transmitted ++ take k (serialize s.libc.order second_response)) client,
        ),
      )

-- A conditional GET without error for a URL whose entry the lookup returns, and two servers that
-- resolve, connect and take the whole request, of less than 2 ^ 31 bytes with the validators of the
-- entry, where the first answers with anything but 304: the call sends this request to both, one
-- behind the other, and the client gets the second answer, or a beginning of it, and nothing of the
-- first.
pub handle_request_twice :
    (s : Setting) (request : HttpRequest) (w : World)
    (cached response second_response : HttpResponse) (first second : Origin) (others : List Origin)
    → let asked = add_validators cached request in
      let message = HttpRequest.serialize s.libc.order asked in
      is_zero request.client_error_code ≡ true
      → bytes_eq request.method (codes "GET") ≡ true
      → is_conditional request ≡ true
      → is_in_cache request.url w.cache ≡ true
      → ((l : Logger)
          → (get_cached_response s.looked_up_at s.request_id request.url
              (s.before_lookup w.cache)
              l).2
            ≡ hit cached)
      → w.origins ≡ first ∷ second ∷ others
      → length message < 2 ^ 31
      → Takes request.host message first
      → Takes request.host message second
      → ((l : Logger)
          → (forward_request s.libc s.fuel asked s.request_id first l).result ≡ answered response)
      → includes response.status_line (codes "304 Not Modified") ≡ false
      → ((l : Logger)
          → (forward_request s.libc s.fuel asked s.request_id second l).result
            ≡ answered second_response)
      → length (serialize s.libc.order second_response) < 2 ^ 31
      → let w' = (handle_request s request w).1 in
        (w'.origins ≡ others)
        × (w'.requests_sent ≡ w.requests_sent ++ message ∷ message ∷ [])
        × GetsPart w.client.transmitted (serialize s.libc.order second_response) w'
unfolding handle_request look_up serve_cached
handle_request_twice s request w cached response second_response first second others good get asks
      known found e small takes takes' replies modified replies' short =
    let l =
      log_request s.libc s.received_at s.request_id (request_line_text request) s.client_ip
        w.logger in
    let there : (bytes_eq request.method (codes "GET") && is_in_cache request.url w.cache) ≡ true =
      rw (get, known) refl in
    rw (good, handle_request, there, look_up, found l, asks, serve_cached)
      (revalidate_twice s request _ cached response second_response first second others get e small
        takes takes' replies modified replies' short)
