-- ===== src/RequestHandler/CacheUse.antt =====
-- The properties of the cache that a request keeps.
use proxy_cache_server.Prelude.{◌≡◌, refl, ◌⊎◌, inl, inr, true, ◌&&◌, arith, Bool-cases, List-cases}
use proxy_cache_server.Text.{Bytes, codes, bytes_eq, includes}
use proxy_cache_server.Logger.{Logger, log_error, log_response}
use proxy_cache_server.HttpRequest.{HttpRequest}
use proxy_cache_server.HttpResponse.{HttpResponse, is_cacheable, serialize}
use proxy_cache_server.Sending.Laws.{Sending-cases}
use proxy_cache_server.CacheManager.{
  CacheManager, is_in_cache, hit, null, dangling, Fetched, get_cached_response, store_response,
}
use proxy_cache_server.Forwarding.{Forwarded, answered, threw, waiting, misread, unfinished}
use proxy_cache_server.RequestHandler.{
  Setting, World, Handling, is_zero, send_to_client, forward, after_answer, store_answer, answer,
  with_response, tunnel, dispatch, serve_copy, serve_unmodified, is_conditional, add_validators,
  revalidate, serve_cached, look_up, refuse_request, error_response, handle_request,
}

-- Whether a call goes to the cache at all.
abbrev IsGet : HttpRequest → Type 0
IsGet request = bytes_eq request.method (codes "GET") ≡ true

forward_cache :
    (s : Setting) (request : HttpRequest) (w : World) → (forward s request w).1.cache ≡ w.cache
unfolding forward
forward_cache s request w = elim (List-cases w.origins) [
  | inl none_left ↦ rw (none_left, forward) refl
  | inr (origin, others, e) ↦ rw (e, forward) refl
]

-- The lookup of a GET keeps a property of the cache, with what other threads do before it.
abbrev pub LookupKeeps : (CacheManager → Type 0) → Setting → HttpRequest → Type 0
LookupKeeps P s request =
    IsGet request
    → (c : CacheManager) (l : Logger) → P c
    → P (get_cached_response s.looked_up_at s.request_id request.url (s.before_lookup c) l).0

-- The store of a GET does.
abbrev pub StoreKeeps : (CacheManager → Type 0) → Setting → HttpRequest → Type 0
StoreKeeps P s request =
    IsGet request
    → (r : HttpResponse) (c : CacheManager) (l : Logger) → P c
    → P
        (store_response s.libc s.stored_at s.announced_at s.request_id request.url r
          (s.before_store c) l).cache

module _ (P : CacheManager → Type 0) (s : Setting) (request : HttpRequest)
    (stores : StoreKeeps P s request) where
  after_answer_cache :
      (r : HttpResponse) (w : World) → P w.cache → P (after_answer s request r w).1.cache
  unfolding after_answer store_answer
  after_answer_cache r w p =
      elim (Bool-cases (bytes_eq request.method (codes "GET") && (is_cacheable r).0)) [
        | inl stored ↦
            let get : IsGet request = ground arith in
            rw (stored, after_answer) (stores get (is_cacheable r).1 w.cache _ p)
        | inr other ↦ rw (other, after_answer) p
      ]

  answer_cache : (r : HttpResponse) (w : World) → P w.cache → P (answer s request r w).1.cache
  unfolding answer send_to_client
  answer_cache r w p =
      let sent = (send_to_client s (serialize s.libc.order r) w).0 in
      elim (Sending-cases sent) [
        | inl all ↦ rw (all, answer) (after_answer_cache r _ p)
        | inr (inl failed) ↦ rw (failed, answer) p
        | inr (inr waits) ↦ rw (waits, answer) p
      ]

  with_response_cache :
      (f : Forwarded × World) (next : HttpResponse → World → Handling × World)
      → P f.1.cache
      → ((r : HttpResponse) (w : World) → P w.cache → P (next r w).1.cache)
      → P (with_response f next).1.cache
  unfolding with_response
  with_response_cache (answered r, w) next p step = step r w p
  with_response_cache (threw, w) next p step = p
  with_response_cache (waiting, w) next p step = p
  with_response_cache (misread, w) next p step = p
  with_response_cache (unfinished, w) next p step = p

  dispatch_cache : (w : World) → P w.cache → P (dispatch s request w).1.cache
  unfolding dispatch tunnel
  dispatch_cache w p = elim (Bool-cases (bytes_eq request.method (codes "CONNECT"))) [
    | inl connect ↦ rw (connect, dispatch) p
    | inr other ↦
        rw (other, dispatch)
          (with_response_cache (forward s request w) (λ r w'. answer s request r w')
            (rw (forward_cache s request w) p) answer_cache)
  ]

send_to_client_cache :
    (s : Setting) (message : Bytes) (w : World) → (send_to_client s message w).1.cache ≡ w.cache
unfolding send_to_client
send_to_client_cache s message w = refl

serve_copy_cache :
    (s : Setting) (cached : HttpResponse) (w : World) → (serve_copy s cached w).1.cache ≡ w.cache
unfolding serve_copy
serve_copy_cache s cached w =
    elim (Sending-cases (send_to_client s (serialize s.libc.order cached) w).0) [
      | inl all ↦ rw (all, serve_copy) (send_to_client_cache s _ _)
      | inr (inl failed) ↦ rw (failed, serve_copy) (send_to_client_cache s _ _)
      | inr (inr waits) ↦ rw (waits, serve_copy) (send_to_client_cache s _ _)
    ]

serve_unmodified_cache :
    (s : Setting) (cached : HttpResponse) (w : World)
    → (serve_unmodified s cached w).1.cache ≡ w.cache
unfolding serve_unmodified
serve_unmodified_cache s cached w =
    let note = codes "HTTP/1.1 304 Not Modified (Using cached copy)" in
    let noted = record w { logger = log_response s.request_id note w.logger } in
    elim (Sending-cases (send_to_client s (serialize s.libc.order cached) noted).0) [
      | inl all ↦ rw (all, serve_unmodified) (send_to_client_cache s _ _)
      | inr (inl failed) ↦ rw (failed, serve_unmodified) (send_to_client_cache s _ _)
      | inr (inr waits) ↦ rw (waits, serve_unmodified) (send_to_client_cache s _ _)
    ]

refuse_request_cache :
    (s : Setting) (request : HttpRequest) (w : World)
    → (refuse_request s request w).1.cache ≡ w.cache
unfolding refuse_request
refuse_request_cache s request w =
    let message = codes "Malformed request received, closing connection." in
    let noted = record w { logger = log_error s.request_id message w.logger } in
    elim (Sending-cases (send_to_client s (error_response request.client_error_code) noted).0) [
      | inl all ↦ rw (all, refuse_request) (send_to_client_cache s _ _)
      | inr (inl failed) ↦ rw (failed, refuse_request) (send_to_client_cache s _ _)
      | inr (inr waits) ↦ rw (waits, refuse_request) (send_to_client_cache s _ _)
    ]

Fetched-cases : (f : Fetched) → ((r : HttpResponse) × (f ≡ hit r)) ⊎ ((f ≡ null) ⊎ (f ≡ dangling))
Fetched-cases (hit r) = inl (r, refl)
Fetched-cases null = inr (inl refl)
Fetched-cases dangling = inr (inr refl)

module _ (P : CacheManager → Type 0) (s : Setting) (request : HttpRequest)
    (looks : LookupKeeps P s request) (stores : StoreKeeps P s request) where
  revalidate_cache :
      (cached : HttpResponse) (w : World) → P w.cache → P (revalidate s request cached w).1.cache
  unfolding revalidate add_validators
  revalidate_cache cached w p =
      let asked = add_validators cached request in
      with_response_cache P s request stores _ _ (rw (forward_cache s asked _) p) (λ r w' p'.
        elim (Bool-cases (includes r.status_line (codes "304 Not Modified"))) [
          | inl unmodified ↦ rw (unmodified, serve_unmodified_cache s cached w') p'
          | inr other ↦ rw other (dispatch_cache P s asked stores w' p')
        ])

  serve_cached_cache :
      (cached : HttpResponse) (w : World) → P w.cache → P (serve_cached s request cached w).1.cache
  unfolding serve_cached
  serve_cached_cache cached w p = elim (Bool-cases (is_conditional request)) [
    | inl asks ↦ rw (asks, serve_cached) (revalidate_cache cached w p)
    | inr plain ↦ rw (plain, serve_cached, serve_copy_cache) p
  ]

  look_up_cache : (w : World) → IsGet request → P w.cache → P (look_up s request w).1.cache
  unfolding look_up
  look_up_cache w get p =
      let (cache, l, fetched) =
        get_cached_response s.looked_up_at s.request_id request.url (s.before_lookup w.cache)
          w.logger in
      let p' = looks get w.cache w.logger p in
      elim (Fetched-cases fetched) [
        | inl (cached, e) ↦ rw (e, look_up) (serve_cached_cache cached _ p')
        | inr (inl e) ↦ rw (e, look_up) (dispatch_cache P s request stores _ p')
        | inr (inr e) ↦ rw (e, look_up) p'
      ]

  -- Whatever the network does and however the call ends, `handle_request` keeps every property of
  -- the cache that the lookup and the store of a GET keep; a request of another method keeps them
  -- all.
  pub handle_request_cache : (w : World) → P w.cache → P (handle_request s request w).1.cache
  unfolding handle_request
  handle_request_cache w p = elim (Bool-cases (is_zero request.client_error_code)) [
    | inr bad ↦ rw (bad, handle_request, refuse_request_cache) p
    | inl good ↦
        elim (Bool-cases
          (bytes_eq request.method (codes "GET") && is_in_cache request.url w.cache)) [
            | inl known ↦ rw (good, known, handle_request) (look_up_cache _ (ground arith) p)
            | inr unknown ↦
                rw (good, unknown, handle_request) (dispatch_cache P s request stores _ p)
          ]
  ]
