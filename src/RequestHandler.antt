-- ===== src/RequestHandler.antt =====
-- docker-deploy/src/RequestHandler.h and RequestHandler.cpp: `handle_request`, one call for one
-- request. The other calls of the source are in Sending, Forwarding and Tunnel. Other threads can
-- change the cache between the sections under its lock: what they do there is an argument.
pub mod Answers
pub mod CacheEffects
pub mod CacheUse
pub mod Repeat
pub mod Twice
use proxy_cache_server.Prelude.{
  ℕ, zero, suc, Bool, true, false, not, ◌&&◌, ◌||◌, List, [], ◌∷◌, ◌++◌, if◌then◌else◌,
}
use proxy_cache_server.Prelude.Int.{ℤ, pos, negsuc}
use proxy_cache_server.Text.{Bytes, codes, bytes_eq, includes}
use proxy_cache_server.Text.Number.{to_string}
use proxy_cache_server.Headers.{get_header, has_header, insert}
use proxy_cache_server.Libc.{Libc}
use proxy_cache_server.Logger.{Logger, log_request, log_error, log_cache_status, log_response}
use proxy_cache_server.HttpRequest.{HttpRequest}
use proxy_cache_server.HttpResponse.{HttpResponse, is_cacheable, serialize}
use proxy_cache_server.CacheManager.{
  CacheManager, is_in_cache, hit, null, dangling, Fetched, get_cached_response, store_response,
}
use proxy_cache_server.Sending.{Socket, Sending, all_sent, gave_up, blocked, reliable_send}
use proxy_cache_server.Forwarding.{
  Origin, Forwarded, answered, threw, waiting, misread, unfinished, forward_request,
  request_line_text,
}
use proxy_cache_server.Tunnel.{Remote, handle_connect}

-- What a call reads: the clock at its calls of `std::time`, and what other threads do to the cache.
pub record Setting : Type 0 where
  pub libc : Libc
  pub fuel : ℕ
  pub request_id : ℕ
  pub client_ip : Bytes
  pub received_at : ℤ
  pub looked_up_at : ℤ
  pub stored_at : ℤ
  pub announced_at : ℤ
  pub before_lookup : CacheManager → CacheManager
  pub before_store : CacheManager → CacheManager
  pub remote : Remote

-- What a call changes. `origins` are the scripts of the calls of `forward_request` to come; of those
-- made, `requests_sent` has what reached the server, and `open_sockets` counts the sockets to servers
-- that were not closed.
pub record World : Type 0 where
  pub cache : CacheManager
  pub logger : Logger
  pub client : Socket
  pub origins : List Origin
  pub requests_sent : List Bytes
  pub open_sockets : ℕ

-- How a call ends: it returns 0 or -1, an exception leaves it, it waits in a call of the network, it
-- reads through an iterator whose node is gone or outside a string, or the fuel runs out.
pub data Handling : Type 0 where
  keep_open close_client handler_threw handler_waiting handler_misread handler_unfinished : Handling

unfoldable pub is_zero : ℤ → Bool
is_zero (pos zero) = true
is_zero _ = false

-- `std::to_string` of an `int`
unfoldable pub int_to_string : ℤ → Bytes
int_to_string (pos n) = to_string n
int_to_string (negsuc n) = b'-' ∷ to_string (suc n)

unfoldable pub error_response : ℤ → Bytes
error_response code =
    codes "HTTP/1.1 " ++ (int_to_string code ++ codes " Bad Request\r\nConnection: close\r\n\r\n")

unfoldable pub send_to_client : Setting → Bytes → World → Sending × World
send_to_client s message w =
    let (result, client, l) = reliable_send s.request_id message w.client w.logger in
    (result, record w { client = client; logger = l })

unfoldable pub forward : Setting → HttpRequest → World → Forwarded × World
forward s request w = elim w.origins [
  | [] ↦ (waiting, w)
  | origin ∷ others ↦
      let ex = forward_request s.libc s.fuel request s.request_id origin w.logger in
      (
        ex.result,
        record w {
          logger = ex.logger;
          origins = others;
          requests_sent = w.requests_sent ++ ex.request_sent ∷ [];
          open_sockets = if ex.left_open then suc w.open_sockets else w.open_sockets;
        },
      )
]

unfoldable pub store_answer : Setting → HttpRequest → HttpResponse → World → Handling × World
store_answer s request response w =
    let stored =
      store_response s.libc s.stored_at s.announced_at s.request_id request.url response
        (s.before_store w.cache) w.logger in
    (
      if stored.raised then handler_threw else keep_open,
      record w { cache = stored.cache; logger = stored.logger },
    )

-- The answer has been sent: it is logged, and stored where the method and the response allow it.
unfoldable pub after_answer : Setting → HttpRequest → HttpResponse → World → Handling × World
after_answer s request response w =
    let w' = record w { logger = log_response s.request_id response.status_line w.logger } in
    if bytes_eq request.method (codes "GET") && (is_cacheable response).0
    then store_answer s request (is_cacheable response).1 w'
    else (keep_open, w')

unfoldable pub answer : Setting → HttpRequest → HttpResponse → World → Handling × World
answer s request response w =
    let (result, w') = send_to_client s (serialize s.libc.order response) w in
    elim result [
      | all_sent ↦ after_answer s request response w'
      | gave_up ↦ (close_client, w')
      | blocked ↦ (handler_waiting, w')
    ]

-- What follows a call of `forward_request`.
unfoldable pub with_response :
    Forwarded × World → (HttpResponse → World → Handling × World) → Handling × World
with_response (answered response, w) next = next response w
with_response (threw, w) next = (handler_threw, w)
with_response (waiting, w) next = (handler_waiting, w)
with_response (misread, w) next = (handler_misread, w)
with_response (unfinished, w) next = (handler_unfinished, w)

unfoldable pub tunnel : Setting → HttpRequest → World → Handling × World
tunnel s request w =
    let t = handle_connect request s.request_id s.remote w.client w.logger in
    (
      if t.returned then keep_open else handler_waiting,
      record w {
        client = t.client;
        logger = t.logger;
        open_sockets = if t.left_open then suc w.open_sockets else w.open_sockets;
      },
    )

-- Past the cache: CONNECT is tunnelled, anything else forwarded.
unfoldable pub dispatch : Setting → HttpRequest → World → Handling × World
dispatch s request w =
    if bytes_eq request.method (codes "CONNECT")
    then tunnel s request w
    else with_response (forward s request w) (λ response w'. answer s request response w')

-- The copy is sent, and logged behind it.
unfoldable pub serve_copy : Setting → HttpResponse → World → Handling × World
serve_copy s cached w =
    let (result, w') = send_to_client s (serialize s.libc.order cached) w in
    elim result [
      | all_sent ↦
          (keep_open, record w' { logger = log_response s.request_id cached.status_line w'.logger })
      | gave_up ↦ (close_client, w')
      | blocked ↦ (handler_waiting, w')
    ]

-- The server has answered 304: logged, and the copy sent.
unfoldable pub serve_unmodified : Setting → HttpResponse → World → Handling × World
serve_unmodified s cached w =
    let note = codes "HTTP/1.1 304 Not Modified (Using cached copy)" in
    let (result, w') =
      send_to_client s (serialize s.libc.order cached)
        (record w { logger = log_response s.request_id note w.logger }) in
    elim result [
      | all_sent ↦ (keep_open, w')
      | gave_up ↦ (close_client, w')
      | blocked ↦ (handler_waiting, w')
    ]

unfoldable pub is_conditional : HttpRequest → Bool
is_conditional request =
    has_header (codes "If-Modified-Since") request.headers
    || has_header (codes "If-None-Match") request.headers

-- The two fields of the copy, in the request to the server.
unfoldable pub add_validators : HttpResponse → HttpRequest → HttpRequest
add_validators cached request = record request {
  headers = insert (codes "If-None-Match") (get_header (codes "ETag") cached.headers) (
      insert (codes "If-Modified-Since") (get_header (codes "Last-Modified") cached.headers)
        request.headers);
}

-- The request goes to the server with the fields of the copy; an answer other than 304 is dropped
-- and the request goes on as if there were no copy.
unfoldable pub revalidate : Setting → HttpRequest → HttpResponse → World → Handling × World
revalidate s request cached w =
    let message = codes "in cache, requires validation" in
    let w' = record w { logger = log_cache_status s.request_id message w.logger } in
    let asked = add_validators cached request in
    with_response (forward s asked w') (λ response w''.
      if includes response.status_line (codes "304 Not Modified")
      then serve_unmodified s cached w''
      else dispatch s asked w'')

unfoldable pub serve_cached : Setting → HttpRequest → HttpResponse → World → Handling × World
serve_cached s request cached w =
    if is_conditional request then revalidate s request cached w else serve_copy s cached w

unfoldable pub look_up : Setting → HttpRequest → World → Handling × World
look_up s request w =
    let (cache, l, fetched) =
      get_cached_response s.looked_up_at s.request_id request.url (s.before_lookup w.cache)
        w.logger in
    let w' = record w { cache = cache; logger = l } in
    elim fetched [
      | hit cached ↦ serve_cached s request cached w'
      | null ↦ dispatch s request w'
      | dangling ↦ (handler_misread, w')
    ]

unfoldable pub refuse_request : Setting → HttpRequest → World → Handling × World
refuse_request s request w =
    let message = codes "Malformed request received, closing connection." in
    let (result, w') =
      send_to_client s (error_response request.client_error_code)
        (record w { logger = log_error s.request_id message w.logger }) in
    elim result [ blocked ↦ (handler_waiting, w') | _ ↦ (close_client, w') ]

unfoldable pub handle_request : Setting → HttpRequest → World → Handling × World
handle_request s request w =
    let w' = record w {
      logger =
          log_request s.libc s.received_at s.request_id (request_line_text request) s.client_ip
            w.logger;
    } in
    if not (is_zero request.client_error_code)
    then refuse_request s request w'
    else if bytes_eq request.method (codes "GET") && is_in_cache request.url w.cache
    then look_up s request w'
    else dispatch s request w'
