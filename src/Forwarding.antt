-- ===== src/Forwarding.antt =====
-- docker-deploy/src/RequestHandler.cpp, `forward_request`. What the network does during the call is a
-- script: the names that resolve, what becomes of each address, what `send` and `recv` return.
pub mod Laws
pub mod Sent
use proxy_cache_server.Prelude.{ℕ, Bool, true, false, not, List, [], ◌∷◌, ◌++◌, if◌then◌else◌}
use proxy_cache_server.Prelude.Int.{ℤ}
use proxy_cache_server.Text.{Bytes, codes, is_empty}
use proxy_cache_server.Libc.{Libc}
use proxy_cache_server.Logger.{Logger, log_error, log_forward_request, log_received_response}
use proxy_cache_server.Message.{Outcome, complete, incomplete, raised, faulted, exhausted}
use proxy_cache_server.HttpRequest.{HttpRequest, serialize}
use proxy_cache_server.HttpResponse.{HttpResponse, bad_gateway, parse_response}
use proxy_cache_server.Sending.{
  SendResult, Socket, Sending, all_sent, gave_up, blocked, reliable_send,
}

-- An entry of the list of addresses: `socket` fails, `connect` fails and the socket is closed, or
-- the connection stands.
pub data Attempt : Type 0 where
  no_socket refused connected : Attempt

-- What one `recv` returns: -1, or bytes; no bytes is 0, the end of the stream.
pub data Receive : Type 0 where
  recv_failed : Receive
  received : Bytes → Receive

-- The `recv` calls come with the time at which what they return is parsed. A call for which there is
-- nothing left does not return.
pub record Origin : Type 0 where
  pub resolves : Bytes → Bool
  pub attempts : List Attempt
  pub socket : Socket
  pub receives : List (ℤ × Receive)

-- The loop over the addresses: whether it ends before the list does.
unfoldable pub connects : List Attempt → Bool
connects [] = false
connects (connected ∷ rest) = true
connects (no_socket ∷ rest) = connects rest
connects (refused ∷ rest) = connects rest

-- How the call ends: it returns a response, an exception leaves it, it waits in a call of the
-- network, it reads outside a string, or the fuel of the model runs out.
pub data Forwarded : Type 0 where
  answered : HttpResponse → Forwarded
  threw waiting misread unfinished : Forwarded

-- With the log, what was sent to the server, and whether the socket to the server is still open.
pub record Exchange : Type 0 where
  pub result : Forwarded
  pub logger : Logger
  pub request_sent : Bytes
  pub left_open : Bool

-- An error is logged, the socket closed, and the answer is 502.
unfoldable pub give_up : ℕ → Bytes → Bytes → Logger → Exchange
give_up id message sent l = record {
  result = answered bad_gateway;
  logger = log_error id message l;
  request_sent = sent;
  left_open = false;
}

unfoldable pub stop : Forwarded → Bytes → Logger → Exchange
stop how sent l = record { result = how; logger = l; request_sent = sent; left_open = true }

-- A whole response: a malformed one is answered by 502.
unfoldable pub accept_response : ℕ → Bytes → HttpResponse → Bytes → Logger → Exchange
accept_response id server response sent l =
    if response.parse_error
    then give_up id (codes "Received invalid response from server.") sent l
    else record {
      result = answered response;
      logger = log_received_response id response.status_line server l;
      request_sent = sent;
      left_open = false;
    }

-- The loop that receives; `message` is what has come so far.
unfoldable pub receive_response :
    Libc → ℕ → ℕ → Bytes → Bytes → List (ℤ × Receive) → Bytes → Logger → Exchange
receive_response libc fuel id server sent [] message l = stop waiting sent l
receive_response libc fuel id server sent ((now, recv_failed) ∷ script) message l =
    give_up id (codes "Failed to receive response from server.") sent l
receive_response libc fuel id server sent ((now, received bytes) ∷ script) message l =
    elim (is_empty bytes) [
      | true ↦ give_up id (codes "Failed to receive response from server.") sent l
      | false ↦ elim (parse_response libc fuel now bad_gateway (message ++ bytes)) [
        | complete response rest ↦ accept_response id server response sent l
        | incomplete _ rest ↦ receive_response libc fuel id server sent script rest l
        | raised _ _ ↦ stop threw sent l
        | faulted ↦ stop misread sent l
        | exhausted ↦ stop unfinished sent l
      ]
    ]

-- The end of sending the request.
unfoldable pub after_send :
    Libc → ℕ → ℕ → Bytes → List (ℤ × Receive) → Sending → Bytes → Logger → Exchange
after_send libc fuel id server script all_sent sent l =
    receive_response libc fuel id server sent script [] l
after_send libc fuel id server script gave_up sent l =
    give_up id (codes "Failed to send data to server.") sent l
after_send libc fuel id server script blocked sent l = stop waiting sent l

abbrev pub request_line_text : HttpRequest → Bytes
request_line_text request =
    request.method ++ (b' ' ∷ (request.url ++ (b' ' ∷ request.http_version)))

unfoldable pub forward_request : Libc → ℕ → HttpRequest → ℕ → Origin → Logger → Exchange
forward_request libc fuel request id origin l =
    if not (origin.resolves request.host)
    then give_up id (codes "Failed to resolve host: " ++ request.host) [] l
    else if not (connects origin.attempts)
    then give_up id (codes "Failed to connect to server: " ++ request.host) [] l
    else let l' = log_forward_request id (request_line_text request) request.host l in
      let (result, socket, l'') =
        reliable_send id (serialize libc.order request) origin.socket l' in
      after_send libc fuel id request.host origin.receives result socket.transmitted l''
