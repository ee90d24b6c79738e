-- ===== src/Tunnel.antt =====
-- docker-deploy/src/RequestHandler.cpp, `handle_connect`: the tunnel. The results of its calls of
-- `send` are not looked at, so that each piece comes with how much of it `send` takes.
pub mod Relay
use proxy_cache_server.Prelude.{
  ℕ, Bool, true, false, not, Option, none, some, List, [], ◌∷◌, ◌++◌, if◌then◌else◌, take,
}
use proxy_cache_server.Text.{Bytes, codes, is_empty, find}
use proxy_cache_server.Logger.{Logger, log_error, log_tunnel_closed}
use proxy_cache_server.HttpRequest.{HttpRequest}
use proxy_cache_server.Sending.{
  SendResult, send_failed, accepted, Socket, Sending, reliable_send, all_sent, gave_up, blocked,
}
use proxy_cache_server.Forwarding.{Attempt, connects, Receive, recv_failed, received}

-- A `recv` on a socket that is ready, and the `send` of what it returned to the other side.
pub record Passage : Type 0 where
  pub piece : Receive
  pub taken : SendResult

-- A `select`: it fails, or it names which of the two sockets are ready, the client's first.
pub data Ready : Type 0 where
  select_failed : Ready
  ready : Option Passage → Option Passage → Ready

unfoldable pub taken_part : SendResult → Bytes → Bytes
taken_part send_failed bytes = []
taken_part (accepted n) bytes = take n bytes

-- One side of a round: what the other side has got by then, or `none` where the loop breaks.
unfoldable pub pass : Option Passage → Bytes → Option Bytes
pass none out = some out
pass (some p) out = elim p.piece [
  | recv_failed ↦ none
  | received bytes ↦ if is_empty bytes then none else some (out ++ taken_part p.taken bytes)
]

-- What either side has got, and whether the loop was left.
pub record Relayed : Type 0 where
  pub to_remote : Bytes
  pub to_client : Bytes
  pub ended : Bool

-- The loop; a `select` for which the script has nothing left does not return.
unfoldable pub relay : List Ready → Bytes → Bytes → Relayed
relay [] to_remote to_client = record {
  to_remote = to_remote;
  to_client = to_client;
  ended = false;
}
relay (select_failed ∷ script) to_remote to_client = record {
  to_remote = to_remote;
  to_client = to_client;
  ended = true;
}
relay (ready client remote ∷ script) to_remote to_client = elim (pass client to_remote) [
  | none ↦ record { to_remote = to_remote; to_client = to_client; ended = true }
  | some to_remote' ↦ elim (pass remote to_client) [
    | none ↦ record { to_remote = to_remote'; to_client = to_client; ended = true }
    | some to_client' ↦ relay script to_remote' to_client'
  ]
]

-- The host without its port.
unfoldable pub host_name : Bytes → Bytes
host_name server = elim (find server (codes ":") 0) [ none ↦ server | some pos ↦ take pos server ]

-- The network during the call.
pub record Remote : Type 0 where
  pub resolves : Bytes → Bool
  pub attempts : List Attempt
  pub rounds : List Ready

-- The client's socket and the log after the call, what the server got, whether the call returned,
-- and whether the socket to the server is still open.
pub record Tunnelled : Type 0 where
  pub client : Socket
  pub logger : Logger
  pub to_remote : Bytes
  pub returned : Bool
  pub left_open : Bool

abbrev bad_gateway_text : Bytes
bad_gateway_text = codes "HTTP/1.1 502 Bad Gateway\r\n\r\n"

unfoldable pub has_returned : Sending → Bool
has_returned blocked = false
has_returned _ = true

-- The error is sent to the client, and then logged unless the `send` waits.
unfoldable pub refuse : ℕ → ℕ → Bytes → Socket → Logger → Tunnelled
refuse sender id message client l =
    let (result, after, l') = reliable_send sender bad_gateway_text client l in
    record {
      client = after;
      logger = if has_returned result then log_error id message l' else l';
      to_remote = [];
      returned = has_returned result;
      left_open = false;
    }

-- The one unchecked `send` of the success line: `none` where it does not return.
unfoldable pub send_once : Bytes → Socket → Option Socket
send_once message client = elim client.sends [
  | [] ↦ none
  | result ∷ script ↦
      some
        (record { sends = script; transmitted = client.transmitted ++ taken_part result message })
]

-- The tunnel stands.
unfoldable pub open_tunnel : ℕ → Remote → Socket → Logger → Tunnelled
open_tunnel id remote client l =
    elim (send_once (codes "HTTP/1.1 200 Connection Established\r\n\r\n") client) [
      | none ↦ record {
        client = client;
        logger = l;
        to_remote = [];
        returned = false;
        left_open = true;
      }
      | some greeted ↦
          let out = relay remote.rounds [] greeted.transmitted in
          record {
            client = record greeted { transmitted = out.to_client };
            logger = if out.ended then log_tunnel_closed id l else l;
            to_remote = out.to_remote;
            returned = out.ended;
            left_open = not out.ended;
          }
    ]

unfoldable pub handle_connect : HttpRequest → ℕ → Remote → Socket → Logger → Tunnelled
handle_connect request id remote client l =
    let server = host_name request.host in
    if not (remote.resolves server)
    then refuse id id (codes "Failed to resolve HTTPS host: " ++ server) client l
    else if not (connects remote.attempts)
    then refuse 0 id (codes "Failed to establish HTTPS tunnel to " ++ server) client l
    else open_tunnel id remote client l
