-- ===== src/ClientHandler.antt =====
-- docker-deploy/src/ClientHandler.cpp, `handle_client_requests`: the loop of the thread of a client. What
-- `recv` returns and what the thread reads of the shared state is a script; where it has nothing left,
-- the thread waits.
pub mod Laws
pub mod Pipelined
use proxy_cache_server.Prelude.{ℕ, suc, Bool, true, false, List, [], ◌∷◌, ◌++◌, if◌then◌else◌}
use proxy_cache_server.Prelude.Int.{ℤ}
use proxy_cache_server.Text.{Bytes, is_empty}
use proxy_cache_server.Message.{Outcome, complete, incomplete, raised, faulted, exhausted}
use proxy_cache_server.HttpRequest.{HttpRequest, fresh, parse_request}
use proxy_cache_server.Forwarding.{Receive, recv_failed, received}
use proxy_cache_server.RequestHandler.{
  Setting, World, Handling, keep_open, close_client, handler_threw, handler_waiting,
  handler_misread, handler_unfinished, handle_request,
}

-- One round of the inner loop: what the memory of the new request object holds as its error code,
-- and what the handler reads; the number of the request is `curr_request_id` as it is read for the
-- handler.
pub record Turn : Type 0 where
  pub code : ℤ
  pub setting : Setting

-- One round of the outer loop: the stop flag, the `recv`, and the turns there are for it.
pub record Round : Type 0 where
  pub stop_flag : Bool
  pub piece : Receive
  pub turns : List Turn

-- The thread's buffer, the world, the requests handed to the handler in order, and how often
-- `curr_request_id` was counted up.
pub record Connection : Type 0 where
  pub curr_message : Bytes
  pub world : World
  pub handled : List HttpRequest
  pub drawn : ℕ

-- How the inner loop ends: it asks for more bytes, closes the connection, an exception is swallowed, or
-- the thread does not go on, as it waits or the model stops.
pub data Drained : Type 0 where
  needs_more closing swallowed stuck : Drained

-- A request is handed to the handler, which leaves `w`.
unfoldable pub hand_over : HttpRequest → Bytes → World → Connection → Connection
hand_over request rest w c = record {
  curr_message = rest;
  world = w;
  handled = c.handled ++ request ∷ [];
  drawn = suc c.drawn;
}

-- The inner loop, over the requests in the buffer.
unfoldable pub drain : List Turn → Connection → Drained × Connection
drain [] c = (stuck, c)
drain (turn ∷ turns) c = elim (parse_request turn.setting.fuel (fresh turn.code) c.curr_message) [
  | complete request rest ↦
      let (how, w) = handle_request turn.setting request c.world in
      let c' = hand_over request rest w c in
      elim how [
        | keep_open ↦ drain turns c'
        | close_client ↦ (closing, c')
        | handler_threw ↦ (swallowed, c')
        | handler_waiting ↦ (stuck, c')
        | handler_misread ↦ (stuck, c')
        | handler_unfinished ↦ (stuck, c')
      ]
  | incomplete request rest ↦ (needs_more, record c { curr_message = rest })
  | raised request rest ↦ (swallowed, record c { curr_message = rest })
  | faulted ↦ (stuck, c)
  | exhausted ↦ (stuck, c)
]

-- The outer loop: whether the thread leaves it. A `recv` that returns -1 makes a string of a length
-- that throws, and the exception is swallowed.
unfoldable pub handle_client_requests : List Round → Connection → Bool × Connection
handle_client_requests [] c = (false, c)
handle_client_requests (round ∷ rounds) c = elim round.stop_flag [
  | true ↦ (true, c)
  | false ↦ elim round.piece [
    | recv_failed ↦ handle_client_requests rounds c
    | received bytes ↦ elim (is_empty bytes) [
      | true ↦ (true, c)
      | false ↦
          let (how, c') = drain round.turns (record c { curr_message = c.curr_message ++ bytes }) in
          elim how [
            | needs_more ↦ handle_client_requests rounds c'
            | swallowed ↦ handle_client_requests rounds c'
            | closing ↦ (true, c')
            | stuck ↦ (false, c')
          ]
    ]
  ]
]
