-- ===== src/Sending.antt =====
-- docker-deploy/src/RequestHandler.cpp, `reliable_send`. A socket is a script of what the calls of
-- `send` on it return, and the bytes that they have handed to the kernel.
pub mod Laws
use proxy_cache_server.Prelude.{
  ℕ, ◌%◌, ◌^◌, Bool, List, [], ◌∷◌, ◌++◌, ltb, if◌then◌else◌, length, take, drop,
}
use proxy_cache_server.Text.{Bytes, codes}
use proxy_cache_server.Logger.{Logger, log_error}

-- What one `send` returns: -1, or a number of bytes; the kernel takes at most what it is offered.
pub data SendResult : Type 0 where
  send_failed : SendResult
  accepted : ℕ → SendResult

-- `sends` is used up in order. A call for which it has nothing left does not return.
pub record Socket : Type 0 where
  pub sends : List SendResult
  pub transmitted : Bytes

-- How `reliable_send` ends: it returns 0 or -1, or waits in a `send`.
pub data Sending : Type 0 where
  all_sent gave_up blocked : Sending

-- The number of bytes that the loop means to send: `int remaining = len`, in 32 bits, and no round
-- of the loop where that is negative.
unfoldable pub int_remaining : ℕ → ℕ
int_remaining len = let low = len % 2 ^ 32 in if ltb low (2 ^ 31) then low else 0

-- The loop, from the bytes that remain.
unfoldable pub send_loop : Bytes → List SendResult → Bytes → Sending × Socket
send_loop [] script out = (all_sent, record { sends = script; transmitted = out })
send_loop (c ∷ s) [] out = (blocked, record { sends = []; transmitted = out })
send_loop (c ∷ s) (send_failed ∷ script) out =
    (gave_up, record { sends = script; transmitted = out })
send_loop (c ∷ s) (accepted n ∷ script) out =
    send_loop (drop n (c ∷ s)) script (out ++ take n (c ∷ s))

unfoldable pub note_failure : ℕ → Sending → Logger → Logger
note_failure id gave_up l = log_error id (codes "A send returned -1, closing connection.") l
note_failure id _ l = l

unfoldable pub reliable_send : ℕ → Bytes → Socket → Logger → Sending × Socket × Logger
reliable_send id message socket l =
    let (result, after) =
      send_loop (take (int_remaining (length message)) message) socket.sends socket.transmitted in
    (result, after, note_failure id result l)
