-- ===== src/Sending/Laws.antt =====
-- What `reliable_send` transmits, however its calls of `send` return, and when it ends.
use proxy_cache_server.Prelude.{
  ℕ, ◌+◌, ◌<◌, ◌≤◌, ◌^◌, ◌≡◌, refl, sym, ap, ◌∙◌, List, [], ◌∷◌, ◌++◌, ◌⊎◌, inl, inr, arith, length,
  take, drop, take_long, length-drop, append-nil, append_assoc, take-append_drop, take-add,
}
use proxy_cache_server.Text.{Bytes}
use proxy_cache_server.Logger.{Logger}
use proxy_cache_server.Sending.{
  SendResult, send_failed, accepted, Socket, Sending, all_sent, gave_up, blocked, int_remaining,
  send_loop, reliable_send,
}

pub Sending-cases : (r : Sending) → (r ≡ all_sent) ⊎ ((r ≡ gave_up) ⊎ (r ≡ blocked))
Sending-cases all_sent = inl refl
Sending-cases gave_up = inr (inl refl)
Sending-cases blocked = inr (inr refl)

-- What stands behind `before` once the loop is over: the message, or a part of it that is shorter.
abbrev pub Transmits : Bytes → Bytes → Sending → Socket → Type 0
Transmits before message all_sent socket = socket.transmitted ≡ before ++ message
Transmits before message _ socket =
    (k : ℕ) × (k < length message) × (socket.transmitted ≡ before ++ take k message)

abbrev PartOf : Bytes → Bytes → Socket → Type 0
PartOf before message socket =
    (k : ℕ) × (k < length message) × (socket.transmitted ≡ before ++ take k message)

PartOf-accepted :
    (before message : Bytes) (n : ℕ) (socket : Socket)
    → PartOf (before ++ take n message) (drop n message) socket
    → PartOf before message socket
PartOf-accepted before message n socket (k, short, e) = (
  n + k,
  omega (arith, short, length-drop n message),
  e
      ∙ append_assoc before (take n message) (take k (drop n message))
      ∙ ap (λ s. before ++ s) (take-add n k message),
)

-- One `send` takes the first `n` bytes, and the loop goes on with the others.
Transmits-accepted :
    (before message : Bytes) (n : ℕ) (result : Sending) (socket : Socket)
    → Transmits (before ++ take n message) (drop n message) result socket
    → Transmits before message result socket
Transmits-accepted before message n all_sent socket e =
    e
    ∙ append_assoc before (take n message) (drop n message)
    ∙ ap (λ s. before ++ s) (take-append_drop n message)
Transmits-accepted before message n gave_up socket part =
    PartOf-accepted before message n socket part
Transmits-accepted before message n blocked socket part =
    PartOf-accepted before message n socket part

send_loop-Transmits :
    (message : Bytes) (script : List SendResult) (before : Bytes)
    → Transmits before message
        (send_loop message script before).0
        (send_loop message script before).1
unfolding send_loop
send_loop-Transmits [] script before = sym (append-nil before)
send_loop-Transmits (c ∷ s) [] before = (0, omega arith, sym (append-nil before))
send_loop-Transmits (c ∷ s) (send_failed ∷ script) before =
    (0, omega arith, sym (append-nil before))
send_loop-Transmits (c ∷ s) (accepted n ∷ script) before =
    Transmits-accepted before (c ∷ s) n _ _
      (send_loop-Transmits (drop n (c ∷ s)) script (before ++ take n (c ∷ s)))

int_remaining_small : (n : ℕ) → n < 2 ^ 31 → int_remaining n ≡ n
unfolding int_remaining
int_remaining_small n small = ground arith

-- A message of less than 2 ^ 31 bytes: where `reliable_send` returns 0 it has transmitted the whole
-- message and nothing else, and where it returns -1 or waits, a part from the start that is shorter.
pub reliable_send-Transmits :
    (id : ℕ) (message : Bytes) (socket : Socket) (l : Logger)
    → length message < 2 ^ 31
    → let (result, after, _) = reliable_send id message socket l in
      Transmits socket.transmitted message result after
unfolding reliable_send
reliable_send-Transmits id message socket l small =
    let whole : take (int_remaining (length message)) message ≡ message =
      take_long _ message (omega (arith, int_remaining_small (length message) small)) in
    rw whole (send_loop-Transmits message socket.sends socket.transmitted)

-- Every `send` takes at least a byte.
abbrev pub Advances : List SendResult → Type 0
Advances [] = Unit
Advances (send_failed ∷ script) = ⊥
Advances (accepted n ∷ script) = (0 < n) × Advances script

send_loop_ends :
    (message : Bytes) (script : List SendResult) (before : Bytes)
    → Advances script
    → length message ≤ length script
    → (send_loop message script before).0 ≡ all_sent
unfolding send_loop
send_loop_ends [] script before adv enough = refl
send_loop_ends (c ∷ s) [] before adv enough = absurd (omega arith)
send_loop_ends (c ∷ s) (send_failed ∷ script) before adv enough = absurd adv
send_loop_ends (c ∷ s) (accepted n ∷ script) before (some_taken, adv) enough =
    send_loop_ends (drop n (c ∷ s)) script _ adv (omega (arith, length-drop n (c ∷ s)))

-- The loop ends: for a message of less than 2 ^ 31 bytes, where no `send` fails, each takes at least
-- one byte, and there are as many as the message has bytes, `reliable_send` returns 0.
pub reliable_send-all_sent :
    (id : ℕ) (message : Bytes) (socket : Socket) (l : Logger)
    → length message < 2 ^ 31
    → Advances socket.sends
    → length message ≤ length socket.sends
    → (reliable_send id message socket l).0 ≡ all_sent
unfolding reliable_send
reliable_send-all_sent id message socket l small adv enough =
    let whole : take (int_remaining (length message)) message ≡ message =
      take_long _ message (omega (arith, int_remaining_small (length message) small)) in
    rw whole (send_loop_ends message socket.sends socket.transmitted adv enough)

-- Where `int remaining` is negative, `reliable_send` returns 0 and has sent nothing.
pub reliable_send_negative :
    (id : ℕ) (message : Bytes) (socket : Socket) (l : Logger)
    → 2 ^ 31 ≤ length message
    → length message < 2 ^ 32
    → ((reliable_send id message socket l).0 ≡ all_sent)
      × ((reliable_send id message socket l).1 ≡ socket)
unfolding reliable_send send_loop
reliable_send_negative id message socket l large small =
    let none_left : int_remaining (length message) ≡ 0 = unfold int_remaining in ground arith in
    rw none_left (refl, refl)
