-- ===== src/Forwarding/Sent.antt =====
-- What `forward_request` sends to a server that takes it.
use proxy_cache_server.Prelude.{
  ℕ, ◌<◌, ◌≤◌, ◌^◌, ◌≡◌, refl, ◌∙◌, inl, inr, true, List, [], ◌∷◌, ◌++◌, arith, length, Bool-cases,
  ap,
}
use proxy_cache_server.Prelude.Int.{ℤ}
use proxy_cache_server.Text.{Bytes, is_empty}
use proxy_cache_server.Libc.{Libc}
use proxy_cache_server.Logger.{Logger, log_forward_request}
use proxy_cache_server.Message.{Outcome, complete, incomplete, raised, faulted, exhausted}
use proxy_cache_server.HttpRequest
use proxy_cache_server.HttpRequest.{HttpRequest}
use proxy_cache_server.HttpResponse.{HttpResponse}
use proxy_cache_server.Sending.{reliable_send}
use proxy_cache_server.Sending.Laws.{Advances, reliable_send-Transmits, reliable_send-all_sent}
use proxy_cache_server.Forwarding.{
  Origin, Receive, recv_failed, received, connects, threw, misread, unfinished, Exchange, give_up,
  stop, accept_response, receive_response, after_send, forward_request, request_line_text,
}

-- A server that resolves and connects, and whose `send` calls take the whole message.
pub record Takes (host message : Bytes) (o : Origin) : Type 0 where
  pub known : o.resolves host ≡ true
  pub there : connects o.attempts ≡ true
  pub fresh : o.socket.transmitted ≡ []
  pub advances : Advances o.socket.sends
  pub enough : length message ≤ length o.socket.sends

module _ (libc : Libc) (fuel id : ℕ) (server sent : Bytes) where
  accept_response_sent :
      (r : HttpResponse) (l : Logger) → (accept_response id server r sent l).request_sent ≡ sent
  unfolding accept_response give_up
  accept_response_sent r l = ground arith

  after_parse_sent :
      (script : List (ℤ × Receive)) (l : Logger) (o : Outcome HttpResponse)
      → ((rest : Bytes)
          → (receive_response libc fuel id server sent script rest l).request_sent ≡ sent)
      → let ex : Exchange = elim o [
        | complete response rest ↦ accept_response id server response sent l
        | incomplete _ rest ↦ receive_response libc fuel id server sent script rest l
        | raised _ _ ↦ stop threw sent l
        | faulted ↦ stop misread sent l
        | exhausted ↦ stop unfinished sent l
      ] in
        ex.request_sent ≡ sent
  unfolding stop
  after_parse_sent script l (complete r rest) again = accept_response_sent r l
  after_parse_sent script l (incomplete r rest) again = again rest
  after_parse_sent script l (raised r rest) again = refl
  after_parse_sent script l faulted again = refl
  after_parse_sent script l exhausted again = refl

  -- The loop that receives sends nothing.
  receive_response_sent :
      (script : List (ℤ × Receive)) (message : Bytes) (l : Logger)
      → (receive_response libc fuel id server sent script message l).request_sent ≡ sent
  unfolding receive_response give_up stop
  receive_response_sent [] message l = refl
  receive_response_sent ((now, recv_failed) ∷ script) message l = refl
  receive_response_sent ((now, received bytes) ∷ script) message l =
      elim (Bool-cases (is_empty bytes)) [
        | inl closed ↦ rw (closed, receive_response) refl
        | inr more ↦
            rw (more, receive_response)
              (after_parse_sent script l _ (λ rest. receive_response_sent script rest l))
      ]

-- The whole request reaches such a server.
pub forward_request_sent :
    (libc : Libc) (fuel : ℕ) (request : HttpRequest) (id : ℕ) (o : Origin) (l : Logger)
    → let message = HttpRequest.serialize libc.order request in
      length message < 2 ^ 31
      → Takes request.host message o
      → (forward_request libc fuel request id o l).request_sent ≡ message
unfolding forward_request after_send
forward_request_sent libc fuel request id o l small takes =
    let message = HttpRequest.serialize libc.order request in
    let l' = log_forward_request id (request_line_text request) request.host l in
    let all = reliable_send-all_sent id message o.socket l' small takes.advances takes.enough in
    let sent = reliable_send-Transmits id message o.socket l' small in
    let whole = rw all at sent ∙ ap (λ t. t ++ message) takes.fresh in
    let (_, socket, l'') = reliable_send id message o.socket l' in
    rw (takes.known, takes.there, forward_request, all, after_send)
      (receive_response_sent libc fuel id request.host socket.transmitted o.receives [] l'' ∙ whole)
