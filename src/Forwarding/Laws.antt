-- ===== src/Forwarding/Laws.antt =====
-- What `forward_request` returns, and whether it closes the socket to the server.
use proxy_cache_server.Prelude.{
  ℕ, ◌≡◌, refl, ◌⊎◌, inl, inr, Bool, true, false, List, [], ◌∷◌, ◌++◌, arith, Bool-cases,
}
use proxy_cache_server.Prelude.Int.{ℤ}
use proxy_cache_server.Text.{Bytes, is_empty}
use proxy_cache_server.Libc.{Libc}
use proxy_cache_server.Logger.{Logger, log_forward_request}
use proxy_cache_server.Message.{Outcome, complete, incomplete, raised, faulted, exhausted}
use proxy_cache_server.HttpRequest.{HttpRequest, serialize}
use proxy_cache_server.HttpResponse.{HttpResponse, bad_gateway, parse_response}
use proxy_cache_server.Sending.{reliable_send}
use proxy_cache_server.Sending.Laws.{Sending-cases}
use proxy_cache_server.Forwarding.{
  Origin, connects, Receive, recv_failed, received, Forwarded, answered, threw, misread, unfinished,
  Exchange, give_up, stop, accept_response, receive_response, after_send, forward_request,
  request_line_text,
}

pub Receive-cases : (r : Receive) → (r ≡ recv_failed) ⊎ ((bytes : Bytes) × (r ≡ received bytes))
Receive-cases recv_failed = inl refl
Receive-cases (received bytes) = inr (bytes, refl)

-- A response that the parser has read from some text, without an error.
pub record IsParsed (libc : Libc) (fuel : ℕ) (r : HttpResponse) : Type 0 where
  pub text : Bytes
  pub now : ℤ
  pub rest : Bytes
  pub parsed : parse_response libc fuel now bad_gateway text ≡ complete r rest
  pub sound : r.parse_error ≡ false

-- A call that returns has closed the socket, and returns 502 or what the parser has read; one that
-- does not return has left the socket open.
abbrev pub Ends : Libc → ℕ → Forwarded → Bool → Type 0
Ends libc fuel (answered r) left = (left ≡ false) × ((r ≡ bad_gateway) ⊎ IsParsed libc fuel r)
Ends libc fuel _ left = left ≡ true

accept_response_sound :
    (id : ℕ) (server : Bytes) (r : HttpResponse) (sent : Bytes) (l : Logger)
    → r.parse_error ≡ false
    → ((accept_response id server r sent l).result ≡ answered r)
      × ((accept_response id server r sent l).left_open ≡ false)
unfolding accept_response
accept_response_sound id server r sent l sound = (ground arith, ground arith)

accept_response_bad :
    (id : ℕ) (server : Bytes) (r : HttpResponse) (sent : Bytes) (l : Logger)
    → r.parse_error ≡ true
    → ((accept_response id server r sent l).result ≡ answered bad_gateway)
      × ((accept_response id server r sent l).left_open ≡ false)
unfolding accept_response give_up
accept_response_bad id server r sent l bad = (ground arith, ground arith)

module _ (libc : Libc) (fuel id : ℕ) (server sent : Bytes) where
  after_parse-Ends :
      (now : ℤ) (text : Bytes) (l : Logger) (o : Outcome HttpResponse) (script : List (ℤ × Receive))
      → parse_response libc fuel now bad_gateway text ≡ o
      → ((rest : Bytes)
          → let again = receive_response libc fuel id server sent script rest l in
            Ends libc fuel again.result again.left_open)
      → let ex : Exchange = elim o [
        | complete response rest ↦ accept_response id server response sent l
        | incomplete _ rest ↦ receive_response libc fuel id server sent script rest l
        | raised _ _ ↦ stop threw sent l
        | faulted ↦ stop misread sent l
        | exhausted ↦ stop unfinished sent l
      ] in
        Ends libc fuel ex.result ex.left_open
  unfolding stop
  after_parse-Ends now text l (complete r rest) script e again = elim (Bool-cases r.parse_error) [
    | inl bad ↦
        let (result, closed) = accept_response_bad id server r sent l bad in
        rw (result, closed) (refl, inl refl)
    | inr good ↦
        let (result, closed) = accept_response_sound id server r sent l good in
        rw (result, closed)
          (refl, inr (record { text = text; now = now; rest = rest; parsed = e; sound = good }))
  ]
  after_parse-Ends now text l (incomplete r rest) script e again = again rest
  after_parse-Ends now text l (raised r rest) script e again = refl
  after_parse-Ends now text l faulted script e again = refl
  after_parse-Ends now text l exhausted script e again = refl

  receive_response-Ends :
      (script : List (ℤ × Receive)) (message : Bytes) (l : Logger)
      → let ex = receive_response libc fuel id server sent script message l in
        Ends libc fuel ex.result ex.left_open
  unfolding receive_response give_up stop
  receive_response-Ends [] message l = refl
  receive_response-Ends ((now, recv_failed) ∷ script) message l = (refl, inl refl)
  receive_response-Ends ((now, received bytes) ∷ script) message l =
      elim (Bool-cases (is_empty bytes)) [
        | inl closed ↦ rw (closed, receive_response) (refl, inl refl)
        | inr more ↦
            rw (more, receive_response)
              (after_parse-Ends now (message ++ bytes) l _ script refl
                (λ rest. receive_response-Ends script rest l))
      ]

-- Whatever the network does: a call of `forward_request` that returns has closed its socket to the
-- server, and what it returns is 502 or a response that the parser has read without an error. A call
-- that an exception leaves, or that waits, has left the socket open.
pub forward_request-Ends :
    (libc : Libc) (fuel : ℕ) (request : HttpRequest) (id : ℕ) (origin : Origin) (l : Logger)
    → let ex = forward_request libc fuel request id origin l in
      Ends libc fuel ex.result ex.left_open
unfolding forward_request after_send give_up stop
forward_request-Ends libc fuel request id origin l =
    elim (Bool-cases (origin.resolves request.host)) [
      | inr unknown ↦ rw (unknown, forward_request) (refl, inl refl)
      | inl known ↦ elim (Bool-cases (connects origin.attempts)) [
        | inr lost ↦ rw (known, lost, forward_request) (refl, inl refl)
        | inl there ↦
            let l' = log_forward_request id (request_line_text request) request.host l in
            let sending = reliable_send id (serialize libc.order request) origin.socket l' in
            elim (Sending-cases sending.0) [
              | inl all ↦
                  rw (known, there, forward_request, all, after_send)
                    (receive_response-Ends libc fuel id request.host _ origin.receives [] _)
              | inr (inl failed) ↦
                  rw (known, there, forward_request, failed, after_send) (refl, inl refl)
              | inr (inr waits) ↦ rw (known, there, forward_request, waits, after_send) refl
            ]
      ]
    ]
