-- ===== src/ClientHandler/Laws.antt =====
-- What the thread of a client hands to the handler, and what it leaves of the cache.
use proxy_cache_server.Prelude.{
  ◌≡◌, refl, ◌⊎◌, inl, inr, List, [], ◌∷◌, ◌++◌, All, All-append, Bool-cases,
}
use proxy_cache_server.Prelude.Int.{ℤ}
use proxy_cache_server.Text.{Bytes, is_empty}
use proxy_cache_server.Message.{Outcome, complete, incomplete, raised, faulted, exhausted}
use proxy_cache_server.HttpRequest.{HttpRequest, fresh, parse_request}
use proxy_cache_server.HttpRequest.Verdict.{IsAccepted, IsRejected, parse_request-complete}
use proxy_cache_server.CacheManager.{CacheManager}
use proxy_cache_server.CacheManager.Valid.{IsValid}
use proxy_cache_server.Forwarding.Laws.{Receive-cases}
use proxy_cache_server.RequestHandler.{
  Setting, Handling, keep_open, close_client, handler_threw, handler_waiting, handler_misread,
  handler_unfinished, handle_request,
}
use proxy_cache_server.RequestHandler.CacheEffects.{handle_request-IsValid}
use proxy_cache_server.ClientHandler.{
  Turn, Round, Connection, Drained, needs_more, closing, swallowed, stuck, hand_over, drain,
  handle_client_requests,
}

Drained-cases : (d : Drained) → (d ≡ needs_more) ⊎ ((d ≡ swallowed) ⊎ ((d ≡ closing) ⊎ (d ≡ stuck)))
Drained-cases needs_more = inl refl
Drained-cases swallowed = inr (inl refl)
Drained-cases closing = inr (inr (inl refl))
Drained-cases stuck = inr (inr (inr refl))

-- What other threads do before the handler's sections under the lock keeps the invariant.
abbrev pub Polite : Setting → Type 0
Polite s =
    ((c : CacheManager) → IsValid c → IsValid (s.before_lookup c))
    × ((c : CacheManager) → IsValid c → IsValid (s.before_store c))

abbrev Verdict : HttpRequest → Type 0
Verdict r = IsRejected r ⊎ ((code : ℤ) × IsAccepted code r)

abbrev Sound : Connection → Type 0
Sound c = All Verdict c.handled

verdict : (code : ℤ) (r : HttpRequest) → IsRejected r ⊎ IsAccepted code r → Verdict r
verdict code r (inl refused) = inl refused
verdict code r (inr accepted) = inr (code, accepted)

turn_units : (turns : List Turn) → All (λ turn. Unit {0}) turns
turn_units [] = tt
turn_units (turn ∷ turns) = (tt, turn_units turns)

all_units : (rounds : List Round) → All (λ round. All (λ turn. Unit {0}) round.turns) rounds
all_units [] = tt
all_units (round ∷ rounds) = (turn_units round.turns, all_units rounds)

-- A property of the connection that the buffer does not matter to, and that handing over a request keeps
-- which the parser has read from the buffer.
module _ (P : Connection → Type 0) (Q : Setting → Type 0)
    (rebuffer : (c : Connection) (b : Bytes) → P c → P (record c { curr_message = b }))
    (hands : (turn : Turn) (c : Connection) (request : HttpRequest) (rest : Bytes)
      → Q turn.setting
      → P c
      → parse_request turn.setting.fuel (fresh turn.code) c.curr_message ≡ complete request rest
      → P (hand_over request rest (handle_request turn.setting request c.world).1 c)) where
  after_handling :
      (how : Handling) (turns : List Turn) (c : Connection)
      → P c
      → P (drain turns c).1
      → P
          (elim how as (λ _. Drained × Connection) [
            | keep_open ↦ drain turns c
            | close_client ↦ (closing, c)
            | handler_threw ↦ (swallowed, c)
            | handler_waiting ↦ (stuck, c)
            | handler_misread ↦ (stuck, c)
            | handler_unfinished ↦ (stuck, c)
          ]).1
  after_handling keep_open turns c p others = others
  after_handling close_client turns c p others = p
  after_handling handler_threw turns c p others = p
  after_handling handler_waiting turns c p others = p
  after_handling handler_misread turns c p others = p
  after_handling handler_unfinished turns c p others = p

  drain_keeps :
      (turns : List Turn) (c : Connection)
      → All (λ turn. Q turn.setting) turns
      → P c
      → P (drain turns c).1
  unfolding drain
  drain_keeps [] c q p = p
  drain_keeps (turn ∷ turns) c (q, qs) p =
      after_parse (λ c' p'. drain_keeps turns c' qs p')
        (parse_request turn.setting.fuel (fresh turn.code) c.curr_message) refl
    where
      after_parse :
          (more : (c' : Connection) → P c' → P (drain turns c').1) (o : Outcome HttpRequest)
          → parse_request turn.setting.fuel (fresh turn.code) c.curr_message ≡ o
          → P
              (elim o as (λ _. Drained × Connection) [
                | complete request rest ↦
                    let (how, w) = handle_request turn.setting request c.world in
                    let c' = hand_over request rest w c in
                    elim how [
                      | keep_open ↦ drain turns c'
                      | close_client ↦ (closing, c')
                      | handler_threw ↦ (swallowed, c')
                      | handler_waiting ↦ (stuck, c')
                      | handler_misread ↦ (stuck, c')
                      | handler_unfinished ↦ (stuck, c')
                    ]
                | incomplete request rest ↦ (needs_more, record c { curr_message = rest })
                | raised request rest ↦ (swallowed, record c { curr_message = rest })
                | faulted ↦ (stuck, c)
                | exhausted ↦ (stuck, c)
              ]).1
      after_parse more (complete request rest) e =
          let handed = hands turn c request rest q p e in
          after_handling _ turns _ handed (more _ handed)
      after_parse more (incomplete request rest) e = rebuffer c rest p
      after_parse more (raised request rest) e = rebuffer c rest p
      after_parse more faulted e = p
      after_parse more exhausted e = p

  pub handle_client_requests_keeps :
      (rounds : List Round) (c : Connection)
      → All (λ round. All (λ turn. Q turn.setting) round.turns) rounds
      → P c
      → P (handle_client_requests rounds c).1
  unfolding handle_client_requests
  handle_client_requests_keeps [] c q p = p
  handle_client_requests_keeps (round ∷ rounds) c (q, qs) p = elim (Bool-cases round.stop_flag) [
    | inl stopped ↦ rw (stopped, handle_client_requests) p
    | inr runs ↦ elim (Receive-cases round.piece) [
      | inl failed ↦
          rw (runs, failed, handle_client_requests) (handle_client_requests_keeps rounds c qs p)
      | inr (bytes, got) ↦ elim (Bool-cases (is_empty bytes)) [
        | inl closed ↦ rw (runs, got, closed, handle_client_requests) p
        | inr more ↦
            let filled = record c { curr_message = c.curr_message ++ bytes } in
            let drained =
              drain_keeps round.turns filled q (rebuffer c (c.curr_message ++ bytes) p) in
            let others = handle_client_requests_keeps rounds _ qs drained in
            elim (Drained-cases (drain round.turns filled).0) [
              | inl asks ↦ rw (runs, got, more, asks, handle_client_requests) others
              | inr (inl lost) ↦ rw (runs, got, more, lost, handle_client_requests) others
              | inr (inr (inl over)) ↦ rw (runs, got, more, over, handle_client_requests) drained
              | inr (inr (inr waits)) ↦ rw (runs, got, more, waits, handle_client_requests) drained
            ]
      ]
    ]
  ]

-- Every request that the thread hands to the handler, from a new connection on, is one that the
-- parser has refused with error 400, or one with a known method, a URL, version HTTP/1.1, the Host field
-- that is its host, one entry for each header name and no Transfer-Encoding.
pub handle_client_requests-handled :
    (rounds : List Round) (c : Connection)
    → c.handled ≡ []
    → All
        (λ r. IsRejected r ⊎ ((code : ℤ) × IsAccepted code r))
        (handle_client_requests rounds c).1.handled
handle_client_requests-handled rounds c new =
    handle_client_requests_keeps Sound (λ s. Unit {0}) (λ c b p. p)
      (λ turn c request rest q p e.
        unfold hand_over in
        All-append Verdict c.handled (request ∷ []) p
          (verdict turn.code request (parse_request-complete _ turn.code c.curr_message e), tt))
      rounds c (all_units rounds) (rw new tt)

-- The thread keeps the invariant of the cache, whatever it receives, and whatever other threads do
-- between its sections under the lock that keeps the invariant too.
pub handle_client_requests-IsValid :
    (rounds : List Round) (c : Connection)
    → All (λ round. All (λ turn. Polite turn.setting) round.turns) rounds
    → IsValid c.world.cache
    → IsValid (handle_client_requests rounds c).1.world.cache
handle_client_requests-IsValid rounds c polite v =
    handle_client_requests_keeps (λ c. IsValid c.world.cache) Polite (λ c b p. p)
      (λ turn c request rest q p e.
        unfold hand_over in handle_request-IsValid turn.setting request c.world q.0 q.1 p)
      rounds c polite v
