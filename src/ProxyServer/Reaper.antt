-- ===== src/ProxyServer/Reaper.antt =====
-- The iterators of the reaper, in every order of what the threads do.
use proxy_cache_server.Prelude.{
  ℕ, ◌≡◌, ◌≢◌, inl, inr, Bool, true, false, Option, none, some, is_some, List, [], ◌∷◌, ◌++◌, arith,
  ◌||◌, Bool-cases, Option-cases, List-cases, All, All-append, All-map,
}
use proxy_cache_server.ProxyServer.{
  Handle, Server, new_server, find_handle, update, erase_handle, finished, accept_client,
  assign_thread, finish_client, take_finished, erase_thread, Action, accepts, assigns, finishes,
  takes, erases, act, run,
}

-- The node that an iterator points to is there, and its thread is over.
abbrev pub IsOver : List Handle → ℕ → Type 0
IsOver hs i = finished (find_handle i hs) ≡ true

abbrev pub Apart : List ℕ → Type 0
Apart [] = Unit
Apart (i ∷ is) = All (λ j. i ≢ j) is × Apart is

-- The iterators that the reaper has or will have.
abbrev pub pending : Option ℕ → List ℕ → List ℕ
pending none q = q
pending (some i) q = i ∷ q

pub record IsSound (s : Server) : Type 0 where
  pub over : All (IsOver s.client_threads) (pending s.reaping s.reaper_q)
  pub apart : Apart (pending s.reaping s.reaper_q)

IsOver-snoc : (hs : List Handle) (h : Handle) (i : ℕ) → IsOver hs i → IsOver (hs ++ h ∷ []) i
unfolding find_handle
IsOver-snoc [] h i e = cc
IsOver-snoc (g ∷ hs) h i e = ground (arith, IsOver-snoc hs h i)

IsOver-join :
    (i j : ℕ) (b : Bool) (hs : List Handle)
    → IsOver hs j
    → IsOver (update i (λ h. record h { is_joinable = b }) hs) j
unfolding find_handle update
IsOver-join i j b [] e = e
IsOver-join i j b (h ∷ hs) e = ground (arith, IsOver-join i j b hs)

IsOver-finish :
    (i j : ℕ) (hs : List Handle)
    → IsOver hs j
    → IsOver (update i (λ h. record h { has_finished = true }) hs) j
unfolding find_handle update
IsOver-finish i j [] e = e
IsOver-finish i j (h ∷ hs) e = ground (arith, IsOver-finish i j hs)

IsOver-finish_self :
    (i : ℕ) (hs : List Handle) (h : Handle)
    → find_handle i hs ≡ some h
    → IsOver (update i (λ h. record h { has_finished = true }) hs) i
unfolding find_handle update
IsOver-finish_self i [] h e = cc
IsOver-finish_self i (g ∷ hs) h e = ground (arith, IsOver-finish_self i hs h)

IsOver-erase_handle :
    (i j : ℕ) (hs : List Handle) → i ≢ j → IsOver hs j → IsOver (erase_handle i hs) j
unfolding find_handle erase_handle
IsOver-erase_handle i j [] ne e = e
IsOver-erase_handle i j (h ∷ hs) ne e = ground (arith, IsOver-erase_handle i j hs ne)

Apart-snoc : (is : List ℕ) (i : ℕ) → Apart is → All (λ j. j ≢ i) is → Apart (is ++ i ∷ [])
Apart-snoc [] i a others = (tt, tt)
Apart-snoc (j ∷ is) i (a, rest) (ne, others) =
    (All-append (λ k. j ≢ k) is (i ∷ []) a (ne, tt), Apart-snoc is i rest others)

-- Where the action can happen, what it leaves is sound.
abbrev pub Kept : Option Server → Type 0
Kept none = Unit
Kept (some s) = IsSound s

accept_client-Kept : (s : Server) → IsSound s → Kept (accept_client s)
unfolding accept_client
accept_client-Kept s v = elim (Option-cases s.starting) [
  | inr (i, busy) ↦ rw (busy, accept_client) tt
  | inl free ↦
      rw (free, accept_client)
        (record {
          over = All-map _ _ _ (λ j. IsOver-snoc s.client_threads _ j) v.over;
          apart = v.apart;
        })
]

assign_thread-Kept : (s : Server) → IsSound s → Kept (assign_thread s)
unfolding assign_thread
assign_thread-Kept s v = elim (Option-cases s.starting) [
  | inl idle ↦ rw (idle, assign_thread) tt
  | inr (i, busy) ↦
      rw (busy, assign_thread)
        (record {
          over = All-map _ _ _ (λ j. IsOver-join i j true s.client_threads) v.over;
          apart = v.apart;
        })
]

-- A thread that goes on is in no iterator of the reaper.
unfinished_ne :
    (hs : List Handle) (i : ℕ) (h : Handle)
    → find_handle i hs ≡ some h
    → h.has_finished ≡ false
    → (j : ℕ) → IsOver hs j
    → j ≢ i
unfinished_ne hs i h found runs j over = λ same. ground arith

finish_client-Kept : (i : ℕ) (s : Server) → IsSound s → Kept (finish_client i s)
unfolding finish_client
finish_client-Kept i s v = elim (Option-cases (find_handle i s.client_threads)) [
  | inl missing ↦ rw (missing, finish_client) tt
  | inr (h, found) ↦ elim (Bool-cases (h.has_finished || is_some s.reaping)) [
    | inl stays ↦ rw (found, finish_client, stays) tt
    | inr goes ↦
        let waits : s.reaping ≡ none = ground arith in
        let over : All (IsOver s.client_threads) s.reaper_q = rw waits at v.over in
        let apart : Apart s.reaper_q = rw waits at v.apart in
        let others = unfinished_ne s.client_threads i h found (ground arith) in
        let finish : Handle → Handle = λ h. record h { has_finished = true } in
        let threads = update i finish s.client_threads in
        let over' : All (IsOver threads) (s.reaper_q ++ i ∷ []) =
          All-append (IsOver threads) s.reaper_q (i ∷ [])
            (All-map _ _ s.reaper_q (λ j. IsOver-finish i j s.client_threads) over)
            (IsOver-finish_self i s.client_threads h found, tt) in
        let apart' = Apart-snoc s.reaper_q i apart (All-map _ _ s.reaper_q others over) in
        rw (found, finish_client, goes) (record { over = rw waits over'; apart = rw waits apart' })
  ]
]

take_finished-Kept : (s : Server) → IsSound s → Kept (take_finished s)
unfolding take_finished
take_finished-Kept s v = elim (Option-cases s.reaping) [
  | inr (j, reaps) ↦ rw (reaps, take_finished) tt
  | inl waits ↦ elim (List-cases s.reaper_q) [
    | inl nothing ↦ rw (waits, nothing, take_finished) tt
    | inr (i, q, e) ↦
        let over = rw (waits, e) at v.over in
        let apart = rw (waits, e) at v.apart in
        rw (waits, e, take_finished)
          (record {
            over = All-map _ _ (i ∷ q) (λ j. IsOver-join i j false s.client_threads) over;
            apart = apart;
          })
  ]
]

erase_handle-IsOver :
    (i : ℕ) (hs : List Handle) (q : List ℕ)
    → All (λ j. i ≢ j) q
    → All (IsOver hs) q
    → All (IsOver (erase_handle i hs)) q
erase_handle-IsOver i hs [] others over = tt
erase_handle-IsOver i hs (j ∷ q) (ne, others) (e, over) =
    (IsOver-erase_handle i j hs ne e, erase_handle-IsOver i hs q others over)

erase_thread-Kept : (s : Server) → IsSound s → Kept (erase_thread s)
unfolding erase_thread
erase_thread-Kept s v = elim (Option-cases s.reaping) [
  | inl idle ↦ rw (idle, erase_thread) tt
  | inr (i, reaps) ↦
      let (here, over) = rw reaps at v.over in
      let (others, apart) = rw reaps at v.apart in
      elim (Bool-cases (is_some s.starting)) [
        | inl busy ↦ rw (reaps, busy, erase_thread) tt
        | inr free ↦
            rw (reaps, free, erase_thread)
              (record {
                over = erase_handle-IsOver i s.client_threads s.reaper_q others over;
                apart = apart;
              })
      ]
]

pub act-Kept : (a : Action) (s : Server) → IsSound s → Kept (act a s)
unfolding act
act-Kept accepts s v = accept_client-Kept s v
act-Kept assigns s v = assign_thread-Kept s v
act-Kept (finishes i) s v = finish_client-Kept i s v
act-Kept takes s v = take_finished-Kept s v
act-Kept erases s v = erase_thread-Kept s v

run-Kept : (actions : List Action) (s : Server) → IsSound s → Kept (run actions s)
unfolding run
run-Kept [] s v = v
run-Kept (a ∷ actions) s v = elim (Option-cases (act a s)) [
  | inl blocked ↦ rw (blocked, run) tt
  | inr (s', done) ↦ rw (done, run) (run-Kept actions s' (rw done at (act-Kept a s v)))
]

-- After every run of the server from its start, in any order of what its threads do: each iterator
-- that the reaper has taken or will take points to a node of `client_threads`, whose thread is over,
-- and no iterator stands there twice.
pub run-IsSound : (actions : List Action) {s : Server} → run actions new_server ≡ some s → IsSound s
run-IsSound actions e = rw e at (run-Kept actions new_server (record { over = tt; apart = tt }))
