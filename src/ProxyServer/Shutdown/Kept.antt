-- ===== src/ProxyServer/Shutdown/Kept.antt =====
-- The nodes of `client_threads`: no two have one number, in every run of the server.
use proxy_cache_server.Prelude.{
  ℕ, ◌≡◌, ◌≢◌, refl, ap, inl, inr, Bool, true, false, Option, none, some, is_some, List, [], ◌∷◌,
  ◌++◌, arith, ◌==◌, ◌||◌, Bool-cases, Option-cases, List-cases,
}
use proxy_cache_server.ProxyServer.{
  Handle, Server, find_handle, update, erase_handle, accept_client, assign_thread, finish_client,
  take_finished, erase_thread, Action, accepts, assigns, finishes, takes, erases, act,
}
use proxy_cache_server.ProxyServer.Timely.{Below}

abbrev pub IsDistinct : List Handle → Type 0
IsDistinct [] = Unit
IsDistinct (h ∷ hs) = (find_handle h.id hs ≡ none) × IsDistinct hs

find_handle-Below : (n : ℕ) (hs : List Handle) → Below n hs → find_handle n hs ≡ none
unfolding find_handle
find_handle-Below n [] b = refl
find_handle-Below n (h ∷ hs) (below, b) = ground (arith, find_handle-Below n hs b)

find_handle-snoc_ne :
    (i : ℕ) (hs : List Handle) (h : Handle)
    → i ≢ h.id
    → find_handle i hs ≡ none
    → find_handle i (hs ++ h ∷ []) ≡ none
unfolding find_handle
find_handle-snoc_ne i [] h ne e = ground arith
find_handle-snoc_ne i (g ∷ hs) h ne e = ground (arith, find_handle-snoc_ne i hs h ne)

IsDistinct-snoc :
    (hs : List Handle) (h : Handle) → Below h.id hs → IsDistinct hs → IsDistinct (hs ++ h ∷ [])
unfolding find_handle
IsDistinct-snoc [] h b d = (refl, tt)
IsDistinct-snoc (g ∷ hs) h (below, b) (absent, d) =
    (find_handle-snoc_ne g.id hs h (λ same. ground arith) absent, IsDistinct-snoc hs h b d)

-- The actions of start(), and those of the reaper.
unfoldable pub is_start : Action → Bool
is_start accepts = true
is_start assigns = true
is_start _ = false

unfoldable pub is_reap : Action → Bool
is_reap takes = true
is_reap erases = true
is_reap _ = false

-- An update that keeps the numbers.
find_handle-update :
    (i j : ℕ) (f : Handle → Handle) (hs : List Handle)
    → ((h : Handle) → (f h).id ≡ h.id)
    → find_handle j hs ≡ none
    → find_handle j (update i f hs) ≡ none
unfolding find_handle update
find_handle-update i j f [] same e = refl
find_handle-update i j f (h ∷ hs) same e = ground (arith, same h, find_handle-update i j f hs same)

pub update-IsDistinct :
    (i : ℕ) (f : Handle → Handle) (hs : List Handle)
    → ((h : Handle) → (f h).id ≡ h.id)
    → IsDistinct hs
    → IsDistinct (update i f hs)
unfolding update
update-IsDistinct i f [] same d = tt
update-IsDistinct i f (h ∷ hs) same (absent, d) = elim (Bool-cases (h.id == i)) [
  | inl here ↦ rw (here, update, same h) (absent, d)
  | inr other ↦
      rw (other, update)
        (find_handle-update i h.id f hs same absent, update-IsDistinct i f hs same d)
]

find_handle-erase :
    (i j : ℕ) (hs : List Handle)
    → find_handle j hs ≡ none
    → find_handle j (erase_handle i hs) ≡ none
unfolding find_handle erase_handle
find_handle-erase i j [] e = refl
find_handle-erase i j (h ∷ hs) e = ground (arith, find_handle-erase i j hs)

erase_handle-IsDistinct :
    (i : ℕ) (hs : List Handle) → IsDistinct hs → IsDistinct (erase_handle i hs)
unfolding erase_handle
erase_handle-IsDistinct i [] d = tt
erase_handle-IsDistinct i (h ∷ hs) (absent, d) = elim (Bool-cases (h.id == i)) [
  | inl here ↦ rw (here, erase_handle) d
  | inr other ↦
      rw (other, erase_handle) (find_handle-erase i h.id hs absent, erase_handle-IsDistinct i hs d)
]

-- What an action changes besides the nodes' numbers.
pub record Effect (a : Action) (s s' : Server) : Type 0 where
  pub distinct : IsDistinct s.client_threads → IsDistinct s'.client_threads
  pub started : is_start a ≡ false → s'.starting ≡ s.starting
  pub reaped : is_reap a ≡ false → s'.reaping ≡ s.reaping
  pub queued : is_start a ≡ true → s'.reaper_q ≡ s.reaper_q

abbrev EffectOf : Action → Server → Option Server → Type 0
EffectOf a s none = Unit
EffectOf a s (some s') = Effect a s s'

accept_client-Effect :
    (s : Server) → Below s.next_id s.client_threads → EffectOf accepts s (accept_client s)
unfolding accept_client is_start is_reap
accept_client-Effect s b = elim (Option-cases s.starting) [
  | inr (i, busy) ↦ rw (busy, accept_client) tt
  | inl free ↦
      rw (free, accept_client)
        (record {
          distinct = λ d. IsDistinct-snoc s.client_threads _ b d;
          started = λ e. cc;
          reaped = λ e. refl;
          queued = λ e. refl;
        })
]

assign_thread-Effect : (s : Server) → EffectOf assigns s (assign_thread s)
unfolding assign_thread is_start is_reap
assign_thread-Effect s = elim (Option-cases s.starting) [
  | inl idle ↦ rw (idle, assign_thread) tt
  | inr (i, busy) ↦
      rw (busy, assign_thread)
        (record {
          distinct = λ d. update-IsDistinct i _ s.client_threads (λ h. refl) d;
          started = λ e. cc;
          reaped = λ e. refl;
          queued = λ e. refl;
        })
]

finish_client-Effect : (i : ℕ) (s : Server) → EffectOf (finishes i) s (finish_client i s)
unfolding finish_client is_start is_reap
finish_client-Effect i s = elim (Option-cases (find_handle i s.client_threads)) [
  | inl missing ↦ rw (missing, finish_client) tt
  | inr (h, found) ↦ elim (Bool-cases (h.has_finished || is_some s.reaping)) [
    | inl stays ↦ rw (found, finish_client, stays) tt
    | inr goes ↦
        rw (found, finish_client, goes)
          (record {
            distinct = λ d. update-IsDistinct i _ s.client_threads (λ h. refl) d;
            started = λ e. refl;
            reaped = λ e. refl;
            queued = λ e. cc;
          })
  ]
]

take_finished-Effect : (s : Server) → EffectOf takes s (take_finished s)
unfolding take_finished is_start is_reap
take_finished-Effect s = elim (Option-cases s.reaping) [
  | inr (j, reaps) ↦ rw (reaps, take_finished) tt
  | inl waits ↦ elim (List-cases s.reaper_q) [
    | inl nothing ↦ rw (waits, nothing, take_finished) tt
    | inr (i, q, e) ↦
        rw (waits, e, take_finished)
          (record {
            distinct = λ d. update-IsDistinct i _ s.client_threads (λ h. refl) d;
            started = λ e. refl;
            reaped = λ e. cc;
            queued = λ e. cc;
          })
  ]
]

erase_thread-Effect : (s : Server) → EffectOf erases s (erase_thread s)
unfolding erase_thread is_start is_reap
erase_thread-Effect s = elim (Option-cases s.reaping) [
  | inl idle ↦ rw (idle, erase_thread) tt
  | inr (i, reaps) ↦ elim (Bool-cases (is_some s.starting)) [
    | inl busy ↦ rw (reaps, busy, erase_thread) tt
    | inr free ↦
        rw (reaps, free, erase_thread)
          (record {
            distinct = λ d. erase_handle-IsDistinct i s.client_threads d;
            started = λ e. refl;
            reaped = λ e. cc;
            queued = λ e. cc;
          })
  ]
]

act-EffectOf : (a : Action) (s : Server) → Below s.next_id s.client_threads → EffectOf a s (act a s)
unfolding act
act-EffectOf accepts s b = accept_client-Effect s b
act-EffectOf assigns s b = assign_thread-Effect s
act-EffectOf (finishes i) s b = finish_client-Effect i s
act-EffectOf takes s b = take_finished-Effect s
act-EffectOf erases s b = erase_thread-Effect s

pub act-Effect :
    (a : Action) (s s' : Server)
    → Below s.next_id s.client_threads
    → act a s ≡ some s'
    → Effect a s s'
act-Effect a s s' b e = rw e at (act-EffectOf a s b)

pub finish_only :
    (i : ℕ) (s s' : Server)
    → finish_client i s ≡ some s'
    → (s'.client_threads ≡ update i (λ h. record h { has_finished = true }) s.client_threads)
      × (s'.terminated ≡ s.terminated)
      × Effect (finishes i) s s'
unfolding finish_client
finish_only i s s' e =
    let effect : Effect (finishes i) s s' = rw e at (finish_client-Effect i s) in
    elim (Option-cases (find_handle i s.client_threads)) [
      | inl missing ↦ absurd (ground arith)
      | inr (h, found) ↦ elim (Bool-cases (h.has_finished || is_some s.reaping)) [
        | inl stays ↦ absurd (ground arith)
        | inr goes ↦
            let made : s' ≡ record s {
              client_threads = update i (λ g. record g { has_finished = true }) s.client_threads;
              reaper_q = s.reaper_q ++ i ∷ [];
            } =
              ground arith in
            (ap (λ t. t.client_threads) made, ap (λ t. t.terminated) made, effect)
      ]
    ]
