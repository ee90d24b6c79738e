-- ===== src/ProxyServer/Shutdown/Progress.antt =====
-- What can happen once the destructor has notified the reaper.
use proxy_cache_server.Prelude.{
  ℕ, ◌≡◌, refl, ◌⊎◌, inl, inr, Bool, true, false, none, some, is_some, List, [], ◌∷◌, arith, ◌||◌,
  Bool-cases, Option-cases,
}
use proxy_cache_server.ProxyServer.{
  Server, find_handle, joinable, finished, erase_thread, erases, act,
}
use proxy_cache_server.ProxyServer.Shutdown.{
  Phase, serving, stopping, waiting, down, joining, Life, new_life, stop_flag, permits, notified,
  do_action, leave, join_left, destruct, Event, live,
}
use proxy_cache_server.ProxyServer.Shutdown.Well.{IsWell}
use proxy_cache_server.ProxyServer.Shutdown.Alive.{timely, live-IsWell}

unfoldable pub has_notified : Phase → Bool
has_notified serving = false
has_notified stopping = false
has_notified waiting = true
has_notified (joining is) = true
has_notified down = false

-- The destructor can go on, or the reaper.
abbrev pub goes_on : Life → Bool
goes_on l = is_some (destruct l) || is_some (leave l) || is_some (do_action erases l)

-- The destructor waits for a thread that is not over.
abbrev pub Awaits : Phase → Server → Type 0
Awaits (joining (i ∷ is)) s =
    (joinable (find_handle i s.client_threads) ≡ true)
    × (finished (find_handle i s.client_threads) ≡ false)
Awaits _ s = ⊥

destruct-waiting :
    (l : Life) → l.phase ≡ waiting → l.reaper_runs ≡ false → is_some (destruct l) ≡ true
unfolding destruct
destruct-waiting l e rests = rw (e, destruct, rests) refl

leave-waiting :
    (l : Life)
    → stop_flag l.phase ≡ true
    → l.reaper_runs ≡ true
    → l.asleep ≡ false
    → l.server.reaping ≡ none
    → is_some (leave l) ≡ true
unfolding leave
leave-waiting l stopped runs awake idle = ground arith

erase-waiting :
    (l : Life) (i : ℕ)
    → l.server.starting ≡ none
    → l.reaper_runs ≡ true
    → l.asleep ≡ false
    → l.server.reaping ≡ some i
    → is_some (do_action erases l) ≡ true
unfolding do_action permits act erase_thread
erase-waiting l i over runs awake reaps = ground arith

-- A visit waits for nothing but a thread that can be joined and is not over.
visit_cases :
    (i : ℕ) (s : Server)
    → (is_some (join_left i s) ≡ true)
      ⊎ ((joinable (find_handle i s.client_threads) ≡ true)
          × (finished (find_handle i s.client_threads) ≡ false))
unfolding join_left
visit_cases i s = elim (Option-cases (find_handle i s.client_threads)) [
  | inl missing ↦ inl (ground arith)
  | inr (h, found) ↦ elim (Bool-cases h.is_joinable) [
    | inr idle ↦ inl (ground arith)
    | inl can ↦ elim (Bool-cases h.has_finished) [
      | inl over ↦ inl (ground arith)
      | inr runs ↦ inr (ground arith, ground arith)
    ]
  ]
]

destruct-joining :
    (l : Life) (i : ℕ) (is : List ℕ)
    → l.phase ≡ joining (i ∷ is)
    → is_some (join_left i l.server) ≡ true
    → is_some (destruct l) ≡ true
unfolding destruct
destruct-joining l i is e there = elim (Option-cases (join_left i l.server)) [
  | inl blocked ↦ absurd (ground arith)
  | inr (s, joined) ↦ rw (e, destruct, joined) refl
]

proceeds :
    (p : Phase) (l : Life)
    → l.phase ≡ p
    → IsWell l
    → has_notified p ≡ true
    → (goes_on l ≡ true) ⊎ Awaits p l.server
unfolding has_notified
proceeds serving l e w h = absurd cc
proceeds stopping l e w h = absurd cc
proceeds down l e w h = absurd cc
proceeds waiting l e w h =
    let (over, awake) = rw e at w.stands in
    let stopped : stop_flag l.phase ≡ true = rw e (unfold stop_flag in refl) in
    elim (Bool-cases l.reaper_runs) [
      | inr rests ↦ let done = destruct-waiting l e rests in inl (ground arith)
      | inl runs ↦ elim (Option-cases l.server.reaping) [
        | inl idle ↦ let done = leave-waiting l stopped runs awake idle in inl (ground arith)
        | inr (i, reaps) ↦ let done = erase-waiting l i over runs awake reaps in inl (ground arith)
      ]
    ]
proceeds (joining []) l e w h =
    let done : is_some (destruct l) ≡ true = unfold destruct in rw (e, destruct) refl in
    inl (ground arith)
proceeds (joining (i ∷ is)) l e w h = elim (visit_cases i l.server) [
  | inl there ↦ let done = destruct-joining l i is e there in inl (ground arith)
  | inr runs ↦ inr runs
]

-- In the life of such a server, once the destructor has notified the reaper and is not at its end:
-- the reaper or the destructor can go on, or the destructor waits for the thread of a client that is
-- not over. The reaper does not miss the notification.
pub live_proceeds :
    (events : List Event) {l : Life}
    → timely events new_life ≡ true
    → live events new_life ≡ some l
    → has_notified l.phase ≡ true
    → (goes_on l ≡ true) ⊎ Awaits l.phase l.server
live_proceeds events {l} e done notified =
    proceeds l.phase l refl (live-IsWell events e done) notified
