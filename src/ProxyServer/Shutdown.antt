-- ===== src/ProxyServer/Shutdown.antt =====
-- docker-deploy/src/ProxyServer.cpp: the loop of cleanup_threads() with its condition variable, the
-- exception with which start() ends, and the destructor. A thread that cannot be created is what
-- ends start(), whose loop has no other exit. One event is what a thread does between two points where
-- the threads meet; `none` is an event that cannot happen yet.
pub mod Alive
pub mod Covers
pub mod Events
pub mod Kept
pub mod Progress
pub mod Well
use proxy_cache_server.Prelude.{
  ℕ, Bool, true, false, not, ◌&&◌, ◌||◌, Option, none, some, is_some, List, [], ◌∷◌, map,
  if◌then◌else◌,
}
use proxy_cache_server.ProxyServer.{
  Handle, Server, new_server, find_handle, update, joinable, Action, accepts, assigns, finishes,
  takes, erases, act,
}

-- Where the thread of main() is: in start(); in the destructor, with `stop_flag` set, before its
-- notification; in `reaper_thread.join()`; in the loop over `client_threads`, with the nodes it has yet
-- to visit; behind the destructor.
pub data Phase : Type 0 where
  serving stopping waiting down : Phase
  joining : List ℕ → Phase

-- `reaper_runs` while cleanup_threads() is not over, `asleep` while it waits for a notification.
pub record Life : Type 0 where
  pub server : Server
  pub reaper_runs : Bool
  pub asleep : Bool
  pub phase : Phase

abbrev pub new_life : Life
new_life = record { server = new_server; reaper_runs = true; asleep = false; phase = serving }

unfoldable pub stop_flag : Phase → Bool
stop_flag serving = false
stop_flag _ = true

-- Which of the actions can happen: start() is over once the flag is set, and then every thread is in its
-- node; the reaper acts while it is awake.
unfoldable pub permits : Action → Life → Bool
permits accepts l = not (stop_flag l.phase)
permits assigns l = not (stop_flag l.phase)
permits (finishes i) l = not (stop_flag l.phase) || joinable (find_handle i l.server.client_threads)
permits takes l = l.reaper_runs && not l.asleep
permits erases l = l.reaper_runs && not l.asleep

-- handle_client() notifies the reaper.
unfoldable pub notified : Action → Bool → Bool
notified (finishes i) asleep = false
notified _ asleep = asleep

unfoldable pub do_action : Action → Life → Option Life
do_action a l =
    if permits a l
    then elim (act a l.server) [
      | none ↦ none
      | some s ↦ some (record l { server = s; asleep = notified a l.asleep })
    ]
    else none

abbrev pub nothing_to_reap : Server → Bool
nothing_to_reap s = not (is_some s.reaping) && elim s.reaper_q [ [] ↦ true | i ∷ q ↦ false ]

-- `reaper_q_cv.wait`, where its predicate is false
unfoldable pub sleep : Life → Option Life
sleep l =
    if l.reaper_runs && (nothing_to_reap l.server && not (stop_flag l.phase))
    then some (record l { asleep = true })
    else none

-- The loop of the reaper ends.
unfoldable pub leave : Life → Option Life
leave l =
    if l.reaper_runs && not l.asleep && not (is_some l.server.reaping) && stop_flag l.phase
    then some (record l { reaper_runs = false })
    else none

-- start() cannot create a thread for the node it has added: the exception releases the lock and runs
-- the destructor, up to `stop_flag = true`.
unfoldable pub fail_thread : Life → Option Life
fail_thread l = elim l.server.starting [
  | none ↦ none
  | some i ↦
      if stop_flag l.phase
      then none
      else some (record l { server = record l.server { starting = none }; phase = stopping })
]

abbrev pub ids : List Handle → List ℕ
ids hs = map (λ h. h.id) hs

-- A node that the destructor visits: to join a thread waits until it is over. A number that no node has
-- changes nothing; the loop visits none.
unfoldable pub join_left : ℕ → Server → Option Server
join_left i s = elim (find_handle i s.client_threads) [
  | none ↦ some s
  | some h ↦
      if not h.is_joinable
      then some s
      else if h.has_finished
      then some (record s {
        client_threads = update i (λ g. record g { is_joinable = false }) s.client_threads;
      })
      else none
]

unfoldable pub any_joinable : List Handle → Bool
any_joinable [] = false
any_joinable (h ∷ hs) = h.is_joinable || any_joinable hs

-- The members are destroyed; to destroy a thread that can be joined is std::terminate.
unfoldable pub drop_members : Server → Server
drop_members s = record s {
  client_threads = [];
  terminated = s.terminated || any_joinable s.client_threads;
}

-- The next step of the destructor.
unfoldable pub destruct : Life → Option Life
destruct l = elim l.phase [
  | serving ↦ none
  | stopping ↦
      if is_some l.server.reaping then none else some (record l { asleep = false; phase = waiting })
  | waiting ↦
      if l.reaper_runs
      then none
      else some (record l { phase = joining (ids l.server.client_threads) })
  | joining [] ↦ some (record l { server = drop_members l.server; phase = down })
  | joining (i ∷ is) ↦ elim (join_left i l.server) [
    | none ↦ none
    | some s ↦ some (record l { server = s; phase = joining is })
  ]
  | down ↦ none
]

pub data Event : Type 0 where
  does : Action → Event
  sleeps leaves fails destructs : Event

unfoldable pub step : Event → Life → Option Life
step (does a) l = do_action a l
step sleeps l = sleep l
step leaves l = leave l
step fails l = fail_thread l
step destructs l = destruct l

unfoldable pub live : List Event → Life → Option Life
live [] l = some l
live (e ∷ events) l = elim (step e l) [ none ↦ none | some l' ↦ live events l' ]
