-- ===== src/ProxyServer.antt =====
-- docker-deploy/src/ProxyServer.cpp: the threads of the clients and the reaper. What start(),
-- handle_client() and cleanup_threads() do between two points where they meet is one action, and a
-- run is a sequence of actions of all threads; `none` is an action that cannot happen yet. An
-- iterator is the number of its node.
pub mod Construction
pub mod Reaper
pub mod Shutdown
pub mod Timely
use proxy_cache_server.Prelude.{
  ℕ, suc, Bool, true, false, not, ◌&&◌, ◌||◌, Option, none, some, List, [], ◌∷◌, ◌++◌, ◌==◌,
  if◌then◌else◌, is_some,
}

-- A node of `client_threads`: whether its std::thread can be joined, and whether the function of the
-- thread is over, up to its entry in the queue.
pub record Handle : Type 0 where
  pub id : ℕ
  pub is_joinable : Bool
  pub has_finished : Bool

-- `starting` is the node that start() fills, with `client_threads_lock`; `reaping` is the iterator that
-- the reaper has taken from the queue. `terminated` notes std::terminate.
pub record Server : Type 0 where
  pub client_threads : List Handle
  pub reaper_q : List ℕ
  pub next_id : ℕ
  pub starting : Option ℕ
  pub reaping : Option ℕ
  pub terminated : Bool

abbrev pub new_server : Server
new_server = record {
  client_threads = [];
  reaper_q = [];
  next_id = 0;
  starting = none;
  reaping = none;
  terminated = false;
}

unfoldable pub find_handle : ℕ → List Handle → Option Handle
find_handle i [] = none
find_handle i (h ∷ hs) = if h.id == i then some h else find_handle i hs

unfoldable pub update : ℕ → (Handle → Handle) → List Handle → List Handle
update i f [] = []
update i f (h ∷ hs) = if h.id == i then f h ∷ hs else h ∷ update i f hs

unfoldable pub erase_handle : ℕ → List Handle → List Handle
erase_handle i [] = []
erase_handle i (h ∷ hs) = if h.id == i then hs else h ∷ erase_handle i hs

abbrev pub finished : Option Handle → Bool
finished none = false
finished (some h) = h.has_finished

abbrev pub joinable : Option Handle → Bool
joinable none = false
joinable (some h) = h.is_joinable

-- start(): a connection is accepted, and a node added with the lock; the new thread can run at once.
unfoldable pub accept_client : Server → Option Server
accept_client s = elim s.starting [
  | some _ ↦ none
  | none ↦ some (record s {
    client_threads =
        s.client_threads
        ++ (record { id = s.next_id; is_joinable = false; has_finished = false }) ∷ [];
    next_id = suc s.next_id;
    starting = some s.next_id;
  })
]

-- start(): the std::thread is moved into the node, and the lock released.
unfoldable pub assign_thread : Server → Option Server
assign_thread s = elim s.starting [
  | none ↦ none
  | some i ↦ some (record s {
    client_threads = update i (λ h. record h { is_joinable = true }) s.client_threads;
    starting = none;
  })
]

-- handle_client(): the thread of node `i` has served its client, and enters the queue, for which it needs
-- the lock that the reaper holds while it reaps.
unfoldable pub finish_client : ℕ → Server → Option Server
finish_client i s = elim (find_handle i s.client_threads) [
  | none ↦ none
  | some h ↦
      if h.has_finished || is_some s.reaping
      then none
      else some (record s {
        client_threads = update i (λ h. record h { has_finished = true }) s.client_threads;
        reaper_q = s.reaper_q ++ i ∷ [];
      })
]

-- cleanup_threads(): the first iterator is taken, and its thread joined if it can be.
unfoldable pub take_finished : Server → Option Server
take_finished s = elim s.reaping [
  | some _ ↦ none
  | none ↦ elim s.reaper_q [
    | [] ↦ none
    | i ∷ q ↦ some (record s {
      client_threads = update i (λ h. record h { is_joinable = false }) s.client_threads;
      reaper_q = q;
      reaping = some i;
    })
  ]
]

-- cleanup_threads(): with the lock, the node is erased; to destroy a thread that can be joined is
-- std::terminate.
unfoldable pub erase_thread : Server → Option Server
erase_thread s = elim s.reaping [
  | none ↦ none
  | some i ↦
      if is_some s.starting
      then none
      else some (record s {
        client_threads = erase_handle i s.client_threads;
        reaping = none;
        terminated = s.terminated || joinable (find_handle i s.client_threads);
      })
]

pub data Action : Type 0 where
  accepts assigns takes erases : Action
  finishes : ℕ → Action

unfoldable pub act : Action → Server → Option Server
act accepts s = accept_client s
act assigns s = assign_thread s
act (finishes i) s = finish_client i s
act takes s = take_finished s
act erases s = erase_thread s

unfoldable pub run : List Action → Server → Option Server
run [] s = some s
run (a ∷ actions) s = elim (act a s) [ none ↦ none | some s' ↦ run actions s' ]
