-- ===== src/ProxyServer/Construction.antt =====
-- docker-deploy/src/proxy.cpp, with the constructor of ProxyServer.cpp and the part of start() before its
-- loop. What the operating system's calls return are arguments. start() leaves its loop by an exception
-- alone, which ProxyServer/Shutdown has.
pub mod Laws
use proxy_cache_server.Prelude.{
  ℕ, Bool, true, false, List, [], ◌∷◌, ◌++◌, Option, none, some, if◌then◌else◌,
}
use proxy_cache_server.Text.{Bytes, codes}
use proxy_cache_server.Text.Number.{to_string}

-- The descriptors that were closed, and the lines on `std::cout`.
pub record Process : Type 0 where
  pub closed : List ℕ
  pub cout : List Bytes

-- What the calls of the set-up do: the descriptor of `socket`, whether `bind` and `listen` succeed,
-- what the exception says where the thread of the reaper cannot be created, and what that of a
-- std::thread says that has no thread to join.
pub record Setup : Type 0 where
  pub socket : Option ℕ
  pub binds : Bool
  pub listens : Bool
  pub thread_error : Option Bytes
  pub join_error : Bytes

-- The members that the set-up and the destructor use; `reaper_started` is whether `reaper_thread` has a
-- thread, and `notified` whether `reaper_q_cv` was notified.
pub record Server : Type 0 where
  pub listening_sockfd : ℕ
  pub stop_flag : Bool
  pub notified : Bool
  pub reaper_started : Bool

abbrev pub print : Bytes → Process → Process
print line p = record p { cout = p.cout ++ line ∷ [] }

abbrev pub close : ℕ → Process → Process
close fd p = record p { closed = p.closed ++ fd ∷ [] }

-- A value, or the exception with its `what()`.
pub data Result (A : Type 0) : Type 0 where
  made : A → Result A
  threw : Bytes → Result A

-- The constructor: the server, or an exception.
unfoldable pub construct : Setup → Process → Process × Result Server
construct os p = elim os.socket [
  | none ↦ (p, threw (codes "Failed to create Proxy's listener socket"))
  | some fd ↦
      if os.binds
      then (
        p,
        made (record {
          listening_sockfd = fd;
          stop_flag = false;
          notified = false;
          reaper_started = false;
        }),
      )
      else (close fd p, threw (codes "Failed to bind socket to port"))
]

-- `reaper_thread = std::thread(...)`
unfoldable pub start_reaper : Setup → Server → Server × Result Unit
start_reaper os s = elim os.thread_error [
  | none ↦ (record s { reaper_started = true }, made tt)
  | some what ↦ (s, threw what)
]

-- start() up to its loop.
unfoldable pub begin : ℕ → Setup → Server → Process → Process × Server × Result Unit
begin port os s p =
    let (s', started) = start_reaper os s in
    if os.listens
    then (print (codes "Proxy server listening on port " ++ to_string port) p, s', started)
    else (p, s, threw (codes "Failed to set up socket to listen for incoming connections"))

-- How the program goes: it serves clients in the loop of start(), `main` returns, or std::terminate.
pub data Exit : Type 0 where
  serves : ℕ → Exit
  returns aborts : Exit

unfoldable pub report : Bytes → Process → Process
report what p =
    print (codes "Shutting down proxy server...") (print (codes "Exception caught: " ++ what) p)

-- `reaper_thread.join()`
unfoldable pub join_reaper : Setup → Server → Result Unit
join_reaper os s = if s.reaper_started then made tt else threw os.join_error

-- The destructor on a server that has accepted no client: there is no thread in `client_threads`.
unfoldable pub destroy : Setup → Server → Process → Process × Server × Result Unit
destroy os s p =
    let p' = close s.listening_sockfd p in
    let s' = record s { stop_flag = true; notified = true } in
    elim (join_reaper os s') [
      | threw what ↦ (p', s', threw what)
      | made _ ↦ (
        print (codes "All threads joined. Proxy server shutting down...") p',
        record s' { reaper_started = false },
        made tt,
      )
    ]

-- An exception leaves start(): the server is destroyed on its way to the handler in `main`. A destructor
-- lets no exception out, by std::terminate.
unfoldable pub unwind : Setup → Bytes → Server → Process → Process × Exit
unwind os what s p =
    let (p', _, destroyed) = destroy os s p in
    elim destroyed [ threw _ ↦ (p', aborts) | made _ ↦ (report what p', returns) ]

unfoldable pub serve : ℕ → Setup → Server → Process → Process × Exit
serve port os s p =
    let (p', s', started) = begin port os s p in
    elim started [ made _ ↦ (p', serves s'.listening_sockfd) | threw what ↦ unwind os what s' p' ]

unfoldable pub main : Setup → Process → Process × Exit
main os p =
    let (p', constructed) = construct os p in
    elim constructed [ made s ↦ serve 80 os s p' | threw what ↦ (report what p', returns) ]

abbrev pub new_process : Process
new_process = record { closed = []; cout = [] }
