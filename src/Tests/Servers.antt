-- ===== src/Tests/Servers.antt =====
-- Runs and witnesses of the server's threads.
use proxy_cache_server.Text.{codes}
use proxy_cache_server.Prelude.{
  not, ◌≡◌, refl, ◌⊎◌, true, false, ◌&&◌, some, none, [], ◌∷◌, ◌++◌, List, if◌then◌else◌,
}
use proxy_cache_server.ProxyServer.{
  Server, Action, accepts, assigns, finishes, takes, erases, run, new_server,
}
use proxy_cache_server.ProxyServer.Reaper.{IsSound, run-IsSound}
use proxy_cache_server.ProxyServer.Timely.Runs.{run_alive}
use proxy_cache_server.ProxyServer.Construction.{Setup, new_process, main, aborts}
use proxy_cache_server.ProxyServer.Construction.Laws.{
  opened, is_serving, is_abort, is_constructed, start_throws, Says, main_ends,
}
use proxy_cache_server.ProxyServer.Shutdown.{
  Life, new_life, down, joining, Event, does, sleeps, leaves, fails, destructs, live,
}
use proxy_cache_server.ProxyServer.Shutdown.Alive.{LeavesNone, live_alive}
use proxy_cache_server.ProxyServer.Shutdown.Progress.{goes_on, Awaits, live_proceeds}
use proxy_cache_server.Tests.Program.{program}

-- Two clients; the second is served first.
two_clients : List Action
two_clients =
    accepts ∷ assigns ∷ accepts ∷ assigns ∷ finishes 1 ∷ finishes 0 ∷ takes ∷ erases ∷ takes ∷ []

after_two : Server
after_two = record {
  client_threads = (record { id = 0; is_joinable = false; has_finished = true }) ∷ [];
  reaper_q = [];
  next_id = 2;
  starting = none;
  reaping = some 0;
  terminated = false;
}

two_clients-run : run two_clients new_server ≡ some after_two
unfolding two_clients after_two program
two_clients-run = refl

run-IsSound_example : IsSound after_two
run-IsSound_example = run-IsSound two_clients two_clients-run

run_alive_example : after_two.terminated ≡ false
unfolding two_clients program
run_alive_example = run_alive two_clients refl two_clients-run

-- A thread that is over before start() has moved it into its node: the reaper does not join it, and
-- destroys it when it has become joinable.
too_early : List Action
too_early = accepts ∷ finishes 0 ∷ takes ∷ assigns ∷ erases ∷ []

too_early-run :
    run too_early new_server
    ≡ some (record {
      client_threads = [];
      reaper_q = [];
      next_id = 1;
      starting = none;
      reaping = none;
      terminated = true;
    })
unfolding too_early program
too_early-run = refl

-- The reaper is asleep when the thread of the third client cannot be created; the first client is still
-- served when the destructor begins, and the reaper is over before it ends.
shutdown_begun : List Event
shutdown_begun =
    does accepts
    ∷ does assigns
    ∷ does accepts
    ∷ does assigns
    ∷ does (finishes 1)
    ∷ does takes
    ∷ does erases
    ∷ sleeps
    ∷ does accepts
    ∷ fails
    ∷ destructs
    ∷ leaves
    ∷ destructs
    ∷ []

life_begun : Life
life_begun = record {
  server = record {
    client_threads =
        (record { id = 0; is_joinable = true; has_finished = false })
        ∷ (record { id = 2; is_joinable = false; has_finished = false })
        ∷ [];
    reaper_q = [];
    next_id = 3;
    starting = none;
    reaping = none;
    terminated = false;
  };
  reaper_runs = false;
  asleep = false;
  phase = joining (0 ∷ 2 ∷ []);
}

shutdown_begun-live : live shutdown_begun new_life ≡ some life_begun
unfolding shutdown_begun life_begun program
shutdown_begun-live = refl

live_proceeds_example : (goes_on life_begun ≡ true) ⊎ Awaits life_begun.phase life_begun.server
unfolding shutdown_begun life_begun program
live_proceeds_example = live_proceeds shutdown_begun refl shutdown_begun-live refl

shutdown : List Event
shutdown = shutdown_begun ++ does (finishes 0) ∷ destructs ∷ destructs ∷ destructs ∷ []

life_over : Life
life_over = record {
  server = record {
    client_threads = [];
    reaper_q = 0 ∷ [];
    next_id = 3;
    starting = none;
    reaping = none;
    terminated = false;
  };
  reaper_runs = false;
  asleep = false;
  phase = down;
}

shutdown-live : live shutdown new_life ≡ some life_over
unfolding shutdown shutdown_begun life_over program
shutdown-live = refl

live_alive_example :
    (life_over.server.terminated ≡ false) × LeavesNone life_over.phase life_over.server
unfolding shutdown shutdown_begun program
live_alive_example = live_alive shutdown refl shutdown-live

-- A port that can be bound, and a `listen` that fails.
deaf : Setup
deaf = record {
  socket = some 3;
  binds = true;
  listens = false;
  thread_error = none;
  join_error = codes "Invalid argument";
}

deaf-main : (main deaf new_process).1 ≡ aborts
unfolding deaf program
deaf-main = refl

main_ends_example :
    let (p, e) = main deaf new_process in
    (p.closed ≡ (if is_serving e then [] else opened deaf.socket))
    × (is_abort e ≡ (is_constructed deaf && start_throws deaf))
    × (is_serving e ≡ (is_constructed deaf && not (start_throws deaf)))
    × Says deaf new_process (p, e)
main_ends_example = main_ends deaf new_process
