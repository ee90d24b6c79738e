-- ===== src/ProxyServer/Construction/Laws.antt =====
-- How the program ends.
use proxy_cache_server.Prelude.{
  ℕ, ◌≡◌, refl, sym, Bool, true, false, not, ◌&&◌, ◌||◌, Option, none, some, is_some, List, [], ◌∷◌,
  ◌++◌, append-nil, append_assoc, if◌then◌else◌,
}
use proxy_cache_server.Text.{Bytes, codes}
use proxy_cache_server.Text.Number.{to_string, digits_of}
use proxy_cache_server.ProxyServer.Construction.{
  Setup, Process, construct, begin, start_reaper, Exit, serves, returns, aborts, report,
  join_reaper, destroy, unwind, serve, main,
}

-- The descriptors that the constructor opens.
abbrev pub opened : Option ℕ → List ℕ
opened none = []
opened (some fd) = fd ∷ []

unfoldable pub is_serving : Exit → Bool
is_serving (serves fd) = true
is_serving returns = false
is_serving aborts = false

unfoldable pub is_abort : Exit → Bool
is_abort aborts = true
is_abort _ = false

abbrev pub is_constructed : Setup → Bool
is_constructed os = is_some os.socket && os.binds

abbrev pub start_throws : Setup → Bool
start_throws os = not os.listens || is_some os.thread_error

-- What has come out on `std::cout`: the report of an exception where `main` returns, and else at most
-- the line of start().
abbrev pub Says : Setup → Process → Process × Exit → Type 0
Says os p (p', returns) =
    (what : Bytes) × (p'.cout
      ≡ p.cout
        ++ ((codes "Exception caught: " ++ what) ∷ codes "Shutting down proxy server..." ∷ []))
Says os p (p', _) =
    p'.cout ≡ p.cout ++ (if os.listens then codes "Proxy server listening on port 80" ∷ [] else [])

-- By the branches of the set-up.
outcome :
    (socket : Option ℕ) (binds listens : Bool) (thread_error : Option Bytes) (join_error : Bytes)
    (p : Process)
    → let os : Setup = record {
      socket = socket;
      binds = binds;
      listens = listens;
      thread_error = thread_error;
      join_error = join_error;
    } in
      let (p', e) = main os p in
      (p'.closed ≡ p.closed ++ (if is_serving e then [] else opened socket))
      × (is_abort e ≡ (is_constructed os && start_throws os))
      × (is_serving e ≡ (is_constructed os && not (start_throws os)))
      × Says os p (p', e)
unfolding main construct report serve begin start_reaper unwind destroy join_reaper is_serving
    is_abort to_string digits_of
outcome none binds listens thread_error join_error p =
    (sym (append-nil p.closed), refl, refl, (_, append_assoc p.cout _ _))
outcome (some fd) false listens thread_error join_error p =
    (refl, refl, refl, (_, append_assoc p.cout _ _))
outcome (some fd) true false thread_error join_error p = (refl, refl, refl, sym (append-nil p.cout))
outcome (some fd) true true none join_error p = (sym (append-nil p.closed), refl, refl, refl)
outcome (some fd) true true (some what) join_error p = (refl, refl, refl, refl)

-- Whatever the calls of the set-up do. The program comes to serve exactly where the constructor and
-- start() up to its loop succeed, and ends in std::terminate exactly where the constructor succeeds
-- and start() throws, because `listen` fails or the thread of the reaper cannot be created. Where it
-- does not serve, the descriptor that it opened is closed, once. Where `main` returns it has printed
-- the report of an exception; else, also before std::terminate, it has printed the line of start()
-- where `listen` succeeds and nothing more.
pub main_ends :
    (os : Setup) (p : Process)
    → let (p', e) = main os p in
      (p'.closed ≡ p.closed ++ (if is_serving e then [] else opened os.socket))
      × (is_abort e ≡ (is_constructed os && start_throws os))
      × (is_serving e ≡ (is_constructed os && not (start_throws os)))
      × Says os p (p', e)
main_ends os p = outcome os.socket os.binds os.listens os.thread_error os.join_error p
