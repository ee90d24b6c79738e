-- ===== src/CacheManager/Calls.antt =====
-- The calls that the threads make on the one cache. Its lock makes every call a step, so that what
-- several threads do is some sequence of calls.
use proxy_cache_server.Prelude.{ℕ, ◌≢◌, List, [], ◌∷◌}
use proxy_cache_server.Prelude.Int.{ℤ}
use proxy_cache_server.Text.{Bytes}
use proxy_cache_server.Libc.{Libc}
use proxy_cache_server.Logger.{Logger}
use proxy_cache_server.HttpResponse.{HttpResponse}
use proxy_cache_server.CacheManager.{
  CacheManager, new_cache, Fetched, dangling, get_cached_response, store_response,
}
use proxy_cache_server.CacheManager.Valid.{IsValid, new_cache-IsValid}
use proxy_cache_server.CacheManager.Preserved.{store_response-IsValid, get_cached_response-IsValid}

-- A call with what it reads: the times, the number of the request, the URL and the response.
pub data Call : Type 0 where
  store : ℤ → ℤ → ℕ → Bytes → HttpResponse → Call
  fetch : ℤ → ℕ → Bytes → Call

-- The cache and the log after the calls, and what the lookups returned, in order.
pub record Trace : Type 0 where
  pub cache : CacheManager
  pub logger : Logger
  pub fetched : List Fetched

unfoldable pub run_calls : Libc → List Call → CacheManager → Logger → Trace
run_calls libc [] c l = record { cache = c; logger = l; fetched = [] }
run_calls libc (store now later id url r ∷ calls) c l =
    let s = store_response libc now later id url r c l in run_calls libc calls s.cache s.logger
run_calls libc (fetch now id url ∷ calls) c l =
    let (c', l', f) = get_cached_response now id url c l in
    let t = run_calls libc calls c' l' in record t { fetched = f ∷ t.fetched }

abbrev pub NoneDangles : List Fetched → Type 0
NoneDangles [] = Unit
NoneDangles (f ∷ fs) = (f ≢ dangling) × NoneDangles fs

pub run_calls-IsValid :
    (libc : Libc) (calls : List Call) (c : CacheManager) (l : Logger)
    → IsValid c
    → IsValid (run_calls libc calls c l).cache × NoneDangles (run_calls libc calls c l).fetched
unfolding run_calls
run_calls-IsValid libc [] c l v = (v, tt)
run_calls-IsValid libc (store now later id url r ∷ calls) c l v =
    run_calls-IsValid libc calls _ _ (store_response-IsValid libc now later id url r c l v)
run_calls-IsValid libc (fetch now id url ∷ calls) c l v =
    let (v', safe) = get_cached_response-IsValid now id url c l v in
    let (after, rest) = run_calls-IsValid libc calls _ _ v' in (after, (safe, rest))

-- From the empty cache, after any calls in any order: no lookup has read through an iterator whose
-- node was gone, every entry of the map points to a node of its own key, and the list holds at most
-- the capacity, or one node where the capacity is 0.
pub run_calls_safe :
    (libc : Libc) (capacity : ℕ) (calls : List Call) (l : Logger)
    → IsValid (run_calls libc calls (new_cache capacity) l).cache
      × NoneDangles (run_calls libc calls (new_cache capacity) l).fetched
run_calls_safe libc capacity calls l =
    run_calls-IsValid libc calls (new_cache capacity) l (new_cache-IsValid capacity)
