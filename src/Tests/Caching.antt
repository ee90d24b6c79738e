-- ===== src/Tests/Caching.antt =====
-- Runs and witnesses of the cache and of the requests that use it.
use proxy_cache_server.Prelude.{
  Bool-cases, inl, inr, ℕ, zero, suc, ◌≡◌, refl, true, false, none, List, [], ◌∷◌, ◌++◌, arith,
}
use proxy_cache_server.Prelude.Int.{pos, ◌+ℤ◌}
use proxy_cache_server.Text.{bytes_eq, is_empty, codes}
use proxy_cache_server.Libc.{Libc}
use proxy_cache_server.Logger.{Logger}
use proxy_cache_server.HttpRequest.{HttpRequest}
use proxy_cache_server.HttpResponse.Caching.{MayBeCached}
use proxy_cache_server.CacheManager.Admission.{Admits, store_response-MayBeCached}
use proxy_cache_server.CacheManager.{evict_if_needed, get_expiry_time}
use proxy_cache_server.Prelude.{◌⊎◌}
use proxy_cache_server.Headers.{get_header}
use proxy_cache_server.HttpResponse.{is_cacheable, HttpResponse, serialize}
use proxy_cache_server.CacheManager.{
  cache_key, CacheManager, Node, new_cache, is_in_cache, hit, get_cached_response, store_response,
}
use proxy_cache_server.CacheManager.Valid.{IsValid}
use proxy_cache_server.CacheManager.Calls.{
  store, fetch, Call, run_calls, NoneDangles, run_calls_safe,
}
use proxy_cache_server.CacheManager.Slots.{answers}
use proxy_cache_server.CacheManager.Slots.Rows.{row}
use proxy_cache_server.CacheManager.Refinement.{run_calls-answers}
use proxy_cache_server.CacheManager.Recent.{run_calls-get_cached_response}
use proxy_cache_server.CacheManager.Lookup.{get-store}
use proxy_cache_server.CacheManager.Shadow.{store-is_in_cache_vary, store-is_in_cache_last}
use proxy_cache_server.Sending.{SendResult, Socket, accepted}
use proxy_cache_server.Sending.Laws.{Advances}
use proxy_cache_server.Forwarding.{Origin, connected, received}
use proxy_cache_server.RequestHandler.{Setting, World, handle_request, close_client, error_response}
use proxy_cache_server.RequestHandler.Answers.{handle_request_malformed, handle_request_hit, Serves}
use proxy_cache_server.RequestHandler.CacheEffects.{
  handle_request_other, handle_request-IsValid, handle_request_other_key,
}
use proxy_cache_server.Tests.Program.{program}

quiet : Logger
quiet = record { is_open = true; terminal = []; log_file = []; cerr = [] }

-- A C library whose dates are fixed and whose fields are visited in the order of the list.
plain : Libc
plain = record {
  mktime_http = λ date. pos 100;
  timegm_asctime = λ date. none;
  strftime = λ time. [];
  order = λ h. h;
}

page : HttpResponse
page = record {
  status_line = codes "HTTP/1.1 200 OK";
  headers = (codes "ETag", codes "v1") ∷ [];
  body = codes "hi";
  expiry_time = pos 0;
  requires_validation = false;
  parse_error = false;
}

varied : HttpResponse
varied = record page { headers = (codes "Vary", codes "Accept") ∷ [] }

-- One URL stored twice in a cache of two nodes, and another behind it.
calls : List Call
calls =
    store (pos 10) (pos 11) 1 (codes "/a") page
    ∷ store (pos 12) (pos 13) 2 (codes "/a") page
    ∷ fetch (pos 14) 3 (codes "/a")
    ∷ []

run_calls_safe_example :
    IsValid (run_calls plain calls (new_cache 2) quiet).cache
    × NoneDangles (run_calls plain calls (new_cache 2) quiet).fetched
run_calls_safe_example = run_calls_safe plain 2 calls quiet

run_calls-answers_example :
    let t = run_calls plain calls (new_cache 2) quiet in
    (row t.cache, t.fetched) ≡ answers plain 2 calls []
run_calls-answers_example = run_calls-answers plain 2 calls quiet

get-store_example :
    let stored =
      (store_response plain (pos 10) (pos 11) 1 (codes "/a") page (new_cache 2) quiet).cache in
    let (after, _, fetched) = get_cached_response (pos 500) 2 (codes "/a") stored quiet in
    (fetched ≡ hit page)
    × (after ≡ stored)
    × (stored.cache_list
        ≡ record {
          address = 0;
          key = codes "/a";
          entry = record { response = page; expiry_time = pos 172810 };
        }
          ∷ [])
unfolding plain page quiet program ◌+ℤ◌
get-store_example =
    get-store plain (pos 10) (pos 11) 1 (codes "/a") page (new_cache 2) quiet (pos 172810) quiet
      (pos 500) 2 quiet refl refl refl refl

store-is_in_cache_vary_example :
    is_in_cache
      (codes "/a")
      (store_response plain (pos 10) (pos 11) 1 (codes "/a") varied (new_cache 2) quiet).cache
    ≡ false
unfolding plain page varied quiet program
store-is_in_cache_vary_example =
    store-is_in_cache_vary plain (pos 10) (pos 11) 1 (codes "/a") varied (new_cache 2) quiet refl
      refl

twice : CacheManager
twice = (run_calls plain calls (new_cache 2) quiet).cache

older : Node
older = record {
  address = 0;
  key = codes "/a";
  entry = record { response = page; expiry_time = pos 172810 };
}

newer : Node
newer = record {
  address = 1;
  key = codes "/a";
  entry = record { response = page; expiry_time = pos 172812 };
}

-- The entry of /a in a cache of two nodes, and a store of /b.
once : CacheManager
once =
    (run_calls plain (store (pos 10) (pos 11) 1 (codes "/a") page ∷ []) (new_cache 2) quiet).cache

elsewhere : List Call
elsewhere = store (pos 12) (pos 13) 2 (codes "/b") page ∷ []

run_calls-get_cached_response_example :
    (get_cached_response
      (pos 500)
      3
      (codes "/a")
      (run_calls plain elsewhere once quiet).cache
      quiet).2
    ≡ hit page
unfolding plain page quiet once elsewhere older program ◌+ℤ◌
run_calls-get_cached_response_example =
    run_calls-get_cached_response plain elsewhere once quiet older [] (pos 500) 3 quiet
      (run_calls_safe plain 2 (store (pos 10) (pos 11) 1 (codes "/a") page ∷ []) quiet).0 refl refl
      tt (refl, tt) (ground arith) refl

store-is_in_cache_last_example :
    is_in_cache
      (codes "/a")
      (store_response plain (pos 20) (pos 21) 4 (codes "/b") page twice quiet).cache
    ≡ false
unfolding plain page quiet calls twice older newer program ◌+ℤ◌
store-is_in_cache_last_example =
    store-is_in_cache_last plain (pos 20) (pos 21) 4 (codes "/b") page twice quiet older
      (newer ∷ []) (run_calls_safe plain 2 calls quiet).0 refl refl refl refl

single_bytes : ℕ → List SendResult
single_bytes zero = []
single_bytes (suc n) = accepted 1 ∷ single_bytes n

single_bytes-Advances : (n : ℕ) → Advances (single_bytes n)
unfolding single_bytes
single_bytes-Advances zero = tt
single_bytes-Advances (suc n) = (omega arith, single_bytes-Advances n)

client : Socket
client = record { sends = single_bytes 60; transmitted = [] }

get : HttpRequest
get = record {
  method = codes "GET";
  url = codes "/a";
  host = codes "h";
  http_version = codes "HTTP/1.1";
  headers = (codes "Host", codes "h") ∷ [];
  body = [];
  client_error_code = pos 0;
}

-- Nobody else touches the cache.
alone : Setting
alone = record {
  libc = plain;
  fuel = 100;
  request_id = 3;
  client_ip = codes "1.2.3.4";
  received_at = pos 14;
  looked_up_at = pos 14;
  stored_at = pos 15;
  announced_at = pos 15;
  before_lookup = λ c. c;
  before_store = λ c. c;
  remote = record { resolves = λ name. false; attempts = []; rounds = [] };
}

-- A server that answers 200, for two calls.
server : Origin
server = record {
  resolves = λ name. true;
  attempts = connected ∷ [];
  socket = record { sends = accepted 200 ∷ []; transmitted = [] };
  receives = (pos 14, received (codes "HTTP/1.1 200 OK\r\nContent-Length: 2\r\n\r\nhi")) ∷ [];
}

world : World
world = record {
  cache = twice;
  logger = quiet;
  client = client;
  origins = server ∷ server ∷ [];
  requests_sent = [];
  open_sockets = 0;
}

handle_request-IsValid_example : IsValid (handle_request alone get world).1.cache
unfolding alone twice world
handle_request-IsValid_example =
    handle_request-IsValid alone get world (λ c v. v) (λ c v. v)
      (run_calls_safe plain 2 calls quiet).0

post : HttpRequest
post = record get { method = codes "POST" }

handle_request_other_example : (handle_request alone post world).1.cache ≡ world.cache
unfolding post program
handle_request_other_example = handle_request_other alone post world refl

malformed : HttpRequest
malformed = record get { client_error_code = pos 400 }

handle_request_malformed_example :
    let (how, w') = handle_request alone malformed world in
    (how ≡ close_client)
    × (w'.client.transmitted ≡ world.client.transmitted ++ error_response (pos 400))
    × (w'.origins ≡ world.origins)
    × (w'.cache ≡ world.cache)
unfolding malformed world client get single_bytes program
handle_request_malformed_example =
    handle_request_malformed alone malformed world refl (omega arith) (single_bytes-Advances 60)
      (omega arith)

handle_request_hit_example :
    Serves world.client.transmitted
      (serialize alone.libc.order page)
      (handle_request alone get world)
    × ((handle_request alone get world).1.origins ≡ world.origins)
    × ((l : Logger) × ((handle_request alone get world).1.cache
          ≡ (get_cached_response (pos 14) 3 (codes "/a") world.cache l).0))
unfolding alone get world twice calls page quiet plain client single_bytes program ◌+ℤ◌
handle_request_hit_example =
    handle_request_hit alone get world page refl refl refl refl (λ l. refl) (omega arith)

store_response-MayBeCached_example :
    let after = store_response plain (pos 10) (pos 11) 1 (codes "/a") varied once quiet in
    let (room, l') = evict_if_needed once quiet in
    ((¬ MayBeCached varied) × (after.cache ≡ once))
    ⊎ (MayBeCached varied × Admits (codes "/a") varied room after.cache)
    ⊎ (MayBeCached varied
        × (get_expiry_time plain (pos 10) (is_cacheable varied).1 l' ≡ none)
        × (after.cache ≡ room)
        × (after.raised ≡ true))
store_response-MayBeCached_example =
    store_response-MayBeCached plain (pos 10) (pos 11) 1 (codes "/a") varied once quiet

-- The key of another URL is none that a request for "/a" can store.
key_b_ne : (r : HttpResponse) → bytes_eq (cache_key (codes "/a") r) (codes "/b") ≡ false
unfolding cache_key bytes_eq
key_b_ne r = elim (Bool-cases (is_empty (get_header (codes "Vary") r.headers))) [
  | inl none_given ↦ rw (none_given, cache_key) refl
  | inr varies ↦ rw (varies, cache_key) refl
]

handle_request_other_key_example :
    is_in_cache (codes "/b") (handle_request alone get world).1.cache ≡ false
unfolding alone get world twice calls page quiet plain program ◌+ℤ◌
handle_request_other_key_example =
    handle_request_other_key alone get world (codes "/b") key_b_ne (λ c e. e) (λ c e. e) refl
