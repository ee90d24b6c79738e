-- ===== src/CacheManager.antt =====
-- docker-deploy/src/CacheManager.h and CacheManager.cpp. A node of the list has an address, which is
-- what an iterator of `cache_map` holds; a new node gets an address that no node had. The lock makes
-- each operation one step. The shared pointers are values: what they point to is only read once it
-- is in the cache. `std::time` is an argument, once for each call that the operation makes.
pub mod Admission
pub mod Calls
pub mod Lookup
pub mod MapLaws
pub mod Preserved
pub mod Recent
pub mod Refinement
pub mod Shadow
pub mod Slots
pub mod Valid
use proxy_cache_server.Prelude.{
  ℕ, suc, ◌+◌, Bool, true, false, not, ◌&&◌, ◌||◌, List, [], ◌∷◌, ◌++◌, Option, none, some, leb,
  ◌==◌, if◌then◌else◌, is_some, length,
}
use proxy_cache_server.Prelude.Int.{ℤ, pos, ◌+ℤ◌, leb_ℤ, max_ℤ}
use proxy_cache_server.Text.{Bytes, codes, bytes_eq, is_empty, includes}
use proxy_cache_server.Headers.{Headers, get_header}
use proxy_cache_server.Libc.{Libc}
use proxy_cache_server.Logger.{Logger, log_cache_status, log_warning, log_note}
use proxy_cache_server.HttpResponse.{HttpResponse, is_cacheable, max_age}

pub record CacheEntry : Type 0 where
  pub response : HttpResponse
  pub expiry_time : ℤ

pub record Node : Type 0 where
  pub address : ℕ
  pub key : Bytes
  pub entry : CacheEntry

abbrev pub Map : Type 0
Map = List (Bytes × ℕ)

pub record CacheManager : Type 0 where
  pub cache_map : Map
  pub cache_list : List Node
  pub cache_capacity : ℕ
  pub next_address : ℕ

abbrev pub new_cache : ℕ → CacheManager
new_cache capacity = record {
  cache_map = [];
  cache_list = [];
  cache_capacity = capacity;
  next_address = 0;
}

-- `cache_map.find(key)`
unfoldable pub map_find : Bytes → Map → Option ℕ
map_find key [] = none
map_find key ((k, a) ∷ m) = if bytes_eq k key then some a else map_find key m

-- `cache_map[key] = it`
unfoldable pub map_set : Bytes → ℕ → Map → Map
map_set key a [] = (key, a) ∷ []
map_set key a ((k, b) ∷ m) = if bytes_eq k key then (k, a) ∷ m else (k, b) ∷ map_set key a m

-- `cache_map.erase(key)`
unfoldable pub map_erase : Bytes → Map → Map
map_erase key [] = []
map_erase key ((k, b) ∷ m) = if bytes_eq k key then m else (k, b) ∷ map_erase key m

-- The node that an iterator points to; `none` is an iterator whose node is gone.
unfoldable pub deref : ℕ → List Node → Option Node
deref a [] = none
deref a (n ∷ l) = if n.address == a then some n else deref a l

unfoldable pub remove_node : ℕ → List Node → List Node
remove_node a [] = []
remove_node a (n ∷ l) = if n.address == a then l else n ∷ remove_node a l

-- `std::time(nullptr) >= entry.expiry_time`
unfoldable pub is_expired : ℤ → CacheEntry → Bool
is_expired now entry = leb_ℤ entry.expiry_time now

unfoldable pub requires_validation : CacheEntry → Bool
requires_validation entry =
    not (is_empty (get_header (codes "ETag") entry.response.headers))
    || not (is_empty (get_header (codes "Last-Modified") entry.response.headers))

-- The part of `get_expiry_time` on Cache-Control; `none` is an exception.
unfoldable pub control_time : ℤ → Bytes → Option ℤ
control_time now cache_control =
    if is_empty cache_control then some (now +ℤ pos 86400) else elim (max_age cache_control) [
      | none ↦ some now
      | some none ↦ none
      | some (some n) ↦ some (now +ℤ n)
    ]

-- The part on Expires.
unfoldable pub expires_time : Libc → ℤ → Bytes → Logger → ℤ × Logger
expires_time libc base expires_header l =
    if is_empty expires_header
    then (base +ℤ pos 86400, l)
    else elim (libc.timegm_asctime expires_header) [
      | some expires_at ↦ (max_ℤ base expires_at, l)
      | none ↦ (base, log_warning 0 (codes "Failed to parse Expires header: " ++ expires_header) l)
    ]

unfoldable pub get_expiry_time : Libc → ℤ → HttpResponse → Logger → Option (ℤ × Logger)
get_expiry_time libc now r l =
    elim (control_time now (get_header (codes "Cache-Control") r.headers)) [
      | none ↦ none
      | some base ↦ some (expires_time libc base (get_header (codes "Expires") r.headers) l)
    ]

unfoldable pub is_in_cache : Bytes → CacheManager → Bool
is_in_cache url c = is_some (map_find url c.cache_map)

-- What `get_cached_response` returns: a response, a null pointer, or a read through an iterator whose
-- node is gone.
pub data Fetched : Type 0 where
  hit : HttpResponse → Fetched
  null dangling : Fetched

-- At a node that the map points to.
unfoldable pub fetch_node : ℤ → ℕ → Node → CacheManager → Logger → CacheManager × Logger × Fetched
fetch_node now request_id n c l =
    if is_expired now n.entry
    then (
      c,
      log_cache_status request_id
          (codes "in cache, but expired at "
            ++ get_header (codes "Expires") n.entry.response.headers)
          l,
      null,
    )
    else (
      record c { cache_list = n ∷ remove_node n.address c.cache_list },
      log_cache_status request_id
          (if requires_validation n.entry
            then codes "in cache, requires validation"
            else codes "in cache, valid")
          l,
      hit n.entry.response,
    )

unfoldable pub get_cached_response :
    ℤ → ℕ → Bytes → CacheManager → Logger → CacheManager × Logger × Fetched
get_cached_response now request_id url c l = elim (map_find url c.cache_map) [
  | none ↦ (c, l, null)
  | some a ↦ elim (deref a c.cache_list) [
    | none ↦ (c, l, dangling)
    | some n ↦ fetch_node now request_id n c l
  ]
]

-- The last node, and the list without it.
unfoldable pub pop_back : List Node → Option (Node × List Node)
pop_back [] = none
pop_back (n ∷ l) = elim (pop_back l) [
  | none ↦ some (n, [])
  | some (last, rest) ↦ some (last, n ∷ rest)
]

unfoldable pub evict_if_needed : CacheManager → Logger → CacheManager × Logger
evict_if_needed c l = elim (pop_back c.cache_list) [
  | none ↦ (c, l)
  | some (last, rest) ↦
      if leb c.cache_capacity (length c.cache_list)
      then (
        record c { cache_map = map_erase last.key c.cache_map; cache_list = rest },
        log_note 0 (codes "Evicting " ++ (last.key ++ codes " from cache")) l,
      )
      else (c, l)
]

-- `cache_key`, by the Vary field
unfoldable pub cache_key : Bytes → HttpResponse → Bytes
cache_key url r =
    let vary = get_header (codes "Vary") r.headers in
    if is_empty vary then url else url ++ (b'|' ∷ vary)

-- A new node at the front, and the map's entry for its key.
unfoldable pub push_front : Bytes → CacheEntry → CacheManager → CacheManager
push_front key entry c = record c {
  cache_list = (record { address = c.next_address; key = key; entry = entry }) ∷ c.cache_list;
  cache_map = map_set key c.next_address c.cache_map;
  next_address = suc c.next_address;
}

unfoldable pub refusal : HttpResponse → Bytes
refusal r =
    let cache_control = get_header (codes "Cache-Control") r.headers in
    if not (is_empty cache_control) && includes cache_control (codes "no-store")
    then codes "not cacheable because Cache-Control: no-store"
    else codes "not cacheable because status is " ++ r.status_line

-- How the log names the expiry: the Expires field, or the time computed once more.
unfoldable pub expires_text : Libc → ℤ → HttpResponse → Logger → Option (Bytes × Logger)
expires_text libc later r l =
    let expires = get_header (codes "Expires") r.headers in
    if not (is_empty expires) then some (expires, l) else elim (get_expiry_time libc later r l) [
      | none ↦ none
      | some (expiry, l') ↦ some (libc.strftime expiry, l')
    ]

-- The new cache and log, and whether an exception leaves the call.
pub record Stored : Type 0 where
  pub cache : CacheManager
  pub logger : Logger
  pub raised : Bool

unfoldable pub announce : Libc → ℤ → ℕ → HttpResponse → CacheManager → Logger → Stored
announce libc later request_id r c l = elim (expires_text libc later r l) [
  | none ↦ record { cache = c; logger = l; raised = true }
  | some (expires, l') ↦ record {
    cache = c;
    logger = log_cache_status request_id (codes "cached, expires at " ++ expires) l';
    raised = false;
  }
]

-- The part of `store_response` under the lock, on a response that may be cached.
unfoldable pub store_cacheable :
    Libc → ℤ → ℤ → ℕ → Bytes → HttpResponse → CacheManager → Logger → Stored
store_cacheable libc now later request_id url r c l =
    let (evicted, l') = evict_if_needed c l in
    elim (get_expiry_time libc now r l') [
      | none ↦ record { cache = evicted; logger = l'; raised = true }
      | some (expiry, l'') ↦
          announce libc later request_id r
            (push_front (cache_key url r) (record { response = r; expiry_time = expiry }) evicted)
            l''
    ]

unfoldable pub store_response :
    Libc → ℤ → ℤ → ℕ → Bytes → HttpResponse → CacheManager → Logger → Stored
store_response libc now later request_id url r c l =
    let (cacheable, marked) = is_cacheable r in
    if cacheable then store_cacheable libc now later request_id url marked c l else record {
      cache = c;
      logger = log_cache_status request_id (refusal marked) l;
      raised = false;
    }
