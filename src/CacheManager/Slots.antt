-- ===== src/CacheManager/Slots.antt =====
-- What docker-deploy/src/CacheManager.h promises, without addresses and without a map: the cache is a
-- row of slots, the one used last first. A slot is live while a lookup can find it. A slot whose key
-- is stored again, or whose key is evicted with another slot, keeps its place but is not live.
pub mod Holds
pub mod Rows
use proxy_cache_server.Prelude.{
  ℕ, Bool, true, false, ◌&&◌, List, [], ◌∷◌, map, Option, none, some, leb, if◌then◌else◌, length,
}
use proxy_cache_server.Prelude.Int.{ℤ, pos, ◌+ℤ◌, max_ℤ}
use proxy_cache_server.Text.{Bytes, codes, bytes_eq, is_empty}
use proxy_cache_server.Headers.{get_header}
use proxy_cache_server.Libc.{Libc}
use proxy_cache_server.HttpResponse.{HttpResponse, is_cacheable}
use proxy_cache_server.CacheManager.{
  CacheEntry, is_expired, control_time, cache_key, Fetched, hit, null,
}
use proxy_cache_server.CacheManager.Calls.{Call, store, fetch}

pub record Slot : Type 0 where
  pub key : Bytes
  pub entry : CacheEntry
  pub live : Bool

-- The slot that a lookup finds.
unfoldable pub find_live : Bytes → List Slot → Option Slot
find_live key [] = none
find_live key (s ∷ row) = if s.live && bytes_eq s.key key then some s else find_live key row

unfoldable pub take_out : Bytes → List Slot → List Slot
take_out key [] = []
take_out key (s ∷ row) = if s.live && bytes_eq s.key key then row else s ∷ take_out key row

unfoldable pub retired : Bytes → Slot → Slot
retired key s = if bytes_eq s.key key then record s { live = false } else s

-- No slot of the key stays live.
abbrev pub retire : Bytes → List Slot → List Slot
retire key row = map (retired key) row

unfoldable pub last_slot : List Slot → Option (Slot × List Slot)
last_slot [] = none
last_slot (s ∷ row) = elim (last_slot row) [
  | none ↦ some (s, [])
  | some (last, rest) ↦ some (last, s ∷ rest)
]

-- A full row loses its last slot, and the key of that slot.
unfoldable pub make_room : ℕ → List Slot → List Slot
make_room capacity row = elim (last_slot row) [
  | none ↦ row
  | some (last, rest) ↦ if leb capacity (length row) then retire last.key rest else row
]

unfoldable pub put : Bytes → CacheEntry → List Slot → List Slot
put key entry row = (record { key = key; entry = entry; live = true }) ∷ retire key row

-- When a response stored at a time expires; `none` is a max-age that is no number.
unfoldable pub expiry : Libc → ℤ → HttpResponse → Option ℤ
expiry libc now r =
    let expires = get_header (codes "Expires") r.headers in
    elim (control_time now (get_header (codes "Cache-Control") r.headers)) [
      | none ↦ none
      | some base ↦
          if is_empty expires
          then some (base +ℤ pos 86400)
          else elim (libc.timegm_asctime expires) [
            | none ↦ some base
            | some expires_at ↦ some (max_ℤ base expires_at)
          ]
    ]

unfoldable pub keep : Libc → ℕ → ℤ → Bytes → HttpResponse → List Slot → List Slot
keep libc capacity now url r row =
    let (cacheable, marked) = is_cacheable r in
    let room = make_room capacity row in
    if cacheable
    then elim (expiry libc now marked) [
      | none ↦ room
      | some time ↦
          put (cache_key url marked) (record { response = marked; expiry_time = time }) room
    ]
    else row

unfoldable pub recall : ℤ → Bytes → List Slot → List Slot × Fetched
recall now url row = elim (find_live url row) [
  | none ↦ (row, null)
  | some s ↦
      if is_expired now s.entry then (row, null) else (s ∷ take_out url row, hit s.entry.response)
]

-- A sequence of calls on a row: the row after it, and what the lookups returned.
unfoldable pub answers : Libc → ℕ → List Call → List Slot → List Slot × List Fetched
answers libc capacity [] row = (row, [])
answers libc capacity (store now later id url r ∷ calls) row =
    answers libc capacity calls (keep libc capacity now url r row)
answers libc capacity (fetch now id url ∷ calls) row =
    let (row', f) = recall now url row in
    let (after, fs) = answers libc capacity calls row' in (after, f ∷ fs)
