-- ===== src/RequestHandler/Repeat/Marked.antt =====
-- A store of a response that `is_cacheable` has marked before.
use proxy_cache_server.Prelude.{
  ℕ, ◌≡◌, refl, inl, inr, true, false, some, none, arith, Bool-cases, Option-cases,
}
use proxy_cache_server.Prelude.Int.{ℤ, pos, ◌+ℤ◌}
use proxy_cache_server.Text.{Bytes, codes, is_empty}
use proxy_cache_server.Headers.{Headers, get_header}
use proxy_cache_server.Libc.{Libc}
use proxy_cache_server.Logger.{Logger}
use proxy_cache_server.HttpResponse.{HttpResponse, serialize, is_cacheable, control_allows, max_age}
use proxy_cache_server.HttpResponse.Caching.{is_cacheable_same}
use proxy_cache_server.CacheManager.{
  CacheManager, store_response, control_time, get_expiry_time, expires_text, announce,
  store_cacheable,
}

pub is_cacheable_marked :
    (r : HttpResponse) → (is_cacheable (is_cacheable r).1).0 ≡ (is_cacheable r).0
unfolding is_cacheable control_allows
is_cacheable_marked r = ground arith

pub serialize-is_cacheable :
    (order : Headers → Headers) (r : HttpResponse)
    → serialize order (is_cacheable r).1 ≡ serialize order r
unfolding serialize
serialize-is_cacheable order r = let (line, fields, body) = is_cacheable_same r in cc

-- Whether `get_expiry_time` throws does not depend on the time.
pub control_time_at :
    (now later : ℤ) (cache_control : Bytes) (base : ℤ)
    → control_time now cache_control ≡ some base
    → (other : ℤ) × (control_time later cache_control ≡ some other)
unfolding control_time
control_time_at now later cache_control base e = elim (Bool-cases (is_empty cache_control)) [
  | inl blank ↦ rw (blank, control_time) (later +ℤ pos 86400, refl)
  | inr given ↦ elim (Option-cases (max_age cache_control)) [
    | inl unset ↦ rw (given, unset, control_time) (later, refl)
    | inr (none, found) ↦ let never = rw (given, found, control_time) at e in ground arith
    | inr (some n, found) ↦ rw (given, found, control_time) (later +ℤ n, refl)
  ]
]

-- Where the expiry can be computed, the announcement does not throw.
announce_raised :
    (libc : Libc) (later : ℤ) (id : ℕ) (r : HttpResponse) (c : CacheManager) (l : Logger) (base : ℤ)
    → control_time later (get_header (codes "Cache-Control") r.headers) ≡ some base
    → (announce libc later id r c l).raised ≡ false
unfolding announce expires_text get_expiry_time
announce_raised libc later id r c l base dated =
    elim (Bool-cases (is_empty (get_header (codes "Expires") r.headers))) [
      | inl blank ↦ rw (announce, expires_text, blank, get_expiry_time, dated) refl
      | inr given ↦ rw (announce, expires_text, given) refl
    ]

pub store_response_raised :
    (libc : Libc) (now later : ℤ) (id : ℕ) (url : Bytes) (r : HttpResponse) (c : CacheManager)
    (l : Logger) (base : ℤ)
    → (is_cacheable r).0 ≡ true
    → control_time now (get_header (codes "Cache-Control") r.headers) ≡ some base
    → (store_response libc now later id url r c l).raised ≡ false
unfolding store_response store_cacheable get_expiry_time
store_response_raised libc now later id url r c l base cacheable dated =
    let (_, fields, _) = is_cacheable_same r in
    let marked : control_time now (get_header (codes "Cache-Control") (is_cacheable r).1.headers)
        ≡ some base =
      rw fields dated in
    let (_, again) = control_time_at now later _ base marked in
    rw (cacheable, store_response, store_cacheable, get_expiry_time, marked)
      (announce_raised libc later id (is_cacheable r).1 _ _ _ again)
