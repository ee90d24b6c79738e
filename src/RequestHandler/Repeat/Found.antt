-- ===== src/RequestHandler/Repeat/Found.antt =====
-- The lookup behind it.
use proxy_cache_server.Prelude.{
  ℕ, ◌≡◌, refl, ap, ◌∙◌, inl, inr, true, false, some, arith, Option-cases,
}
use proxy_cache_server.Prelude.Int.{ℤ, leb_ℤ}
use proxy_cache_server.Text.{Bytes, codes, is_empty}
use proxy_cache_server.Headers.{get_header}
use proxy_cache_server.Libc.{Libc}
use proxy_cache_server.Logger.{Logger}
use proxy_cache_server.HttpRequest.{HttpRequest}
use proxy_cache_server.HttpResponse.{HttpResponse, is_cacheable}
use proxy_cache_server.HttpResponse.Caching.{is_cacheable_same}
use proxy_cache_server.RequestHandler.{Setting}
use proxy_cache_server.CacheManager.Lookup.{get-store}
use proxy_cache_server.CacheManager.{
  map_find, CacheManager, is_in_cache, get_cached_response, hit, control_time, expires_time,
  get_expiry_time, evict_if_needed,
}
use proxy_cache_server.RequestHandler.Repeat.Marked.{is_cacheable_marked}
use proxy_cache_server.RequestHandler.Repeat.Stored.{HasStored}

-- A lookup finds only what is in the cache.
pub hit-is_in_cache :
    (now : ℤ) (id : ℕ) (url : Bytes) (c : CacheManager) (l : Logger) (r : HttpResponse)
    → (get_cached_response now id url c l).2 ≡ hit r
    → is_in_cache url c ≡ true
unfolding get_cached_response is_in_cache
hit-is_in_cache now id url c l r found = elim (Option-cases (map_find url c.cache_map)) [
  | inl absent ↦ let never = rw (absent, get_cached_response) at found in ground arith
  | inr (a, there) ↦ rw (there, is_in_cache) refl
]

get_expiry_time_dated :
    (libc : Libc) (now base : ℤ) (r : HttpResponse) (l : Logger)
    → control_time now (get_header (codes "Cache-Control") r.headers) ≡ some base
    → get_expiry_time libc now r l
      ≡ some (expires_time libc base (get_header (codes "Expires") r.headers) l)
unfolding get_expiry_time
get_expiry_time_dated libc now base r l dated = rw (dated, get_expiry_time) refl

-- What a lookup finds in a cache that a store of the response has left.
pub HasStored-hit :
    (s : Setting) (request : HttpRequest) (r : HttpResponse) (before after : CacheManager)
    (base at : ℤ) (id : ℕ) (l : Logger)
    → (is_cacheable r).0 ≡ true
    → is_empty (get_header (codes "Vary") r.headers) ≡ true
    → control_time s.stored_at (get_header (codes "Cache-Control") r.headers) ≡ some base
    → ((noted : Logger)
        → leb_ℤ (expires_time s.libc base (get_header (codes "Expires") r.headers) noted).0 at
          ≡ false)
    → HasStored s request r before after
    → (get_cached_response at id request.url after l).2 ≡ hit (is_cacheable (is_cacheable r).1).1
HasStored-hit s request r before after base at id l cacheable plain dated current (noted, e) =
    let marked = (is_cacheable r).1 in
    let (_, once, _) = is_cacheable_same r in
    let (_, twice, _) = is_cacheable_same marked in
    let fields : (is_cacheable marked).1.headers ≡ r.headers = twice ∙ once in
    let dated' : control_time s.stored_at
          (get_header (codes "Cache-Control") (is_cacheable marked).1.headers)
        ≡ some base =
      rw fields dated in
    let emptied = (evict_if_needed (s.before_store before) noted).1 in
    let expiry =
      expires_time s.libc base (get_header (codes "Expires") (is_cacheable marked).1.headers)
        emptied in
    let current' : leb_ℤ expiry.0 at ≡ false = rw fields (current emptied) in
    let plain' : is_empty (get_header (codes "Vary") (is_cacheable marked).1.headers) ≡ true =
      rw fields plain in
    let found =
      get-store s.libc s.stored_at s.announced_at s.request_id request.url marked
        (s.before_store before) noted expiry.0 expiry.1 at id l (is_cacheable_marked r ∙ cacheable)
        (get_expiry_time_dated s.libc s.stored_at base (is_cacheable marked).1 emptied dated')
        plain' current' in
    ap (λ c. (get_cached_response at id request.url c l).2) e ∙ found.0
