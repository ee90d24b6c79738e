-- ===== src/HttpResponse/Caching.antt =====
-- Which responses `is_cacheable` lets through, and what it does to them.
use proxy_cache_server.Prelude.{
  ◌≡◌, refl, ◌⊎◌, inl, inr, true, false, none, some, arith, Option-cases,
}
use proxy_cache_server.Text.{Bytes, codes, includes}
use proxy_cache_server.Headers.{lookup}
use proxy_cache_server.HttpResponse.{HttpResponse, control_allows, is_cacheable}

-- What a response that may be cached has.
pub record MayBeCached (r : HttpResponse) : Type 0 where
  pub is_ok : includes r.status_line (codes "200 OK") ≡ true
  pub is_whole : includes r.status_line (codes "206 Partial Content") ≡ false
  pub control :
      (lookup (codes "Cache-Control") r.headers ≡ none)
      ⊎ ((value : Bytes) × (lookup (codes "Cache-Control") r.headers ≡ some value)
          × (includes value (codes "no-store") ≡ false)
          × (includes value (codes "private") ≡ false))

control_allows-allowed :
    (value : Bytes) (r : HttpResponse)
    → (control_allows value r).0 ≡ true
    → (includes value (codes "no-store") ≡ false) × (includes value (codes "private") ≡ false)
unfolding control_allows
control_allows-allowed value r e = ground arith

control_allows_same :
    (value : Bytes) (r : HttpResponse)
    → ((control_allows value r).1.status_line ≡ r.status_line)
      × ((control_allows value r).1.headers ≡ r.headers)
      × ((control_allows value r).1.body ≡ r.body)
unfolding control_allows
control_allows_same value r = (ground arith, ground arith, ground arith)

-- Let through or not, the status line, the fields and the body are as they were.
pub is_cacheable_same :
    (r : HttpResponse)
    → ((is_cacheable r).1.status_line ≡ r.status_line)
      × ((is_cacheable r).1.headers ≡ r.headers)
      × ((is_cacheable r).1.body ≡ r.body)
unfolding is_cacheable
is_cacheable_same r = elim (Option-cases (lookup (codes "Cache-Control") r.headers)) [
  | inl free ↦ rw (free, is_cacheable) (ground arith, ground arith, ground arith)
  | inr (value, found) ↦
      let (line, fields, body) = control_allows_same value r in
      rw (found, is_cacheable) (ground arith, ground arith, ground arith)
]

pub is_cacheable_allowed : (r : HttpResponse) → (is_cacheable r).0 ≡ true → MayBeCached r
unfolding is_cacheable
is_cacheable_allowed r cacheable = elim (Option-cases (lookup (codes "Cache-Control") r.headers)) [
  | inl free ↦
      let e = rw (free, is_cacheable) at cacheable in
      record { is_ok = ground arith; is_whole = ground arith; control = inl free }
  | inr (value, found) ↦
      let e = rw (found, is_cacheable) at cacheable in
      let (stored, shared) = control_allows-allowed value r (ground arith) in
      record {
        is_ok = ground arith;
        is_whole = ground arith;
        control = inr (value, found, stored, shared);
      }
]

pub MayBeCached-is_cacheable : (r : HttpResponse) → MayBeCached r → (is_cacheable r).0 ≡ true
unfolding is_cacheable control_allows
MayBeCached-is_cacheable r m =
    let ok = m.is_ok in
    let whole = m.is_whole in
    elim m.control [
      | inl free ↦ rw (ok, is_cacheable, free, whole) refl
      | inr (value, found, stored, shared) ↦ rw (found, is_cacheable) (ground arith)
    ]
