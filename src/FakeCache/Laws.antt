-- ===== src/FakeCache/Laws.antt =====
-- The stand-in against the sequence of its stores.
use proxy_cache_server.Prelude.{
  ◌≡◌, refl, ap, ◌∙◌, inl, inr, List, [], ◌∷◌, Option, none, some, arith, Option-cases,
  if◌then◌else◌, is_some,
}
use proxy_cache_server.Text.{Bytes, bytes_eq}
use proxy_cache_server.Text.Equality.{bytes_eq_iff}
use proxy_cache_server.HttpResponse.{HttpResponse}
use proxy_cache_server.FakeCache.{Cache, cached, store_response, is_in_cache, get_cached_response}

abbrev pub Stores : Type 0
Stores = List (Bytes × HttpResponse)

-- The calls of store_response, the first of the list last.
abbrev pub store_all : Stores → Cache
store_all [] = []
store_all ((url, r) ∷ earlier) = store_response url r (store_all earlier)

-- The response of the last store under a URL.
abbrev pub last_stored : Bytes → Stores → Option HttpResponse
last_stored url [] = none
last_stored url ((k, r) ∷ earlier) = if bytes_eq k url then some r else last_stored url earlier

cached-store_response :
    (url k : Bytes) (r : HttpResponse) (c : Cache)
    → cached url (store_response k r c) ≡ (if bytes_eq k url then some r else cached url c)
unfolding cached store_response
cached-store_response url k r [] = refl
cached-store_response url k r ((i, q) ∷ c) = ground (
  arith,
  bytes_eq_iff k url,
  bytes_eq_iff i k,
  bytes_eq_iff i url,
  cached-store_response url k r c,
)

cached_last :
    (url : Bytes) (stores : Stores) → cached url (store_all stores) ≡ last_stored url stores
unfolding cached
cached_last url [] = refl
cached_last url ((k, r) ∷ earlier) =
    cached-store_response url k r (store_all earlier)
    ∙ ap (λ o. if bytes_eq k url then some r else o) (cached_last url earlier)

-- After any stores, the stand-in returns the response of the last store under the URL, and a null pointer
-- where there is none; `is_in_cache` says which of the two.
pub get_cached_response-store_all :
    (url : Bytes) (stores : Stores)
    → (get_cached_response url (store_all stores) ≡ last_stored url stores)
      × (is_in_cache url (store_all stores) ≡ is_some (last_stored url stores))
unfolding get_cached_response is_in_cache
get_cached_response-store_all url stores =
    let last = cached_last url stores in
    (
      elim (Option-cases (cached url (store_all stores))) [
        | inl missing ↦ ground arith
        | inr (r, found) ↦ ground arith
      ],
      ap is_some last,
    )
