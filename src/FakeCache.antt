-- ===== src/FakeCache.antt =====
-- docker-deploy/src/FakeCache.h and FakeCache.cpp: a stand-in for CacheManager, with its names, that
-- keeps every response.
pub mod Laws
use proxy_cache_server.Prelude.{Bool, List, [], ◌∷◌, Option, none, some, if◌then◌else◌, is_some}
use proxy_cache_server.Text.{Bytes, bytes_eq}
use proxy_cache_server.HttpResponse.{HttpResponse}

abbrev pub Cache : Type 0
Cache = List (Bytes × HttpResponse)

-- `cache.find(url)`
unfoldable pub cached : Bytes → Cache → Option HttpResponse
cached url [] = none
cached url ((k, r) ∷ c) = if bytes_eq k url then some r else cached url c

-- `cache[url] = response`
unfoldable pub store_response : Bytes → HttpResponse → Cache → Cache
store_response url r [] = (url, r) ∷ []
store_response url r ((k, q) ∷ c) =
    if bytes_eq k url then (k, r) ∷ c else (k, q) ∷ store_response url r c

unfoldable pub is_in_cache : Bytes → Cache → Bool
is_in_cache url c = is_some (cached url c)

-- `none` is the null pointer; the map has the URL where `cache[url]` is read.
unfoldable pub get_cached_response : Bytes → Cache → Option HttpResponse
get_cached_response url c = if is_in_cache url c then cached url c else none
