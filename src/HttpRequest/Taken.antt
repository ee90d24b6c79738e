-- ===== src/HttpRequest/Taken.antt =====
-- The buffer that `parse_request` shares with its caller.
use proxy_cache_server.Prelude.{ℕ, ◌≡◌, ◌≢◌, none, ◌⊎◌, drop}
use proxy_cache_server.Prelude.Int.{pos}
use proxy_cache_server.Text.{Bytes, find}
use proxy_cache_server.Message.{Outcome, complete, incomplete, raised, faulted, exhausted}
use proxy_cache_server.Message.Taken.{EndsAt}
use proxy_cache_server.HttpRequest.{HttpRequest, end_mark}
use proxy_cache_server.HttpRequest.Buffer.{request_text}

-- What a call leaves in the buffer. After `return true`: all of it, or all from the first method name on,
-- where it has noted error 400, and else what is behind the place where the message ends; after
-- `return false` and after an exception all of it, or all from the first method name on where there
-- is an end of a header.
abbrev pub Keeps : Bytes → Outcome HttpRequest → Type 0
Keeps s (complete r b) =
    ((r.client_error_code ≡ pos 400) × ((b ≡ s) ⊎ (b ≡ request_text s)))
    ⊎ ((k : ℕ) × (b ≡ drop k (request_text s)) × EndsAt (request_text s) r.body k)
Keeps s (incomplete r b) =
    ((find s end_mark 0 ≡ none) × (b ≡ s)) ⊎ ((find s end_mark 0 ≢ none) × (b ≡ request_text s))
Keeps s (raised r b) = b ≡ request_text s
Keeps s faulted = Unit
Keeps s exhausted = Unit

-- The same for a text without junk, in which the header ends.
abbrev Leaves : Bytes → Outcome HttpRequest → Type 0
Leaves s (complete r b) =
    ((r.client_error_code ≡ pos 400) × (b ≡ s)) ⊎ ((k : ℕ) × (b ≡ drop k s) × EndsAt s r.body k)
Leaves s (incomplete r b) = b ≡ s
Leaves s (raised r b) = b ≡ s
Leaves s faulted = Unit
Leaves s exhausted = Unit
