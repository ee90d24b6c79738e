-- ===== src/Libc.antt =====
-- What the program takes from the C library and from the implementation of `std::unordered_map`,
-- and the model cannot read: dates and the order of iteration. The clock is an argument of each call.
use proxy_cache_server.Prelude.{Option}
use proxy_cache_server.Prelude.Int.{ℤ}
use proxy_cache_server.Text.{Bytes}
use proxy_cache_server.Headers.{Headers}

pub record Libc : Type 0 where
  -- `strptime` with "%a, %d %b %Y %H:%M:%S GMT" into a zeroed `tm`, then `mktime`, as
  -- parse_response does without looking at the first result
  pub mktime_http : Bytes → ℤ
  -- `strptime` with "%a %b %d %H:%M:%S %Y", then `timegm`; `none` where `strptime` fails
  pub timegm_asctime : Bytes → Option ℤ
  -- `strftime` of `gmtime` with "%a %b %d %H:%M:%S %Y"
  pub strftime : ℤ → Bytes
  -- the order in which a range-based `for` visits the fields
  pub order : Headers → Headers
