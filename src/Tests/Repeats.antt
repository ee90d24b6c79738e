-- ===== src/Tests/Repeats.antt =====
-- One page asked for twice, the first time with an empty cache.
use proxy_cache_server.Prelude.{
  ℕ, zero, suc, ◌≡◌, refl, true, false, none, List, [], ◌∷◌, ◌++◌, arith,
}
use proxy_cache_server.Prelude.Int.{pos, ◌+ℤ◌}
use proxy_cache_server.Text.{codes}
use proxy_cache_server.Libc.{Libc}
use proxy_cache_server.HttpRequest
use proxy_cache_server.HttpRequest.{HttpRequest}
use proxy_cache_server.HttpResponse.{HttpResponse, serialize}
use proxy_cache_server.CacheManager.{new_cache}
use proxy_cache_server.Sending.{SendResult, accepted}
use proxy_cache_server.Sending.Laws.{Advances}
use proxy_cache_server.Forwarding.{Origin, connected, received}
use proxy_cache_server.RequestHandler.{Setting, World, keep_open, add_validators, handle_request}
use proxy_cache_server.RequestHandler.Answers.{Serves}
use proxy_cache_server.RequestHandler.Repeat.{handle_request_repeat}
use proxy_cache_server.RequestHandler.Twice.{GetsPart, handle_request_twice}
use proxy_cache_server.Forwarding.Sent.{Takes}
use proxy_cache_server.Tests.Program.{program}

-- A C library whose dates are fixed and whose fields are visited in the order of the list.
plain : Libc
plain = record {
  mktime_http = λ date. pos 100;
  timegm_asctime = λ date. none;
  strftime = λ time. [];
  order = λ h. h;
}

early : Setting
early = record {
  libc = plain;
  fuel = 100;
  request_id = 3;
  client_ip = codes "1.2.3.4";
  received_at = pos 14;
  looked_up_at = pos 14;
  stored_at = pos 15;
  announced_at = pos 15;
  before_lookup = λ c. c;
  before_store = λ c. c;
  remote = record { resolves = λ name. false; attempts = []; rounds = [] };
}

later : Setting
later = record early {
  request_id = 4;
  client_ip = codes "5.6.7.8";
  received_at = pos 30;
  looked_up_at = pos 30;
}

get_page : HttpRequest
get_page = record {
  method = codes "GET";
  url = codes "/a";
  host = codes "h";
  http_version = codes "HTTP/1.1";
  headers = (codes "Host", codes "h") ∷ [];
  body = [];
  client_error_code = pos 0;
}

page : HttpResponse
page = record {
  status_line = codes "HTTP/1.1 200 OK";
  headers = (codes "Cache-Control", codes "max-age=60") ∷ (codes "Content-Length", codes "2") ∷ [];
  body = codes "hi";
  expiry_time = pos 74;
  requires_validation = false;
  parse_error = false;
}

server : Origin
server = record {
  resolves = λ name. true;
  attempts = connected ∷ [];
  socket = record { sends = accepted 200 ∷ []; transmitted = [] };
  receives =
      (
        pos 14,
        received
            (codes "HTTP/1.1 200 OK\r\nCache-Control: max-age=60\r\nContent-Length: 2\r\n\r\nhi"),
      )
      ∷ [];
}

-- A connection that takes a byte at a time.
slow : ℕ → List SendResult
slow zero = []
slow (suc n) = accepted 1 ∷ slow n

slow-Advances : (n : ℕ) → Advances (slow n)
unfolding slow
slow-Advances zero = tt
slow-Advances (suc n) = (omega arith, slow-Advances n)

before : World
before = record {
  cache = new_cache 2;
  logger = record { is_open = true; terminal = []; log_file = []; cerr = [] };
  client = record { sends = slow 90; transmitted = [] };
  origins = server ∷ [];
  requests_sent = [];
  open_sockets = 0;
}

-- Another client.
behind : World
behind = record (handle_request early get_page before).1 {
  client = record { sends = accepted 200 ∷ []; transmitted = [] };
}

handle_request_repeat_example :
    let (how, after) = handle_request early get_page before in
    (how ≡ keep_open)
    × (after.client.transmitted ≡ before.client.transmitted ++ serialize plain.order page)
    × Serves behind.client.transmitted
        (serialize plain.order page)
        (handle_request later get_page behind)
    × ((handle_request later get_page behind).1.origins ≡ behind.origins)
unfolding early later get_page page server slow before behind plain program ◌+ℤ◌
handle_request_repeat_example =
    handle_request_repeat early later get_page before behind page server [] (pos 75) refl refl refl
      refl refl (λ l. refl) refl refl refl (λ l. refl) (omega arith) (slow-Advances 90)
      (omega arith) (omega arith) refl (λ c. refl)

-- The same page with max-age=0, stored at 15, is served from the cache at 50000: no server is left to
-- be asked.
stale_server : Origin
stale_server = record server {
  receives =
      (
        pos 14,
        received
            (codes "HTTP/1.1 200 OK\r\nCache-Control: max-age=0\r\nContent-Length: 2\r\n\r\nhi"),
      )
      ∷ [];
}

stale_page-hit :
    let w = (handle_request early get_page (record before { origins = stale_server ∷ [] })).1 in
    let (how, w') =
      handle_request
        (record later { looked_up_at = pos 50000 })
        get_page
        (record w { client = behind.client }) in
    (how ≡ keep_open)
    × (w'.client.transmitted
        ≡ codes "HTTP/1.1 200 OK\r\nCache-Control: max-age=0\r\nContent-Length: 2\r\n\r\nhi")
unfolding stale_server early later get_page server slow before behind plain program ◌+ℤ◌
stale_page-hit = (refl, refl)

-- A conditional request for the page, and two answers of the server that are not 304.
conditional : HttpRequest
conditional = record get_page {
  headers = (codes "Host", codes "h") ∷ (codes "If-None-Match", codes "v0") ∷ [];
}

first_server : Origin
first_server = record server { socket = record { sends = slow 200; transmitted = [] } }

second_server : Origin
second_server = record first_server {
  receives =
      (
        pos 14,
        received
            (codes "HTTP/1.1 200 OK\r\nCache-Control: max-age=60\r\nContent-Length: 2\r\n\r\nho"),
      )
      ∷ [];
}

changed_page : HttpResponse
changed_page = record page { body = codes "ho" }

asked : World
asked = record behind { origins = first_server ∷ second_server ∷ [] }

first_server-Takes :
    Takes
      (codes "h")
      (HttpRequest.serialize plain.order (add_validators page conditional))
      first_server
unfolding first_server server conditional get_page page plain slow program
first_server-Takes = record {
  known = refl;
  there = refl;
  fresh = refl;
  advances = slow-Advances 200;
  enough = omega arith;
}

second_server-Takes :
    Takes
      (codes "h")
      (HttpRequest.serialize plain.order (add_validators page conditional))
      second_server
unfolding first_server second_server server conditional get_page page plain slow program
second_server-Takes = record {
  known = refl;
  there = refl;
  fresh = refl;
  advances = slow-Advances 200;
  enough = omega arith;
}

handle_request_twice_example :
    let w = (handle_request later conditional asked).1 in
    let message = HttpRequest.serialize plain.order (add_validators page conditional) in
    (w.origins ≡ [])
    × (w.requests_sent ≡ asked.requests_sent ++ message ∷ message ∷ [])
    × GetsPart asked.client.transmitted (serialize plain.order changed_page) w
unfolding early later conditional get_page page changed_page server first_server second_server slow
    before behind asked plain program ◌+ℤ◌
handle_request_twice_example =
    handle_request_twice later conditional asked page page changed_page first_server second_server
      [] refl refl refl refl (λ l. refl) refl (omega arith) first_server-Takes second_server-Takes
      (λ l. refl) refl (λ l. refl) (omega arith)
