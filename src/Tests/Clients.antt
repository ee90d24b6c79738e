-- ===== src/Tests/Clients.antt =====
-- Runs and witnesses of the thread of a client.
use proxy_cache_server.Prelude.{
  ◌≡◌, refl, ◌⊎◌, inr, inl, true, false, none, List, [], ◌∷◌, ◌++◌, All, arith,
}
use proxy_cache_server.Prelude.Int.{ℤ, pos, ◌+ℤ◌}
use proxy_cache_server.Text.{codes}
use proxy_cache_server.Libc.{Libc}
use proxy_cache_server.HttpRequest.Verdict.{IsAccepted, IsRejected}
use proxy_cache_server.CacheManager.{new_cache}
use proxy_cache_server.CacheManager.Valid.{IsValid, new_cache-IsValid}
use proxy_cache_server.Sending.{accepted}
use proxy_cache_server.Forwarding.{Origin, connected, received, recv_failed}
use proxy_cache_server.RequestHandler.{Setting}
use proxy_cache_server.ClientHandler.{Turn, Round, Connection, handle_client_requests}
use proxy_cache_server.ClientHandler.Laws.{
  Polite, handle_client_requests-handled, handle_client_requests-IsValid,
}
use proxy_cache_server.ClientHandler.{needs_more, drain}
use proxy_cache_server.ClientHandler.Pipelined.{Sent, texts, drain-serialize}
use proxy_cache_server.Text.Search.{contains_byte-Lacks}
use proxy_cache_server.Headers.{Headers}
use proxy_cache_server.HttpRequest.{HttpRequest}
use proxy_cache_server.HttpRequest.RoundTrip.{IsWritable}
use proxy_cache_server.Tests.Program.{program}

-- A C library whose dates are fixed and whose fields are visited in the order of the list.
plain : Libc
plain = record {
  mktime_http = λ date. pos 100;
  timegm_asctime = λ date. none;
  strftime = λ time. [];
  order = λ h. h;
}

alone : Setting
alone = record {
  libc = plain;
  fuel = 100;
  request_id = 3;
  client_ip = codes "1.2.3.4";
  received_at = pos 14;
  looked_up_at = pos 14;
  stored_at = pos 15;
  announced_at = pos 15;
  before_lookup = λ c. c;
  before_store = λ c. c;
  remote = record { resolves = λ name. false; attempts = []; rounds = [] };
}

server : Origin
server = record {
  resolves = λ name. true;
  attempts = connected ∷ [];
  socket = record { sends = accepted 200 ∷ []; transmitted = [] };
  receives = (pos 14, received (codes "HTTP/1.1 200 OK\r\nContent-Length: 2\r\n\r\nhi")) ∷ [];
}

turn : Turn
turn = record { code = pos 0; setting = alone }

-- A request that comes in two pieces with a failed `recv` in between, and a malformed one behind it.
rounds : List Round
rounds =
    record {
      stop_flag = false;
      piece = received (codes "GET /a HTTP/1.1\r\nHo");
      turns = turn ∷ [];
    }
    ∷ record { stop_flag = false; piece = recv_failed; turns = [] }
    ∷ record {
      stop_flag = false;
      piece = received (codes "st: h\r\n\r\nGET /b HTTP/1.1\r\n\r\n");
      turns = turn ∷ turn ∷ turn ∷ [];
    }
    ∷ record { stop_flag = false; piece = received (codes "GET "); turns = turn ∷ [] }
    ∷ []

opened : Connection
opened = record {
  curr_message = [];
  world = record {
    cache = new_cache 2;
    logger = record { is_open = true; terminal = []; log_file = []; cerr = [] };
    client = record { sends = accepted 200 ∷ accepted 200 ∷ []; transmitted = [] };
    origins = server ∷ [];
    requests_sent = [];
    open_sockets = 0;
  };
  handled = [];
  drawn = 0;
}

-- The thread answers both, and leaves.
serves_two :
    ((handle_client_requests rounds opened).0 ≡ true)
    × ((handle_client_requests rounds opened).1.drawn ≡ 2)
    × ((handle_client_requests rounds opened).1.world.client.transmitted
        ≡ codes "HTTP/1.1 200 OK\r\nContent-Length: 2\r\n\r\nhi"
          ++ codes "HTTP/1.1 400 Bad Request\r\nConnection: close\r\n\r\n")
unfolding rounds opened server alone plain turn program
serves_two = (refl, refl, refl)

handle_client_requests-handled_example :
    All
      (λ r. IsRejected r ⊎ ((code : ℤ) × IsAccepted code r))
      (handle_client_requests rounds opened).1.handled
unfolding opened
handle_client_requests-handled_example = handle_client_requests-handled rounds opened refl

handle_client_requests-IsValid_example :
    IsValid (handle_client_requests rounds opened).1.world.cache
unfolding rounds opened turn alone
handle_client_requests-IsValid_example =
    handle_client_requests-IsValid rounds opened
      (let p : Polite alone = ((λ c v. v), (λ c v. v)) in
        ((p, tt), (tt, ((p, (p, (p, tt))), ((p, tt), tt)))))
      (new_cache-IsValid 2)

-- Two requests for one page in one buffer; the second is answered from the cache.
page_request : HttpRequest
page_request = record {
  method = codes "GET";
  url = codes "/a";
  host = codes "h";
  http_version = codes "HTTP/1.1";
  headers = (codes "Host", codes "h") ∷ [];
  body = [];
  client_error_code = pos 0;
}

written_as_is : Headers → Headers
written_as_is h = h

page_request-IsWritable : IsWritable written_as_is page_request
unfolding page_request written_as_is program
page_request-IsWritable = record {
  known = refl;
  locates = record {
    given = refl;
    unspaced = contains_byte-Lacks b' ' page_request.url refl;
    one_line = contains_byte-Lacks b'\n' page_request.url refl;
  };
  version = refl;
  fields = (
    record {
      named = refl;
      valued = record {
        trimmed = inr (refl, (b'h', refl, refl));
        one_line = contains_byte-Lacks b'\n' (codes "h") refl;
      };
    },
    tt,
  );
  plain = (refl, tt);
  unique = (refl, tt);
  hosted = refl;
  framed = inl (refl, refl);
  small = ground arith;
}

two_requests : List Sent
two_requests = (turn, page_request) ∷ (turn, page_request) ∷ []

pipelined : Connection
pipelined = record opened { curr_message = texts written_as_is two_requests (codes "GET") }

drain-serialize_example :
    let (how, c) = drain (turn ∷ turn ∷ turn ∷ []) pipelined in
    (how ≡ needs_more)
    × (c.handled ≡ page_request ∷ page_request ∷ [])
    × (c.curr_message ≡ codes "GET")
unfolding two_requests pipelined opened page_request written_as_is turn alone server plain program
    ◌+ℤ◌
drain-serialize_example =
    drain-serialize written_as_is two_requests turn (codes "GET") pipelined
      (page_request-IsWritable, (page_request-IsWritable, tt)) refl (refl, (refl, tt)) refl
