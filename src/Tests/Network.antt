-- ===== src/Tests/Network.antt =====
-- Runs and witnesses of what goes over the sockets.
use proxy_cache_server.Prelude.{◌≢◌, ◌≡◌, refl, true, false, some, none, List, [], ◌∷◌, ◌++◌, arith}
use proxy_cache_server.Prelude.Int.{pos}
use proxy_cache_server.Text.{Bytes, codes}
use proxy_cache_server.Libc.{Libc}
use proxy_cache_server.Logger.{Logger}
use proxy_cache_server.HttpRequest.{HttpRequest}
use proxy_cache_server.Message.{exhausted}
use proxy_cache_server.HttpResponse.{bad_gateway, parse_response}
use proxy_cache_server.HttpResponse.Ends.{parse_response-ne-exhausted}
use proxy_cache_server.Sending.{Socket, send_failed, accepted, all_sent, reliable_send}
use proxy_cache_server.Sending.Laws.{Transmits, reliable_send-Transmits, reliable_send-all_sent}
use proxy_cache_server.Forwarding.{Origin, connected, refused, received, forward_request, answered}
use proxy_cache_server.Forwarding.Laws.{Ends, forward_request-Ends}
use proxy_cache_server.Tunnel.{Ready, ready, relay}
use proxy_cache_server.Tunnel.Relay.{from_client, from_server, relay_whole}
use proxy_cache_server.Tests.Program.{program}

quiet : Logger
quiet = record { is_open = true; terminal = []; log_file = []; cerr = [] }

-- A C library whose dates are fixed and whose fields are visited in the order of the list.
plain : Libc
plain = record {
  mktime_http = λ date. pos 100;
  timegm_asctime = λ date. none;
  strftime = λ time. [];
  order = λ h. h;
}

halting : Socket
halting = record { sends = accepted 2 ∷ send_failed ∷ []; transmitted = codes "a" }

halting_run : (reliable_send 3 (codes "hello") halting quiet).1.transmitted ≡ codes "ahe"
unfolding halting quiet program
halting_run = refl

reliable_send-Transmits_example :
    let (result, after, _) = reliable_send 3 (codes "hello") halting quiet in
    Transmits halting.transmitted (codes "hello") result after
reliable_send-Transmits_example =
    reliable_send-Transmits 3 (codes "hello") halting quiet (omega arith)

steady : Socket
steady = record { sends = accepted 2 ∷ accepted 1 ∷ accepted 7 ∷ []; transmitted = [] }

reliable_send-all_sent_example : (reliable_send 3 (codes "abc") steady quiet).0 ≡ all_sent
unfolding steady
reliable_send-all_sent_example =
    reliable_send-all_sent 3 (codes "abc") steady quiet (omega arith)
      (omega arith, (omega arith, (omega arith, tt))) (omega arith)

asked : HttpRequest
asked = record {
  method = codes "GET";
  url = codes "/a";
  host = codes "h";
  http_version = codes "HTTP/1.1";
  headers = (codes "Host", codes "h") ∷ [];
  body = [];
  client_error_code = pos 0;
}

-- A server that is reached at its second address and answers in two pieces.
server : Origin
server = record {
  resolves = λ name. true;
  attempts = refused ∷ connected ∷ [];
  socket = record { sends = accepted 100 ∷ []; transmitted = [] };
  receives =
      (pos 5, received (codes "HTTP/1.1 200 OK\r\nContent-Le"))
      ∷ (pos 6, received (codes "ngth: 2\r\n\r\nhi"))
      ∷ [];
}

forward_run :
    (forward_request plain 100 asked 3 server quiet).result
    ≡ answered (record {
      status_line = codes "HTTP/1.1 200 OK";
      headers = (codes "Content-Length", codes "2") ∷ [];
      body = codes "hi";
      expiry_time = pos 0;
      requires_validation = false;
      parse_error = false;
    })
unfolding plain asked server quiet program
forward_run = refl

forward_request-Ends_example :
    let ex = forward_request plain 100 asked 3 server quiet in Ends plain 100 ex.result ex.left_open
forward_request-Ends_example = forward_request-Ends plain 100 asked 3 server quiet

rounds : List Ready
rounds =
    ready (some (record { piece = received (codes "up"); taken = accepted 2 })) none
    ∷ ready none (some (record { piece = received (codes "down"); taken = accepted 9 }))
    ∷ ready (some (record { piece = received []; taken = accepted 9 })) none
    ∷ []

relay_whole_example :
    ((relay rounds [] (codes "ok")).to_remote ≡ [] ++ from_client rounds)
    × ((relay rounds [] (codes "ok")).to_client ≡ codes "ok" ++ from_server rounds)
unfolding rounds program
relay_whole_example = relay_whole rounds [] (codes "ok") (refl, tt, (tt, refl, (refl, tt, tt)))

chunked_response : Bytes
chunked_response = codes "HTTP/1.1 200 OK\r\nTransfer-Encoding: chunked\r\n\r\n2\r\nhi\r\n0\r\n\r\n"

parse_response-ne-exhausted_example :
    parse_response plain 100 (pos 5) bad_gateway chunked_response ≢ exhausted
unfolding chunked_response program
parse_response-ne-exhausted_example =
    parse_response-ne-exhausted plain 100 (pos 5) bad_gateway chunked_response refl (omega arith)
