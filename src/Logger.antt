-- ===== src/Logger.antt =====
-- docker-deploy/src/Logger.h and Logger.cpp: the lines that reach the terminal, the log file and the
-- error stream, in order. The lock around each line makes a line one step, and the singleton is one
-- value that the callers pass on. A number is the request's.
use proxy_cache_server.Prelude.{ℕ, Bool, ◌||◌, List, [], ◌∷◌, ◌++◌, if◌then◌else◌}
use proxy_cache_server.Prelude.Int.{ℤ}
use proxy_cache_server.Text.{Bytes, codes, stream, getline}
use proxy_cache_server.Text.Number.{to_string}
use proxy_cache_server.Libc.{Libc}

pub record Logger : Type 0 where
  pub is_open : Bool
  pub terminal : List Bytes
  pub log_file : List Bytes
  pub cerr : List Bytes

-- The constructor, given whether the system log and the local log can be opened.
unfoldable pub open_logger : Bool → Bool → Logger
open_logger system local = record {
  is_open = system || local;
  terminal = [];
  log_file = [];
  cerr =
      if system
      then []
      else (codes "ERROR: Failed to open /var/log/erss/proxy.log! Logging to ./proxy.log instead."
          ∷ (if local
              then []
              else codes "ERROR: Failed to open ANY log file! Logging is disabled." ∷ []));
}

-- A line to the terminal, and to the file or the error stream.
unfoldable pub log : Bytes → Logger → Logger
log message l =
    if l.is_open
    then record l { terminal = l.terminal ++ message ∷ []; log_file = l.log_file ++ message ∷ [] }
    else record l {
      terminal = l.terminal ++ message ∷ [];
      cerr =
          l.cerr ++ (codes "ERROR: Log file is not open. Cannot write log entry: " ++ message) ∷ [];
    }

abbrev numbered : ℕ → Bytes → Bytes
numbered id text = to_string id ++ (codes ": " ++ text)

abbrev quoted : Bytes → Bytes → Bytes
quoted text rest = b'"' ∷ (text ++ (b'"' ∷ rest))

-- An error goes to the file or the error stream, and not to the terminal.
unfoldable pub log_error : ℕ → Bytes → Logger → Logger
log_error id message l =
    let entry = numbered id (codes "ERROR " ++ message) in
    if l.is_open
    then record l { log_file = l.log_file ++ entry ∷ [] }
    else record l { cerr = l.cerr ++ entry ∷ [] }

unfoldable pub log_request : Libc → ℤ → ℕ → Bytes → Bytes → Logger → Logger
log_request libc now id request client_ip = log (
    numbered id
      (quoted request (codes " from " ++ (client_ip ++ (codes " @ " ++ libc.strftime now)))))

unfoldable pub log_cache_status : ℕ → Bytes → Logger → Logger
log_cache_status id status = log (numbered id status)

unfoldable pub log_forward_request : ℕ → Bytes → Bytes → Logger → Logger
log_forward_request id request server l =
    let (first_line, _, got) = getline b'\n' [] (stream request) in
    if got
    then log (numbered id (codes "Requesting " ++ quoted first_line (codes " from " ++ server))) l
    else log_error id (codes "Malformed request string in log_forward_request") l

unfoldable pub log_received_response : ℕ → Bytes → Bytes → Logger → Logger
log_received_response id response server =
    log (numbered id (codes "Received " ++ quoted response (codes " from " ++ server)))

unfoldable pub log_response : ℕ → Bytes → Logger → Logger
log_response id response = log (numbered id (codes "Responding " ++ quoted response []))

unfoldable pub log_warning : ℕ → Bytes → Logger → Logger
log_warning id message = log (numbered id (codes "WARNING " ++ message))

unfoldable pub log_note : ℕ → Bytes → Logger → Logger
log_note id message = log (numbered id (codes "NOTE " ++ message))

unfoldable pub log_tunnel_closed : ℕ → Logger → Logger
log_tunnel_closed id = log (numbered id (codes "Tunnel closed"))
