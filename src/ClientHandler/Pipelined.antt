-- ===== src/ClientHandler/Pipelined.antt =====
-- Several requests in one buffer.
use proxy_cache_server.Prelude.{
  ℕ, ◌≡◌, refl, sym, ap, ◌∙◌, List, [], ◌∷◌, ◌++◌, map, none, append_assoc, append-nil, All,
}
use proxy_cache_server.Text.{Bytes, find}
use proxy_cache_server.Headers.{Headers}
use proxy_cache_server.Message.{incomplete}
use proxy_cache_server.HttpRequest.{HttpRequest, fresh, end_mark, serialize, parse_request}
use proxy_cache_server.HttpRequest.RoundTrip.{IsWritable, parse_request-serialize}
use proxy_cache_server.RequestHandler.{World, keep_open, handle_request}
use proxy_cache_server.ClientHandler.{Turn, Connection, needs_more, hand_over, drain}

-- A request, and the turn of the loop that reads it.
abbrev pub Sent : Type 0
Sent = Turn × HttpRequest

module _ (order : Headers → Headers) where
  -- The requests as they are written, one behind the other.
  abbrev pub texts : List Sent → Bytes → Bytes
  texts [] tail = tail
  texts ((turn, r) ∷ sent) tail = serialize order r ++ texts sent tail

  -- The request as the parser reads it, with the error code that the new object happens to have.
  abbrev pub as_read : Sent → HttpRequest
  as_read (turn, r) = record r { headers = order r.headers; client_error_code = turn.code }

  -- The handler keeps the connection open after each.
  abbrev pub KeepsOpen : List Sent → World → Type 0
  KeepsOpen [] w = Unit
  KeepsOpen ((turn, r) ∷ sent) w =
      let (how, after) = handle_request turn.setting (as_read (turn, r)) w in
      (how ≡ keep_open) × KeepsOpen sent after

  abbrev pub AreWritable : List Sent → Type 0
  AreWritable = All (λ p. IsWritable order p.1)

  parse_tail :
      (fuel : ℕ) (r : HttpRequest) (tail : Bytes)
      → find tail end_mark 0 ≡ none
      → parse_request fuel r tail ≡ incomplete r tail
  unfolding parse_request
  parse_tail fuel r tail short = rw (short, parse_request) refl

  -- A buffer that holds writable requests and a tail without an end of a header, where the handler keeps
  -- the connection open after each: the inner loop hands every request to the handler, once, in order and
  -- as it was written, then asks for more bytes and keeps the tail.
  pub drain-serialize :
      (sent : List Sent) (last : Turn) (tail : Bytes) (c : Connection)
      → AreWritable sent
      → find tail end_mark 0 ≡ none
      → KeepsOpen sent c.world
      → c.curr_message ≡ texts sent tail
      → let (how, c') = drain (map (λ p. p.0) sent ++ last ∷ []) c in
        (how ≡ needs_more) × (c'.handled ≡ c.handled ++ map as_read sent) × (c'.curr_message ≡ tail)
  unfolding drain
  drain-serialize [] last tail c w short open_after held =
      let fuel = last.setting.fuel in
      let ended =
        ap (parse_request fuel (fresh last.code)) held
        ∙ parse_tail fuel (fresh last.code) tail short in
      rw (ended, drain) (refl, sym (append-nil c.handled), refl)
  drain-serialize ((turn, r) ∷ sent) last tail c (writable, w) short (keeps, open_after) held =
      let request = as_read (turn, r) in
      let rest = texts sent tail in
      let fuel = turn.setting.fuel in
      let read =
        ap (parse_request fuel (fresh turn.code)) held
        ∙ parse_request-serialize turn.setting.fuel turn.code order r rest writable in
      let after = (handle_request turn.setting request c.world).1 in
      let (how, handled, left) =
        drain-serialize sent last tail (hand_over request rest after c) w short
          (unfold hand_over in open_after) (unfold hand_over in refl) in
      rw (read, drain, keeps)
        (
          how,
          handled ∙ (unfold hand_over in append_assoc c.handled (request ∷ []) (map as_read sent)),
          left,
        )
