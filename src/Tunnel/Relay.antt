-- ===== src/Tunnel/Relay.antt =====
-- What the tunnel relays.
use proxy_cache_server.Prelude.{
  ◌≡◌, refl, sym, ap, ◌∙◌, inl, inr, Option, none, some, List, [], ◌∷◌, ◌++◌, if◌then◌else◌,
  append-nil, append_assoc, Bool-cases, Option-cases,
}
use proxy_cache_server.Text.{Bytes, is_empty}
use proxy_cache_server.Forwarding.{recv_failed, received}
use proxy_cache_server.Forwarding.Laws.{Receive-cases}
use proxy_cache_server.Tunnel.{Passage, Ready, select_failed, ready, taken_part, pass, relay}

-- What one side of a round has received: nothing, or `none` where the stream ends.
abbrev side : Option Passage → Option Bytes
side none = some []
side (some p) = elim p.piece [
  | recv_failed ↦ none
  | received bytes ↦ if is_empty bytes then none else some bytes
]

-- What the loop receives from the client, and from the server, up to where it ends.
unfoldable pub from_client : List Ready → Bytes
from_client [] = []
from_client (select_failed ∷ script) = []
from_client (ready client remote ∷ script) = elim (side client) [
  | none ↦ []
  | some bytes ↦ bytes ++ elim (side remote) [ none ↦ [] | some _ ↦ from_client script ]
]

unfoldable pub from_server : List Ready → Bytes
from_server [] = []
from_server (select_failed ∷ script) = []
from_server (ready client remote ∷ script) = elim (side client) [
  | none ↦ []
  | some _ ↦ elim (side remote) [ none ↦ [] | some bytes ↦ bytes ++ from_server script ]
]

-- The `send` took the whole piece.
abbrev IsWhole : Option Passage → Type 0
IsWhole none = Unit
IsWhole (some p) = elim p.piece [
  | recv_failed ↦ Unit
  | received bytes ↦ taken_part p.taken bytes ≡ bytes
]

abbrev pub AllWhole : List Ready → Type 0
AllWhole [] = Unit
AllWhole (select_failed ∷ script) = Unit
AllWhole (ready client remote ∷ script) = IsWhole client × IsWhole remote × AllWhole script

abbrev appended : Bytes → Option Bytes → Option Bytes
appended out none = none
appended out (some bytes) = some (out ++ bytes)

pass_whole : (p : Option Passage) (out : Bytes) → IsWhole p → pass p out ≡ appended out (side p)
unfolding pass
pass_whole none out h = ap some (sym (append-nil out))
pass_whole (some p) out h = elim (Receive-cases p.piece) [
  | inl failed ↦ rw (failed, pass) refl
  | inr (bytes, e) ↦
      let whole : taken_part p.taken bytes ≡ bytes = rw e at h in
      elim (Bool-cases (is_empty bytes)) [
        | inl closed ↦ rw (e, pass, closed) refl
        | inr more ↦ rw (e, pass, more, whole) refl
      ]
]

-- Where every `send` of the tunnel takes the whole piece, the server has got behind what it had
-- exactly what was received from the client, in order, and the client what was received from the
-- server, up to the round that ends the loop.
pub relay_whole :
    (script : List Ready) (to_remote to_client : Bytes)
    → AllWhole script
    → ((relay script to_remote to_client).to_remote ≡ to_remote ++ from_client script)
      × ((relay script to_remote to_client).to_client ≡ to_client ++ from_server script)
unfolding relay from_client from_server
relay_whole [] r c h = (sym (append-nil r), sym (append-nil c))
relay_whole (select_failed ∷ script) r c h = (sym (append-nil r), sym (append-nil c))
relay_whole (ready client remote ∷ script) r c (hc, hr, hs) = elim (Option-cases (side client)) [
  | inl ended ↦
      rw (pass_whole client r hc, ended, relay, from_client, from_server)
        (sym (append-nil r), sym (append-nil c))
  | inr (sent, e) ↦ elim (Option-cases (side remote)) [
    | inl ended ↦
        rw
          (
            pass_whole client r hc,
            e,
            relay,
            pass_whole remote c hr,
            ended,
            from_client,
            from_server,
          )
          (ap (λ s. r ++ s) (sym (append-nil sent)), sym (append-nil c))
    | inr (got, e') ↦
        let (to_server, to_user) = relay_whole script (r ++ sent) (c ++ got) hs in
        rw (pass_whole client r hc, e, relay, pass_whole remote c hr, e', from_client, from_server)
          (
            to_server ∙ append_assoc r sent (from_client script),
            to_user ∙ append_assoc c got (from_server script),
          )
  ]
]
