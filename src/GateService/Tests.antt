-- ===== src/GateService/Tests.antt =====
-- Runs of the gate: start, connections, commands and data.
use m2_server.Common.{ℕ, ◌-◌, ◌^◌, ◌≡◌, refl, Option, some, List, [], ◌∷◌, ◌>>=◌}
use m2_server.Gate.{Delivery, dispatch_loop, dispatch_message, forward, receiver}
use m2_server.DataBuffer
use m2_server.HashId.{
  hashid_init, find_hashcap, hashid_insert, find_free, link_node, hashid_lookup, walk,
  hashid_remove, remove_after, hashid_full,
}
use m2_server.GateService.{Effect, Log, Report, SocketMessage}
use m2_server.GateService.Words.{strtol, strtoul, strsep, parm, memcmp_eq}
use m2_server.GateService.Control.{GateMessage, cb}
use m2_server.GateService.Start.{Started, gate_create, gate_init}

strtol_runs : strtol (b' ' ∷ b'-' ∷ b'1' ∷ b'2' ∷ b'x' ∷ []) ≡ 2 ^ 32 - 12
unfolding strtol
strtol_runs = refl

strtoul_runs : strtoul (b'0' ∷ b'x' ∷ b'f' ∷ b'F' ∷ b'g' ∷ []) ≡ 255
unfolding strtoul
strtoul_runs = refl

abbrev query : List ℕ → ℕ
query name = 77

abbrev no_bytes : List ℕ → ℕ → ℕ
no_bytes word j = 0

abbrev listen : List ℕ → ℕ → ℕ
listen host port = 3

abbrev started : Option Started
unfolding gate_init gate_create hashid_init find_hashcap
started = gate_init query listen gate_create [] (record {
  n = 5;
  header = b'S';
  watchdog = b'w' ∷ [];
  binding = b'a' ∷ b':' ∷ b'8' ∷ b'0' ∷ [];
  client_tag = 0;
  max = 4;
})

abbrev forward_text : List ℕ
forward_text =
    b'f' ∷ b'o' ∷ b'r' ∷ b'w' ∷ b'a' ∷ b'r' ∷ b'd' ∷ b' ' ∷ b'5' ∷ b' ' ∷ b':' ∷ b'a' ∷ b' ' ∷ b':'
    ∷ b'b' ∷ []

abbrev session : Option (List Effect × List Effect × List Effect)
unfolding started cb
session = do
  s ← started
  (_, opened, g1) ←
      cb query no_bytes s.gate (GateMessage.socket (SocketMessage.accept 3 5 (b'h' ∷ [])))
  (_, forwarded, g2) ← cb query no_bytes g1 (GateMessage.text forward_text)
  (_, sent, g3) ←
      cb query no_bytes g2 (GateMessage.socket (SocketMessage.data_in 5 (0 ∷ 2 ∷ 8 ∷ 9 ∷ [])))
  (_, closed, g4) ← cb query no_bytes g3 (GateMessage.socket (SocketMessage.close 5))
  some (opened, sent, closed)

session_runs :
    session
    ≡ some (
      Effect.report 77 (Report.opened 5 (b'h' ∷ [])) ∷ Effect.log (Log.socket_open 5) ∷ [],
      Effect.deliver 3 (Delivery.to_agent 11 10 (8 ∷ 9 ∷ [])) ∷ [],
      Effect.report 77 (Report.closed 5) ∷ [],
    )
unfolding started cb dispatch_message dispatch_loop forward receiver DataBuffer.readheader
    DataBuffer.fetch_header DataBuffer.header_value DataBuffer.read DataBuffer.read_loop
    DataBuffer.push DataBuffer.take_node DataBuffer.reset DataBuffer.clear hashid_insert
    hashid_lookup hashid_remove find_free link_node walk remove_after hashid_full strtol memcmp_eq
    strsep parm strtoul
session_runs = refl
