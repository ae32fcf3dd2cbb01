-- ===== src/GateService.antt =====
-- service-src/service_gate.c: the connections of the gate, and what the gate does for each message.
pub mod Words
pub mod Control
mod Commands
mod Messages
mod Client
mod Init
pub mod Start
mod Pool
mod Invariant
mod Events
mod Accept
mod Tests
mod Examples
use Prim.Native.Nat.{bit_or}
use m2_server.Common.{
  ℕ, ◌+◌, ◌-◌, ◌*◌, ◌^◌, Bool, true, false, Option, none, some, List, [], ◌∷◌, ◌++◌, map, ltb, leb,
  ◌==◌, if◌then◌else◌, ◌>>=◌, ◌>>◌, assert, update, length, get_or, take, drop,
}
use m2_server.DataBuffer.{Buffer, NodePool, empty, clear}
use m2_server.Gate.{Route, Delivery, Outcome, dispatch_message}
use m2_server.HashId.{
  HashId, no_id, int_limit, hashid_lookup, hashid_insert, hashid_remove, hashid_full,
}

-- `struct connection`
pub record Connection : Type 0 where
  pub id : ℕ
  pub agent : ℕ
  pub client : ℕ
  pub remote_name : List ℕ
  pub buffer : Buffer

-- `struct gate`, with the connections by index.
pub record GateState : Type 0 where
  pub listen_id : ℕ
  pub watchdog : ℕ
  pub broker : ℕ
  pub client_tag : ℕ
  pub header_size : ℕ
  pub max_connection : ℕ
  pub hash : HashId
  pub conn : ℕ → Connection
  pub mp : NodePool

-- What `_report` tells the watchdog.
pub data Report : Type 0 where
  opened : ℕ → List ℕ → Report
  closed : ℕ → Report

-- The calls of `skynet_error`.
pub data Log : Type 0 where
  drop_unknown : ℕ → Log
  close_unknown : ℕ → Log
  too_large : Log
  socket_open : ℕ → Log
  send_buffer : ℕ → ℕ → Log
  unknown_command : List ℕ → Log
  invalid_client_message : ℕ → Log
  invalid_client_id : ℕ → ℕ → Log
  invalid_parm : List ℕ → Log
  need_max : Log
  invalid_header : Log
  invalid_watchdog : List ℕ → Log
  invalid_address : List ℕ → Log

-- The calls of the gate to the rest of the program, in their order.
pub data Effect : Type 0 where
  close_socket : ℕ → Effect
  start_socket : ℕ → Effect
  send_socket : ℕ → List ℕ → Effect
  deliver : ℕ → Delivery → Effect
  report : ℕ → Report → Effect
  log : Log → Effect

-- A connection that no socket uses, after `memset` and `c->id = -1`.
abbrev pub unused : Connection
unused = record { id = no_id; agent = 0; client = 0; remote_name = []; buffer = empty }

-- `_report`
unfoldable pub report_to : GateState → Report → List Effect
report_to g r = if g.watchdog == 0 then [] else report g.watchdog r ∷ []

-- Where `_forward` sends the messages of a connection.
abbrev pub route : GateState → Connection → Route
route g c = record {
  broker = g.broker;
  agent = c.agent;
  client = c.client;
  watchdog = g.watchdog;
  id = c.id;
}

-- The calls that `dispatch_message` made.
abbrev pub outcome_effects : GateState → ℕ → Outcome → List Effect
outcome_effects g fd o =
    map (deliver g.client_tag) o.sent
    ++ (if o.closed then close_socket fd ∷ log too_large ∷ [] else [])

-- The case SKYNET_SOCKET_TYPE_DATA.
unfoldable pub on_data : GateState → ℕ → List ℕ → Option (List Effect × GateState)
on_data g fd bytes = do
  found ← hashid_lookup g.hash fd
  elim found [
    | none ↦ some (log (drop_unknown fd) ∷ close_socket fd ∷ [], g)
    | some id ↦
        let c = g.conn id in
        dispatch_message (route g c) g.header_size c.buffer g.mp bytes >>= λ o. some (
          outcome_effects g fd o,
          record g { conn = update g.conn id (record c { buffer = o.buffer }); mp = o.pool },
        )
  ]

-- The case SKYNET_SOCKET_TYPE_CONNECT.
unfoldable pub on_connect : GateState → ℕ → Option (List Effect × GateState)
on_connect g fd =
    let look = hashid_lookup g.hash fd >>= λ found.
    some (elim found [ none ↦ log (close_unknown fd) ∷ close_socket fd ∷ [] | some id ↦ [] ], g) in
    if fd == g.listen_id then some ([], g) else look

-- The cases SKYNET_SOCKET_TYPE_CLOSE and SKYNET_SOCKET_TYPE_ERROR.
unfoldable pub on_close : GateState → ℕ → Option (List Effect × GateState)
unfolding report_to
on_close g fd = do
  (found, hash') ← hashid_remove g.hash fd
  elim found [
    | none ↦ some ([], record g { hash = hash' })
    | some id ↦
        let (buffer', mp') = clear (g.conn id).buffer g.mp in
        some (
          report_to g (closed fd),
          record g { hash = hash'; conn = update g.conn id unused; mp = mp' },
        )
  ]

-- The case SKYNET_SOCKET_TYPE_ACCEPT: the socket `fd` came in at the socket `listen`. The name is cut
-- to the 31 bytes that `remote_name` has room for.
unfoldable pub on_accept : GateState → ℕ → ℕ → List ℕ → Option (List Effect × GateState)
unfolding report_to hashid_full
on_accept g listen fd name = do
  assert (g.listen_id == listen)
  let open_it = hashid_insert g.hash fd >>= λ (id, hash'). some (
    report_to g (opened fd (take 31 name)) ++ log (socket_open fd) ∷ [],
    record g {
      hash = hash';
      conn = update g.conn id (record (g.conn id) { id = fd; remote_name = take 31 name });
    },
  )
  if hashid_full g.hash then some (close_socket fd ∷ [], g) else open_it

-- `struct skynet_socket_message` by its type; `other` is any type that the gate has no case for.
pub data SocketMessage : Type 0 where
  data_in : ℕ → List ℕ → SocketMessage
  connect : ℕ → SocketMessage
  close : ℕ → SocketMessage
  error : ℕ → SocketMessage
  accept : ℕ → ℕ → List ℕ → SocketMessage
  warning : ℕ → ℕ → SocketMessage
  other : SocketMessage

-- `dispatch_socket_message`
unfoldable pub dispatch_socket_message :
    GateState → SocketMessage → Option (List Effect × GateState)
unfolding on_data on_connect on_close on_accept
dispatch_socket_message g (data_in fd bytes) = on_data g fd bytes
dispatch_socket_message g (connect fd) = on_connect g fd
dispatch_socket_message g (close fd) = on_close g fd
dispatch_socket_message g (error fd) = on_close g fd
dispatch_socket_message g (accept listen fd name) = on_accept g listen fd name
dispatch_socket_message g (warning fd ud) = some (log (send_buffer fd ud) ∷ [], g)
dispatch_socket_message g other = some ([], g)

-- The id of a socket in the last four bytes of a message, least significant first.
unfoldable pub socket_id : List ℕ → ℕ
socket_id idbuf =
    bit_or
      (bit_or (bit_or (get_or idbuf 0 0) (get_or idbuf 1 0 * 2 ^ 8)) (get_or idbuf 2 0 * 2 ^ 16))
      (get_or idbuf 3 0 * 2 ^ 24)

-- The case PTYPE_CLIENT of `_cb`, with the value that `_cb` returns: 1 where the message was handed to the
-- socket and must not be freed.
unfoldable pub on_client : GateState → ℕ → List ℕ → Option (ℕ × List Effect × GateState)
unfolding socket_id
on_client g source msg =
    let sz = length msg in
    let uid = socket_id (drop (sz - 4) msg) in
    let send = hashid_lookup g.hash uid >>= λ found. some (elim found [
      | none ↦ (0, log (invalid_client_id uid source) ∷ [], g)
      | some id ↦ (1, send_socket uid (take (sz - 4) msg) ∷ [], g)
    ]) in
    if leb sz 4 then some (0, log (invalid_client_message source) ∷ [], g) else send
