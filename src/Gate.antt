-- ===== src/Gate.antt =====
-- service-src/service_gate.c: how the gate cuts the bytes of a connection into messages and sends
-- each to the broker, the agent of the connection, or the watchdog.
pub mod Frames
pub mod Framing
pub mod Reassembly
pub mod Total
mod Tests
use m2_server.Common.{
  ℕ, zero, suc, ◌+◌, ◌^◌, Bool, true, false, Option, none, some, List, [], ◌∷◌, ◌++◌, ltb, leb,
  ◌==◌, if◌then◌else◌, ◌>>=◌,
}
use m2_server.DataBuffer.{Buffer, NodePool, read, push, readheader, reset, clear}

-- The fields of `struct gate` and `struct connection` that say where a message goes.
pub record Route : Type 0 where
  pub broker : ℕ
  pub agent : ℕ
  pub client : ℕ
  pub watchdog : ℕ
  pub id : ℕ

-- A call of `skynet_send` by `_forward`. The watchdog gets the bytes behind the text "ID data ".
pub data Delivery : Type 0 where
  to_broker : ℕ → List ℕ → Delivery
  to_agent : ℕ → ℕ → List ℕ → Delivery
  to_watchdog : ℕ → ℕ → List ℕ → Delivery

-- The receiver that `_forward` chooses, if any.
unfoldable pub receiver : Route → Option (List ℕ → Delivery)
receiver r =
    if r.broker == 0
    then if r.agent == 0
      then if r.watchdog == 0 then none else some (to_watchdog r.watchdog r.id)
      else some (to_agent r.client r.agent)
    else some (to_broker r.broker)

-- `_forward`: where there is no receiver, the message is not read.
unfoldable pub forward : Route → Buffer → NodePool → ℕ → Option (List Delivery × Buffer × NodePool)
forward r db mp size = elim (receiver r) [
  | none ↦ some ([], db, mp)
  | some deliver ↦ read db mp size >>= λ (bytes, db', mp'). some (deliver bytes ∷ [], db', mp')
]

-- Messages from this size on close the connection.
abbrev pub max_message : ℕ
max_message = 2 ^ 24

-- What one call of `dispatch_message` does: the messages sent, whether the socket was closed, and
-- the buffer and pool that it leaves.
pub record Outcome : Type 0 where
  pub sent : List Delivery
  pub closed : Bool
  pub buffer : Buffer
  pub pool : NodePool

abbrev pub before : List Delivery → Outcome → Outcome
before ds o = record o { sent = ds ++ o.sent }

-- The loop of `dispatch_message`. `none` is a fault, or the end of the fuel.
unfoldable pub dispatch_loop : ℕ → Route → ℕ → Buffer → NodePool → Option Outcome
dispatch_loop zero r header_size db mp = none
dispatch_loop (suc fuel) r header_size db mp = readheader db mp header_size >>= λ (size, db', mp').
    elim size [
      | none ↦ some (record { sent = []; closed = false; buffer = db'; pool = mp' })
      | some size ↦
          let again = dispatch_loop fuel r header_size db' mp' in
          let oversized =
            let (db'', mp'') = clear db' mp' in
            some (record { sent = []; closed = true; buffer = db''; pool = mp'' }) in
          let next = forward r db' mp' size >>= λ (ds, db'', mp'').
          dispatch_loop fuel r header_size (reset db'') mp'' >>= λ o. some (before ds o) in
          if size == 0 then again else if leb max_message size then oversized else next
    ]

-- `dispatch_message`. Each round but the last reads a byte or gives up a header that was read
-- before, so the fuel is enough.
unfoldable pub dispatch_message : Route → ℕ → Buffer → NodePool → List ℕ → Option Outcome
dispatch_message r header_size db mp bytes =
    push db mp bytes >>= λ (db', mp'). dispatch_loop (suc (suc db'.size)) r header_size db' mp'

-- The data events of one connection in turn, until it is closed.
unfoldable pub receive_all : Route → ℕ → Buffer → NodePool → List (List ℕ) → Option Outcome
receive_all r header_size db mp [] =
    some (record { sent = []; closed = false; buffer = db; pool = mp })
receive_all r header_size db mp (block ∷ blocks) =
    dispatch_message r header_size db mp block >>= λ o.
    let rest = receive_all r header_size o.buffer o.pool blocks in
    if o.closed then some o else (rest >>= λ o'. some (before o.sent o'))
