-- ===== src/GateService/Invariant.antt =====
-- service-src/service_gate.c: when the connections of the gate are in order, and the changes that keep
-- them so.
use m2_server.Common.{
  ℕ, ◌+◌, ◌-◌, ◌*◌, ◌<◌, ◌≡◌, refl, ap, subst, arith, List, length, Bool-cases, inl, inr, update,
  update_same, ◌==◌,
}
use m2_server.DataBuffer.{NodePool, messagepool, empty}
use m2_server.DataBuffer.Contents
use m2_server.DataBuffer.Pool.{Balanced}
use m2_server.Gate.Frames.{HeaderSize}
use m2_server.HashId.{no_id}
use m2_server.HashId.Valid
use m2_server.GateService.{GateState, Connection, unused}
use m2_server.GateService.Pool.{nodes, nodes-update}

-- A connection in slot `i` that has the id of the slot, and a buffer in order; without an id it has
-- no receiver and no data.
pub record SlotOk (id : ℕ) (c : Connection) : Type 0 where
  pub same : c.id ≡ id
  pub buffered : Contents.IsValid c.buffer
  pub fresh : id ≡ no_id → (c.agent ≡ 0) × (c.client ≡ 0) × (c.buffer ≡ empty)

-- The table of ids is in order and agrees with the connections, and every node of the pool is free
-- or in the buffer of one connection.
pub record IsValid (k : ℕ) (ch : ℕ → List ℕ) (g : GateState) : Type 0 where
  pub table : Valid.IsValid k ch g.hash
  pub size : g.hash.cap ≡ g.max_connection
  pub slots : (i : ℕ) → i < g.max_connection → SlotOk (g.hash.id i) (g.conn i)
  pub header : HeaderSize g.header_size
  pub pool : g.mp.free + nodes g.max_connection g.conn ≡ messagepool * g.mp.blocks

pub SlotOk-unused : SlotOk no_id unused
SlotOk-unused = record {
  same = refl;
  buffered = record { counted = refl; offset_in = refl };
  fresh = λ e. (refl, refl, refl);
}

-- One slot changes, in the table, in the connections, or in both.
module _ (n i : ℕ) (id : ℕ → ℕ) (conn : ℕ → Connection) (v : ℕ) (c : Connection)
    (all : (j : ℕ) → j < n → SlotOk (id j) (conn j)) where
  pub SlotOk-update : SlotOk v c → (j : ℕ) → j < n → SlotOk (update id i v j) (update conn i c j)
  SlotOk-update here j lt = elim (Bool-cases (j == i)) [
    | inl same ↦ rw same here
    | inr other ↦ rw other (all j lt)
  ]

-- Only the connection of a slot changes, and the pool.
pub IsValid-connection :
    {k : ℕ} {ch : ℕ → List ℕ} {g : GateState} (i : ℕ) (c : Connection) (mp : NodePool)
    → IsValid k ch g
    → SlotOk (g.hash.id i) c
    → i < g.max_connection
    → mp.free
        + (nodes g.max_connection g.conn - length (g.conn i).buffer.chunks + length c.buffer.chunks)
      ≡ messagepool * mp.blocks
    → IsValid k ch (record g { conn = update g.conn i c; mp = mp })
IsValid-connection {k} {ch} {g} i c mp v here lt balanced = record {
  table = v.table;
  size = v.size;
  slots = λ j j_lt.
      subst (λ t. SlotOk t (update g.conn i c j))
        (ap (λ f. f j) (update_same g.hash.id i (g.hash.id i) refl))
        (SlotOk-update g.max_connection i g.hash.id g.conn (g.hash.id i) c v.slots here j j_lt);
  pool = omega (
    arith,
    balanced,
    nodes-update g.max_connection i c g.conn lt,
    nodes-update g.max_connection i unused g.conn lt,
  );
  header = v.header;
}

-- The nodes of one connection, and those of the others.
pub IsValid-Balanced :
    {k : ℕ} {ch : ℕ → List ℕ} {g : GateState} (i : ℕ)
    → IsValid k ch g
    → i < g.max_connection
    → Balanced g.mp
        (nodes g.max_connection g.conn - length (g.conn i).buffer.chunks)
        (g.conn i).buffer.chunks
IsValid-Balanced {k} {ch} {g} i v lt = record {
  total = omega (arith, v.pool, nodes-update g.max_connection i unused g.conn lt);
}
