-- ===== src/GateService/Accept.antt =====
-- service-src/service_gate.c: what a socket that comes in does to the connections of the gate.
use m2_server.Common.{
  ℕ, ◌+◌, ◌≤◌, ◌<◌, ◌≡◌, ◌≢◌, refl, sym, ap, subst, ◌∙◌, arith, some, List, [], ◌∷◌, ◌++◌, update,
  update_self, update_ne, eq→==, ne→==, ==_self, ◌>>=◌, take,
}
use m2_server.DataBuffer.{empty}
use m2_server.HashId.{no_id, int_limit, hashid_full}
use m2_server.HashId.Insert.{hashid_insert_lem}
use m2_server.GateService.{GateState, Connection, Effect, Log, Report, report_to, on_accept}
use m2_server.GateService.Pool.{nodes-update}
use m2_server.GateService.Invariant.{IsValid, SlotOk, SlotOk-update}
use m2_server.GateService.Events.{Untouched}

-- The socket may come in: it is an `int` but not -1, the sums of the search for a slot are `int` values, and
-- no connection has it.
pub record MayOpen (g : GateState) (fd : ℕ) : Type 0 where
  pub real : fd ≢ no_id
  pub small : fd + g.max_connection ≤ int_limit
  pub absent : (i : ℕ) → i < g.max_connection → g.hash.id i ≢ fd

-- What a new connection has: no receiver, and no bytes of the connection that had its slot before.
abbrev pub New : GateState → ℕ → GateState → Type 0
New g fd g' =
    (i : ℕ) × (i < g.max_connection)
    × (g'.hash.id i ≡ fd)
    × ((g'.conn i).id ≡ fd)
    × ((g'.conn i).agent ≡ 0)
    × ((g'.conn i).client ≡ 0)
    × ((g'.conn i).buffer ≡ empty)

module _ {k : ℕ} {ch : ℕ → List ℕ} {g : GateState} (fd : ℕ) (name : List ℕ)
    (v : IsValid k ch g) where
  -- Where a gate in order has room, a socket that comes in at the listening socket gets a connection of its
  -- own, with no receiver and an empty buffer. The call faults nowhere, keeps the gate in order, and changes
  -- no connection of another socket. It holds for a socket other than -1 that no connection has, and that is
  -- with the number of connections at most 2^31.
  pub on_accept_lem :
      MayOpen g fd
      → g.hash.count < g.max_connection
      → (effects : List Effect) × (g' : GateState) × (ch' : ℕ → List ℕ) × (on_accept g g.listen_id
            fd name
          ≡ some (effects, g'))
        × IsValid k ch' g'
        × Untouched g fd g'
        × New g fd g'
  unfolding on_accept hashid_full
  on_accept_lem may room =
      let (i, hash', ch', e, lt, free, ids, counted, caps, w) =
        hashid_insert_lem {k = k} {ch = ch} {hi = g.hash} fd v.table (omega (arith, v.size, room))
          may.real (omega (arith, v.size, may.small))
          (λ j j_lt. may.absent j (omega (arith, v.size, j_lt))) in
      let i_lt : i < g.max_connection = omega (arith, lt, v.size) in
      let slot = v.slots i i_lt in
      let (no_agent, no_client, no_bytes) = slot.fresh free in
      let c : Connection = record (g.conn i) { id = fd; remote_name = take 31 name } in
      let not_full : g.hash.count ≢ g.hash.cap = omega (arith, room, v.size) in
      let ok : SlotOk fd c = record {
        same = refl;
        buffered = slot.buffered;
        fresh = λ f. absurd (may.real f);
      } in
      (
        report_to g (Report.opened fd (take 31 name)) ++ Effect.log (Log.socket_open fd) ∷ [],
        record g { hash = hash'; conn = update g.conn i c },
        ch',
        rw (==_self g.listen_id, ◌>>=◌)
            (rw (ne→== g.hash.count g.hash.cap not_full) (rw (e, ◌>>=◌) refl)),
        record {
          table = w;
          size = caps ∙ v.size;
          slots = λ j j_lt.
              subst (λ f. SlotOk (f j) (update g.conn i c j)) (sym ids)
                (SlotOk-update g.max_connection i g.hash.id g.conn fd c v.slots ok j j_lt);
          header = v.header;
          pool = omega (arith, v.pool, nodes-update g.max_connection i c g.conn i_lt);
        },
        λ j lt' taken ne.
            let other : j ≢ i = λ f. taken (ap g.hash.id f ∙ free) in
            (ap (λ f. f j) ids ∙ update_ne g.hash.id i j fd other, update_ne g.conn i j c other),
        (
          i,
          i_lt,
          ap (λ f. f i) ids ∙ update_self g.hash.id i fd,
          ap (λ d. d.id) (update_self g.conn i c),
          ap (λ d. d.agent) (update_self g.conn i c) ∙ no_agent,
          ap (λ d. d.client) (update_self g.conn i c) ∙ no_client,
          ap (λ d. d.buffer) (update_self g.conn i c) ∙ no_bytes,
        ),
      )

  -- A full gate closes the socket at once and changes nothing.
  pub on_accept_full :
      g.hash.count ≡ g.max_connection
      → on_accept g g.listen_id fd name ≡ some (Effect.close_socket fd ∷ [], g)
  unfolding on_accept hashid_full
  on_accept_full full =
      rw (==_self g.listen_id, ◌>>=◌) (rw (eq→== g.hash.count g.hash.cap (full ∙ sym v.size)) refl)
