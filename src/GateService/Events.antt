-- ===== src/GateService/Events.antt =====
-- service-src/service_gate.c: what socket events do to the connections of the gate.
use m2_server.Common.{
  ℕ, ◌+◌, ◌-◌, ◌≤◌, ◌⊎◌, ltb, ltb→lt, ltb→le, ◌<◌, ◌≡◌, ◌≢◌, refl, sym, ap, subst, ◌∙◌, arith,
  Option, none, some, List, [], ◌∷◌, length, Bool-cases, inl, inr, update, update_ne, ◌==◌, ◌>>=◌,
}
use m2_server.DataBuffer.{clear, int_limit}
use m2_server.Gate.Total.{dispatch_message-Returns, dispatch_message-overflows}
use m2_server.HashId.{HashId, no_id, hashid_lookup, hashid_remove}
use m2_server.HashId.Valid
use m2_server.HashId.Lookup.{Answers, hashid_lookup_lem}
use m2_server.HashId.Remove.{Removes, hashid_remove_lem}
use m2_server.GateService.{
  GateState, Connection, Effect, Log, Report, unused, route, report_to, outcome_effects, on_data,
  on_connect, on_close,
}
use m2_server.GateService.Pool.{nodes, nodes-update, dispatch_message-Balanced}
use m2_server.GateService.Invariant.{
  IsValid, SlotOk, SlotOk-unused, SlotOk-update, IsValid-connection, IsValid-Balanced,
}

-- The connections of other sockets than `fd` are as they were.
abbrev pub Untouched : GateState → ℕ → GateState → Type 0
Untouched g fd g' =
    (j : ℕ)
    → j < g.max_connection
    → g.hash.id j ≢ no_id
    → g.hash.id j ≢ fd
    → (g'.hash.id j ≡ g.hash.id j) × (g'.conn j ≡ g.conn j)

-- A call for the socket `fd` faults nowhere, keeps the connections in order, and changes no connection
-- of another socket.
abbrev pub Proceeds : ℕ → GateState → ℕ → Option (List Effect × GateState) → Type 0
Proceeds k g fd r =
    (effects : List Effect) × (g' : GateState) × (ch' : ℕ → List ℕ) × (r ≡ some (effects, g'))
    × IsValid k ch' g'
    × Untouched g fd g'

-- With the bytes, the buffer of the connection that has the socket would have more than an `int` counts.
abbrev pub Overflows : GateState → ℕ → List ℕ → Type 0
Overflows g fd bytes =
    (i : ℕ) × (i < g.max_connection)
    × (g.hash.id i ≡ fd)
    × (int_limit ≤ (g.conn i).buffer.size + length bytes)

-- The call proceeds, or it faults for the reason `Why`.
abbrev pub Settles : ℕ → GateState → ℕ → Type 0 → Option (List Effect × GateState) → Type 0
Settles k g fd Why r = Proceeds k g fd r ⊎ (Why × (r ≡ none))

module _ {k : ℕ} {ch : ℕ → List ℕ} {g : GateState} (fd : ℕ) (v : IsValid k ch g) where
  pub untouched : Untouched g fd g
  untouched j lt taken ne = (refl, refl)

  -- A call that changes nothing.
  pub stays : (effects : List Effect) → Proceeds k g fd (some (effects, g))
  stays effects = (effects, g, ch, refl, v, untouched)

  -- A block with which the buffer does not overflow.
  on_data_fits :
      (bytes : List ℕ) (i : ℕ)
      → hashid_lookup g.hash fd ≡ some (some i)
      → Answers g.hash fd (some i)
      → (g.conn i).buffer.size + length bytes < int_limit
      → Proceeds k g fd (on_data g fd bytes)
  unfolding on_data
  on_data_fits bytes i e (lt, same, real) fits =
      let i_lt : i < g.max_connection = omega (arith, lt, v.size) in
      let c = g.conn i in
      let slot = v.slots i i_lt in
      let (o, run, buffered) =
        dispatch_message-Returns (route g c) g.header_size v.header c.buffer g.mp bytes
          slot.buffered fits in
      let others = nodes g.max_connection g.conn - length c.buffer.chunks in
      let balanced =
        dispatch_message-Balanced (route g c) g.header_size c.buffer g.mp bytes others
          (IsValid-Balanced {k = k} {ch = ch} {g = g} i v i_lt) run in
      let c' : Connection = record c { buffer = o.buffer } in
      let ok : SlotOk (g.hash.id i) c' = record {
        same = slot.same;
        buffered = buffered;
        fresh = λ free. absurd (real (sym same ∙ free));
      } in
      (
        outcome_effects g fd o,
        record g { conn = update g.conn i c'; mp = o.pool },
        ch,
        rw (e, ◌>>=◌) (rw (run, ◌>>=◌) refl),
        IsValid-connection {k = k} {ch = ch} {g = g} i c' o.pool v ok i_lt
            (omega (arith, balanced)),
        λ j lt' taken ne. (refl, update_ne g.conn i j c' (λ f. ne (ap g.hash.id f ∙ same))),
      )

  on_data_at :
      (bytes : List ℕ) (found : Option ℕ)
      → hashid_lookup g.hash fd ≡ some found
      → Answers g.hash fd found
      → Settles k g fd (Overflows g fd bytes) (on_data g fd bytes)
  unfolding on_data
  on_data_at bytes none e absent =
      inl (rw (e, ◌>>=◌) (stays (Effect.log (Log.drop_unknown fd) ∷ Effect.close_socket fd ∷ [])))
  on_data_at bytes (some i) e (lt, same, real) =
      let i_lt : i < g.max_connection = omega (arith, lt, v.size) in
      let c = g.conn i in
      let size = c.buffer.size + length bytes in
      elim (Bool-cases (ltb size int_limit)) [
        | inl fits ↦ inl (on_data_fits bytes i e (lt, same, real) (ltb→lt size int_limit fits))
        | inr over ↦
            let ge = ltb→le size int_limit over in
            inr (
              (i, i_lt, same, ge),
              rw (e, ◌>>=◌)
                  (rw
                    (
                      dispatch_message-overflows (route g c) g.header_size v.header c.buffer g.mp
                          bytes ge,
                      ◌>>=◌,
                    )
                    refl),
            )
      ]

  pub on_connect-Proceeds : Proceeds k g fd (on_connect g fd)
  unfolding on_connect
  on_connect-Proceeds =
      let (found, e, answer) = hashid_lookup_lem {k = k} {ch = ch} {hi = g.hash} fd v.table in
      elim (Bool-cases (fd == g.listen_id)) [
        | inl listening ↦ rw listening (stays [])
        | inr other ↦ rw other (rw (e, ◌>>=◌) (stays _))
      ]

  on_close_at :
      (found : Option ℕ) (hash' : HashId) (ch' : ℕ → List ℕ)
      → hashid_remove g.hash fd ≡ some (found, hash')
      → Removes g.hash fd found hash'
      → Valid.IsValid k ch' hash'
      → Proceeds k g fd (on_close g fd)
  unfolding on_close clear
  on_close_at none hash' ch' e (same, absent) w =
      let e' : hashid_remove g.hash fd ≡ some (none, g.hash) = e ∙ ap (λ t. some (none, t)) same in
      rw (e', ◌>>=◌) (stays [])
  on_close_at (some i) hash' ch' e (lt, same, real, ids, counted, caps) w =
      let i_lt : i < g.max_connection = omega (arith, lt, v.size) in
      (
        report_to g (Report.closed fd),
        record g {
          hash = hash';
          conn = update g.conn i unused;
          mp = (clear (g.conn i).buffer g.mp).1;
        },
        ch',
        rw (e, ◌>>=◌) refl,
        record {
          table = w;
          size = caps ∙ v.size;
          slots = λ j j_lt.
              subst (λ f. SlotOk (f j) (update g.conn i unused j)) (sym ids)
                (SlotOk-update g.max_connection i g.hash.id g.conn no_id unused v.slots
                  SlotOk-unused j j_lt);
          header = v.header;
          pool = omega (arith, v.pool, nodes-update g.max_connection i unused g.conn i_lt);
        },
        λ j lt' taken ne.
            let other : j ≢ i = λ f. ne (ap g.hash.id f ∙ same) in
            (
              ap (λ f. f j) ids ∙ update_ne g.hash.id i j no_id other,
              update_ne g.conn i j unused other,
            ),
      )

  pub on_close-Proceeds : Proceeds k g fd (on_close g fd)
  on_close-Proceeds =
      let (found, hash', ch', e, removes, w) =
        hashid_remove_lem {k = k} {ch = ch} {hi = g.hash} fd v.table in
      on_close_at found hash' ch' e removes w

  pub on_data-Settles :
      (bytes : List ℕ) → Settles k g fd (Overflows g fd bytes) (on_data g fd bytes)
  on_data-Settles bytes =
      let (found, e, answer) = hashid_lookup_lem {k = k} {ch = ch} {hi = g.hash} fd v.table in
      on_data_at bytes found e answer
