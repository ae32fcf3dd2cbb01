-- ===== src/GateService/Commands.antt =====
-- service-src/service_gate.c: the text commands keep the connections in order and touch no other socket.
use m2_server.Common.{
  ℕ, zero, suc, ◌≤◌, ◌<◌, ◌≡◌, ◌≢◌, refl, sym, ◌∙◌, arith, Bool, true, Option, none, some, List, [],
  ◌∷◌, length, Bool-cases, Option-cases, inl, inr, ◌⊎◌, ◌==◌, ◌&&◌, ◌>>=◌, ltb, update, drop,
}
use m2_server.HashId.{no_id, int_limit, hashid_lookup}
use m2_server.HashId.Lookup.{Answers, hashid_lookup_lem}
use m2_server.GateService.{GateState, Connection, Effect, Log}
use m2_server.GateService.Words.{c_string, word_end, memcmp_eq, parm, strsep, strtol, strtoul}
use m2_server.GateService.Control.{
  forward_agent, on_connection, ctrl_forward, ctrl_close, case_word, ctrl_words, ctrl, kick_word,
  forward_word, broker_word, start_word, close_word,
}
use m2_server.GateService.Invariant.{IsValid, SlotOk, IsValid-connection, IsValid-Balanced}

-- A connection of the gate has the socket.
abbrev pub Holds : GateState → ℕ → Type 0
Holds g fd = (i : ℕ) × (i < g.max_connection) × (g.hash.id i ≡ fd) × (fd ≢ no_id)

-- What a text command may do: close a connection or the listening socket, start a connection, or
-- write to the log.
abbrev pub Allowed : GateState → List Effect → Type 0
Allowed g [] = Unit
Allowed g (Effect.close_socket fd ∷ rest) = (Holds g fd ⊎ (fd ≡ g.listen_id)) × Allowed g rest
Allowed g (Effect.start_socket fd ∷ rest) = Holds g fd × Allowed g rest
Allowed g (Effect.log l ∷ rest) = Allowed g rest
Allowed g (Effect.send_socket fd bytes ∷ rest) = ⊥
Allowed g (Effect.deliver tag d ∷ rest) = ⊥
Allowed g (Effect.report w r ∷ rest) = ⊥

-- The command faults nowhere, keeps the connections in order and their sockets, and does what it may.
abbrev pub Obeys : ℕ → (ℕ → List ℕ) → GateState → Option (List Effect × GateState) → Type 0
Obeys k ch g r =
    (effects : List Effect) × (g' : GateState) × (r ≡ some (effects, g'))
    × IsValid k ch g'
    × (g'.hash ≡ g.hash)
    × Allowed g effects

word_end-le : (msg : List ℕ) → word_end msg ≤ length msg
unfolding word_end
word_end-le [] = omega arith
word_end-le (c ∷ cs) = ground (arith, word_end-le cs)

-- A word within the message is compared, whatever stands behind the literal.
memcmp_total :
    (n : ℕ) (msg word : List ℕ) (behind : ℕ → ℕ)
    → n ≤ length msg
    → (same : Bool) × (memcmp_eq n msg word behind ≡ some same)
unfolding memcmp_eq
memcmp_total zero msg word behind h = (true, refl)
memcmp_total (suc n) [] word behind h = absurd (omega arith)
memcmp_total (suc n) (c ∷ cs) [] behind h =
    let (same, e) = memcmp_total n cs [] (λ j. behind (suc j)) (omega arith) in
    (c == behind 0 && same, rw (e, ◌>>=◌) refl)
memcmp_total (suc n) (c ∷ cs) (b ∷ bs) behind h =
    let (same, e) = memcmp_total n cs bs behind (omega arith) in
    (c == b && same, rw (e, ◌>>=◌) refl)

module _ {k : ℕ} {ch : ℕ → List ℕ} {g : GateState} (v : IsValid k ch g) where
  Answers-Holds : (fd i : ℕ) → Answers g.hash fd (some i) → Holds g fd
  Answers-Holds fd i (lt, same, real) = (i, omega (arith, lt, v.size), same, real)

  on_connection_at :
      (call : ℕ → Effect) (command : List ℕ) (found : Option ℕ)
      → ((fd : ℕ) → Holds g fd → Allowed g (call fd ∷ []))
      → hashid_lookup g.hash (strtol command) ≡ some found
      → Answers g.hash (strtol command) found
      → Obeys k ch g (on_connection g call command)
  unfolding on_connection
  on_connection_at call command none may e absent = ([], g, rw (e, ◌>>=◌) refl, v, refl, tt)
  on_connection_at call command (some i) may e answer =
      let fd = strtol command in
      (call fd ∷ [], g, rw (e, ◌>>=◌) refl, v, refl, may fd (Answers-Holds fd i answer))

  on_connection-Obeys :
      (call : ℕ → Effect) (command : List ℕ)
      → ((fd : ℕ) → Holds g fd → Allowed g (call fd ∷ []))
      → Obeys k ch g (on_connection g call command)
  on_connection-Obeys call command may =
      let (found, e, answer) =
        hashid_lookup_lem {k = k} {ch = ch} {hi = g.hash} (strtol command) v.table in
      on_connection_at call command found may e answer

  forward_agent_at :
      (fd a c : ℕ) (found : Option ℕ)
      → hashid_lookup g.hash fd ≡ some found
      → Answers g.hash fd found
      → (g' : GateState) × (forward_agent g fd a c ≡ some g') × IsValid k ch g' × (g'.hash ≡ g.hash)
  unfolding forward_agent
  forward_agent_at fd a c none e absent = (g, rw (e, ◌>>=◌) refl, v, refl)
  forward_agent_at fd a c (some i) e (lt, same, real) =
      let i_lt : i < g.max_connection = omega (arith, lt, v.size) in
      let slot = v.slots i i_lt in
      let c' : Connection = record (g.conn i) { agent = a; client = c } in
      let ok : SlotOk (g.hash.id i) c' = record {
        same = slot.same;
        buffered = slot.buffered;
        fresh = λ free. absurd (real (sym same ∙ free));
      } in
      (
        record g { conn = update g.conn i c' },
        rw (e, ◌>>=◌) refl,
        IsValid-connection {k = k} {ch = ch} {g = g} i c' g.mp v ok i_lt
            (omega (arith, v.pool, (IsValid-Balanced {k = k} {ch = ch} {g = g} i v i_lt).total)),
        refl,
      )

  idle : Obeys k ch g (some ([], g))
  idle = ([], g, refl, v, refl, tt)

  ctrl_forward-Obeys : (tmp : List ℕ) → Obeys k ch g (ctrl_forward g tmp)
  unfolding ctrl_forward
  ctrl_forward-Obeys tmp = elim (Option-cases (strsep tmp).1) [
    | inl short ↦ rw (short, ctrl_forward) idle
    | inr (s, e) ↦
        rw (e, ctrl_forward)
          (elim (Option-cases (strsep s).1) [
            | inl short ↦ rw (short, ctrl_forward) idle
            | inr (s', e') ↦
                let fd = strtol (strsep tmp).0 in
                let a = strtoul (drop 1 (strsep s).0) in
                let c = strtoul (drop 1 s') in
                let (found, f, answer) =
                  hashid_lookup_lem {k = k} {ch = ch} {hi = g.hash} fd v.table in
                let (g', run, w, same) = forward_agent_at fd a c found f answer in
                rw (e', ctrl_forward) ([], g', rw (run, ◌>>=◌) refl, w, same, tt)
          ])
  ]

  ctrl_close-Obeys : Obeys k ch g (some (ctrl_close g))
  unfolding ctrl_close
  ctrl_close-Obeys = elim (Bool-cases (ltb g.listen_id int_limit)) [
    | inl listening ↦ rw listening (
      Effect.close_socket g.listen_id ∷ [],
      record g { listen_id = no_id },
      refl,
      record { table = v.table; size = v.size; slots = v.slots; header = v.header; pool = v.pool },
      refl,
      (inr refl, tt),
    )
    | inr idle' ↦ rw idle' idle
  ]

  case_word-Obeys :
      (i : ℕ) (msg word : List ℕ) (behind : ℕ → ℕ) (hit miss : Option (List Effect × GateState))
      → i ≤ length msg
      → Obeys k ch g hit
      → Obeys k ch g miss
      → Obeys k ch g (case_word i msg word behind hit miss)
  case_word-Obeys i msg word behind hit miss h hit_ok miss_ok =
      let (same, e) = memcmp_total i msg word behind h in
      rw (e, ◌>>=◌) (elim (Bool-cases same) [ inl t ↦ rw t hit_ok | inr f ↦ rw f miss_ok ])

module _ {k : ℕ} {ch : ℕ → List ℕ} {g : GateState} (queryname : List ℕ → ℕ)
    (behind : List ℕ → ℕ → ℕ) (v : IsValid k ch g) where
  ctrl_words-Obeys :
      (msg : List ℕ) (i : ℕ) → i ≤ length msg → Obeys k ch g (ctrl_words queryname behind g msg i)
  unfolding ctrl_words
  ctrl_words-Obeys msg i h =
      word kick_word
        (on_connection-Obeys {k = k} {ch = ch} {g = g} v Effect.close_socket p
          (λ fd f. (inl f, tt)))
        (word forward_word (ctrl_forward-Obeys {k = k} {ch = ch} {g = g} v p) (
          word broker_word
            (
              [],
              record g { broker = queryname (c_string p) },
              refl,
              record {
                table = v.table;
                size = v.size;
                slots = v.slots;
                header = v.header;
                pool = v.pool;
              },
              refl,
              tt,
            )
            (word start_word
              (on_connection-Obeys {k = k} {ch = ch} {g = g} v Effect.start_socket p
                (λ fd f. (f, tt)))
              (word close_word (ctrl_close-Obeys {k = k} {ch = ch} {g = g} v)
                (Effect.log (Log.unknown_command (c_string msg)) ∷ [], g, refl, v, refl, tt)))))
    where
      p : List ℕ
      p = parm msg i

      word :
          (w : List ℕ) {hit miss : Option (List Effect × GateState)}
          → Obeys k ch g hit
          → Obeys k ch g miss
          → Obeys k ch g (case_word i msg w (behind w) hit miss)
      word w {hit} {miss} hit_ok miss_ok =
          case_word-Obeys {k = k} {ch = ch} {g = g} v i msg w (behind w) hit miss h hit_ok miss_ok

  -- In a gate in order, every text command returns, if `memcmp` may read on behind the literals and whatever
  -- bytes stand there. It keeps the gate in order and the sockets of its connections, and the only calls
  -- that it makes close or start the socket of a connection, close the listening socket, or write to the
  -- log.
  pub ctrl-Obeys : (msg : List ℕ) → Obeys k ch g (ctrl queryname behind g msg)
  unfolding ctrl
  ctrl-Obeys [] = idle {k = k} {ch = ch} {g = g} v
  ctrl-Obeys (c ∷ cs) = ctrl_words-Obeys (c ∷ cs) (word_end (c ∷ cs)) (word_end-le (c ∷ cs))
