-- ===== src/GateService/Messages.antt =====
-- service-src/service_gate.c: every message keeps the gate in order.
use m2_server.Common.{
  ℕ, ◌-◌, ◌≡◌, ◌≢◌, ◌⊎◌, ◌==◌, eq_of_==, ne_of_==, refl, arith, false, Option, none, some, take,
  List, [], ◌∷◌, length, Bool-cases, inl, inr, ◌>>=◌, leb, ltb, ltb→lt, ltb→le, drop,
}
use m2_server.HashId.{no_id, hashid_lookup}
use m2_server.HashId.Valid.{used-le}
use m2_server.HashId.Lookup.{hashid_lookup_lem}
use m2_server.GateService.{
  GateState, Effect, Log, SocketMessage, dispatch_socket_message, on_client, on_accept, socket_id,
}
use m2_server.GateService.Control.{GateMessage, cb}
use m2_server.GateService.Commands.{ctrl-Obeys}
use m2_server.GateService.Invariant.{IsValid}
use m2_server.GateService.Events.{
  Proceeds, on_data-Settles, Overflows, Settles, on_close-Proceeds, on_connect-Proceeds, stays,
}
use m2_server.GateService.Accept.{MayOpen, on_accept_lem, on_accept_full}

-- What the gate relies on: a socket that comes in may come in.
abbrev pub Admissible : GateState → GateMessage → Type 0
Admissible g (GateMessage.socket (SocketMessage.accept listen fd name)) = MayOpen g fd
Admissible g m = Unit

-- Why the gate faults: the size of a buffer overflows, or the assertion fails that a socket comes in at
-- the socket at which the gate listens.
abbrev pub Aborts : GateState → GateMessage → Type 0
Aborts g (GateMessage.socket (SocketMessage.data_in fd bytes)) = Overflows g fd bytes
Aborts g (GateMessage.socket (SocketMessage.accept listen fd name)) = g.listen_id ≢ listen
Aborts g m = ⊥

-- The socket of a socket event.
abbrev pub socket_of : SocketMessage → ℕ
socket_of (SocketMessage.data_in fd bytes) = fd
socket_of (SocketMessage.connect fd) = fd
socket_of (SocketMessage.close fd) = fd
socket_of (SocketMessage.error fd) = fd
socket_of (SocketMessage.accept listen fd name) = fd
socket_of (SocketMessage.warning fd ud) = fd
socket_of SocketMessage.other = no_id

module _ {k : ℕ} {ch : ℕ → List ℕ} {g : GateState} (v : IsValid k ch g) where
  accepts :
      (fd : ℕ) (name : List ℕ)
      → MayOpen g fd
      → Proceeds k g fd (dispatch_socket_message g (SocketMessage.accept g.listen_id fd name))
  unfolding dispatch_socket_message
  accepts fd name may = elim (Bool-cases (ltb g.hash.count g.max_connection)) [
    | inl room ↦
        let (effects, g', ch', run, w, u, _) =
          on_accept_lem {k = k} {ch = ch} {g = g} fd name v may
            (ltb→lt g.hash.count g.max_connection room) in
        (effects, g', ch', run, w, u)
    | inr full ↦
        let e : g.hash.count ≡ g.max_connection = omega (
          arith,
          ltb→le g.hash.count g.max_connection full,
          v.table.counted,
          used-le g.hash.cap g.hash.id,
          v.size,
        ) in
        rw (on_accept_full {k = k} {ch = ch} {g = g} fd name v e)
          (stays {k = k} {ch = ch} {g = g} fd v (Effect.close_socket fd ∷ []))
  ]

  -- The assertion on the listening socket fails.
  elsewhere :
      (listen fd : ℕ) (name : List ℕ)
      → (g.listen_id == listen) ≡ false
      → dispatch_socket_message g (SocketMessage.accept listen fd name) ≡ none
  unfolding dispatch_socket_message on_accept
  elsewhere listen fd name e = rw (e, ◌>>=◌) refl

  -- In a gate in order, a socket event either keeps the gate in order and changes no connection of another
  -- socket, or it faults, which is so only where data makes the size of a buffer 2^31 or more, or a socket
  -- comes in at another socket than the one at which the gate listens. It holds where a socket that comes in
  -- is not -1, is with the number of connections at most 2^31, and no connection has it.
  pub dispatch_socket_message-Proceeds :
      (m : SocketMessage)
      → Admissible g (GateMessage.socket m)
      → Settles k g (socket_of m) (Aborts g (GateMessage.socket m)) (dispatch_socket_message g m)
  unfolding dispatch_socket_message
  dispatch_socket_message-Proceeds (SocketMessage.data_in fd bytes) a =
      on_data-Settles {k = k} {ch = ch} {g = g} fd v bytes
  dispatch_socket_message-Proceeds (SocketMessage.connect fd) a =
      inl (on_connect-Proceeds {k = k} {ch = ch} {g = g} fd v)
  dispatch_socket_message-Proceeds (SocketMessage.close fd) a =
      inl (on_close-Proceeds {k = k} {ch = ch} {g = g} fd v)
  dispatch_socket_message-Proceeds (SocketMessage.error fd) a =
      inl (on_close-Proceeds {k = k} {ch = ch} {g = g} fd v)
  dispatch_socket_message-Proceeds (SocketMessage.accept listen fd name) may =
      elim (Bool-cases (g.listen_id == listen)) [
        | inl here ↦ inl (rw (← eq_of_== g.listen_id listen here) (accepts fd name may))
        | inr other ↦ inr (ne_of_== g.listen_id listen other, elsewhere listen fd name other)
      ]
  dispatch_socket_message-Proceeds (SocketMessage.warning fd ud) a =
      inl (stays {k = k} {ch = ch} {g = g} fd v (Effect.log (Log.send_buffer fd ud) ∷ []))
  dispatch_socket_message-Proceeds SocketMessage.other a =
      inl (stays {k = k} {ch = ch} {g = g} no_id v [])

  -- A call of `_cb` for the message returns and leaves the gate in order, or it faults for a known reason.
  abbrev pub Handled : GateMessage → Option (ℕ × List Effect × GateState) → Type 0
  Handled m r =
      ((result : ℕ) × (effects : List Effect) × (g' : GateState) × (ch' : ℕ → List ℕ) × (r
          ≡ some (result, effects, g'))
        × IsValid k ch' g')
      ⊎ (Aborts g m × (r ≡ none))

  on_client_at :
      (source : ℕ) (msg : List ℕ) (found : Option ℕ)
      → hashid_lookup g.hash (socket_id (drop (length msg - 4) msg)) ≡ some found
      → Handled (GateMessage.client source msg) (on_client g source msg)
  unfolding on_client
  on_client_at source msg found e = elim (Bool-cases (leb (length msg) 4)) [
    | inl short ↦ rw short (inl (_, _, g, ch, refl, v))
    | inr long ↦ rw long (rw (e, ◌>>=◌) (answered found))
  ]
    where
      uid : ℕ
      uid = socket_id (drop (length msg - 4) msg)

      answered :
          (found : Option ℕ)
          → Handled (GateMessage.client source msg) (
              some (elim found [
                | none ↦ (0, Effect.log (Log.invalid_client_id uid source) ∷ [], g)
                | some id ↦ (1, Effect.send_socket uid (take (length msg - 4) msg) ∷ [], g)
              ]))
      answered none = inl (_, _, g, ch, refl, v)
      answered (some id) = inl (_, _, g, ch, refl, v)

  -- Every message to a gate in order, of every type, either leaves the gate in order, or it makes the gate
  -- fault, which is so only where data makes the size of a buffer 2^31 or more, or a socket comes in at
  -- another socket than the one at which the gate listens. It holds if `memcmp` may read on behind the
  -- literals, and where a socket that comes in is not -1, is with the number of connections at most 2^31,
  -- and no connection has it.
  pub cb-IsValid :
      (queryname : List ℕ → ℕ) (behind : List ℕ → ℕ → ℕ) (m : GateMessage)
      → Admissible g m
      → Handled m (cb queryname behind g m)
  unfolding cb
  cb-IsValid queryname behind (GateMessage.text msg) a =
      let (effects, g', run, w, same, _) =
        ctrl-Obeys {k = k} {ch = ch} {g = g} queryname behind v msg in
      inl (0, effects, g', ch, rw (run, ◌>>=◌) refl, w)
  cb-IsValid queryname behind (GateMessage.client source msg) a =
      let (found, e, answer) =
        hashid_lookup_lem {k = k} {ch = ch} {hi = g.hash} (socket_id (drop (length msg - 4) msg))
          v.table in
      on_client_at source msg found e
  cb-IsValid queryname behind (GateMessage.socket m) a =
      elim (dispatch_socket_message-Proceeds m a) [
        | inl p ↦
            let (effects, g', ch', run, w, _) = p in
            inl (0, effects, g', ch', rw (run, ◌>>=◌) refl, w)
        | inr q ↦ let (why, run) = q in inr (why, rw (run, ◌>>=◌) refl)
      ]
  cb-IsValid queryname behind GateMessage.other a = inl (0, [], g, ch, refl, v)
