-- ===== src/GateService/Examples.antt =====
-- The theorems on the gate at a gate with three slots and one connection.
use m2_server.Common.{
  ℕ, ◌<◌, ◌≡◌, ◌⊎◌, refl, arith, some, List, [], ◌∷◌, update, Bool-cases, inl, inr, ◌==◌,
}
use m2_server.DataBuffer.{empty}
use m2_server.HashId.Samples.{one3, chains1, one3-IsValid}
use m2_server.GateService.{
  GateState, Connection, Effect, Log, SocketMessage, unused, dispatch_socket_message, on_accept,
  on_client,
}
use m2_server.GateService.Accept.{MayOpen, New, on_accept_lem}
use m2_server.GateService.Client.{id_bytes, on_client_lem}
use m2_server.GateService.Commands.{Obeys, ctrl-Obeys, Holds}
use m2_server.GateService.Control.{GateMessage, cb, ctrl}
use m2_server.GateService.Events.{Settles, Overflows, Untouched}
use m2_server.GateService.Init.{gate_init_refuses}
use m2_server.GateService.Invariant.{IsValid, SlotOk, SlotOk-unused}
use m2_server.GateService.Messages.{Handled, cb-IsValid, dispatch_socket_message-Proceeds}
use m2_server.GateService.Start.{Scan, gate_init, refuse}

abbrev player : Connection
player = record { id = 5; agent = 16; client = 17; remote_name = []; buffer = empty }

abbrev gate : GateState
gate = record {
  listen_id = 3;
  watchdog = 77;
  broker = 0;
  client_tag = 3;
  header_size = 2;
  max_connection = 3;
  hash = one3;
  conn = update (λ i. unused) 2 player;
  mp = record { blocks = 0; free = 0 };
}

gate-IsValid : IsValid 4 chains1 gate
gate-IsValid = record {
  table = one3-IsValid;
  size = refl;
  slots = slots;
  header = inl refl;
  pool = refl;
}
  where
    slots : (i : ℕ) → i < 3 → SlotOk (one3.id i) (update (λ i. unused) 2 player i)
    slots i lt = elim (Bool-cases (i == 2)) [
      | inl same ↦ rw same (record {
        same = refl;
        buffered = record { counted = refl; offset_in = refl };
        fresh = λ e. absurd (omega (arith, e));
      })
      | inr other ↦ rw other SlotOk-unused
    ]

-- The socket 21, which has the hash of the socket 5.
newcomer : MayOpen gate 21
newcomer = record { real = omega arith; small = omega arith; absent = λ i lt. ground arith }

-- Zeros behind the literals.
abbrev no_bytes : List ℕ → ℕ → ℕ
no_bytes word j = 0

cb-IsValid_example :
    Handled {k = 4} {ch = chains1} {g = gate} gate-IsValid
      (GateMessage.socket (SocketMessage.accept 3 21 []))
      (cb (λ name. 9) no_bytes gate (GateMessage.socket (SocketMessage.accept 3 21 [])))
cb-IsValid_example =
    cb-IsValid {k = 4} {ch = chains1} {g = gate} gate-IsValid (λ name. 9) no_bytes
      (GateMessage.socket (SocketMessage.accept 3 21 [])) newcomer

dispatch_socket_message-Proceeds_example :
    Settles 4 gate 5
      (Overflows gate 5 (0 ∷ 2 ∷ 8 ∷ 9 ∷ []))
      (dispatch_socket_message gate (SocketMessage.data_in 5 (0 ∷ 2 ∷ 8 ∷ 9 ∷ [])))
dispatch_socket_message-Proceeds_example =
    dispatch_socket_message-Proceeds {k = 4} {ch = chains1} {g = gate} gate-IsValid
      (SocketMessage.data_in 5 (0 ∷ 2 ∷ 8 ∷ 9 ∷ [])) tt

on_accept_lem_example :
    (effects : List Effect) × (g' : GateState) × (ch' : ℕ → List ℕ) × (on_accept gate 3 21 []
      ≡ some (effects, g'))
    × IsValid 4 ch' g'
    × Untouched gate 21 g'
    × New gate 21 g'
on_accept_lem_example =
    on_accept_lem {k = 4} {ch = chains1} {g = gate} 21 [] gate-IsValid newcomer (omega arith)

ctrl-Obeys_example :
    Obeys 4 chains1 gate
      (ctrl (λ name. 9) no_bytes gate (b'k' ∷ b'i' ∷ b'c' ∷ b'k' ∷ b' ' ∷ b'5' ∷ []))
ctrl-Obeys_example =
    ctrl-Obeys {k = 4} {ch = chains1} {g = gate} (λ name. 9) no_bytes gate-IsValid
      (b'k' ∷ b'i' ∷ b'c' ∷ b'k' ∷ b' ' ∷ b'5' ∷ [])

on_client_lem_example :
    ((Holds gate 5)
      × (on_client gate 16 (1 ∷ id_bytes 5) ≡ some (1, Effect.send_socket 5 (1 ∷ []) ∷ [], gate)))
    ⊎ ((¬ Holds gate 5)
        × (on_client gate 16 (1 ∷ id_bytes 5)
            ≡ some (0, Effect.log (Log.invalid_client_id 5 16) ∷ [], gate)))
on_client_lem_example =
    on_client_lem {k = 4} {ch = chains1} {g = gate} 16 5 (1 ∷ []) gate-IsValid (omega arith)

abbrev parameters : ℕ → Scan
parameters max = record {
  n = 5;
  header = b'L';
  watchdog = b'!' ∷ [];
  binding = b'8' ∷ b'0' ∷ [];
  client_tag = 0;
  max = max;
}

gate_init_refuses_example :
    (why : Log) × (g' : GateState) × (gate_init (λ name. 9) (λ host port. 3) gate [] (parameters 0)
      ≡ refuse why g')
    × (g'.listen_id ≡ 3)
gate_init_refuses_example =
    gate_init_refuses (λ name. 9) (λ host port. 3) gate [] (parameters 0) (inr (inl refl))
