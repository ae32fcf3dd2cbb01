-- ===== src/Gate/Tests.antt =====
-- Two messages in three blocks, cut inside a header and inside a message.
use m2_server.Common.{ℕ, ◌≡◌, refl, arith, false, some, List, [], ◌∷◌, map, inl}
use m2_server.DataBuffer.{
  NodePool, empty, push, read_loop, read, fetch_header, readheader, header_value, reset,
}
use m2_server.Gate.{
  Route, to_agent, receiver, forward, Outcome, dispatch_loop, dispatch_message, receive_all,
}
use m2_server.Gate.Framing.{pending, AllFit}
use m2_server.Gate.Reassembly.{reassembles}
use m2_server.Gate.Total.{Returns, dispatch_message-Returns}

abbrev pool : NodePool
pool = record { blocks = 0; free = 0 }

abbrev with_agent : Route
with_agent = record { broker = 0; agent = 7; client = 3; watchdog = 9; id = 12 }

abbrev no_receiver : Route
no_receiver = record { broker = 0; agent = 0; client = 0; watchdog = 0; id = 12 }

abbrev messages : List (List ℕ)
messages = (10 ∷ 20 ∷ 30 ∷ []) ∷ (40 ∷ []) ∷ []

abbrev blocks : List (List ℕ)
blocks = (0 ∷ []) ∷ (3 ∷ 10 ∷ 20 ∷ []) ∷ (30 ∷ 0 ∷ 1 ∷ 40 ∷ []) ∷ []

-- With no receiver the first message is not read, and its bytes are taken for a header.
lost_framing :
    (o : Outcome) × (dispatch_message no_receiver 2 empty pool (0 ∷ 2 ∷ 0 ∷ 9 ∷ []) ≡ some o)
    × (o.buffer.header ≡ 9)
    × (o.buffer.size ≡ 0)
unfolding dispatch_message dispatch_loop push readheader fetch_header read read_loop forward
    receiver reset header_value
lost_framing = (_, refl, refl, refl)

AllFit-messages : AllFit 2 messages
AllFit-messages = (
  record { some_byte = omega arith; small = omega arith; short = λ _. omega arith },
  (record { some_byte = omega arith; small = omega arith; short = λ _. omega arith }, tt),
)

reassembles_example :
    (o : Outcome) × (receive_all with_agent 2 empty pool blocks ≡ some o)
    × (o.sent ≡ map (to_agent 3 7) messages)
    × (o.closed ≡ false)
    × (pending 2 o.buffer ≡ [])
unfolding receiver
reassembles_example =
    reassembles with_agent 2 (to_agent 3 7) (inl refl) refl pool blocks messages
      (omega arith, (omega arith, (omega arith, tt))) AllFit-messages refl

dispatch_message-Returns_example :
    Returns (dispatch_message no_receiver 2 empty pool (0 ∷ 2 ∷ 0 ∷ 9 ∷ []))
dispatch_message-Returns_example =
    dispatch_message-Returns no_receiver 2 (inl refl) empty pool (0 ∷ 2 ∷ 0 ∷ 9 ∷ [])
      (record { counted = refl; offset_in = refl }) (omega arith)
