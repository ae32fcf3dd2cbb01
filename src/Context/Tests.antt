-- ===== src/Context/Tests.antt =====
-- Runs of skynet_send, and the theorems at small inputs.
use m2_server.Common.{◌+◌, ◌*◌, ◌^◌, ◌<◌, ◌≡◌, ◌≢◌, refl, arith, true, false, some, [], ◌∷◌, ◌==◌}
use m2_server.MessageQueue.{Message}
use m2_server.Context.{
  Sender, Sent, pushed, to_harbor, isremote, send, tag_dontcopy, tag_allocsession,
}
use m2_server.Context.Sessions.{nth_session, sessions_differ}
use m2_server.Context.Sending.{Arrives, Disposes, send-Arrives, send-Disposes}

-- Service 17 on node 1, where service 2^24 + 5 lives.
abbrev sender : Sender
sender = record {
  handle = 2 ^ 24 + 16;
  session_id = 6;
  harbor = 1;
  remote = true;
  live = λ h. h == 2 ^ 24 + 5;
}

-- A request: a new session, and a copy of the data at 99.
asked :
    send sender 100 0 (2 ^ 24 + 5) (10 + tag_allocsession) 0 99 8
    ≡ some (record {
      session_id = 7;
      result = some 7;
      effects =
          pushed
            (2 ^ 24 + 5)
            (record { source = 2 ^ 24 + 16; session = 7; payload = 100; sz = 10 * 2 ^ 56 + 8 })
          ∷ [];
    })
unfolding send
asked = refl

-- To another node.
sent_away :
    send sender 100 0 (2 ^ 25 + 5) (10 + tag_dontcopy) 3 99 8
    ≡ some (record {
      session_id = 6;
      result = some 3;
      effects =
          to_harbor
            (2 ^ 25 + 5)
            (2 ^ 24 + 16)
            10
            (record { source = 2 ^ 24 + 16; session = 3; payload = 99; sz = 8 })
          ∷ [];
    })
unfolding send
sent_away = refl

-- With the destination 0 nothing is sent, and data that need not be copied is not freed.
lost :
    send sender 100 0 0 (10 + tag_dontcopy) 3 99 8
    ≡ some (record { session_id = 6; result = some 3; effects = [] })
unfolding send
lost = refl

local : isremote 1 (2 ^ 24 + 5) ≡ false
unfolding isremote
local = refl

sessions_differ_example :
    (0 < nth_session 4 6) × (nth_session 4 6 < 2 ^ 31) × (nth_session (4 + 9) 6 ≢ nth_session 4 6)
sessions_differ_example = sessions_differ 6 4 9 (omega arith) (omega arith) (omega arith)

send-Arrives_example :
    (r : Sent) × (m : Message) × (send sender 100 0 (2 ^ 24 + 5) 10 3 99 8 ≡ some r)
    × (r.result ≡ some 3)
    × (r.effects ≡ pushed (2 ^ 24 + 5) m ∷ [])
    × Arrives sender 100 0 10 99 8 3 m
send-Arrives_example =
    send-Arrives sender 100 0 (2 ^ 24 + 5) 10 3 99 8 (λ e. cc) (omega arith) (omega arith) local
      refl

send-Disposes_example : Disposes 99 (send sender 100 0 6 (10 + tag_dontcopy) 3 99 8)
send-Disposes_example =
    send-Disposes sender 100 0 6 (10 + tag_dontcopy) 3 99 8 (λ e. cc) (omega arith) refl
      (omega arith) (omega arith) refl
