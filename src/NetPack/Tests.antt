-- ===== src/NetPack/Tests.antt =====
-- Runs of the packet library, and the theorems on two connections.
use m2_server.Common.{ℕ, ◌≡◌, refl, arith, false, Option, some, inl, List, [], ◌∷◌, ◌++◌, ◌>>=◌}
use m2_server.Gate.Frames.{stream}
use m2_server.NetPack.{
  NetPack, Queue, new_queue, filter_data, save_uncomplete, push_data, push_more, pop, pack,
  read_size, hash_fd, Notice, filter,
}
use m2_server.NetPack.Ring.{Represents, new_queue-Represents}
use m2_server.NetPack.Chains.{Tidy, waiting}
use m2_server.NetPack.Waiting.{raw}
use m2_server.NetPack.Closing.{Forgets, filter-Forgets}
use m2_server.NetPack.Roundtrip.{receive_all-packed, new_queue-Tidy}
use m2_server.NetPack.Session.{Block, receive_all, receive_all_lem, of_socket, bytes_of, pop_all}

-- The messages 7 8 and 9 of socket 5, cut behind the first byte of a header, and one of socket 6.
abbrev blocks : List Block
blocks =
    record { socket = 5; bytes = 0 ∷ 2 ∷ 7 ∷ 8 ∷ 0 ∷ [] }
    ∷ record { socket = 6; bytes = 0 ∷ 1 ∷ 4 ∷ [] }
    ∷ record { socket = 5; bytes = 1 ∷ 9 ∷ [] }
    ∷ []

abbrev received : Option (List (List ℕ) × List (List ℕ))
unfolding receive_all pop_all new_queue filter_data pop
received = do (ps, q) ← receive_all new_queue blocks; some (of_socket 5 ps, of_socket 6 ps)

received_runs : received ≡ some ((7 ∷ 8 ∷ []) ∷ (9 ∷ []) ∷ [], (4 ∷ []) ∷ [])
unfolding receive_all pop_all new_queue filter_data pop received read_size push_data push_more
    save_uncomplete hash_fd
received_runs = refl

receive_all-packed_example :
    (ps : List NetPack) × (q' : Queue) × (receive_all new_queue blocks ≡ some (ps, q'))
    × (of_socket 5 ps ≡ (7 ∷ 8 ∷ []) ∷ (9 ∷ []) ∷ [])
unfolding pack
receive_all-packed_example =
    receive_all-packed 5 blocks ((7 ∷ 8 ∷ []) ∷ (9 ∷ []) ∷ []) (omega arith) refl

receive_all_lem_example :
    (ps : List NetPack) × (q' : Queue) × (receive_all new_queue blocks ≡ some (ps, q'))
    × Represents q' []
    × Tidy q'
    × ((fd : ℕ)
        → stream 2 (of_socket fd ps) ++ raw (waiting q' fd)
          ≡ raw (waiting new_queue fd) ++ bytes_of fd blocks)
receive_all_lem_example =
    receive_all_lem new_queue blocks new_queue-Represents new_queue-Tidy (omega arith)

filter-Forgets_example :
    (n : Notice) × (q' : Queue) × (filter new_queue
        (record { padding = false; type = 3; id = 5; ud = 0; text = [] })
      ≡ some (n, q'))
    × Forgets new_queue 5 [] q'
filter-Forgets_example =
    filter-Forgets new_queue (record { padding = false; type = 3; id = 5; ud = 0; text = [] }) []
      (inl refl) new_queue-Represents new_queue-Tidy
