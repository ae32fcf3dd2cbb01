-- ===== src/DataBuffer/Tests.antt =====
-- Reads over the border of two blocks.
use m2_server.Common.{◌≡◌, refl, arith, some, [], ◌∷◌}
use m2_server.DataBuffer.{
  Buffer, NodePool, read_loop, read, take_node, push, fetch_header, readheader, header_value,
}
use m2_server.DataBuffer.Contents.{ReadsTo, read_lem}
use m2_server.DataBuffer.Pool.{Balanced, read-Balanced}

abbrev two_blocks : Buffer
two_blocks = record {
  header = 0;
  offset = 1;
  size = 4;
  chunks = (5 ∷ 0 ∷ 2 ∷ []) ∷ (7 ∷ 8 ∷ []) ∷ [];
}

abbrev pool : NodePool
pool = record { blocks = 1; free = 1020 }

-- The header of two bytes leaves the first block, and the message stands in the second.
readheader-run :
    readheader two_blocks pool 2
    ≡ some (
      some 2,
      record { header = 2; offset = 0; size = 2; chunks = (7 ∷ 8 ∷ []) ∷ [] },
      record { blocks = 1; free = 1021 },
    )
unfolding readheader fetch_header read read_loop header_value
readheader-run = refl

push-run :
    push two_blocks (record pool { free = 0 }) (9 ∷ [])
    ≡ some (
      record two_blocks { size = 5; chunks = (5 ∷ 0 ∷ 2 ∷ []) ∷ (7 ∷ 8 ∷ []) ∷ (9 ∷ []) ∷ [] },
      record { blocks = 2; free = 1022 },
    )
unfolding push take_node
push-run = refl

read_lem_example :
    (db : Buffer) × (mp : NodePool) × (read two_blocks pool 3 ≡ some (0 ∷ 2 ∷ 7 ∷ [], db, mp))
    × ReadsTo two_blocks 3 db
read_lem_example =
    read_lem pool 3 (record { counted = refl; offset_in = omega arith }) (omega arith) (omega arith)

read-run :
    read two_blocks pool 3
    ≡ some (
      0 ∷ 2 ∷ 7 ∷ [],
      record two_blocks { offset = 1; size = 1; chunks = (7 ∷ 8 ∷ []) ∷ [] },
      record { blocks = 1; free = 1021 },
    )
unfolding read read_loop
read-run = refl

read-Balanced_example : Balanced (record { blocks = 1; free = 1021 }) 1 ((7 ∷ 8 ∷ []) ∷ [])
read-Balanced_example = read-Balanced two_blocks pool 1 3 (record { total = refl }) read-run
