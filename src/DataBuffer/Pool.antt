-- ===== src/DataBuffer/Pool.antt =====
-- The pool neither loses nor invents a node: each node of its blocks is free or in a buffer.
use m2_server.Common.{
  ℕ, ◌+◌, ◌-◌, ◌*◌, ◌≡◌, arith, some, List, [], ◌∷◌, length, length-append, inl, inr, Option-cases,
}
use m2_server.DataBuffer.{
  Buffer, NodePool, Taken, give_back, messagepool, read_loop, read, take_node, appended, clear,
}

-- The number of nodes in use by one buffer and by others is what the blocks hold, less the free ones.
pub record Balanced (mp : NodePool) (others : ℕ) (chunks : List (List ℕ)) : Type 0 where
  pub total : mp.free + (others + length chunks) ≡ messagepool * mp.blocks

pub appended-Balanced :
    (db : Buffer) (mp : NodePool) (others : ℕ) (bytes : List ℕ)
    → Balanced mp others db.chunks
    → Balanced (appended db mp bytes).1 others (appended db mp bytes).0.chunks
unfolding take_node
appended-Balanced db mp others bytes b = ground (arith, length-append db.chunks (bytes ∷ []))

read_loop-nodes :
    (chunks : List (List ℕ)) (offset : ℕ) (mp : NodePool) (sz : ℕ) {t : Taken}
    → read_loop chunks offset mp sz ≡ some t
    → (t.pool.free + length t.chunks ≡ mp.free + length chunks) × (t.pool.blocks ≡ mp.blocks)
unfolding read_loop
read_loop-nodes [] offset mp sz h = cc
read_loop-nodes (c ∷ cs) offset mp sz {t} h =
    elim (Option-cases (read_loop cs 0 (give_back mp) (sz - (length c - offset)))) [
      | inl e ↦ ground (arith, e, h)
      | inr (t', e) ↦
          ground (arith, e, h, read_loop-nodes cs 0 (give_back mp) (sz - (length c - offset)) e)
    ]

-- A read that returns gives the nodes that it used up to the free list: where each node of the pool is
-- free or in a buffer, that is so after it.
pub read-Balanced :
    (db : Buffer) (mp : NodePool) (others sz : ℕ) {r : List ℕ × Buffer × NodePool}
    → Balanced mp others db.chunks
    → read db mp sz ≡ some r
    → Balanced r.2 others r.1.chunks
unfolding read
read-Balanced db mp others sz {r} b h = elim (Option-cases (read_loop db.chunks db.offset mp sz)) [
  | inl e ↦ ground (arith, e, h)
  | inr (t, e) ↦ ground (arith, e, h, read_loop-nodes db.chunks db.offset mp sz e)
]

pub clear-Balanced :
    (db : Buffer) (mp : NodePool) (others : ℕ)
    → Balanced mp others db.chunks
    → Balanced (clear db mp).1 others (clear db mp).0.chunks
unfolding clear
clear-Balanced db mp others b = omega arith
