-- ===== src/HashId/Tests.antt =====
-- Runs of the table of ids, and the theorems at small tables.
use m2_server.Common.{ℕ, ◌-◌, ◌<◌, ◌≡◌, refl, arith, Option, none, some, List, ◌>>=◌, update}
use m2_server.HashId.{
  HashId, no_id, int_limit, hashid_init, hashid_lookup, hashid_insert, hashid_remove, walk,
  find_free, link_node, remove_after, find_hashcap,
}
use m2_server.HashId.Valid.{IsValid}
use m2_server.HashId.Lookup.{Answers, hashid_lookup_lem}
use m2_server.HashId.Insert.{hashid_insert_lem}
use m2_server.HashId.Samples.{one3, chains1, one3-IsValid}
use m2_server.HashId.Remove.{Removes, hashid_remove_lem}

-- Three ids, two of which share a hash; the slot of the second is freed.
abbrev run : Option (Option ℕ × Option ℕ × Option ℕ × ℕ)
unfolding hashid_init hashid_insert hashid_remove hashid_lookup find_hashcap find_free link_node
    remove_after walk
run = do
  empty ← hashid_init 3
  (a, one) ← hashid_insert empty 5
  (b, two) ← hashid_insert one 21
  (c, three) ← hashid_insert two 4
  (r, left) ← hashid_remove three 5
  x ← hashid_lookup left 21
  y ← hashid_lookup left 5
  some (r, x, y, left.count)

runs : run ≡ some (some 2, some 0, none, 2)
unfolding hashid_init hashid_insert hashid_remove hashid_lookup find_hashcap find_free link_node
    remove_after walk
runs = refl

-- A full table has no room.
abbrev too_many : Option (ℕ × HashId)
unfolding hashid_init hashid_insert find_hashcap find_free link_node
too_many = do empty ← hashid_init 1; (a, one) ← hashid_insert empty 5; hashid_insert one 6

no_room : too_many ≡ none
unfolding hashid_init hashid_insert find_hashcap find_free link_node
no_room = refl

-- The search for a free slot adds the id to the counter, which is no `int` from 2^31 on.
abbrev near_limit : Option (ℕ × HashId)
unfolding hashid_init hashid_insert find_hashcap find_free link_node
near_limit = do
  empty ← hashid_init 2
  (a, one) ← hashid_insert empty (int_limit - 3)
  hashid_insert one (int_limit - 1)

overflows : near_limit ≡ none
unfolding hashid_init hashid_insert find_hashcap find_free link_node
overflows = refl

hashid_lookup_example : (r : Option ℕ) × (hashid_lookup one3 21 ≡ some r) × Answers one3 21 r
hashid_lookup_example = hashid_lookup_lem {k = 4} {ch = chains1} {hi = one3} 21 one3-IsValid

hashid_insert_example :
    (c : ℕ) × (hi' : HashId) × (ch' : ℕ → List ℕ) × (hashid_insert one3 21 ≡ some (c, hi'))
    × (c < 3)
    × (one3.id c ≡ no_id)
    × (hi'.id ≡ update one3.id c 21)
    × (hi'.count ≡ 2)
    × (hi'.cap ≡ 3)
    × IsValid 4 ch' hi'
hashid_insert_example =
    hashid_insert_lem {k = 4} {ch = chains1} {hi = one3} 21 one3-IsValid (omega arith) (omega arith)
      (omega arith) (λ i lt. ground arith)

hashid_remove_example :
    (r : Option ℕ) × (hi' : HashId) × (ch' : ℕ → List ℕ) × (hashid_remove one3 5 ≡ some (r, hi'))
    × Removes one3 5 r hi'
    × IsValid 4 ch' hi'
hashid_remove_example = hashid_remove_lem {k = 4} {ch = chains1} {hi = one3} 5 one3-IsValid
