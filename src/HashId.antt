-- ===== src/HashId.antt =====
-- service-src/hashid.h: the table from socket ids to the slots of connections. The slots with one hash
-- are linked in a chain.
pub mod Chains
pub mod Valid
pub mod Lookup
pub mod Insert
pub mod Unlink
pub mod Freed
pub mod Remove
pub mod Samples
mod Tests
use Prim.Native.Nat.{bit_and}
use m2_server.Common.{
  ℕ, zero, suc, ◌+◌, ◌-◌, ◌*◌, ◌%◌, ◌^◌, Bool, true, false, Option, none, some, ltb, ◌==◌,
  if◌then◌else◌, ◌>>=◌, ◌>>◌, assert, update,
}

-- `struct hashid` with its nodes by index: the fields `id` and `next` of each, as functions. An id is
-- the bit pattern of an `int`.
pub record HashId : Type 0 where
  pub hashmod : ℕ
  pub cap : ℕ
  pub count : ℕ
  pub id : ℕ → ℕ
  pub next : ℕ → Option ℕ
  pub hash : ℕ → Option ℕ

-- -1, the id of a free node.
abbrev pub no_id : ℕ
no_id = 2 ^ 32 - 1

-- From here on an `int` is negative, or overflows.
abbrev pub int_limit : ℕ
int_limit = 2 ^ 31

-- The loop of `hashid_init`; a product that is no `int` is a fault.
unfoldable pub find_hashcap : ℕ → ℕ → ℕ → Option ℕ
find_hashcap zero hashcap max = none
find_hashcap (suc fuel) hashcap max =
    let doubled = assert (ltb (hashcap * 2) int_limit) >> find_hashcap fuel (hashcap * 2) max in
    if ltb hashcap max then doubled else some hashcap

-- `hashid_init`: 16 can be doubled 26 times.
unfoldable pub hashid_init : ℕ → Option HashId
unfolding find_hashcap
hashid_init max = find_hashcap 28 16 max >>= λ hashcap. some (record {
  hashmod = hashcap - 1;
  cap = max;
  count = 0;
  id = λ i. no_id;
  next = λ i. none;
  hash = λ h. none;
})

-- The loop of `hashid_lookup` from the node `c` on; the outer `none` is the end of the fuel.
unfoldable pub walk : ℕ → Option ℕ → ℕ → HashId → Option (Option ℕ)
walk zero c id hi = none
walk (suc fuel) none id hi = some none
walk (suc fuel) (some c) id hi =
    let rest = walk fuel (hi.next c) id hi in if hi.id c == id then some (some c) else rest

-- `hashid_lookup`: `none` is -1. A chain has at most `cap` nodes.
unfoldable pub hashid_lookup : HashId → ℕ → Option (Option ℕ)
unfolding walk
hashid_lookup hi id = walk (suc hi.cap) (hi.hash (bit_and id hi.hashmod)) id hi

-- The lines of `hashid_remove` from `_clear` on.
abbrev pub clear_node : ℕ → HashId → HashId
clear_node c hi = record hi {
  id = update hi.id c no_id;
  next = update hi.next c none;
  count = hi.count - 1;
}

-- The loop of `hashid_remove`, at the node `c`.
unfoldable pub remove_after : ℕ → ℕ → ℕ → HashId → Option (Option ℕ × HashId)
remove_after zero c id hi = none
remove_after (suc fuel) c id hi = elim (hi.next c) [
  | none ↦ some (none, hi)
  | some temp ↦
      let further = remove_after fuel temp id hi in
      if hi.id temp == id
      then some (some temp, clear_node temp (record hi { next = update hi.next c (hi.next temp) }))
      else further
]

-- `hashid_remove`: the slot that the id had, or `none` for -1.
unfoldable pub hashid_remove : HashId → ℕ → Option (Option ℕ × HashId)
unfolding remove_after
hashid_remove hi id =
    let h = bit_and id hi.hashmod in
    elim (hi.hash h) [
      | none ↦ some (none, hi)
      | some c ↦
          let further = remove_after (suc hi.cap) c id hi in
          if hi.id c == id
          then some (some c, clear_node c (record hi { hash = update hi.hash h (hi.next c) }))
          else further
    ]

-- The loop of `hashid_insert`, with `n` rounds to go; a sum that is no `int` is a fault.
unfoldable pub find_free : ℕ → ℕ → ℕ → HashId → Option (Option ℕ)
find_free zero i id hi = some none
find_free (suc n) i id hi =
    let index = (i + id) % hi.cap in
    let rest = find_free n (i + 1) id hi in
    assert (ltb (i + id) int_limit) >> (if hi.id index == no_id then some (some index) else rest)

abbrev pub is_null : Option ℕ → Bool
is_null none = true
is_null (some p) = false

-- `if (hi->hash[h]) { c->next = hi->hash[h]; }`
abbrev pub link_first : ℕ → Option ℕ → (ℕ → Option ℕ) → ℕ → Option ℕ
link_first c none next = next
link_first c (some first) next = update next c (some first)

-- The rest of `hashid_insert`, with the free node `c`.
unfoldable pub link_node : ℕ → ℕ → HashId → Option (ℕ × HashId)
link_node c id hi = do
  assert (is_null (hi.next c))
  let h = bit_and id hi.hashmod
  some (
    c,
    record hi {
      count = hi.count + 1;
      id = update hi.id c id;
      next = link_first c (hi.hash h) hi.next;
      hash = update hi.hash h (some c);
    },
  )

-- `hashid_insert`: the slot of the new id. `assert(c)` is the fault where no node is free.
unfoldable pub hashid_insert : HashId → ℕ → Option (ℕ × HashId)
unfolding find_free link_node
hashid_insert hi id = do found ← find_free hi.cap 0 id hi; c ← found; link_node c id hi

-- `hashid_full`
unfoldable pub hashid_full : HashId → Bool
hashid_full hi = hi.count == hi.cap

-- `hashid_clear`
unfoldable pub hashid_clear : HashId → HashId
hashid_clear hi = record hi { hashmod = 1; cap = 0; count = 0; hash = λ h. none }
