-- ===== src/NameTable.antt =====
-- skynet-src/skynet_handle.c, the names of local services: an array of names in the order of
-- `strcmp`, with a binary search, an insertion that moves the later entries, and the loop of
-- `skynet_handle_retire` that closes the gaps.
pub mod Order
pub mod Sorted
pub mod Search
pub mod Moves
pub mod Refine
pub mod Removal
mod Tests
use m2_server.Common.{
  ℕ, zero, suc, ◌+◌, ◌-◌, ◌*◌, ◌/◌, ◌^◌, Option, none, some, List, [], ◌∷◌, ltb, leb, ◌==◌,
  if◌then◌else◌, ◌>>=◌, ◌>>◌, assert, update,
}

-- `struct handle_name`. A name is the bytes before its end.
pub record HandleName : Type 0 where
  pub name : List ℕ
  pub handle : ℕ

-- `name_cap`, `name_count` and the array `name`; `none` is a cell that was not written.
pub record NameTable : Type 0 where
  pub cap : ℕ
  pub count : ℕ
  pub cell : ℕ → Option HandleName

-- The sign of `strcmp`.
pub data Sign : Type 0 where
  below : Sign
  same : Sign
  above : Sign

unfoldable pub strcmp : List ℕ → List ℕ → Sign
strcmp [] [] = same
strcmp [] (b ∷ ys) = below
strcmp (a ∷ xs) [] = above
strcmp (a ∷ xs) (b ∷ ys) =
    let rest = strcmp xs ys in if ltb a b then below else if a == b then rest else above

-- Where a search ends: at an entry with the name, or at the place where it belongs.
pub data Place : Type 0 where
  found : ℕ → HandleName → Place
  missing : ℕ → Place

-- The loop of `skynet_handle_findname` and of `_insert_name`. `past` is `end + 1`, so that it is not
-- negative; a name that was found stands between `begin` and `past`.
unfoldable pub search : ℕ → List ℕ → ℕ → ℕ → NameTable → Option Place
search zero name begin past t = none
search (suc fuel) name begin past t =
    let mid = (begin + past - 1) / 2 in
    let right = search fuel name (mid + 1) past t in
    let left = search fuel name begin mid t in
    let compare = t.cell mid >>= λ n. elim (strcmp n.name name) [
      | same ↦ some (found mid n)
      | below ↦ right
      | above ↦ left
    ] in
    if ltb begin past then compare else some (missing begin)

-- `skynet_handle_findname`: 0 where the name is unknown. Each round makes the range smaller.
unfoldable pub findname : List ℕ → NameTable → Option ℕ
findname name t = search (suc t.count) name 0 t.count t >>= λ p. elim p [
  | found i n ↦ some n.handle
  | missing i ↦ some 0
]

-- `s->name[i] = n`, in an array of `cap` cells.
unfoldable pub write_cell : ℕ → Option HandleName → NameTable → Option NameTable
write_cell i n t = if ltb i t.cap then some (record t { cell = update t.cell i n }) else none

-- `for (i=s->name_count;i>before;i--) s->name[i] = s->name[i-1];` with `n` rounds to go.
unfoldable pub move_up : ℕ → ℕ → NameTable → Option NameTable
unfolding write_cell
move_up zero before t = some t
move_up (suc n) before t = do
  t' ← write_cell (before + n + 1) (t.cell (before + n)) t
  move_up n before t'

-- `for (i=from;...) n[i+shift] = s->name[i];` with `n` rounds to go, from the array of `s` to `t`.
unfoldable pub copy_cells : ℕ → ℕ → ℕ → NameTable → NameTable → Option NameTable
unfolding write_cell
copy_cells zero i shift s t = some t
copy_cells (suc n) i shift s t = do
  t' ← write_cell (i + shift) (s.cell i) t
  copy_cells n (i + 1) shift s t'

-- `MAX_SLOT_SIZE`
abbrev pub max_slot_size : ℕ
max_slot_size = 2 ^ 30

-- The larger array that `_insert_name_before` makes where this one is full.
unfoldable pub enlarge : ℕ → NameTable → Option NameTable
unfolding copy_cells
enlarge before t = do
  let cap = t.cap * 2
  assert (leb cap max_slot_size)
  t' ← copy_cells before 0 0 t (record t { cap = cap; cell = λ i. none })
  copy_cells (t.count - before) before 1 t t'

-- The first part of `_insert_name_before`: a gap at `before`.
unfoldable pub open_gap : ℕ → NameTable → Option NameTable
unfolding enlarge move_up
open_gap before t =
    if leb t.cap t.count then enlarge before t else move_up (t.count - before) before t

-- `_insert_name_before`
unfoldable pub insert_name_before : List ℕ → ℕ → ℕ → NameTable → Option NameTable
unfolding open_gap write_cell
insert_name_before name handle before t = do
  t' ← open_gap before t
  t'' ← write_cell before (some (record { name = name; handle = handle })) t'
  some (record t'' { count = t''.count + 1 })

-- `_insert_name`, and so `skynet_handle_namehandle`: the result `none` is the null pointer.
unfoldable pub insert_name : List ℕ → ℕ → NameTable → Option (Option (List ℕ) × NameTable)
unfolding insert_name_before
insert_name name handle t = search (suc t.count) name 0 t.count t >>= λ p. elim p [
  | found i n ↦ some (none, t)
  | missing i ↦ insert_name_before name handle i t >>= λ t'. some (some name, t')
]

-- The loop of `skynet_handle_retire`, with `n` rounds to go; its result is the last `j`.
unfoldable pub close_gaps : ℕ → ℕ → ℕ → ℕ → NameTable → Option (ℕ × NameTable)
unfolding write_cell
close_gaps zero handle i j t = some (j, t)
close_gaps (suc n) handle i j t = do
  e ← t.cell i
  let dropped = close_gaps n handle (i + 1) j t
  let moved = write_cell j (some e) t >>= close_gaps n handle (i + 1) (j + 1)
  let stays = close_gaps n handle (i + 1) (j + 1) t
  if e.handle == handle then dropped else if i == j then stays else moved

-- The part of `skynet_handle_retire` that forgets the names of a handle.
unfoldable pub forget_names : ℕ → NameTable → Option NameTable
unfolding close_gaps
forget_names handle t = do (j, t') ← close_gaps t.count handle 0 0 t; some (record t' { count = j })

-- The name table that `skynet_handle_init` makes.
abbrev pub no_names : NameTable
no_names = record { cap = 2; count = 0; cell = λ i. none }
