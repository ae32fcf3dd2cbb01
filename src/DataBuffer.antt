-- ===== src/DataBuffer.antt =====
-- service-src/databuffer.h: the bytes that a connection received and did not use yet, as a list of
-- the blocks in which they came, and the pool of list nodes that all connections share.
pub mod Contents
pub mod Pool
mod Tests
use Prim.Native.Nat.{bit_or}
use m2_server.Common.{
  ℕ, zero, suc, ◌+◌, ◌-◌, ◌*◌, ◌^◌, Option, none, some, List, [], ◌∷◌, ◌++◌, ltb, leb, ◌==◌,
  if◌then◌else◌, length, get_or, take, drop, ◌||◌, ◌>>=◌, ◌>>◌, assert,
}

-- `struct messagepool` by numbers: the blocks of `messagepool_list`, and the nodes of `freelist`.
pub record NodePool : Type 0 where
  pub blocks : ℕ
  pub free : ℕ

-- `MESSAGEPOOL`, the nodes of a block.
abbrev pub messagepool : ℕ
messagepool = 1023

-- `struct databuffer`. The list `chunks` stands for the nodes from `head` to `tail`, each with the
-- bytes of its `buffer`; its `size` is their number. `header` is the bit pattern of an `int`.
pub record Buffer : Type 0 where
  pub header : ℕ
  pub offset : ℕ
  pub size : ℕ
  pub chunks : List (List ℕ)

abbrev pub empty : Buffer
empty = record { header = 0; offset = 0; size = 0; chunks = [] }

-- `_return_message`: the first node goes to the free list.
abbrev pub give_back : NodePool → NodePool
give_back mp = record mp { free = mp.free + 1 }

-- The bytes read, and what is left: the nodes, the offset, and the pool.
pub record Taken : Type 0 where
  pub bytes : List ℕ
  pub chunks : List (List ℕ)
  pub offset : ℕ
  pub pool : NodePool

-- The loop of `databuffer_read`; it faults where C would follow the null `head`.
unfoldable pub read_loop : List (List ℕ) → ℕ → NodePool → ℕ → Option Taken
read_loop [] offset mp sz = none
read_loop (c ∷ cs) offset mp sz =
    let bsz = length c - offset in
    let here = take sz (drop offset c) in
    let rest = read_loop cs 0 (give_back mp) (sz - bsz) in
    if ltb sz bsz
    then some (record { bytes = here; chunks = c ∷ cs; offset = offset + sz; pool = mp })
    else if bsz == sz
    then some (record { bytes = here; chunks = cs; offset = 0; pool = give_back mp })
    else (rest >>= λ t. some (record t { bytes = take bsz (drop offset c) ++ t.bytes }))

-- `databuffer_read`
unfoldable pub read : Buffer → NodePool → ℕ → Option (List ℕ × Buffer × NodePool)
read db mp sz = do
  assert (leb sz db.size)
  t ← read_loop db.chunks db.offset mp sz
  some (t.bytes, record db { size = db.size - sz; chunks = t.chunks; offset = t.offset }, t.pool)

-- A node for a new message: a free one, or the first of a new block.
unfoldable pub take_node : NodePool → NodePool
take_node mp =
    if mp.free == 0
    then record { blocks = mp.blocks + 1; free = messagepool - 1 }
    else record mp { free = mp.free - 1 }

-- `int` values from here on are negative.
abbrev pub int_limit : ℕ
int_limit = 2 ^ 31

-- The buffer and the pool after `databuffer_push`.
abbrev pub appended : Buffer → NodePool → List ℕ → Buffer × NodePool
appended db mp bytes =
    (record db { size = db.size + length bytes; chunks = db.chunks ++ bytes ∷ [] }, take_node mp)

-- `databuffer_push`: where the sum `db->size += sz` is no `int` it is undefined, which is a fault here.
unfoldable pub push : Buffer → NodePool → List ℕ → Option (Buffer × NodePool)
push db mp bytes = assert (ltb (db.size + length bytes) int_limit) >> some (appended db mp bytes)

-- The bytes of a header as an `int`, most significant first, in two or four bytes.
unfoldable pub header_value : ℕ → List ℕ → ℕ
header_value header_size plen =
    if header_size == 2
    then bit_or (get_or plen 0 0 * 2 ^ 8) (get_or plen 1 0)
    else bit_or
        (bit_or (bit_or (get_or plen 0 0 * 2 ^ 24) (get_or plen 1 0 * 2 ^ 16))
          (get_or plen 2 0 * 2 ^ 8))
        (get_or plen 3 0)

-- The first branch of `databuffer_readheader`: where no header is known it is read, or `none` if
-- it is not there yet.
unfoldable pub fetch_header : Buffer → NodePool → ℕ → Option (Option (Buffer × NodePool))
fetch_header db mp header_size =
    if db.header == 0
    then if ltb db.size header_size
      then some none
      else (read db mp header_size >>= λ (plen, db', mp').
          some (some (record db' { header = header_value header_size plen }, mp')))
    else some (some (db, mp))

-- `databuffer_readheader`: the size is `none` where C returns a negative number, -1 for a message
-- that is not complete or the header itself.
unfoldable pub readheader : Buffer → NodePool → ℕ → Option (Option ℕ × Buffer × NodePool)
readheader db mp header_size = do
  f ← fetch_header db mp header_size
  elim f [
    | none ↦ some (none, db, mp)
    | some (db', mp') ↦
        if leb int_limit db'.header || ltb db'.size db'.header
        then some (none, db', mp')
        else some (some db'.header, db', mp')
  ]

-- `databuffer_reset`
unfoldable pub reset : Buffer → Buffer
reset db = record db { header = 0 }

-- `databuffer_clear`
unfoldable pub clear : Buffer → NodePool → Buffer × NodePool
clear db mp = (empty, record mp { free = mp.free + length db.chunks })
