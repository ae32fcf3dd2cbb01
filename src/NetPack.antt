-- ===== src/NetPack.antt =====
-- lualib-src/lua-netpack.c: how the Lua gate cuts the bytes of its connections into packets. The Lua
-- stack is left out: a function takes the queue and returns it, with what it pushes.
mod Ring
mod Chains
mod Waiting
mod Cutting
mod Branches
mod Filter
mod Closing
mod Session
mod Roundtrip
mod Tests
use Prim.Native.Nat.{bit_and, bit_or}
use m2_server.Common.{
  ℕ, zero, suc, Bool, not, ◌+◌, ◌-◌, ◌*◌, ◌/◌, ◌%◌, ◌^◌, Option, none, some, List, [], ◌∷◌, ◌++◌,
  ltb, leb, ◌==◌, if◌then◌else◌, ◌>>=◌, ◌>>◌, assert, update, length, take, drop, replicate,
  get_elem?, store,
}
use m2_server.MessageQueue.{gather}

-- `struct netpack`: `bytes` are the `size` bytes at `buffer`.
pub record NetPack : Type 0 where
  pub id : ℕ
  pub bytes : List ℕ

-- `struct uncomplete`: `read` is `none` for -1, and `bytes` are the bytes of the buffer that were written.
pub record Uncomplete : Type 0 where
  pub id : ℕ
  pub size : ℕ
  pub bytes : List ℕ
  pub read : Option ℕ
  pub header : ℕ

-- `struct queue`: the chain of each hash as a list, and the ring of packets. A null pointer stands for a
-- new queue here, as `get_queue` makes one before anything is written.
pub record Queue : Type 0 where
  pub cap : ℕ
  pub head : ℕ
  pub tail : ℕ
  pub hash : ℕ → List Uncomplete
  pub queue : List (Option NetPack)

abbrev pub queuesize : ℕ
queuesize = 1024

abbrev pub hashsize : ℕ
hashsize = 4096

-- The values of a C `int` lie below.
abbrev pub int_limit : ℕ
int_limit = 2 ^ 31

-- `get_queue`, where there is no queue yet.
unfoldable pub new_queue : Queue
new_queue = record {
  cap = queuesize;
  head = 0;
  tail = 0;
  hash = λ h. [];
  queue = replicate queuesize none;
}

-- `lclear`: the buffers are freed.
unfoldable pub clear : Queue → Queue
clear q = record q { hash = λ h. []; head = 0; tail = 0 }

-- `hash_fd`
unfoldable pub hash_fd : ℕ → ℕ
hash_fd fd = (fd / 2 ^ 24 + fd / 2 ^ 12 + fd) % 2 ^ 32 % hashsize

-- The search of `find_uncomplete` in a chain, which takes the entry out.
unfoldable pub take_out : ℕ → List Uncomplete → Option (Uncomplete × List Uncomplete)
take_out fd [] = none
take_out fd (uc ∷ rest) =
    let further = take_out fd rest >>= λ (found, left). some (found, uc ∷ left) in
    if uc.id == fd then some (uc, rest) else further

-- `find_uncomplete`
unfoldable pub find_uncomplete : Queue → ℕ → Option Uncomplete × Queue
unfolding take_out
find_uncomplete q fd =
    let h = hash_fd fd in
    elim (take_out fd (q.hash h)) [
      | none ↦ (none, q)
      | some (uc, rest) ↦ (some uc, record q { hash = update q.hash h rest })
    ]

-- `save_uncomplete`, with the fields that its caller sets.
unfoldable pub save_uncomplete : Queue → Uncomplete → Queue
save_uncomplete q uc = let h = hash_fd uc.id in record q { hash = update q.hash h (uc ∷ q.hash h) }

-- `expand_queue`
unfoldable pub expand_queue : Queue → Option Queue
expand_queue q = do
  assert (ltb (q.cap + queuesize) int_limit)
  cells ← gather q.queue q.cap q.head q.cap 0
  some (record q {
    cap = q.cap + queuesize;
    head = 0;
    tail = q.cap;
    queue = cells ++ replicate queuesize none;
  })

-- `push_data`
unfoldable pub push_data : Queue → ℕ → List ℕ → Option Queue
unfolding expand_queue
push_data q fd bytes = do
  cells ← store q.queue q.tail (some (record { id = fd; bytes = bytes }))
  let tail = if leb q.cap (q.tail + 1) then q.tail + 1 - q.cap else q.tail + 1
  let stored = record q { queue = cells; tail = tail }
  if q.head == tail then expand_queue stored else some stored

-- `read_size`
unfoldable pub read_size : ℕ → ℕ → ℕ
read_size b0 b1 = bit_or (b0 * 2 ^ 8) b1

-- What is kept of one byte, the first of a packet.
abbrev pub half_header : ℕ → ℕ → Uncomplete
half_header fd b = record { id = fd; size = 0; bytes = []; read = none; header = b }

-- What is kept of a packet whose first bytes are there.
abbrev pub partial : ℕ → ℕ → List ℕ → Uncomplete
partial fd size bytes = record {
  id = fd;
  size = size;
  bytes = bytes;
  read = some (length bytes);
  header = 0;
}

-- `push_more`; it faults on an empty buffer, or where the fuel ends.
unfoldable pub push_more : ℕ → Queue → ℕ → List ℕ → Option Queue
push_more zero q fd buffer = none
push_more (suc fuel) q fd [] = none
push_more (suc fuel) q fd (b ∷ []) = some (save_uncomplete q (half_header fd b))
push_more (suc fuel) q fd (b0 ∷ b1 ∷ buffer) =
    let pack_size = read_size b0 b1 in
    let more = push_data q fd (take pack_size buffer) >>= λ q'.
    let again = push_more fuel q' fd (drop pack_size buffer) in
    if ltb 0 (length buffer - pack_size) then again else some q' in
    if ltb (length buffer) pack_size
    then some (save_uncomplete q (partial fd pack_size buffer))
    else more

-- `close_uncomplete`
unfoldable pub close_uncomplete : Queue → ℕ → Queue
unfolding find_uncomplete
close_uncomplete q fd = (find_uncomplete q fd).1

-- What `filter_data_` pushes: nothing, TYPE_DATA with one packet, or TYPE_MORE.
pub data Filtered : Type 0 where
  nothing : Filtered
  packet : ℕ → List ℕ → Filtered
  more : Filtered

-- `filter_data_` with an uncomplete packet whose size is known; `read` bytes of it are there.
unfoldable pub fill_packet : Queue → ℕ → Uncomplete → ℕ → List ℕ → Option (Filtered × Queue)
fill_packet q fd uc read buffer =
    let need = uc.size - read in
    let bytes = uc.bytes ++ take need buffer in
    let rest = drop need buffer in
    let push_rest = do
      q' ← push_data q fd bytes
      q'' ← push_more (length rest) q' fd rest
      some (more, q'')
    in if ltb (length buffer) need
      then some (
        nothing,
        save_uncomplete q
            (record uc { bytes = uc.bytes ++ buffer; read = some (read + length buffer) }),
      )
      else if length rest == 0
      then some (packet fd bytes, q)
      else push_rest

-- `filter_data_` with an uncomplete packet.
unfoldable pub fill_uncomplete : Queue → ℕ → Uncomplete → List ℕ → Option (Filtered × Queue)
unfolding fill_packet
fill_uncomplete q fd uc buffer = elim uc.read [
  | some read ↦ fill_packet q fd uc read buffer
  | none ↦ elim buffer [
    | [] ↦ none
    | b ∷ rest ↦
        fill_packet q fd
          (record uc { size = bit_or b (uc.header * 2 ^ 8); bytes = []; read = some 0 }) 0 rest
  ]
]

-- `filter_data_` without one; it faults on an empty buffer.
unfoldable pub start_packet : Queue → ℕ → List ℕ → Option (Filtered × Queue)
start_packet q fd [] = none
start_packet q fd (b ∷ []) = some (nothing, save_uncomplete q (half_header fd b))
start_packet q fd (b0 ∷ b1 ∷ buffer) =
    let pack_size = read_size b0 b1 in
    let rest = drop pack_size buffer in
    let push_rest = do
      q' ← push_data q fd (take pack_size buffer)
      q'' ← push_more (length rest) q' fd rest
      some (more, q'')
    in if ltb (length buffer) pack_size
      then some (nothing, save_uncomplete q (partial fd pack_size buffer))
      else if length buffer == pack_size
      then some (packet fd buffer, q)
      else push_rest

-- `filter_data_` after the search for an uncomplete packet.
unfoldable pub filter_after : Option Uncomplete × Queue → ℕ → List ℕ → Option (Filtered × Queue)
unfolding fill_uncomplete start_packet
filter_after (some uc, q) fd buffer = fill_uncomplete q fd uc buffer
filter_after (none, q) fd buffer = start_packet q fd buffer

-- `filter_data`
unfoldable pub filter_data : Queue → ℕ → List ℕ → Option (Filtered × Queue)
unfolding find_uncomplete filter_after
filter_data q fd buffer = filter_after (find_uncomplete q fd) fd buffer

-- `struct skynet_socket_message`: `text` is the string behind the message where `padding` is true, as
-- `buffer` is null then, or the data at `buffer`.
pub record SocketMessage : Type 0 where
  pub padding : Bool
  pub type : ℕ
  pub id : ℕ
  pub ud : ℕ
  pub text : List ℕ

-- What `lfilter` pushes behind the queue.
pub data Notice : Type 0 where
  silent : Notice
  filtered : Filtered → Notice
  opened : ℕ → List ℕ → Notice
  closed : ℕ → Notice
  failed : ℕ → List ℕ → Notice
  warned : ℕ → ℕ → Notice

-- `lfilter`: the types are the numbers of skynet-src/skynet_socket.h.
unfoldable pub filter : Queue → SocketMessage → Option (Notice × Queue)
unfolding close_uncomplete filter_data
filter q m =
    let data_in =
      assert (not m.padding) >> filter_data q m.id m.text >>= λ (f, q'). some (filtered f, q') in
    if m.type == 1
    then data_in
    else if m.type == 2
    then some (silent, q)
    else if m.type == 3
    then some (closed m.id, close_uncomplete q m.id)
    else if m.type == 4
    then some (opened m.ud m.text, q)
    else if m.type == 5
    then some (failed m.id m.text, close_uncomplete q m.id)
    else if m.type == 7
    then some (warned m.id m.ud, q)
    else some (silent, q)

-- `lpop`
unfoldable pub pop : Queue → Option (Option NetPack × Queue)
pop q =
    let take_first = do
      cell ← get_elem? q.queue q.head
      pack ← cell
      some (some pack, record q { head = if leb q.cap (q.head + 1) then 0 else q.head + 1 })
    in if q.head == q.tail then some (none, q) else take_first

-- `lpack`: a packet with its size in front, or `none` for the error where it is too long.
unfoldable pub pack : List ℕ → Option (List ℕ)
pack bytes =
    let len = length bytes in
    if leb (2 ^ 16) len
    then none
    else some (bit_and (len / 2 ^ 8) (2 ^ 8 - 1) ∷ bit_and len (2 ^ 8 - 1) ∷ bytes)
