-- ===== src/HandleStorage.antt =====
-- skynet-src/skynet_handle.c: the table from handles to services. Where skynet_server.c calls it for
-- a new service, the handle is stored in the service.
pub mod Slots
pub mod Grow
pub mod Register
pub mod Retire
pub mod RetireAll
mod Tests
use Prim.Native.Nat.{bit_and, bit_or}
use m2_server.Common.{
  ℕ, zero, suc, ◌+◌, ◌-◌, ◌*◌, ◌%◌, ◌^◌, Bool, true, false, Option, none, some, leb, ltb, ◌==◌,
  if◌then◌else◌, ◌>>=◌, ◌>>◌, assert, update,
}
use m2_server.NameTable.{NameTable, forget_names, no_names}

-- `struct handle_storage`; a service is its address. Every index of `slot` is masked by
-- `slot_size - 1`, or counts up to `slot_size`.
pub record Storage : Type 0 where
  pub harbor : ℕ
  pub handle_index : ℕ
  pub slot_size : ℕ
  pub slot : ℕ → Option ℕ
  pub names : NameTable

-- `HANDLE_MASK`
abbrev pub handle_mask : ℕ
handle_mask = 2 ^ 24 - 1

abbrev pub uint32 : ℕ
uint32 = 2 ^ 32

-- The inner loop of `skynet_handle_register`, with `n` rounds to go: the handle, without the harbor,
-- whose slot is free.
unfoldable pub free_handle : ℕ → ℕ → Storage → Option ℕ
free_handle zero i s = none
free_handle (suc n) i s =
    let handle = bit_and ((i + s.handle_index) % uint32) handle_mask in
    let rest = free_handle n (i + 1) s in
    elim (s.slot (bit_and handle (s.slot_size - 1))) [ none ↦ some handle | some ctx ↦ rest ]

abbrev pub is_empty : Option ℕ → Bool
is_empty none = true
is_empty (some ctx) = false

-- The loop that copies the services to the new slots. `handle_of` is the field `handle` of every
-- service. A slot without a service is a fault, as `skynet_context_handle` reads the service.
unfoldable pub rehash : ℕ → ℕ → (ℕ → ℕ) → Storage → (ℕ → Option ℕ) → Option (ℕ → Option ℕ)
rehash zero i handle_of s new_slot = some new_slot
rehash (suc n) i handle_of s new_slot = do
  ctx ← s.slot i
  let hash = bit_and (handle_of ctx) (s.slot_size * 2 - 1)
  assert (is_empty (new_slot hash))
  rehash n (i + 1) handle_of s (update new_slot hash (some ctx))

-- The rest of the body of `for (;;)`: twice as many slots.
unfoldable pub grow : (ℕ → ℕ) → Storage → Option Storage
grow handle_of s = do
  assert (leb (s.slot_size * 2 - 1) handle_mask)
  new_slot ← rehash s.slot_size 0 handle_of s (λ i. none)
  some (record s { slot = new_slot; slot_size = s.slot_size * 2 })

abbrev pub take_slot : ℕ → ℕ → Storage → ℕ × Storage
take_slot ctx handle s = (
  bit_or s.harbor handle,
  record s {
    slot = update s.slot (bit_and handle (s.slot_size - 1)) (some ctx);
    handle_index = (handle + 1) % uint32;
  },
)

unfoldable pub register_loop : ℕ → (ℕ → ℕ) → ℕ → Storage → Option (ℕ × Storage)
register_loop zero handle_of ctx s = none
register_loop (suc fuel) handle_of ctx s = elim (free_handle s.slot_size 0 s) [
  | some handle ↦ some (take_slot ctx handle s)
  | none ↦ grow handle_of s >>= register_loop fuel handle_of ctx
]

-- `skynet_handle_register`: after the slots were doubled, one of them is free.
unfoldable pub register : (ℕ → ℕ) → ℕ → Storage → Option (ℕ × Storage)
register handle_of ctx s = register_loop 2 handle_of ctx s

-- The lines of `skynet_context_new` that give a service its handle.
unfoldable pub context_new : (ℕ → ℕ) → ℕ → Storage → Option ((ℕ → ℕ) × Storage)
context_new handle_of ctx s = do
  let zeroed = update handle_of ctx 0
  (handle, s') ← register zeroed ctx s
  some (update zeroed ctx handle, s')

-- The service in the slot of a handle, if it has this handle.
unfoldable pub holder : (ℕ → ℕ) → ℕ → Storage → Option ℕ
holder handle_of handle s = s.slot (bit_and handle (s.slot_size - 1)) >>= λ ctx.
    if handle_of ctx == handle then some ctx else none

-- `skynet_handle_grab`: the service, whose count of references the caller raises.
unfoldable pub grab : (ℕ → ℕ) → ℕ → Storage → Option ℕ
grab handle_of handle s = holder handle_of handle s

-- `skynet_handle_retire`: the service to release, if any, which is also whether the result is 1.
unfoldable pub retire : (ℕ → ℕ) → ℕ → Storage → Option (Option ℕ × Storage)
retire handle_of handle s = elim (holder handle_of handle s) [
  | none ↦ some (none, s)
  | some ctx ↦ do
    names ← forget_names handle s.names
    some (
      some ctx,
      record s { slot = update s.slot (bit_and handle (s.slot_size - 1)) none; names = names },
    )
]

-- One round of the inner loop of `skynet_handle_retireall` at the slot `i`, the `t`-th: 1 if it retired a
-- service. The lock is given up behind the look at the slot and behind the retirement, where
-- `skynet_context_release` runs: `others` is what this and other threads do to the table then.
unfoldable pub retire_slot :
    (ℕ → ℕ) → (ℕ → Storage → Storage) → ℕ → ℕ → Storage → Option (ℕ × Storage)
retire_slot handle_of others t i s =
    let handle : ℕ = elim (s.slot i) [ none ↦ 0 | some ctx ↦ handle_of ctx ] in
    let s1 = others (2 * t) s in
    let retired = retire handle_of handle s1 >>= λ (r, s2).
    some (elim r [ none ↦ 0 | some released ↦ 1 ], others (2 * t + 1) s2) in
    if handle == 0 then some (0, s1) else retired

-- The inner loop from the slot `i` on: the number of services retired, and the number of rounds so far.
unfoldable pub retire_slots :
    ℕ → (ℕ → ℕ) → (ℕ → Storage → Storage) → ℕ → ℕ → Storage → Option (ℕ × ℕ × Storage)
unfolding retire_slot
retire_slots zero handle_of others t i s = none
retire_slots (suc fuel) handle_of others t i s =
    let further = retire_slot handle_of others t i s >>= λ (a, s').
    retire_slots fuel handle_of others (t + 1) (i + 1) s' >>= λ (b, t', s'').
    some (a + b, t', s'') in
    if ltb i s.slot_size then further else some (0, t, s)

-- `skynet_handle_retireall`. The fuel of the inner loop is enough while the array does not grow.
unfoldable pub retireall : ℕ → (ℕ → ℕ) → (ℕ → Storage → Storage) → ℕ → Storage → Option Storage
unfolding retire_slots
retireall zero handle_of others t s = none
retireall (suc fuel) handle_of others t s =
    retire_slots (suc s.slot_size) handle_of others t 0 s >>= λ (n, t', s').
    let again = retireall fuel handle_of others t' s' in if n == 0 then some s' else again

-- `skynet_handle_init`
unfoldable pub init : ℕ → Storage
init harbor = record {
  harbor = bit_and harbor 255 * 2 ^ 24;
  handle_index = 1;
  slot_size = 4;
  slot = λ i. none;
  names = no_names;
}
