-- ===== src/HandleStorage/Slots.antt =====
-- The slots of the handle storage: which handles are live, and that the search for a free slot tries
-- every slot.
use Prim.Native.Nat.{bit_and}
use m2_server.Common.{
  ℕ, zero, suc, ◌+◌, ◌-◌, ◌*◌, ◌%◌, ◌^◌, ◌<◌, ◌≤◌, ◌≡◌, inl, inr, refl, sym, ap, subst, ◌∙◌, arith,
  Option, none, some, Option-cases, some_inj, bit_and-mask, mod-pow, comes_up, ◌==◌, Bool-cases,
  eq_of_==, ne_of_==, eq→==, ◌>>=◌, if◌then◌else◌,
}
use m2_server.HandleStorage.{Storage, handle_mask, uint32, free_handle, holder, grab, init}

-- The handle of a service in slot `i`: the harbor, and a number that the mask sends to `i`.
pub record InSlot (k i harbor handle : ℕ) : Type 0 where
  pub low : ℕ
  pub small : low < 2 ^ 24
  pub joined : handle ≡ harbor + low
  pub masked : low % 2 ^ k ≡ i

-- There are `2 ^ k` slots, and every service is in the slot of its handle.
pub record IsValid (handle_of : ℕ → ℕ) (k : ℕ) (s : Storage) : Type 0 where
  pub size : s.slot_size ≡ 2 ^ k
  pub bound : k ≤ 24
  pub node : ℕ
  pub harbor : s.harbor ≡ node * 2 ^ 24
  pub services : (i ctx : ℕ) → s.slot i ≡ some ctx → InSlot k i s.harbor (handle_of ctx)

-- The service `ctx` is registered under `handle`.
pub record IsLive (handle_of : ℕ → ℕ) (k : ℕ) (s : Storage) (handle ctx : ℕ) : Type 0 where
  pub slot : s.slot (handle % 2 ^ k) ≡ some ctx
  pub owns : handle_of ctx ≡ handle

pub mask_slot :
    (k : ℕ) (s : Storage) (x : ℕ) → s.slot_size ≡ 2 ^ k → bit_and x (s.slot_size - 1) ≡ x % 2 ^ k
mask_slot k s x e = ap (λ n. bit_and x (n - 1)) e ∙ bit_and-mask k x

pub grab-IsLive :
    {handle_of : ℕ → ℕ} {k : ℕ} {s : Storage} {handle ctx : ℕ}
    → s.slot_size ≡ 2 ^ k
    → IsLive handle_of k s handle ctx
    → grab handle_of handle s ≡ some ctx
unfolding grab holder
grab-IsLive {handle_of} {k} {s} {handle} {ctx} size l =
    rw (mask_slot k s handle size)
      (rw l.slot (rw (eq→== (handle_of ctx) handle l.owns, ◌>>=◌) refl))

pub IsLive-grab :
    {handle_of : ℕ → ℕ} {k : ℕ} {s : Storage} (handle ctx : ℕ)
    → s.slot_size ≡ 2 ^ k
    → grab handle_of handle s ≡ some ctx
    → IsLive handle_of k s handle ctx
unfolding grab holder
IsLive-grab {handle_of} {k} {s} handle ctx size g =
    let slot_eq : s.slot (bit_and handle (s.slot_size - 1)) ≡ s.slot (handle % 2 ^ k) =
      ap s.slot (mask_slot k s handle size) in
    elim (Option-cases (s.slot (handle % 2 ^ k))) [
      | inl e ↦ absurd (cc (rw (slot_eq ∙ e) at g))
      | inr (c, e) ↦ check c e (rw (slot_eq ∙ e) at g)
    ]
  where
    check :
        (c : ℕ)
        → s.slot (handle % 2 ^ k) ≡ some c
        → (if handle_of c == handle then some c else none) ≡ some ctx
        → IsLive handle_of k s handle ctx
    check c e g = elim (Bool-cases (handle_of c == handle)) [
      | inl owner ↦
          let same : c ≡ ctx = some_inj (rw owner at g) in
          record {
            slot = e ∙ ap some same;
            owns = ap handle_of (sym same) ∙ eq_of_== (handle_of c) handle owner;
          }
      | inr other ↦ absurd (cc (rw other at g))
    ]

-- A free slot was found for a handle, or all slots from the `i`-th try on are taken.
pub data Searched (k i : ℕ) (s : Storage) : Option ℕ → Type 0 where
  free :
      (handle : ℕ) → handle < 2 ^ 24 → s.slot (handle % 2 ^ k) ≡ none → Searched k i s (some handle)
  taken :
      ((j : ℕ) → i ≤ j → j < 2 ^ k → (ctx : ℕ) × (s.slot ((j + s.handle_index) % 2 ^ k) ≡ some ctx))
      → Searched k i s none

tried : (k x : ℕ) → k ≤ 24 → x % 2 ^ 32 % 2 ^ 24 % 2 ^ k ≡ x % 2 ^ k
tried k x h = ap (λ t. t % 2 ^ k) (mod-pow 24 32 x (omega arith)) ∙ mod-pow k 24 x h

more :
    {k : ℕ} {s : Storage} {o : Option ℕ} (i ctx : ℕ)
    → s.slot ((i + s.handle_index) % 2 ^ k) ≡ some ctx
    → Searched k (i + 1) s o
    → Searched k i s o
more i ctx e (free handle lt f) = free handle lt f
more {k} {s} i ctx e (taken f) = taken (λ j le lt. elim (Bool-cases (j == i)) [
  | inl first ↦ (ctx, ap (λ t. s.slot ((t + s.handle_index) % 2 ^ k)) (eq_of_== j i first) ∙ e)
  | inr later ↦ f j (omega (arith, ne_of_== j i later)) lt
])

-- The handle of the `i`-th try, and one round of the search.
abbrev candidate : ℕ → Storage → ℕ
candidate i s = (i + s.handle_index) % 2 ^ 32 % 2 ^ 24

module _ (k : ℕ) (s : Storage) (n i : ℕ) (size : s.slot_size ≡ 2 ^ k) where
  is_candidate : bit_and ((i + s.handle_index) % uint32) handle_mask ≡ candidate i s
  is_candidate = bit_and-mask 24 ((i + s.handle_index) % 2 ^ 32)

  its_slot : s.slot (bit_and (candidate i s) (s.slot_size - 1)) ≡ s.slot (candidate i s % 2 ^ k)
  its_slot = ap s.slot (mask_slot k s (candidate i s) size)

  first_try : s.slot (candidate i s % 2 ^ k) ≡ none → free_handle (suc n) i s ≡ some (candidate i s)
  unfolding free_handle
  first_try e = rw (is_candidate, free_handle) (rw (its_slot ∙ e) (ap some is_candidate))

  next_try :
      (ctx : ℕ)
      → s.slot (candidate i s % 2 ^ k) ≡ some ctx
      → free_handle (suc n) i s ≡ free_handle n (i + 1) s
  unfolding free_handle
  next_try ctx e = rw (is_candidate, free_handle) (rw (its_slot ∙ e) refl)

pub free_handle_lem :
    {k : ℕ} {s : Storage} (n i : ℕ)
    → s.slot_size ≡ 2 ^ k
    → k ≤ 24
    → i + n ≡ 2 ^ k
    → Searched k i s (free_handle n i s)
unfolding free_handle
free_handle_lem zero i size small h = taken (λ j le lt. absurd (omega arith))
free_handle_lem {k} {s} (suc n) i size small h =
    elim (Option-cases (s.slot (candidate i s % 2 ^ k))) [
      | inl e ↦
          subst (Searched k i s) (sym (first_try k s n i size e))
            (free (candidate i s) (omega arith) e)
      | inr (ctx, e) ↦ subst (Searched k i s) (sym (next_try k s n i size ctx e)) (
          more i ctx (ap s.slot (sym (tried k (i + s.handle_index) small)) ∙ e)
            (free_handle_lem n (i + 1) size small (omega arith)))
    ]

-- Where a slot is free, the search finds a handle for a free slot.
pub finds_free :
    (k : ℕ) (s : Storage) (t : ℕ)
    → s.slot_size ≡ 2 ^ k
    → k ≤ 24
    → t < 2 ^ k
    → s.slot t ≡ none
    → (handle : ℕ) × (free_handle s.slot_size 0 s ≡ some handle)
      × (handle < 2 ^ 24)
      × (s.slot (handle % 2 ^ k) ≡ none)
finds_free k s t size small lt e =
    outcome (free_handle s.slot_size 0 s) refl
      (free_handle_lem s.slot_size 0 size small (omega (arith, size)))
  where
    outcome :
        (o : Option ℕ)
        → free_handle s.slot_size 0 s ≡ o
        → Searched k 0 s o
        → (handle : ℕ) × (free_handle s.slot_size 0 s ≡ some handle)
          × (handle < 2 ^ 24)
          × (s.slot (handle % 2 ^ k) ≡ none)
    outcome o eq (free handle h f) = (handle, eq, h, f)
    outcome o eq (taken f) =
        let (j, j_lt, at_t) = comes_up (2 ^ k) s.handle_index t lt in
        let (ctx, full) = f j (omega arith) j_lt in
        absurd (cc (sym e ∙ sym (ap s.slot at_t) ∙ full))

-- Where the search finds none, every slot has a service.
pub all_taken :
    (k : ℕ) (s : Storage)
    → s.slot_size ≡ 2 ^ k
    → k ≤ 24
    → free_handle s.slot_size 0 s ≡ none
    → (t : ℕ) → t < 2 ^ k
    → (ctx : ℕ) × (s.slot t ≡ some ctx)
all_taken k s size small e t lt = elim (Option-cases (s.slot t)) [
  | inr full ↦ full
  | inl f ↦
      let (handle, found, _, _) = finds_free k s t size small lt f in absurd (cc (sym found ∙ e))
]

-- A handle that the search finds has a free slot.
pub found_slot :
    (k : ℕ) (s : Storage)
    → s.slot_size ≡ 2 ^ k
    → k ≤ 24
    → (handle : ℕ) → free_handle s.slot_size 0 s ≡ some handle
    → (handle < 2 ^ 24) × (s.slot (handle % 2 ^ k) ≡ none)
found_slot k s size small handle e =
    outcome (free_handle s.slot_size 0 s)
      (free_handle_lem s.slot_size 0 size small (omega (arith, size))) e
  where
    outcome :
        (o : Option ℕ)
        → Searched k 0 s o
        → o ≡ some handle
        → (handle < 2 ^ 24) × (s.slot (handle % 2 ^ k) ≡ none)
    outcome o (free h lt f) eq =
        subst (λ x. (x < 2 ^ 24) × (s.slot (x % 2 ^ k) ≡ none)) (some_inj eq) (lt, f)
    outcome o (taken f) eq = absurd (cc eq)

pub init-IsValid : (handle_of : ℕ → ℕ) (harbor : ℕ) → IsValid handle_of 2 (init harbor)
unfolding init
init-IsValid handle_of harbor = record {
  size = refl;
  bound = omega arith;
  node = bit_and harbor 255;
  harbor = refl;
  services = λ i ctx e. absurd (cc e);
}
