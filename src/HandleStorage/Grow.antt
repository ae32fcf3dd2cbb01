-- ===== src/HandleStorage/Grow.antt =====
-- The slots are doubled: every service stays in the slot of its handle, and one slot is free.
use Prim.Native.Nat.{bit_and}
use m2_server.Common.{
  ℕ, zero, suc, ◌+◌, ◌-◌, ◌*◌, ◌%◌, ◌^◌, ◌<◌, ◌≤◌, ◌≡◌, ◌≢◌, inl, inr, refl, sym, ap, subst, ◌∙◌,
  arith, Option, none, some, Option-cases, some_inj, pow_pos, bit_and-mask, mod_multiple_pow,
  update, update_self, update_ne, update-inv, ◌==◌, Bool-cases, eq_of_==, ne_of_==, le→leb, ◌>>=◌,
  pow_split, pow-le, mod-pow,
}
use native.Mathlib.Nat.{mod_self, zero-mod, mod-lt}
use m2_server.HandleStorage.{Storage, handle_mask, rehash, grow}
use m2_server.HandleStorage.Slots.{InSlot, IsValid, IsLive}

-- The slot of a handle depends on its low bits only.
pub low_slot :
    {k i harbor handle : ℕ} (j node : ℕ)
    → j ≤ 24
    → harbor ≡ node * 2 ^ 24
    → (p : InSlot k i harbor handle) → handle % 2 ^ j ≡ p.low % 2 ^ j
low_slot j node h e p =
    ap (λ x. x % 2 ^ j) (p.joined ∙ ap (λ x. x + p.low) e) ∙ mod_multiple_pow j 24 node p.low h

pub handle_slot :
    {handle_of : ℕ → ℕ} {k : ℕ} {s : Storage} (i ctx : ℕ)
    → IsValid handle_of k s
    → s.slot i ≡ some ctx
    → handle_of ctx % 2 ^ k ≡ i
handle_slot {k = k} i ctx v e =
    let p = v.services i ctx e in low_slot k v.node v.bound v.harbor p ∙ p.masked

-- The new slots hold the services of the first `i` old ones.
record Rehashed (handle_of : ℕ → ℕ) (k i : ℕ) (s : Storage) (new_slot : ℕ → Option ℕ) : Type 0 where
  back :
      (h ctx : ℕ)
      → new_slot h ≡ some ctx
      → (j : ℕ) × (j < i) × (s.slot j ≡ some ctx) × (handle_of ctx % 2 ^ (k + 1) ≡ h)
  forth :
      (j ctx : ℕ) → j < i → s.slot j ≡ some ctx → new_slot (handle_of ctx % 2 ^ (k + 1)) ≡ some ctx

module _ {handle_of : ℕ → ℕ} {k : ℕ} {s : Storage} (v : IsValid handle_of k s)
    (below : k < 24) where
  double : s.slot_size * 2 ≡ 2 ^ (k + 1)
  double = ap (λ n. n * 2) v.size ∙ sym (pow_split k 1)

  old_slot : (x : ℕ) → x % 2 ^ (k + 1) % 2 ^ k ≡ x % 2 ^ k
  old_slot x = mod-pow k (k + 1) x (omega arith)

  rehash_step :
      (i ctx : ℕ) (new_slot : ℕ → Option ℕ)
      → s.slot i ≡ some ctx
      → Rehashed handle_of k i s new_slot
      → (new_slot (handle_of ctx % 2 ^ (k + 1)) ≡ none)
        × Rehashed handle_of k (i + 1) s (update new_slot (handle_of ctx % 2 ^ (k + 1)) (some ctx))
  rehash_step i ctx new_slot e r = (is_free, record { back = back; forth = forth })
    where
      is_free : new_slot (handle_of ctx % 2 ^ (k + 1)) ≡ none
      is_free = elim (Option-cases (new_slot (handle_of ctx % 2 ^ (k + 1)))) [
        | inl f ↦ f
        | inr (c, f) ↦
            let (j, j_lt, at_j, same) = r.back (handle_of ctx % 2 ^ (k + 1)) c f in
            let j_eq = handle_slot j c v at_j in
            let i_eq = handle_slot i ctx v e in
            absurd (
              omega (
                arith,
                j_eq,
                i_eq,
                old_slot (handle_of c),
                old_slot (handle_of ctx),
                ap (λ x. x % 2 ^ k) same,
              ))
      ]

      back :
          (h c : ℕ)
          → update new_slot (handle_of ctx % 2 ^ (k + 1)) (some ctx) h ≡ some c
          → (j : ℕ) × (j < i + 1) × (s.slot j ≡ some c) × (handle_of c % 2 ^ (k + 1) ≡ h)
      back h c f = elim (update-inv new_slot (handle_of ctx % 2 ^ (k + 1)) _ h f) [
        | inl (h_eq, c_eq) ↦
            let eq = some_inj c_eq in
            (
              i,
              omega arith,
              e ∙ ap some eq,
              sym (ap (λ x. handle_of x % 2 ^ (k + 1)) eq) ∙ sym h_eq,
            )
        | inr (other, f') ↦
            let (j, j_lt, at_j, same) = r.back h c f' in (j, omega arith, at_j, same)
      ]

      forth :
          (j c : ℕ)
          → j < i + 1
          → s.slot j ≡ some c
          → update new_slot (handle_of ctx % 2 ^ (k + 1)) (some ctx) (handle_of c % 2 ^ (k + 1))
            ≡ some c
      forth j c lt f = elim (Bool-cases (j == i)) [
        | inl last ↦
            let eq : c ≡ ctx = some_inj (sym f ∙ ap s.slot (eq_of_== j i last) ∙ e) in
            ap
              (λ x.
                update new_slot (handle_of ctx % 2 ^ (k + 1)) (some ctx)
                  (handle_of x % 2 ^ (k + 1)))
              eq
            ∙ update_self new_slot (handle_of ctx % 2 ^ (k + 1)) (some ctx)
            ∙ ap some (sym eq)
        | inr earlier ↦
            let j_lt : j < i = omega (arith, ne_of_== j i earlier) in
            let stays = r.forth j c j_lt f in
            let apart : handle_of c % 2 ^ (k + 1) ≢ (handle_of ctx % 2 ^ (k + 1)) =
              λ same. absurd (cc (sym stays ∙ ap new_slot same ∙ is_free)) in
            update_ne new_slot (handle_of ctx % 2 ^ (k + 1)) (handle_of c % 2 ^ (k + 1)) (some ctx)
              apart
            ∙ stays
      ]

  rehash_lem :
      (n i : ℕ) (new_slot : ℕ → Option ℕ)
      → i + n ≡ 2 ^ k
      → ((t : ℕ) → t < 2 ^ k → (ctx : ℕ) × (s.slot t ≡ some ctx))
      → Rehashed handle_of k i s new_slot
      → (new_slot' : ℕ → Option ℕ) × (rehash n i handle_of s new_slot ≡ some new_slot')
        × Rehashed handle_of k (2 ^ k) s new_slot'
  unfolding rehash
  rehash_lem zero i new_slot h full r =
      (new_slot, refl, subst (λ x. Rehashed handle_of k x s new_slot) (omega (arith, h)) r)
  rehash_lem (suc n) i new_slot h full r =
      let (ctx, e) = full i (omega arith) in
      let (is_free, r') = rehash_step i ctx new_slot e r in
      let (new_slot', f, r'') = rehash_lem n (i + 1) _ (omega arith) full r' in
      let masked : bit_and (handle_of ctx) (s.slot_size * 2 - 1) ≡ handle_of ctx % 2 ^ (k + 1) =
        ap (λ x. bit_and (handle_of ctx) (x - 1)) double ∙ bit_and-mask (k + 1) (handle_of ctx) in
      (new_slot', rw (e, ◌>>=◌) (rw masked (rw is_free f)), r'')

  -- What `grow` leaves.
  pub record Grown (s' : Storage) : Type 0 where
    pub valid : IsValid handle_of (k + 1) s'
    pub same_harbor : s'.harbor ≡ s.harbor
    pub free : ℕ
    pub free_in : free < 2 ^ (k + 1)
    pub is_free : s'.slot free ≡ none
    pub keeps :
        (handle ctx : ℕ) → IsLive handle_of k s handle ctx → IsLive handle_of (k + 1) s' handle ctx
    pub from_old : (i ctx : ℕ) → s'.slot i ≡ some ctx → (j : ℕ) × (s.slot j ≡ some ctx)

  power_pos : 0 < 2 ^ k
  power_pos = pow_pos k

  -- Both halves of a slot come from that slot, so one of the first slots of the halves is free.
  free_half :
      (new_slot : ℕ → Option ℕ)
      → Rehashed handle_of k (2 ^ k) s new_slot
      → (t : ℕ) × (t < 2 ^ (k + 1)) × (new_slot t ≡ none)
  free_half new_slot r = elim (Option-cases (new_slot 0)) [
    | inl f ↦ (0, pow_pos (k + 1), f)
    | inr (c, f) ↦ elim (Option-cases (new_slot (2 ^ k))) [
      | inl g ↦ (2 ^ k, omega (arith, pow_split k 1, power_pos), g)
      | inr (d, g) ↦
          let (i, i_lt, at_i, c_hash) = r.back 0 c f in
          let (j, j_lt, at_j, d_hash) = r.back (2 ^ k) d g in
          let i_eq : i ≡ 0 =
            sym (handle_slot i c v at_i)
            ∙ sym (old_slot (handle_of c))
            ∙ ap (λ x. x % 2 ^ k) c_hash
            ∙ zero-mod (2 ^ k) in
          let j_eq : j ≡ 0 =
            sym (handle_slot j d v at_j)
            ∙ sym (old_slot (handle_of d))
            ∙ ap (λ x. x % 2 ^ k) d_hash
            ∙ mod_self (2 ^ k) in
          let same : c ≡ d = some_inj (sym at_i ∙ ap s.slot (i_eq ∙ sym j_eq) ∙ at_j) in
          let clash : 0 ≡ 2 ^ k = sym c_hash ∙ ap (λ x. handle_of x % 2 ^ (k + 1)) same ∙ d_hash in
          absurd (omega (arith, power_pos, clash))
    ]
  ]

  pub grow_lem :
      ((t : ℕ) → t < 2 ^ k → (ctx : ℕ) × (s.slot t ≡ some ctx))
      → (s' : Storage) × (grow handle_of s ≡ some s') × Grown s'
  unfolding grow
  grow_lem full =
      let nothing : Rehashed handle_of k 0 s (λ i. none) = record {
        back = λ h ctx e. absurd (cc e);
        forth = λ j ctx lt. absurd (omega arith);
      } in
      let (new_slot, e, r) = rehash_lem (2 ^ k) 0 (λ i. none) (omega arith) full nothing in
      let (t, t_lt, t_free) = free_half new_slot r in
      (
        record s { slot = new_slot; slot_size = s.slot_size * 2 },
        rw
            (le→leb (s.slot_size * 2 - 1) handle_mask
              (omega (arith, double, pow-le (k + 1) 24 (omega arith))))
            (ap (λ n. rehash n 0 handle_of s (λ i. none) >>= finish) v.size
              ∙ ap (λ o. o >>= finish) e),
        record {
          valid = record {
            size = double;
            bound = omega arith;
            node = v.node;
            harbor = v.harbor;
            services = λ h ctx f.
                let (j, j_lt, at_j, hashed) = r.back h ctx f in
                let p = v.services j ctx at_j in
                record {
                  low = p.low;
                  small = p.small;
                  joined = p.joined;
                  masked = sym (low_slot (k + 1) v.node (omega arith) v.harbor p) ∙ hashed;
                };
          };
          same_harbor = refl;
          free = t;
          free_in = t_lt;
          is_free = t_free;
          keeps = λ handle ctx l. record {
            slot =
                ap (λ x. new_slot (x % 2 ^ (k + 1))) (sym l.owns)
                ∙ r.forth (handle % 2 ^ k) ctx (mod-lt handle power_pos) l.slot;
            owns = l.owns;
          };
          from_old = λ i ctx f. let (j, _, at_j, _) = r.back i ctx f in (j, at_j);
        },
      )
    where
      finish : (ℕ → Option ℕ) → Option Storage
      finish new_slot = some (record s { slot = new_slot; slot_size = s.slot_size * 2 })
