-- ===== src/HandleStorage/Register.antt =====
-- A new service gets a handle that no other service has, and every handle keeps its service.
use Prim.Native.Nat.{bit_or}
use m2_server.Common.{
  ℕ, suc, ◌+◌, ◌%◌, ◌^◌, ◌<◌, ◌≡◌, ◌≢◌, inl, inr, refl, sym, ap, subst, ◌∙◌, none, some,
  Option-cases, some_inj, update, update_self, update_ne, update-inv, ◌>>=◌, bit_or-shift,
  mod_multiple_pow,
}
use m2_server.HandleStorage.{
  Storage, free_handle, take_slot, register_loop, register, context_new, grab,
}
use m2_server.HandleStorage.Slots.{
  InSlot, IsValid, IsLive, mask_slot, grab-IsLive, IsLive-grab, finds_free, all_taken, found_slot,
}
use m2_server.HandleStorage.Grow.{grow_lem}

-- The service is in no slot.
abbrev pub Fresh : ℕ → Storage → Type 0
Fresh ctx s = (i : ℕ) → s.slot i ≢ some ctx

-- What a field of a service that is in no slot holds does not matter.
set-Fresh :
    {handle_of : ℕ → ℕ} {k : ℕ} {s : Storage} (ctx x : ℕ)
    → Fresh ctx s
    → IsValid handle_of k s
    → IsValid (update handle_of ctx x) k s
set-Fresh {handle_of} {k} {s} ctx x f v = record {
  size = v.size;
  bound = v.bound;
  node = v.node;
  harbor = v.harbor;
  services = λ i c e.
      let ne : c ≢ ctx = λ same. f i (e ∙ ap some same) in
      subst (InSlot k i s.harbor) (sym (update_ne handle_of ctx c x ne)) (v.services i c e);
}

set-IsLive :
    {handle_of : ℕ → ℕ} {k : ℕ} {s : Storage} (ctx x handle c : ℕ)
    → Fresh ctx s
    → IsLive handle_of k s handle c
    → IsLive (update handle_of ctx x) k s handle c
set-IsLive {handle_of} {k} ctx x handle c f l = record {
  slot = l.slot;
  owns = update_ne handle_of ctx c x (λ same. f (handle % 2 ^ k) (l.slot ∙ ap some same)) ∙ l.owns;
}

-- The table after a service took a free slot. `z` is the field `handle` before the service has one.
record Taken (z : ℕ → ℕ) (k ctx : ℕ) (s : Storage) (r : ℕ × Storage) : Type 0 where
  valid : IsValid (update z ctx r.0) k r.1
  live : IsLive (update z ctx r.0) k r.1 r.0 ctx
  unused : (c : ℕ) → IsLive z k s r.0 c → ⊥
  keeps : (x c : ℕ) → IsLive z k s x c → IsLive (update z ctx r.0) k r.1 x c

module _ {z : ℕ → ℕ} {k : ℕ} {s : Storage} (ctx handle : ℕ) (v : IsValid z k s)
    (fresh : Fresh ctx s) (low : handle < 2 ^ 24) (is_free : s.slot (handle % 2 ^ k) ≡ none) where
  with_harbor : bit_or s.harbor handle ≡ s.harbor + handle
  with_harbor =
      ap (λ x. bit_or x handle) v.harbor
      ∙ bit_or-shift 24 v.node handle low
      ∙ ap (λ x. x + handle) (sym v.harbor)

  its_slot : bit_or s.harbor handle % 2 ^ k ≡ handle % 2 ^ k
  its_slot =
      ap (λ x. x % 2 ^ k) (with_harbor ∙ ap (λ x. x + handle) v.harbor)
      ∙ mod_multiple_pow k 24 v.node handle v.bound

  slots : (j : ℕ) → (take_slot ctx handle s).1.slot j ≡ update s.slot (handle % 2 ^ k) (some ctx) j
  slots j = ap (λ i. update s.slot i (some ctx) j) (mask_slot k s handle v.size)

  kept_slot : (j c : ℕ) → s.slot j ≡ some c → (take_slot ctx handle s).1.slot j ≡ some c
  kept_slot j c e =
      slots j
      ∙ update_ne s.slot (handle % 2 ^ k) j (some ctx)
          (λ same. absurd (cc (sym e ∙ ap s.slot same ∙ is_free)))
      ∙ e

  take_slot_lem : Taken z k ctx s (take_slot ctx handle s)
  take_slot_lem =
      let new = bit_or s.harbor handle in
      record {
        valid = record {
          size = v.size;
          bound = v.bound;
          node = v.node;
          harbor = v.harbor;
          services = λ i c e. elim (update-inv s.slot (handle % 2 ^ k) _ i (sym (slots i) ∙ e)) [
            | inl (here, taken) ↦
                subst (λ x. InSlot k i s.harbor (update z ctx new x)) (some_inj taken)
                  (record {
                    low = handle;
                    small = low;
                    joined = update_self z ctx new ∙ with_harbor;
                    masked = sym here;
                  })
            | inr (other, e') ↦ (set-Fresh {handle_of = z} ctx new fresh v).services i c e'
          ];
        };
        live = record {
          slot =
              ap (take_slot ctx handle s).1.slot its_slot
              ∙ slots (handle % 2 ^ k)
              ∙ update_self s.slot (handle % 2 ^ k) (some ctx);
          owns = update_self z ctx new;
        };
        unused = λ c l. absurd (cc (sym l.slot ∙ ap s.slot its_slot ∙ is_free));
        keeps = λ x c l. record {
          slot = kept_slot (x % 2 ^ k) c l.slot;
          owns = (set-IsLive {handle_of = z} ctx new x c fresh l).owns;
        };
      }

-- What a registration leaves, whether the slots were doubled or not.
record Registered (z : ℕ → ℕ) (k ctx : ℕ) (s : Storage) (r : ℕ × Storage) : Type 0 where
  k' : ℕ
  valid : IsValid (update z ctx r.0) k' r.1
  live : IsLive (update z ctx r.0) k' r.1 r.0 ctx
  unused : (c : ℕ) → IsLive z k s r.0 c → ⊥
  keeps : (x c : ℕ) → IsLive z k s x c → IsLive (update z ctx r.0) k' r.1 x c

module _ {z : ℕ → ℕ} {k : ℕ} {s : Storage} (ctx : ℕ) (v : IsValid z k s) (fresh : Fresh ctx s) where
  register_free :
      (handle fuel : ℕ)
      → free_handle s.slot_size 0 s ≡ some handle
      → handle < 2 ^ 24
      → s.slot (handle % 2 ^ k) ≡ none
      → (r : ℕ × Storage) × (register_loop (suc fuel) z ctx s ≡ some r) × Taken z k ctx s r
  unfolding register_loop
  register_free handle fuel e lt f =
      (take_slot ctx handle s, rw (e, register_loop) refl, take_slot_lem ctx handle v fresh lt f)

module _ {z : ℕ → ℕ} {k : ℕ} {s : Storage} (ctx : ℕ) (v : IsValid z k s) (fresh : Fresh ctx s)
    (below : k < 24) where
  register_grown :
      free_handle s.slot_size 0 s ≡ none
      → (r : ℕ × Storage) × (register_loop 2 z ctx s ≡ some r) × Registered z k ctx s r
  unfolding register_loop
  register_grown e =
      let (s', grown, g) = grow_lem v below (all_taken k s v.size v.bound e) in
      let fresh' : Fresh ctx s' = λ i f. let (j, f') = g.from_old i ctx f in fresh j f' in
      let (handle, found, lt, f) =
        finds_free (k + 1) s' g.free g.valid.size g.valid.bound g.free_in g.is_free in
      let (r, done, t) = register_free ctx g.valid fresh' handle 0 found lt f in
      (
        r,
        rw (e, register_loop) (ap (λ o. o >>= register_loop 1 z ctx) grown ∙ done),
        record {
          k' = k + 1;
          valid = t.valid;
          live = t.live;
          unused = λ c l. t.unused c (g.keeps r.0 c l);
          keeps = λ x c l. t.keeps x c (g.keeps x c l);
        },
      )

  register_lem : (r : ℕ × Storage) × (register z ctx s ≡ some r) × Registered z k ctx s r
  unfolding register
  register_lem = elim (Option-cases (free_handle s.slot_size 0 s)) [
    | inl e ↦ register_grown e
    | inr (handle, e) ↦
        let (f, lt) = its_slot_is_free handle e in
        let (r, done, t) = register_free ctx v fresh handle 1 e lt f in
        (
          r,
          done,
          record { k' = k; valid = t.valid; live = t.live; unused = t.unused; keeps = t.keeps },
        )
  ]
    where
      its_slot_is_free :
          (handle : ℕ)
          → free_handle s.slot_size 0 s ≡ some handle
          → (s.slot (handle % 2 ^ k) ≡ none) × (handle < 2 ^ 24)
      its_slot_is_free handle e = let (h, f) = found_slot k s v.size v.bound handle e in (f, h)

-- What a new service can rely on.
pub record NewService (handle_of : ℕ → ℕ) (ctx : ℕ) (s : Storage) (r : (ℕ → ℕ) × Storage)
    : Type 0 where
  pub k : ℕ
  pub valid : IsValid r.0 k r.1
  pub registered : grab r.0 (r.0 ctx) r.1 ≡ some ctx
  pub unused : grab handle_of (r.0 ctx) s ≡ none
  pub keeps : (x c : ℕ) → grab handle_of x s ≡ some c → grab r.0 x r.1 ≡ some c

-- Where every service is in the slot of its handle and there are fewer than 2^24 slots, a service that
-- is in no slot gets a handle: the table is valid after it, doubled or not, the handle leads to the service and led
-- to none before, and every handle that led to a service still leads to it.
pub context_new_lem :
    {handle_of : ℕ → ℕ} {k : ℕ} {s : Storage} (ctx : ℕ)
    → IsValid handle_of k s
    → Fresh ctx s
    → k < 24
    → (r : (ℕ → ℕ) × Storage) × (context_new handle_of ctx s ≡ some r)
      × NewService handle_of ctx s r
unfolding context_new
context_new_lem {handle_of} {k} {s} ctx v fresh below =
    let z = update handle_of ctx 0 in
    let ((handle, s'), e, g) =
      register_lem ctx (set-Fresh {handle_of = handle_of} ctx 0 fresh v) fresh below in
    let h' = update z ctx handle in
    let own : h' ctx ≡ handle = update_self z ctx handle in
    let was : (x c : ℕ) → grab handle_of x s ≡ some c → IsLive z k s x c =
      λ x c at. set-IsLive ctx 0 x c fresh (IsLive-grab x c v.size at) in
    (
      (h', s'),
      rw e refl,
      record {
        k = g.k';
        valid = g.valid;
        registered = ap (λ x. grab h' x s') own ∙ grab-IsLive g.valid.size g.live;
        unused = elim (Option-cases (grab handle_of (h' ctx) s)) [
          | inl none_there ↦ none_there
          | inr (c, at) ↦
              absurd (g.unused c (subst (λ x. IsLive z k s x c) own (was (h' ctx) c at)))
        ];
        keeps = λ x c at. grab-IsLive g.valid.size (g.keeps x c (was x c at));
      },
    )
