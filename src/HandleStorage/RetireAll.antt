-- ===== src/HandleStorage/RetireAll.antt =====
-- skynet-src/skynet_handle.c: what the two passes of skynet_handle_retireall leave in the table.
use m2_server.Common.{
  ℕ, zero, suc, ◌+◌, ◌*◌, lt→ltb, le→ltb, ◌%◌, ◌^◌, ◌<◌, ◌≡◌, ◌≢◌, inl, inr, ◌⊎◌, refl, sym, ap,
  subst, ◌∙◌, arith, Option, none, some, Option-cases, some_inj, List, ◌>>=◌, ◌==◌, ne→==,
  Bool-cases, eq_of_==, ne_of_==, pow_pos,
}
use native.Mathlib.Nat.{mod-lt}
use m2_server.NameTable.{HandleName}
use m2_server.NameTable.Refine.{Represents}
use m2_server.HandleStorage.{Storage, grab, retire_slot, retire_slots, retireall}
use m2_server.HandleStorage.Slots.{IsValid, grab-IsLive}
use m2_server.HandleStorage.Grow.{handle_slot}
use m2_server.HandleStorage.Retire.{at_slot, grab_at, Retired, retire_lem, Retired-Represents}

-- The table is valid, and no handle but 0 that belongs to one of the first `i` slots leads to a
-- service.
record Emptied (handle_of : ℕ → ℕ) (k i : ℕ) (s : Storage) : Type 0 where
  valid : IsValid handle_of k s
  entries : List HandleName
  named : Represents s.names entries
  empty : (h : ℕ) → h ≢ 0 → h % 2 ^ k < i → grab handle_of h s ≡ none

-- The table `s'` is valid, and a handle that led nowhere in `s` does so in it.
pub record IsFewer (handle_of : ℕ → ℕ) (k : ℕ) (s s' : Storage) : Type 0 where
  pub valid : IsValid handle_of k s'
  pub entries : List HandleName
  pub named : Represents s'.names entries
  pub nowhere : (h : ℕ) → grab handle_of h s ≡ none → grab handle_of h s' ≡ none

-- What runs between the calls keeps the table valid and its size, and registers no service: a handle that led
-- nowhere does so still.
pub record RegistersNothing (handle_of : ℕ → ℕ) (k : ℕ) (others : ℕ → Storage → Storage)
    : Type 0 where
  pub keeps :
      (t : ℕ) (s : Storage) (es : List HandleName)
      → IsValid handle_of k s
      → Represents s.names es
      → IsFewer handle_of k s (others t s)

-- The table is valid, and only the handle 0 may still lead to a service.
pub record IsRetired (handle_of : ℕ → ℕ) (k : ℕ) (s : Storage) : Type 0 where
  pub valid : IsValid handle_of k s
  pub entries : List HandleName
  pub named : Represents s.names entries
  pub empty : (h : ℕ) → h ≢ 0 → grab handle_of h s ≡ none

module _ (handle_of : ℕ → ℕ) (k : ℕ) where
  -- Another handle than that of the service in its slot leads nowhere.
  misses :
      (s : Storage) (h : ℕ) (o : Option ℕ)
      → IsValid handle_of k s
      → s.slot (h % 2 ^ k) ≡ o
      → ((ctx : ℕ) → o ≡ some ctx → handle_of ctx ≢ h)
      → grab handle_of h s ≡ none
  misses s h none v e ne = grab_at handle_of k s h v.size ∙ ap (at_slot handle_of h) e
  misses s h (some ctx) v e ne =
      grab_at handle_of k s h v.size
      ∙ ap (at_slot handle_of h) e
      ∙ rw (ne→== (handle_of ctx) h (ne ctx refl), ◌>>=◌) refl

  live_grab :
      (s : Storage) (i ctx : ℕ)
      → IsValid handle_of k s
      → s.slot i ≡ some ctx
      → grab handle_of (handle_of ctx) s ≡ some ctx
  live_grab s i ctx v e = grab-IsLive {handle_of = handle_of} {k = k} v.size (record {
    slot = ap s.slot (handle_slot {handle_of = handle_of} {k = k} i ctx v e) ∙ e;
    owns = refl;
  })

  next : (h i : ℕ) → h % 2 ^ k < i + 1 → (h % 2 ^ k < i) ⊎ (h % 2 ^ k ≡ i)
  next h i lt = elim (Bool-cases (h % 2 ^ k == i)) [
    | inl e ↦ inr (eq_of_== (h % 2 ^ k) i e)
    | inr e ↦ let ne = ne_of_== (h % 2 ^ k) i e in inl (omega (arith, lt, ne))
  ]

  -- A slot whose service, if any, has the handle 0 is left as it is.
  skipped :
      {s : Storage} {i : ℕ}
      → Emptied handle_of k i s
      → ((ctx : ℕ) → s.slot i ≡ some ctx → handle_of ctx ≡ 0)
      → Emptied handle_of k (i + 1) s
  skipped {s} {i} p only = record {
    valid = p.valid;
    entries = p.entries;
    named = p.named;
    empty = λ h ne lt. elim (next h i lt) [
      | inl before ↦ p.empty h ne before
      | inr here ↦
          misses s h (s.slot i) p.valid (ap s.slot here) (λ ctx e same. ne (sym same ∙ only ctx e))
    ];
  }

  -- The handle is retired, and the others of its slot lead nowhere.
  emptied :
      {s : Storage} {i : ℕ} {r : Option ℕ × Storage} (handle : ℕ) (p : Emptied handle_of k i s)
      → ((h : ℕ) → h ≢ handle → h % 2 ^ k ≡ i → grab handle_of h s ≡ none)
      → Retired handle_of k handle s p.entries r
      → Emptied handle_of k (i + 1) r.1
  emptied {s} {i} {r} handle p alone gone =
      let (es, named) =
        Retired-Represents {handle_of = handle_of} {k = k} s p.entries handle r p.named gone in
      record {
        valid = gone.valid;
        entries = es;
        named = named;
        empty = λ h ne lt. elim (Bool-cases (h == handle)) [
          | inl same ↦ ap (λ x. grab handle_of x r.1) (eq_of_== h handle same) ∙ gone.gone
          | inr other ↦
              let apart = ne_of_== h handle other in
              gone.others h apart ∙ elim (next h i lt) [
                | inl before ↦ p.empty h ne before
                | inr here ↦ alone h apart here
              ]
        ];
      }

module _ (handle_of : ℕ → ℕ) (k : ℕ) (others : ℕ → Storage → Storage)
    (quiet : RegistersNothing handle_of k others) where
  Emptied-others :
      {s : Storage} {i : ℕ} (t : ℕ) → Emptied handle_of k i s → Emptied handle_of k i (others t s)
  Emptied-others {s} t p =
      let kept = quiet.keeps t s p.entries p.valid p.named in
      record {
        valid = kept.valid;
        entries = kept.entries;
        named = kept.named;
        empty = λ h ne lt. kept.nowhere h (p.empty h ne lt);
      }

  IsRetired-others :
      {s : Storage} (t : ℕ) → IsRetired handle_of k s → IsRetired handle_of k (others t s)
  IsRetired-others {s} t p =
      let kept = quiet.keeps t s p.entries p.valid p.named in
      record {
        valid = kept.valid;
        entries = kept.entries;
        named = kept.named;
        empty = λ h ne. kept.nowhere h (p.empty h ne);
      }

  -- One round returns, and empties its slot for all handles but 0.
  retire_slot_lem :
      (t i : ℕ) {s : Storage}
      → Emptied handle_of k i s
      → (r : ℕ × Storage) × (retire_slot handle_of others t i s ≡ some r)
        × Emptied handle_of k (i + 1) r.1
  unfolding retire_slot
  retire_slot_lem t i {s} p = elim (Option-cases (s.slot i)) [
    | inl free ↦ (
      (0, others (2 * t) s),
      rw (free, retire_slot) refl,
      Emptied-others (2 * t) (skipped handle_of k p (λ ctx e. absurd (cc (sym free ∙ e)))),
    )
    | inr (ctx, e) ↦ elim (Bool-cases (handle_of ctx == 0)) [
      | inl root ↦ (
        (0, others (2 * t) s),
        rw (e, retire_slot) (rw root refl),
        Emptied-others (2 * t) (
            skipped handle_of k p
              (λ c e'. ap handle_of (some_inj (sym e' ∙ e)) ∙ eq_of_== (handle_of ctx) 0 root)),
      )
      | inr other ↦
          let handle = handle_of ctx in
          let p' = Emptied-others (2 * t) p in
          let (r, f, gone) = retire_lem handle p'.valid p'.named in
          let alone : (h : ℕ)
              → h ≢ handle
              → h % 2 ^ k ≡ i
              → grab handle_of h (others (2 * t) s) ≡ none =
            λ h apart here. (quiet.keeps (2 * t) s p.entries p.valid p.named).nowhere h (
              misses handle_of k s h (some ctx) p.valid (ap s.slot here ∙ e)
                (λ c e' same. apart (sym same ∙ ap handle_of (sym (some_inj e'))))) in
          (
            (elim r.0 [ none ↦ 0 | some released ↦ 1 ], others (2 * t + 1) r.1),
            rw (e, retire_slot) (rw other (rw (f, ◌>>=◌) refl)),
            Emptied-others (2 * t + 1) (emptied handle_of k handle p' alone gone),
          )
    ]
  ]

  -- The inner loop reaches the end of the slots.
  retire_slots_lem :
      (n t i : ℕ) {s : Storage}
      → Emptied handle_of k i s
      → i + n ≡ 2 ^ k
      → (r : ℕ × ℕ × Storage) × (retire_slots (suc n) handle_of others t i s ≡ some r)
        × Emptied handle_of k (2 ^ k) r.2
  unfolding retire_slots
  retire_slots_lem zero t i {s} p e = (
    (0, t, s),
    rw (le→ltb i s.slot_size (omega (arith, e, p.valid.size))) refl,
    subst (λ j. Emptied handle_of k j s) (omega (arith, e)) p,
  )
  retire_slots_lem (suc n) t i {s} p e =
      let (r, f, q) = retire_slot_lem t i p in
      let (r', f', q') = retire_slots_lem n (t + 1) (i + 1) q (omega (arith, e)) in
      (
        (r.0 + r'.0, r'.1, r'.2),
        rw (lt→ltb i s.slot_size (omega (arith, e, p.valid.size)))
            (rw (f, ◌>>=◌) (rw (f', ◌>>=◌) refl)),
        q',
      )

  -- A round retires nothing where no handle but 0 leads to a service.
  quiet_slot :
      (t i : ℕ) {s : Storage}
      → IsRetired handle_of k s
      → retire_slot handle_of others t i s ≡ some (0, others (2 * t) s)
  unfolding retire_slot
  quiet_slot t i {s} q = elim (Option-cases (s.slot i)) [
    | inl free ↦ rw (free, retire_slot) refl
    | inr (ctx, e) ↦ elim (Bool-cases (handle_of ctx == 0)) [
      | inl root ↦ rw (e, retire_slot) (rw root refl)
      | inr other ↦ absurd (
          cc (
            sym (q.empty (handle_of ctx) (ne_of_== (handle_of ctx) 0 other))
            ∙ live_grab handle_of k s i ctx q.valid e))
    ]
  ]

  quiet_slots :
      (n t i : ℕ) {s : Storage}
      → IsRetired handle_of k s
      → i + n ≡ 2 ^ k
      → (t' : ℕ) × (s' : Storage) × (retire_slots (suc n) handle_of others t i s ≡ some (0, t', s'))
        × IsRetired handle_of k s'
  unfolding retire_slots
  quiet_slots zero t i {s} q e =
      (t, s, rw (le→ltb i s.slot_size (omega (arith, e, q.valid.size))) refl, q)
  quiet_slots (suc n) t i {s} q e =
      let (t', s', f, q') =
        quiet_slots n (t + 1) (i + 1) (IsRetired-others (2 * t) q) (omega (arith, e)) in
      (
        t',
        s',
        rw (lt→ltb i s.slot_size (omega (arith, e, q.valid.size)))
            (rw (quiet_slot t i q, ◌>>=◌) (rw (f, ◌>>=◌) refl)),
        q',
      )

-- Where the table is valid and the names represent a sorted list, and where what runs while the lock is given
-- up keeps this and the size of the table and registers no service, `skynet_handle_retireall` returns after at
-- most two passes; the table is valid then, and no handle but 0 leads to a service.
pub retireall_lem :
    {handle_of : ℕ → ℕ} {k : ℕ} {others : ℕ → Storage → Storage} {s : Storage}
    {es : List HandleName} (t : ℕ)
    → RegistersNothing handle_of k others
    → IsValid handle_of k s
    → Represents s.names es
    → (s' : Storage) × (retireall 2 handle_of others t s ≡ some s') × IsRetired handle_of k s'
unfolding retireall
retireall_lem {handle_of} {k} {others} {s} {es} t quiet v named =
    let start : Emptied handle_of k 0 s = record {
      valid = v;
      entries = es;
      named = named;
      empty = λ h ne lt. absurd (omega (arith, lt));
    } in
    let ((n, t', s'), e, p) =
      retire_slots_lem handle_of k others quiet s.slot_size t 0 start (omega (arith, v.size)) in
    let retired : IsRetired handle_of k s' = record {
      valid = p.valid;
      entries = p.entries;
      named = p.named;
      empty = λ h ne. p.empty h ne (mod-lt h (pow_pos k));
    } in
    let (t'', s'', f, retired') =
      quiet_slots handle_of k others quiet s'.slot_size t' 0 retired
        (omega (arith, p.valid.size)) in
    elim (Bool-cases (n == 0)) [
      | inl done ↦ (s', rw (e, ◌>>=◌) (rw done refl), retired)
      | inr again ↦ (s'', rw (e, ◌>>=◌) (rw again (rw (f, ◌>>=◌) refl)), retired')
    ]
