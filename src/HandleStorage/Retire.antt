-- ===== src/HandleStorage/Retire.antt =====
-- Retiring a handle frees its slot, forgets its names and leaves all other handles alone.
use m2_server.Common.{
  ℕ, ◌%◌, ◌^◌, ◌≡◌, ◌≢◌, inl, inr, refl, sym, ap, subst, ◌∙◌, Option, none, some, Option-cases,
  List, update, update_self, update_ne, update-inv, ◌>>=◌, ◌==◌, if◌then◌else◌, ne→==, Bool-cases,
  eq_of_==, ne_of_==,
}
use m2_server.NameTable.{HandleName, NameTable}
use m2_server.NameTable.Sorted.{without}
use m2_server.NameTable.Refine.{Represents}
use m2_server.NameTable.Removal.{forget_names_refines}
use m2_server.HandleStorage.{Storage, holder, grab, retire}
use m2_server.HandleStorage.Slots.{IsValid, IsLive, mask_slot, IsLive-grab}

-- What a handle finds in its slot.
abbrev pub at_slot : (ℕ → ℕ) → ℕ → Option ℕ → Option ℕ
at_slot handle_of x o = o >>= λ ctx. if handle_of ctx == x then some ctx else none

pub grab_at :
    (handle_of : ℕ → ℕ) (k : ℕ) (s : Storage) (x : ℕ)
    → s.slot_size ≡ 2 ^ k
    → grab handle_of x s ≡ at_slot handle_of x (s.slot (x % 2 ^ k))
unfolding grab holder
grab_at handle_of k s x size = ap (λ i. at_slot handle_of x (s.slot i)) (mask_slot k s x size)

-- What `skynet_handle_retire` does, by what the handle led to.
pub record Retired (handle_of : ℕ → ℕ) (k handle : ℕ) (s : Storage) (es : List HandleName)
    (r : Option ℕ × Storage) : Type 0 where
  pub released : r.0 ≡ grab handle_of handle s
  pub valid : IsValid handle_of k r.1
  pub gone : grab handle_of handle r.1 ≡ none
  pub others : (x : ℕ) → x ≢ handle → grab handle_of x r.1 ≡ grab handle_of x s
  pub unchanged : grab handle_of handle s ≡ none → r.1 ≡ s
  pub names : (c : ℕ) → grab handle_of handle s ≡ some c → Represents r.1.names (without handle es)

module _ {handle_of : ℕ → ℕ} {k : ℕ} {s : Storage} (handle ctx : ℕ) (v : IsValid handle_of k s)
    (l : IsLive handle_of k s handle ctx) (names : NameTable) where
  abbrev cleared : Storage
  cleared = record s { slot = update s.slot (handle % 2 ^ k) none; names = names }

  cleared-IsValid : IsValid handle_of k cleared
  cleared-IsValid = record {
    size = v.size;
    bound = v.bound;
    node = v.node;
    harbor = v.harbor;
    services = λ i c e. elim (update-inv s.slot (handle % 2 ^ k) none i e) [
      | inl (here, never) ↦ absurd (cc never)
      | inr (other, e') ↦ v.services i c e'
    ];
  }

  cleared_gone : grab handle_of handle cleared ≡ none
  cleared_gone =
      grab_at handle_of k cleared handle v.size
      ∙ ap (at_slot handle_of handle) (update_self s.slot (handle % 2 ^ k) none)

  cleared_others : (x : ℕ) → x ≢ handle → grab handle_of x cleared ≡ grab handle_of x s
  cleared_others x ne = elim (Bool-cases (x % 2 ^ k == handle % 2 ^ k)) [
    | inr apart ↦
        grab_at handle_of k cleared x v.size
        ∙ ap (at_slot handle_of x) (
            update_ne s.slot (handle % 2 ^ k) (x % 2 ^ k) none
              (ne_of_== (x % 2 ^ k) (handle % 2 ^ k) apart))
        ∙ sym (grab_at handle_of k s x v.size)
    | inl together ↦
        let same = eq_of_== (x % 2 ^ k) (handle % 2 ^ k) together in
        grab_at handle_of k cleared x v.size
        ∙ ap (λ i. at_slot handle_of x (update s.slot (handle % 2 ^ k) none i)) same
        ∙ ap (at_slot handle_of x) (update_self s.slot (handle % 2 ^ k) none)
        ∙ sym (misses x ne)
        ∙ ap (at_slot handle_of x) (sym (ap s.slot same ∙ l.slot))
        ∙ sym (grab_at handle_of k s x v.size)
  ]
    where
      misses : (x : ℕ) → x ≢ handle → at_slot handle_of x (some ctx) ≡ none
      misses x ne = rw (ne→== (handle_of ctx) x (λ e. ne (sym e ∙ l.owns)), ◌>>=◌) refl

-- Where the table is valid and the names represent a sorted list, `skynet_handle_retire` returns: the handle leads to no service after it,
-- every other handle leads to what it did, the result is the service that the handle led to, and where
-- that was none nothing changes; else the names of the handle go, and no others.
pub retire_lem :
    {handle_of : ℕ → ℕ} {k : ℕ} {s : Storage} {es : List HandleName} (handle : ℕ)
    → IsValid handle_of k s
    → Represents s.names es
    → (r : Option ℕ × Storage) × (retire handle_of handle s ≡ some r)
      × Retired handle_of k handle s es r
unfolding retire grab
retire_lem {handle_of} {k} {s} {es} handle v named =
    elim (Option-cases (holder handle_of handle s)) [
      | inl e ↦ (
        (none, s),
        rw (e, retire) refl,
        record {
          released = sym e;
          valid = v;
          gone = e;
          others = λ x ne. refl;
          unchanged = λ e'. refl;
          names = λ c e'. absurd (cc (sym e ∙ e'));
        },
      )
      | inr (ctx, e) ↦
          let l = IsLive-grab {handle_of = handle_of} {k = k} handle ctx v.size e in
          let (names, f, named') = forget_names_refines handle named in
          let s' = record s { slot = update s.slot (handle % 2 ^ k) none; names = names } in
          (
            (some ctx, s'),
            rw (e, retire)
                (rw (f, ◌>>=◌)
                  (ap
                    (λ i. some (some ctx, record s { slot = update s.slot i none; names = names }))
                    (mask_slot k s handle v.size))),
            record {
              released = sym e;
              valid = cleared-IsValid handle ctx v l names;
              gone = cleared_gone handle ctx v l names;
              others = cleared_others handle ctx v l names;
              unchanged = λ e'. absurd (cc (sym e ∙ e'));
              names = λ c e'. named';
            },
          )
    ]

-- The names represent a list after it, whatever the handle led to.
pub Retired-Represents :
    {handle_of : ℕ → ℕ} {k : ℕ} (s : Storage) (es : List HandleName) (handle : ℕ)
    (r : Option ℕ × Storage)
    → Represents s.names es
    → Retired handle_of k handle s es r
    → (es' : List HandleName) × Represents r.1.names es'
Retired-Represents {handle_of} s es handle r named gone =
    elim (Option-cases (grab handle_of handle s)) [
      | inl e ↦ (es, subst (λ x. Represents x.names es) (sym (gone.unchanged e)) named)
      | inr (c, e) ↦ (_, gone.names c e)
    ]
