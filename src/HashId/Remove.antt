-- ===== src/HashId/Remove.antt =====
-- service-src/hashid.h: what hashid_remove does to a table in order.
use Prim.Native.Nat.{bit_and}
use m2_server.Common.{
  ℕ, suc, ◌+◌, ◌%◌, ◌^◌, ◌<◌, ◌≡◌, ◌≢◌, refl, sym, ap, subst, ◌∙◌, arith, true, Option, none, some,
  List, [], ◌∷◌, ◌==◌, length, occurs, Distinct, Bool-cases, inl, inr, eq_of_==, ne_of_==, eq→==,
  ne→==, update, update_same,
}
use m2_server.HashId.{HashId, no_id, remove_after, hashid_remove}
use m2_server.HashId.Chains.{Chain, erase}
use m2_server.HashId.Valid.{IsValid, used-clear, chain_length, hash_of}
use m2_server.HashId.Freed.{freed-IsValid}
use m2_server.HashId.Unlink.{Unlinks, Unlinks-first, freed, remove_after_lem}

-- What hashid_remove of an id makes of a table: the slot that held the id is free, or no slot held it.
abbrev pub Removes : HashId → ℕ → Option ℕ → HashId → Type 0
Removes hi id none hi' = (hi' ≡ hi) × ((i : ℕ) → i < hi.cap → hi.id i ≢ no_id → hi.id i ≢ id)
Removes hi id (some t) hi' =
    (t < hi.cap)
    × (hi.id t ≡ id)
    × (id ≢ no_id)
    × (hi'.id ≡ update hi.id t no_id)
    × (hi'.count + 1 ≡ hi.count)
    × (hi'.cap ≡ hi.cap)

module _ (id : ℕ) (hi : HashId) {h : ℕ} (hash_eq : bit_and id hi.hashmod ≡ h) where
  remove_empty : hi.hash h ≡ none → hashid_remove hi id ≡ some (none, hi)
  unfolding hashid_remove
  remove_empty e = rw (ap hi.hash hash_eq ∙ e, hashid_remove) refl

  remove_first :
      (c : ℕ)
      → hi.hash h ≡ some c
      → hi.id c ≡ id
      → hashid_remove hi id
        ≡ some (some c, freed c (update hi.next c none) (update hi.hash h (hi.next c)) hi)
  unfolding hashid_remove
  remove_first c e here =
      rw (ap hi.hash hash_eq ∙ e, hashid_remove) (rw (eq→== (hi.id c) id here) (rw hash_eq refl))

  remove_further :
      (c : ℕ)
      → hi.hash h ≡ some c
      → hi.id c ≢ id
      → hashid_remove hi id ≡ remove_after (suc hi.cap) c id hi
  unfolding hashid_remove
  remove_further c e later =
      rw (ap hi.hash hash_eq ∙ e, hashid_remove) (rw (ne→== (hi.id c) id later) refl)

module _ {k : ℕ} {ch : ℕ → List ℕ} {hi : HashId} (id : ℕ) (v : IsValid k ch hi) where
  none_in :
      (c : ℕ) (xs : List ℕ)
      → hi.id c ≢ id
      → ((i : ℕ) → occurs i xs ≡ true → hi.id i ≢ id)
      → (i : ℕ) → occurs i (c ∷ xs) ≡ true
      → hi.id i ≢ id
  none_in c xs ne absent i o = elim (Bool-cases (i == c)) [
    | inl same ↦ λ f. ne (ap hi.id (sym (eq_of_== i c same)) ∙ f)
    | inr other ↦ absent i (ground (arith, o, other))
  ]

  absent_from :
      ((i : ℕ) → occurs i (ch (id % 2 ^ k)) ≡ true → hi.id i ≢ id)
      → (i : ℕ) → i < hi.cap
      → hi.id i ≢ no_id
      → hi.id i ≢ id
  absent_from absent i lt taken e =
      absent i (subst (λ t. occurs i (ch (t % 2 ^ k)) ≡ true) e (v.listed i lt taken)) e

  freed-Removes :
      (t : ℕ) (next' hash' : ℕ → Option ℕ)
      → occurs t (ch (id % 2 ^ k)) ≡ true
      → hi.id t ≡ id
      → Removes hi id (some t) (freed t next' hash' hi)
  freed-Removes t next' hash' listed e =
      let (t_lt, taken, _) = v.home (id % 2 ^ k) t listed in
      let counted = used-clear hi.cap t hi.id t_lt taken in
      (t_lt, e, (λ f. taken (e ∙ f)), refl, omega (arith, counted, v.counted), refl)

  -- The call at the chain of the id.
  remove_from :
      (xs : List ℕ)
      → ch (id % 2 ^ k) ≡ xs
      → (r : Option ℕ) × (hi' : HashId) × (ch' : ℕ → List ℕ) × (hashid_remove hi id ≡ some (r, hi'))
        × Removes hi id r hi'
        × IsValid k ch' hi'
  remove_from [] e =
      let h = id % 2 ^ k in
      let empty : hi.hash h ≡ none = subst (Chain hi.next (hi.hash h)) e (v.chains h) in
      let absent = absent_from (λ i o. cc (subst (λ xs. occurs i xs ≡ true) e o)) in
      (
        none,
        hi,
        ch,
        remove_empty id hi (hash_of {k = k} {ch = ch} {hi = hi} id v) empty,
        (refl, absent),
        v,
      )
  remove_from (c ∷ xs) e =
      let h = id % 2 ^ k in
      let hash_eq = hash_of {k = k} {ch = ch} {hi = hi} id v in
      let (head, tail) = subst (Chain hi.next (hi.hash h)) e (v.chains h) in
      let d = subst Distinct e (v.distinct h) in
      elim (Bool-cases (hi.id c == id)) [
        | inl here ↦
            let same = eq_of_== (hi.id c) id here in
            let u =
              subst (Unlinks hi.next (update hi.next c none) (hi.next c) c) (sym e)
                (Unlinks-first hi.next c xs d tail) in
            (
              some c,
              freed c (update hi.next c none) (update hi.hash h (hi.next c)) hi,
              update ch h (erase c (ch h)),
              remove_first id hi hash_eq c head same,
              freed-Removes c (update hi.next c none) (update hi.hash h (hi.next c)) u.listed same,
              freed-IsValid {k = k} {ch = ch} {hi = hi} h c (update hi.next c none) (hi.next c) v u,
            )
        | inr later ↦
            let other = ne_of_== (hi.id c) id later in
            let start = remove_further id hi hash_eq c head other in
            let short : length xs < suc hi.cap =
              omega (arith, ap length e, chain_length {k = k} {ch = ch} {hi = hi} h v) in
            elim (remove_after_lem (suc hi.cap) c id xs hi short d tail) [
              | inl (t, next', run, same, u) ↦
                  let u' = subst (Unlinks hi.next next' (some c) t) (sym e) u in
                  let valid = freed-IsValid {k = k} {ch = ch} {hi = hi} h t next' (some c) v u' in
                  (
                    some t,
                    freed t next' hi.hash hi,
                    update ch h (erase t (ch h)),
                    start ∙ run,
                    freed-Removes t next' hi.hash u'.listed same,
                    subst
                        (λ hash'. IsValid k (update ch h (erase t (ch h))) (freed t next' hash' hi))
                        (update_same hi.hash h (some c) head) valid,
                  )
              | inr (run, none_further) ↦
                  let none_there = λ (i : ℕ) (o : occurs i (ch h) ≡ true).
                    none_in c xs other none_further i (subst (λ xs. occurs i xs ≡ true) e o) in
                  (none, hi, ch, start ∙ run, (refl, absent_from none_there), v)
            ]
      ]

-- In a table in order, hashid_remove of any id ends within its fuel. Where a slot below
-- `cap` holds the id and the id is not -1, it returns that slot, which is free from then on, the other
-- slots hold what they held, and the count is one less; where no slot in use holds it, it returns -1
-- and changes nothing. The table is in order again.
pub hashid_remove_lem :
    {k : ℕ} {ch : ℕ → List ℕ} {hi : HashId} (id : ℕ)
    → IsValid k ch hi
    → (r : Option ℕ) × (hi' : HashId) × (ch' : ℕ → List ℕ) × (hashid_remove hi id ≡ some (r, hi'))
      × Removes hi id r hi'
      × IsValid k ch' hi'
hashid_remove_lem {k} {ch} {hi} id v =
    remove_from {k = k} {ch = ch} {hi = hi} id v (ch (id % 2 ^ k)) refl
