-- ===== src/HashId/Freed.antt =====
-- service-src/hashid.h: a table in order stays so when a node is taken out of its chain and freed.
use m2_server.Common.{
  ℕ, ◌%◌, ◌^◌, ◌<◌, ◌≡◌, ◌≢◌, sym, ap, subst, ◌∙◌, arith, true, false, Option, none, List, ◌==◌,
  ◌&&◌, not, occurs, Distinct, Bool-cases, inl, inr, ne_of_==, ne→==, update, update_ne,
  update-cases, false_not_true,
}
use m2_server.HashId.{HashId, no_id}
use m2_server.HashId.Chains.{Chain, Chain-ext, erase, occurs-erase, Distinct-erase}
use m2_server.HashId.Valid.{IsValid, used-clear}
use m2_server.HashId.Unlink.{Unlinks, freed}

module _ {k : ℕ} {ch : ℕ → List ℕ} {hi : HashId} (h t : ℕ) (next' : ℕ → Option ℕ) (o : Option ℕ)
    (v : IsValid k ch hi) (u : Unlinks hi.next next' o t (ch h)) where
  abbrev pub without : ℕ → List ℕ
  without = update ch h (erase t (ch h))

  -- A node is in one chain only.
  elsewhere : (h' i : ℕ) → h' ≢ h → occurs i (ch h') ≡ true → occurs i (ch h) ≡ false
  elsewhere h' i ne i_in = elim (Bool-cases (occurs i (ch h))) [
    | inl both ↦ absurd (ne (sym (v.home h' i i_in).2 ∙ (v.home h i both).2))
    | inr e ↦ e
  ]

  freed-chains : (h' : ℕ) → Chain next' (update hi.hash h o h') (without h')
  freed-chains h' = elim (Bool-cases (h' == h)) [
    | inl same ↦ rw same u.rest
    | inr other ↦ rw other (
        Chain-ext {next = hi.next} {next' = next'} (hi.hash h') (ch h')
          (λ i i_in. u.outside i (elsewhere h' i (ne_of_== h' h other) i_in)) (v.chains h'))
  ]

  freed-Distinct : (h' : ℕ) → Distinct (without h')
  freed-Distinct h' = elim (Bool-cases (h' == h)) [
    | inl same ↦ rw same (Distinct-erase t (ch h) (v.distinct h))
    | inr other ↦ rw other (v.distinct h')
  ]

  -- What is left in the chains.
  occurs-without : (h' i : ℕ) → occurs i (without h') ≡ true → (occurs i (ch h') ≡ true) × (i ≢ t)
  occurs-without h' i i_in = elim (update-cases ch h h' (erase t (ch h))) [
    | inl (e, f) ↦
        let both : (occurs i (ch h) && not (i == t)) ≡ true =
          sym (occurs-erase i t (ch h) (v.distinct h)) ∙ subst (λ xs. occurs i xs ≡ true) f i_in in
        let was : occurs i (ch h) ≡ true = ground (arith, both) in
        (subst (λ g. occurs i (ch g) ≡ true) (sym e) was, ground (arith, both))
    | inr (ne, f) ↦
        let was : occurs i (ch h') ≡ true = subst (λ xs. occurs i xs ≡ true) f i_in in
        (
          was,
          λ e.
              false_not_true (
                sym (elsewhere h' i ne was) ∙ subst (λ x. occurs x (ch h) ≡ true) (sym e) u.listed),
        )
  ]

  freed-home :
      (h' i : ℕ)
      → occurs i (without h') ≡ true
      → (i < hi.cap) × (update hi.id t no_id i ≢ no_id) × (update hi.id t no_id i % 2 ^ k ≡ h')
  freed-home h' i i_in =
      let (was, ne) = occurs-without h' i i_in in
      rw (update_ne hi.id t i no_id ne) (v.home h' i was)

  -- A node in use that was not freed is another, with the id that it had.
  still : (i : ℕ) → update hi.id t no_id i ≢ no_id → (i ≢ t) × (update hi.id t no_id i ≡ hi.id i)
  still i taken = elim (update-cases hi.id t i no_id) [
    | inl (e, f) ↦ absurd (taken f)
    | inr found ↦ found
  ]

  freed-listed :
      (i : ℕ)
      → i < hi.cap
      → update hi.id t no_id i ≢ no_id
      → occurs i (without (update hi.id t no_id i % 2 ^ k)) ≡ true
  freed-listed i lt taken =
      let (ne, f) = still i taken in
      let was = v.listed i lt (λ e. taken (f ∙ e)) in
      let g = hi.id i % 2 ^ k in
      rw f (elim (update-cases ch h g (erase t (ch h))) [
        | inl (e, w) ↦
            let was' : occurs i (ch h) ≡ true = subst (λ x. occurs i (ch x) ≡ true) e was in
            rw w (occurs-erase i t (ch h) (v.distinct h) ∙ ground (arith, was', ne→== i t ne))
        | inr (other, w) ↦ rw w was
      ])

  freed_unique :
      (i j : ℕ)
      → i < hi.cap
      → j < hi.cap
      → update hi.id t no_id i ≢ no_id
      → update hi.id t no_id i ≡ update hi.id t no_id j
      → i ≡ j
  freed_unique i j i_lt j_lt taken e =
      let (ne_i, f_i) = still i taken in
      let (ne_j, f_j) = still j (λ g. taken (e ∙ g)) in
      v.unique i j i_lt j_lt (λ g. taken (f_i ∙ g)) (sym f_i ∙ e ∙ f_j)

  freed-loose : (i : ℕ) → update hi.id t no_id i ≡ no_id → next' i ≡ none
  freed-loose i e = elim (update-cases hi.id t i no_id) [
    | inl (same, f) ↦ ap next' same ∙ u.cleared
    | inr (ne, f) ↦
        let free : hi.id i ≡ no_id = sym f ∙ e in
        elim (Bool-cases (occurs i (ch h))) [
          | inl i_in ↦ absurd ((v.home h i i_in).1 free)
          | inr out ↦ u.outside i out ∙ v.loose i free
        ]
  ]

  pub freed-IsValid : IsValid k without (freed t next' (update hi.hash h o) hi)
  freed-IsValid =
      let (t_lt, taken, _) = v.home h t u.listed in
      record {
        size = v.size;
        chains = freed-chains;
        distinct = freed-Distinct;
        home = freed-home;
        listed = freed-listed;
        unique = freed_unique;
        loose = freed-loose;
        counted = omega (arith, v.counted, used-clear hi.cap t hi.id t_lt taken);
      }
