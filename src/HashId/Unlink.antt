-- ===== src/HashId/Unlink.antt =====
-- service-src/hashid.h: how hashid_remove takes a node out of its chain.
use m2_server.Common.{
  ℕ, zero, suc, ◌-◌, ◌<◌, ◌≡◌, ◌≢◌, refl, sym, ap, subst, ◌∙◌, arith, true, false, Option, none,
  some, List, [], ◌∷◌, ◌==◌, length, occurs, Distinct, Bool-cases, inl, inr, ◌⊎◌, eq_of_==,
  ne_of_==, ne→==, update, update_self, update_ne, occurs-ne, ==_self,
}
use m2_server.HashId.{HashId, no_id, remove_after}
use m2_server.HashId.Chains.{Chain, Chain-ext, erase}

-- The links after the node `t` of the chain `xs` from `o` on was taken out.
pub record Unlinks (next next' : ℕ → Option ℕ) (o' : Option ℕ) (t : ℕ) (xs : List ℕ) : Type 0 where
  pub listed : occurs t xs ≡ true
  pub rest : Chain next' o' (erase t xs)
  pub cleared : next' t ≡ none
  pub outside : (i : ℕ) → occurs i xs ≡ false → next' i ≡ next i

-- The first node of a chain taken out.
pub Unlinks-first :
    (next : ℕ → Option ℕ) (c : ℕ) (xs : List ℕ)
    → Distinct (c ∷ xs)
    → Chain next (next c) xs
    → Unlinks next (update next c none) (next c) c (c ∷ xs)
Unlinks-first next c xs d ch = record {
  listed = ground arith;
  rest = rw (==_self c) (
      Chain-ext {next = next} {next' = update next c none} (next c) xs
        (λ i o. update_ne next c i none (λ e. occurs-ne c i xs d.0 o (sym e))) ch);
  cleared = update_self next c none;
  outside = λ i o. update_ne next c i none (ground (arith, o));
}

-- The second node of a chain taken out.
Unlinks-second :
    (next : ℕ → Option ℕ) (c y : ℕ) (xs : List ℕ)
    → Distinct (c ∷ y ∷ xs)
    → Chain next (next y) xs
    → Unlinks next (update (update next c (next y)) y none) (some c) y (c ∷ y ∷ xs)
Unlinks-second next c y xs d ch =
    let ne : c ≢ y = occurs-ne c y (y ∷ xs) d.0 (ground arith) in
    let nx = update (update next c (next y)) y none in
    let other = λ (i : ℕ) (i_c : i ≢ c) (i_y : i ≢ y).
      update_ne (update next c (next y)) y i none i_y ∙ update_ne next c i (next y) i_c in
    let nx_c : nx c ≡ next y =
      update_ne (update next c (next y)) y c none ne ∙ update_self next c (next y) in
    let tail : Chain nx (next y) xs =
      Chain-ext {next = next} {next' = nx} (next y) xs
        (λ i o.
          other i (λ e. occurs-ne c i (y ∷ xs) d.0 (ground (arith, o)) (sym e))
            (λ e. occurs-ne y i xs d.1.0 o (sym e)))
        ch in
    record {
      listed = ground arith;
      rest = rw (ne→== c y ne) (rw (==_self y) (refl, subst (λ o. Chain nx o xs) (sym nx_c) tail));
      cleared = update_self (update next c (next y)) y none;
      outside = λ i o.
          let o' : (i == c ≡ false) × (i == y ≡ false) = ground (arith, o) in
          other i (ne_of_== i c o'.0) (ne_of_== i y o'.1);
    }

-- A node further on taken out.
Unlinks-later :
    (next next' : ℕ → Option ℕ) (c y t : ℕ) (xs : List ℕ)
    → Distinct (c ∷ y ∷ xs)
    → next c ≡ some y
    → Unlinks next next' (some y) t (y ∷ xs)
    → Unlinks next next' (some c) t (c ∷ y ∷ xs)
Unlinks-later next next' c y t xs d e u =
    let ne : c ≢ t = occurs-ne c t (y ∷ xs) d.0 u.listed in
    let link : next' c ≡ some y = u.outside c d.0 ∙ e in
    record {
      listed = ground (arith, u.listed);
      rest =
          rw (ne→== c t ne) (refl, subst (λ o. Chain next' o (erase t (y ∷ xs))) (sym link) u.rest);
      cleared = u.cleared;
      outside = λ i o. let o' : occurs i (y ∷ xs) ≡ false = ground (arith, o) in u.outside i o';
    }

-- The table after the node `t` was freed, with the links and the heads of chains that are left.
abbrev pub freed : ℕ → (ℕ → Option ℕ) → (ℕ → Option ℕ) → HashId → HashId
freed t next' hash' hi = record hi {
  id = update hi.id t no_id;
  next = next';
  hash = hash';
  count = hi.count - 1;
}

pub remove_after_lem :
    (fuel c id : ℕ) (xs : List ℕ) (hi : HashId)
    → length xs < fuel
    → Distinct (c ∷ xs)
    → Chain hi.next (hi.next c) xs
    → ((t : ℕ) × (next' : ℕ → Option ℕ) × (remove_after fuel c id hi
          ≡ some (some t, freed t next' hi.hash hi))
        × (hi.id t ≡ id)
        × Unlinks hi.next next' (some c) t (c ∷ xs))
      ⊎ ((remove_after fuel c id hi ≡ some (none, hi))
          × ((i : ℕ) → occurs i xs ≡ true → hi.id i ≢ id))
unfolding remove_after
remove_after_lem zero c id xs hi h d ch = absurd (omega arith)
remove_after_lem (suc fuel) c id [] hi h d e = inr (rw (e, remove_after) refl, λ i o. cc)
remove_after_lem (suc fuel) c id (y ∷ xs) hi h d (e, ch) = elim (Bool-cases (hi.id y == id)) [
  | inl here ↦ inl (
    y,
    update (update hi.next c (hi.next y)) y none,
    rw (e, remove_after) (rw here refl),
    eq_of_== (hi.id y) id here,
    Unlinks-second hi.next c y xs d ch,
  )
  | inr later ↦ elim (remove_after_lem fuel y id xs hi (omega arith) d.1 ch) [
    | inl (t, next', run, f, u) ↦ inl (
      t,
      next',
      rw (e, remove_after) (rw later run),
      f,
      Unlinks-later hi.next next' c y t xs d e u,
    )
    | inr (run, absent) ↦ inr (
      rw (e, remove_after) (rw later run),
      λ i o. elim (Bool-cases (i == y)) [
        | inl same ↦ λ f. ne_of_== (hi.id y) id later (ap hi.id (sym (eq_of_== i y same)) ∙ f)
        | inr other ↦ absent i (ground (arith, o, other))
      ],
    )
  ]
]
