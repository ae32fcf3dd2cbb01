-- ===== src/HashId/Lookup.antt =====
-- service-src/hashid.h: the answers of hashid_lookup.
use m2_server.Common.{
  ℕ, zero, suc, ◌<◌, ◌≡◌, ◌≢◌, refl, sym, ap, subst, ◌∙◌, arith, true, Option, none, some, List, [],
  ◌∷◌, ◌==◌, length, occurs, Bool-cases, inl, inr, ◌⊎◌, eq_of_==, ne_of_==, ◌%◌, ◌^◌,
}
use m2_server.HashId.{HashId, no_id, walk, hashid_lookup}
use m2_server.HashId.Chains.{Chain}
use m2_server.HashId.Valid.{IsValid, chain_length, hash_of}

-- The slot in use that holds the id, or `none` where no slot in use holds it.
abbrev pub Answers : HashId → ℕ → Option ℕ → Type 0
Answers hi id (some i) = (i < hi.cap) × (hi.id i ≡ id) × (id ≢ no_id)
Answers hi id none = (i : ℕ) → i < hi.cap → hi.id i ≢ no_id → hi.id i ≢ id

-- A walk along a chain ends at a node with the id, or there is none in the chain.
pub walk_lem :
    (fuel id : ℕ) (xs : List ℕ) (hi : HashId) (c : Option ℕ)
    → length xs < fuel
    → Chain hi.next c xs
    → ((i : ℕ) × (walk fuel c id hi ≡ some (some i)) × (occurs i xs ≡ true) × (hi.id i ≡ id))
      ⊎ ((walk fuel c id hi ≡ some none) × ((i : ℕ) → occurs i xs ≡ true → hi.id i ≢ id))
unfolding walk
walk_lem zero id xs hi c h ch = absurd (omega arith)
walk_lem (suc fuel) id [] hi c h e = inr (rw e refl, λ i o. cc)
walk_lem (suc fuel) id (x ∷ xs) hi c h (e, ch) = elim (Bool-cases (hi.id x == id)) [
  | inl here ↦ inl (x, rw e (rw here refl), ground arith, eq_of_== (hi.id x) id here)
  | inr later ↦ elim (walk_lem fuel id xs hi (hi.next x) (omega arith) ch) [
    | inl (i, w, o, f) ↦ inl (i, rw e (rw later w), ground (arith, o), f)
    | inr (w, absent) ↦ inr (
      rw e (rw later w),
      λ i o. elim (Bool-cases (i == x)) [
        | inl same ↦
            let s : i ≡ x = eq_of_== i x same in
            λ f. ne_of_== (hi.id x) id later (ap hi.id (sym s) ∙ f)
        | inr other ↦ absent i (ground (arith, o, other))
      ],
    )
  ]
]

-- In a table in order, hashid_lookup of any id ends within its fuel. It returns a slot below `cap` that
-- holds the id, which is not -1 then, or -1 where no slot in use holds the id.
pub hashid_lookup_lem :
    {k : ℕ} {ch : ℕ → List ℕ} {hi : HashId} (id : ℕ)
    → IsValid k ch hi
    → (r : Option ℕ) × (hashid_lookup hi id ≡ some r) × Answers hi id r
unfolding hashid_lookup
hashid_lookup_lem {k} {ch} {hi} id v =
    let h = id % 2 ^ k in
    rw (hash_of {k = k} {ch = ch} {hi = hi} id v)
      (elim (walk_lem (suc hi.cap) id (ch h) hi (hi.hash h)
        (omega (arith, chain_length {k = k} {ch = ch} {hi = hi} h v)) (v.chains h)) [
          | inl (i, w, o, e) ↦
              let (lt, taken, _) = v.home h i o in (some i, w, (lt, e, λ f. taken (e ∙ f)))
          | inr (w, absent) ↦ (
            none,
            w,
            λ i lt taken e.
                absent i (subst (λ t. occurs i (ch (t % 2 ^ k)) ≡ true) e (v.listed i lt taken)) e,
          )
        ])

-- No other slot answers to the id of a slot in use.
pub Answers-unique :
    {k : ℕ} {ch : ℕ → List ℕ} {hi : HashId} (i : ℕ) (r : Option ℕ)
    → IsValid k ch hi
    → i < hi.cap
    → hi.id i ≢ no_id
    → Answers hi (hi.id i) r
    → r ≡ some i
Answers-unique i (some j) v lt taken (lt', same, _) =
    ap some (sym (v.unique i j lt lt' taken (sym same)))
Answers-unique i none v lt taken absent = absurd (absent i lt taken refl)

-- hashid_lookup finds the slot of every id that is in the table.
pub lookup_present :
    {k : ℕ} {ch : ℕ → List ℕ} {hi : HashId} (i : ℕ)
    → IsValid k ch hi
    → i < hi.cap
    → hi.id i ≢ no_id
    → hashid_lookup hi (hi.id i) ≡ some (some i)
lookup_present {k} {ch} {hi} i v lt taken =
    let (r, e, a) = hashid_lookup_lem {k = k} {ch = ch} {hi = hi} (hi.id i) v in
    e ∙ ap some (Answers-unique {k = k} {ch = ch} {hi = hi} i r v lt taken a)
