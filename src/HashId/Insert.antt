-- ===== src/HashId/Insert.antt =====
-- service-src/hashid.h: what hashid_insert does to a table that is not full.
use Prim.Native.Nat.{bit_and}
use m2_server.Common.{
  ℕ, zero, suc, ◌+◌, ◌%◌, ◌^◌, ◌≤◌, ◌<◌, ◌≡◌, ◌≢◌, refl, sym, ap, subst, ◌∙◌, arith, true, false,
  Option, none, some, List, ◌∷◌, ◌==◌, occurs, Distinct, Bool-cases, inl, inr, ◌⊎◌, eq_of_==, eq→==,
  ◌>>=◌, lt→ltb, update, update_self, update_same, update_ne, comes_up, update-cases,
}
use native.Mathlib.Nat.{mod-lt}
use m2_server.HashId.{HashId, no_id, int_limit, find_free, link_first, link_node, hashid_insert}
use m2_server.HashId.Chains.{Chain, Chain-ext}
use m2_server.HashId.Valid.{IsValid, used-fill, some_free, hash_of}

-- The search ends at a free node, where one comes up in the rounds to go.
find_free_lem :
    (n i id : ℕ) (hi : HashId)
    → 0 < hi.cap
    → i + n + id ≤ int_limit
    → (j : ℕ) → j < n
    → hi.id ((i + j + id) % hi.cap) ≡ no_id
    → (c : ℕ) × (find_free n i id hi ≡ some (some c)) × (c < hi.cap) × (hi.id c ≡ no_id)
unfolding find_free
find_free_lem zero i id hi pos small j lt free = absurd (omega arith)
find_free_lem (suc n) i id hi pos small zero lt free =
    let e : i + 0 + id ≡ i + id = omega arith in
    let here : hi.id ((i + id) % hi.cap) ≡ no_id = subst (λ t. hi.id (t % hi.cap) ≡ no_id) e free in
    (
      (i + id) % hi.cap,
      rw (lt→ltb (i + id) int_limit (omega arith))
          (rw (eq→== (hi.id ((i + id) % hi.cap)) no_id here) refl),
      mod-lt (i + id) pos,
      here,
    )
find_free_lem (suc n) i id hi pos small (suc j) lt free =
    let index = (i + id) % hi.cap in
    rw (lt→ltb (i + id) int_limit (omega arith)) (elim (Bool-cases (hi.id index == no_id)) [
      | inl here ↦ (index, rw here refl, mod-lt (i + id) pos, eq_of_== (hi.id index) no_id here)
      | inr taken ↦
          let e : i + suc j + id ≡ i + 1 + j + id = omega arith in
          rw taken (
            find_free_lem n (i + 1) id hi pos (omega arith) j (omega arith)
              (subst (λ t. hi.id (t % hi.cap) ≡ no_id) e free))
    ])

-- The table after the free node `c` took the id, whose hash is `h`.
abbrev pub linked : ℕ → ℕ → ℕ → HashId → HashId
linked c h id hi = record hi {
  count = hi.count + 1;
  id = update hi.id c id;
  next = update hi.next c (hi.hash h);
  hash = update hi.hash h (some c);
}

link_first_lem :
    (c : ℕ) (o : Option ℕ) (next : ℕ → Option ℕ)
    → next c ≡ none
    → link_first c o next ≡ update next c o
link_first_lem c none next loose = sym (update_same next c none loose)
link_first_lem c (some first) next loose = refl

link_node_lem :
    (c id : ℕ) (hi : HashId)
    → hi.next c ≡ none
    → link_node c id hi ≡ some (c, linked c (bit_and id hi.hashmod) id hi)
unfolding link_node
link_node_lem c id hi loose =
    rw (loose, ◌>>=◌) (rw (link_first_lem c (hi.hash (bit_and id hi.hashmod)) hi.next loose) refl)

module _ {k : ℕ} {ch : ℕ → List ℕ} {hi : HashId} (c id : ℕ) (v : IsValid k ch hi)
    (c_lt : c < hi.cap) (free : hi.id c ≡ no_id) (real : id ≢ no_id)
    (absent : (i : ℕ) → i < hi.cap → hi.id i ≢ id) where
  not_listed : (h : ℕ) → occurs c (ch h) ≡ false
  not_listed h = elim (Bool-cases (occurs c (ch h))) [
    | inl o ↦ absurd ((v.home h c o).1 free)
    | inr o ↦ o
  ]

  listed_ne : (h i : ℕ) → occurs i (ch h) ≡ true → i ≢ c
  listed_ne h i o e = cc (not_listed h)

  abbrev pub added : ℕ → ℕ → List ℕ
  added h = update ch h (c ∷ ch h)

  linked-chains :
      (h h' : ℕ) → Chain (update hi.next c (hi.hash h)) (update hi.hash h (some c) h') (added h h')
  linked-chains h h' =
      let same_chain = λ (g : ℕ).
        Chain-ext {next = hi.next} {next' = update hi.next c (hi.hash h)} (hi.hash g) (ch g)
          (λ i o. update_ne hi.next c i (hi.hash h) (listed_ne g i o)) (v.chains g) in
      elim (Bool-cases (h' == h)) [
        | inl same ↦ rw same (refl, rw (update_self hi.next c (hi.hash h)) (same_chain h))
        | inr other ↦ rw other (same_chain h')
      ]

  linked-Distinct : (h h' : ℕ) → Distinct (added h h')
  linked-Distinct h h' = elim (Bool-cases (h' == h)) [
    | inl same ↦ rw same (not_listed h, v.distinct h)
    | inr other ↦ rw other (v.distinct h')
  ]

  occurs-added_inv :
      (h h' i : ℕ) → occurs i (added h h') ≡ true → ((i ≡ c) × (h' ≡ h)) ⊎ (occurs i (ch h') ≡ true)
  occurs-added_inv h h' i o = elim (update-cases ch h h' (c ∷ ch h)) [
    | inl (e, f) ↦
        let o' : occurs i (c ∷ ch h) ≡ true = subst (λ xs. occurs i xs ≡ true) f o in
        elim (Bool-cases (i == c)) [
          | inl new ↦ inl (eq_of_== i c new, e)
          | inr old ↦
              let o'' : occurs i (ch h) ≡ true = ground (arith, o', old) in
              inr (subst (λ g. occurs i (ch g) ≡ true) (sym e) o'')
        ]
    | inr (ne, f) ↦ inr (subst (λ xs. occurs i xs ≡ true) f o)
  ]

  occurs-added_new : (h : ℕ) → occurs c (added h h) ≡ true
  occurs-added_new h = rw (update_self ch h (c ∷ ch h)) (ground arith)

  occurs-added_old : (h h' i : ℕ) → occurs i (ch h') ≡ true → occurs i (added h h') ≡ true
  occurs-added_old h h' i o = elim (Bool-cases (h' == h)) [
    | inl same ↦
        let o' : occurs i (ch h) ≡ true =
          subst (λ g. occurs i (ch g) ≡ true) (eq_of_== h' h same) o in
        rw same (ground (arith, o'))
    | inr other ↦ rw other o
  ]

  linked-home :
      (h' i : ℕ)
      → occurs i (added (id % 2 ^ k) h') ≡ true
      → (i < hi.cap) × (update hi.id c id i ≢ no_id) × (update hi.id c id i % 2 ^ k ≡ h')
  linked-home h' i o = elim (occurs-added_inv (id % 2 ^ k) h' i o) [
    | inl (e, f) ↦ rw e (rw (update_self hi.id c id) (c_lt, real, sym f))
    | inr o' ↦ rw (update_ne hi.id c i id (listed_ne h' i o')) (v.home h' i o')
  ]

  linked-listed :
      (i : ℕ)
      → i < hi.cap
      → update hi.id c id i ≢ no_id
      → occurs i (added (id % 2 ^ k) (update hi.id c id i % 2 ^ k)) ≡ true
  linked-listed i lt taken = elim (update-cases hi.id c i id) [
    | inl (e, f) ↦ rw f (rw e (occurs-added_new (id % 2 ^ k)))
    | inr (ne, f) ↦
        rw f
          (occurs-added_old (id % 2 ^ k) (hi.id i % 2 ^ k) i (v.listed i lt (λ g. taken (f ∙ g))))
  ]

  linked_unique :
      (i j : ℕ)
      → i < hi.cap
      → j < hi.cap
      → update hi.id c id i ≢ no_id
      → update hi.id c id i ≡ update hi.id c id j
      → i ≡ j
  linked_unique i j i_lt j_lt taken e = elim (update-cases hi.id c i id) [
    | inl (ei, fi) ↦ elim (update-cases hi.id c j id) [
      | inl (ej, fj) ↦ ei ∙ sym ej
      | inr (nj, fj) ↦ absurd (absent j j_lt (sym fj ∙ sym e ∙ fi))
    ]
    | inr (ni, fi) ↦ elim (update-cases hi.id c j id) [
      | inl (ej, fj) ↦ absurd (absent i i_lt (sym fi ∙ e ∙ fj))
      | inr (nj, fj) ↦ v.unique i j i_lt j_lt (λ f. taken (fi ∙ f)) (sym fi ∙ e ∙ fj)
    ]
  ]

  linked-loose :
      (i : ℕ) → update hi.id c id i ≡ no_id → update hi.next c (hi.hash (id % 2 ^ k)) i ≡ none
  linked-loose i e = elim (update-cases hi.id c i id) [
    | inl (ei, fi) ↦ absurd (real (sym fi ∙ e))
    | inr (ni, fi) ↦ update_ne hi.next c i (hi.hash (id % 2 ^ k)) ni ∙ v.loose i (sym fi ∙ e)
  ]

  pub linked-IsValid : IsValid k (added (id % 2 ^ k)) (linked c (id % 2 ^ k) id hi)
  linked-IsValid = record {
    size = v.size;
    chains = linked-chains (id % 2 ^ k);
    distinct = linked-Distinct (id % 2 ^ k);
    home = linked-home;
    listed = linked-listed;
    unique = linked_unique;
    loose = linked-loose;
    counted = omega (arith, v.counted, used-fill hi.cap c id hi.id c_lt free real);
  }

-- In a table in order that is not full, hashid_insert of an id other than -1 that no slot holds, with
-- id + cap at most 2^31, faults nowhere and returns a slot below `cap` that was free. Then that slot
-- holds the id, every other slot what it held, the count is one more, and the table is in order.
pub hashid_insert_lem :
    {k : ℕ} {ch : ℕ → List ℕ} {hi : HashId} (id : ℕ)
    → IsValid k ch hi
    → hi.count < hi.cap
    → id ≢ no_id
    → id + hi.cap ≤ int_limit
    → ((i : ℕ) → i < hi.cap → hi.id i ≢ id)
    → (c : ℕ) × (hi' : HashId) × (ch' : ℕ → List ℕ) × (hashid_insert hi id ≡ some (c, hi'))
      × (c < hi.cap)
      × (hi.id c ≡ no_id)
      × (hi'.id ≡ update hi.id c id)
      × (hi'.count ≡ hi.count + 1)
      × (hi'.cap ≡ hi.cap)
      × IsValid k ch' hi'
unfolding hashid_insert
hashid_insert_lem {k} {ch} {hi} id v room real small absent =
    let (t, t_lt, t_free) = some_free hi.cap hi.id (omega (arith, v.counted, room)) in
    let (j, j_lt, e) = comes_up hi.cap id t t_lt in
    let e' : 0 + j + id ≡ j + id = omega arith in
    let comes : hi.id ((0 + j + id) % hi.cap) ≡ no_id =
      ap (λ x. hi.id (x % hi.cap)) e' ∙ ap hi.id e ∙ t_free in
    let (c, found, c_lt, free) =
      find_free_lem hi.cap 0 id hi (omega (arith, room)) (omega (arith, small)) j j_lt comes in
    let run =
      link_node_lem c id hi (v.loose c free)
      ∙ ap (λ h. some (c, linked c h id hi)) (hash_of {k = k} {ch = ch} {hi = hi} id v) in
    (
      c,
      linked c (id % 2 ^ k) id hi,
      update ch (id % 2 ^ k) (c ∷ ch (id % 2 ^ k)),
      rw (found, ◌>>=◌) run,
      c_lt,
      free,
      refl,
      refl,
      refl,
      linked-IsValid {k = k} {ch = ch} {hi = hi} c id v c_lt free real absent,
    )
