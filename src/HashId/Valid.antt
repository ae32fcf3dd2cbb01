-- ===== src/HashId/Valid.antt =====
-- When the table is in order: every node in use is in the chain of its id, and no other is.
use Prim.Native.Nat.{bit_and}
use m2_server.Common.{
  ℕ, zero, suc, ◌+◌, ◌-◌, ◌*◌, ◌%◌, ◌^◌, ◌≤◌, ◌<◌, ◌≡◌, ◌≢◌, refl, sym, ap, ◌∙◌, arith, true, none,
  some, List, [], ◌==◌, if◌then◌else◌, occurs, Distinct, length, update, update_self, update_ne,
  Bool-cases, inl, inr, eq_of_==, ne_of_==, ne→==, eq→==, bit_and-mask, ltb, lt→ltb, ltb→le, le→ltb,
  pow-le, subst,
}
use native.Mathlib.Nat.{pow-suc}
use m2_server.HashId.{HashId, no_id, int_limit, find_hashcap, hashid_init}
use m2_server.HashId.Chains.{Chain, Distinct-length}

-- The number of nodes below `n` that are in use.
abbrev pub used : ℕ → (ℕ → ℕ) → ℕ
used zero id = 0
used (suc n) id = (if id n == no_id then 0 else 1) + used n id

pub used-le : (n : ℕ) (id : ℕ → ℕ) → used n id ≤ n
used-le zero id = omega arith
used-le (suc n) id = ground (arith, used-le n id)

-- A change past the end.
used-past : (n i v : ℕ) (id : ℕ → ℕ) → n ≤ i → used n (update id i v) ≡ used n id
used-past zero i v id h = refl
used-past (suc n) i v id h =
    rw (update_ne id i n v (omega arith))
      (ap (λ x. (if id n == no_id then 0 else 1) + x) (used-past n i v id (omega arith)))

pub used-fill :
    (n i v : ℕ) (id : ℕ → ℕ)
    → i < n
    → id i ≡ no_id
    → v ≢ no_id
    → used n (update id i v) ≡ used n id + 1
used-fill zero i v id h free ne = absurd (omega arith)
used-fill (suc n) i v id h free ne = elim (Bool-cases (n == i)) [
  | inl last ↦
      let e = eq_of_== n i last in
      let here : update id i v n ≡ v = ap (update id i v) e ∙ update_self id i v in
      let was : id n ≡ no_id = ap id e ∙ free in
      rw (here, ne→== v no_id ne, eq→== (id n) no_id was)
        (omega (arith, used-past n i v id (omega (arith, e))))
  | inr before ↦
      let d = ne_of_== n i before in
      rw (update_ne id i n v d) (omega (arith, used-fill n i v id (omega (arith, d)) free ne))
]

pub used-clear :
    (n i : ℕ) (id : ℕ → ℕ) → i < n → id i ≢ no_id → used n (update id i no_id) + 1 ≡ used n id
used-clear zero i id h taken = absurd (omega arith)
used-clear (suc n) i id h taken = elim (Bool-cases (n == i)) [
  | inl last ↦
      let e = eq_of_== n i last in
      let here : update id i no_id n ≡ no_id = ap (update id i no_id) e ∙ update_self id i no_id in
      let was : id n ≢ no_id = λ f. taken (ap id (sym e) ∙ f) in
      rw (here, ne→== (id n) no_id was) (omega (arith, used-past n i no_id id (omega (arith, e))))
  | inr before ↦
      let d = ne_of_== n i before in
      rw (update_ne id i n no_id d) (omega (arith, used-clear n i id (omega (arith, d)) taken))
]

pub some_free : (n : ℕ) (id : ℕ → ℕ) → used n id < n → (i : ℕ) × (i < n) × (id i ≡ no_id)
some_free zero id h = absurd (omega arith)
some_free (suc n) id h = elim (Bool-cases (id n == no_id)) [
  | inl e ↦ (n, omega arith, eq_of_== (id n) no_id e)
  | inr ne ↦ let (i, lt, e) = some_free n id (ground (arith, ne, h)) in (i, omega arith, e)
]

-- The chain of each hash is `ch`, and `2 ^ k` the number of hashes.
pub record IsValid (k : ℕ) (ch : ℕ → List ℕ) (hi : HashId) : Type 0 where
  pub size : hi.hashmod ≡ 2 ^ k - 1
  pub chains : (h : ℕ) → Chain hi.next (hi.hash h) (ch h)
  pub distinct : (h : ℕ) → Distinct (ch h)
  pub home :
      (h i : ℕ) → occurs i (ch h) ≡ true → (i < hi.cap) × (hi.id i ≢ no_id) × (hi.id i % 2 ^ k ≡ h)
  pub listed : (i : ℕ) → i < hi.cap → hi.id i ≢ no_id → occurs i (ch (hi.id i % 2 ^ k)) ≡ true
  pub unique : (i j : ℕ) → i < hi.cap → j < hi.cap → hi.id i ≢ no_id → hi.id i ≡ hi.id j → i ≡ j
  pub loose : (i : ℕ) → hi.id i ≡ no_id → hi.next i ≡ none
  pub counted : hi.count ≡ used hi.cap hi.id

-- A chain is no longer than the table.
pub chain_length :
    {k : ℕ} {ch : ℕ → List ℕ} {hi : HashId} (h : ℕ) → IsValid k ch hi → length (ch h) ≤ hi.cap
chain_length {ch = ch} {hi = hi} h v =
    Distinct-length hi.cap (ch h) (v.distinct h) (λ i o. (v.home h i o).0)

pub hash_of :
    {k : ℕ} {ch : ℕ → List ℕ} {hi : HashId} (id : ℕ)
    → IsValid k ch hi
    → bit_and id hi.hashmod ≡ id % 2 ^ k
hash_of {k} id v = ap (bit_and id) v.size ∙ bit_and-mask k id

used-none : (n : ℕ) → used n (λ i. no_id) ≡ 0
used-none zero = refl
used-none (suc n) = omega (arith, used-none n)

-- The doubling ends with a power of two.
find_hashcap_lem :
    (fuel j max : ℕ)
    → max ≤ 2 ^ (j + fuel)
    → j + fuel ≤ 30
    → (k : ℕ) × (find_hashcap (suc fuel) (2 ^ j) max ≡ some (2 ^ k)) × (max ≤ 2 ^ k)
unfolding find_hashcap
find_hashcap_lem zero j max h small =
    let e : j + 0 ≡ j = omega arith in
    (j, rw (le→ltb (2 ^ j) max (subst (λ x. max ≤ 2 ^ x) e h)) refl, subst (λ x. max ≤ 2 ^ x) e h)
find_hashcap_lem (suc fuel) j max h small = elim (Bool-cases (ltb (2 ^ j) max)) [
  | inr done ↦ (j, rw done refl, ltb→le (2 ^ j) max done)
  | inl more ↦
      let e : j + suc fuel ≡ suc j + fuel = omega arith in
      let twice : 2 ^ suc j ≡ 2 ^ j * 2 = pow-suc 2 j in
      let no_overflow : 2 ^ j * 2 < int_limit =
        omega (arith, twice, pow-le (suc j) 30 (omega arith)) in
      let (k, found, enough) =
        find_hashcap_lem fuel (suc j) max (subst (λ x. max ≤ 2 ^ x) e h) (omega arith) in
      (
        k,
        rw more (
            rw (lt→ltb (2 ^ j * 2) int_limit no_overflow)
              (subst (λ t. find_hashcap (suc fuel) t max ≡ some (2 ^ k)) twice found)),
        enough,
      )
]

-- `hashid_init` for up to `2 ^ 30` ids returns an empty table in order, with at least as many hashes.
pub hashid_init-IsValid :
    (max : ℕ)
    → max ≤ 2 ^ 30
    → (k : ℕ) × (hi : HashId) × (hashid_init max ≡ some hi)
      × IsValid k (λ h. []) hi
      × (max ≤ 2 ^ k)
      × (hi.cap ≡ max)
      × (hi.count ≡ 0)
unfolding hashid_init
hashid_init-IsValid max h =
    let (k, found, enough) = find_hashcap_lem 26 4 max (omega arith) (omega arith) in
    let hi : HashId = record {
      hashmod = 2 ^ k - 1;
      cap = max;
      count = 0;
      id = λ i. no_id;
      next = λ i. none;
      hash = λ h. none;
    } in
    let v : IsValid k (λ h. []) hi = record {
      size = refl;
      chains = λ h. refl;
      distinct = λ h. tt;
      home = λ h i o. cc;
      listed = λ i lt taken. absurd (taken refl);
      unique = λ i j lt lt' taken e. absurd (taken refl);
      loose = λ i e. refl;
      counted = sym (used-none max);
    } in
    (k, hi, rw found refl, v, enough, refl, refl)
