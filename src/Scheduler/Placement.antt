-- ===== src/Scheduler/Placement.antt =====
-- Where a queue is: on the global list, in the hand of one owner, or nowhere.
use m2_server.Common.{
  some_inj, ℕ, ◌<◌, ◌≡◌, ◌≢◌, arith, true, false, Option, none, some, List, [], ◌∷◌, ◌++◌, ◌∙◌, sym,
  subst, update, occurs, ◌⊎◌, inl, inr, update_self, update_ne, ◌==◌, Bool-cases, eq_of_==,
  ne_of_==, update-inv, occurs-append,
}
use m2_server.MessageQueue.{MessageQueue}

module _ (mq : ℕ → Option MessageQueue) (ids : List ℕ) (held : ℕ → Option ℕ) where
  -- An owned queue is allocated, has one owner, and is not on the list.
  pub record Owned : Type 0 where
    pub alone : (t u p : ℕ) → held t ≡ some p → held u ≡ some p → t ≡ u
    pub off : (t p : ℕ) → held t ≡ some p → occurs p ids ≡ false
    pub alive : (t p : ℕ) → held t ≡ some p → (q : MessageQueue) × (mq p ≡ some q)

module _ (ids : List ℕ) (held : ℕ → Option ℕ) (p : ℕ) where
  abbrev pub Placed : Type 0
  Placed = (occurs p ids ≡ true) ⊎ ((t : ℕ) × (held t ≡ some p))

  -- The marks of the queue at `p` tell whether it is somewhere.
  pub record Marked (q : MessageQueue) : Type 0 where
    pub bits : (q.in_global < 2) × (q.release < 2)
    pub parked :
        q.in_global ≡ 0 → q.release ≡ 0 → (occurs p ids ≡ false) × ((t : ℕ) → held t ≢ some p)
    pub placed : (q.in_global ≡ 1) ⊎ (q.release ≡ 1) → Placed

abbrev pub SameHolders : (ℕ → Option ℕ) → (ℕ → Option ℕ) → ℕ → Type 0
SameHolders held held' p =
    (t : ℕ) → (held t ≡ some p → held' t ≡ some p) × (held' t ≡ some p → held t ≡ some p)

-- A queue that keeps its marks and its place stays well marked.
pub Marked-ext :
    {ids ids' : List ℕ} {held held' : ℕ → Option ℕ} {p : ℕ} {q q' : MessageQueue}
    → q'.in_global ≡ q.in_global
    → q'.release ≡ q.release
    → occurs p ids' ≡ occurs p ids
    → SameHolders held held' p
    → Marked ids held p q
    → Marked ids' held' p q'
Marked-ext {q} {q'} g r o h m = record {
  bits = omega (arith, m.bits);
  parked = λ g' r'.
      let (off, free) = m.parked (sym g ∙ g') (sym r ∙ r') in (o ∙ off, λ t e. free t ((h t).1 e));
  placed = λ some_mark. elim (m.placed (old_mark some_mark)) [
    | inl on ↦ inl (o ∙ on)
    | inr (t, e) ↦ inr (t, (h t).0 e)
  ];
}
  where
    old_mark : (q'.in_global ≡ 1) ⊎ (q'.release ≡ 1) → (q.in_global ≡ 1) ⊎ (q.release ≡ 1)
    old_mark (inl e) = inl (sym g ∙ e)
    old_mark (inr e) = inr (sym r ∙ e)

pub same_holders : (held : ℕ → Option ℕ) (p : ℕ) → SameHolders held held p
same_holders held p t = (λ e. e, λ e. e)

-- An owner whose hand changes between other queues does not matter.
pub update-SameHolders :
    (held : ℕ → Option ℕ) (t p : ℕ) (v : Option ℕ)
    → held t ≢ some p
    → v ≢ some p
    → SameHolders held (update held t v) p
update-SameHolders held t p v h k u = elim (Bool-cases (u == t)) [
  | inl same ↦
      let e = eq_of_== u t same in
      (
        λ a. absurd (h (subst (λ x. held x ≡ some p) e a)),
        λ a. absurd (k (sym (update_self held t v) ∙ subst (λ x. update held t v x ≡ some p) e a)),
      )
  | inr other ↦ let e = update_ne held t u v (ne_of_== u t other) in (λ a. e ∙ a, λ a. sym e ∙ a)
]

-- The owner `t` opens its hand.
pub Owned-drop :
    {mq mq' : ℕ → Option MessageQueue} {ids : List ℕ} {held : ℕ → Option ℕ} (t p : ℕ)
    (ids' : List ℕ)
    → held t ≡ some p
    → ((j : ℕ) → j ≢ p → occurs j ids ≡ false → occurs j ids' ≡ false)
    → ((j : ℕ) (q : MessageQueue) → j ≢ p → mq j ≡ some q → (q' : MessageQueue) × (mq' j ≡ some q'))
    → Owned mq ids held
    → Owned mq' ids' (update held t none)
Owned-drop {mq} {mq'} {ids} {held} t p ids' e off' alive' o = record {
  alone = λ u v j a b. o.alone u v j (old u j a).1 (old v j b).1;
  off = λ u j a. let (ne, b) = old u j a in off' j ne (o.off u j b);
  alive = λ u j a. let (ne, b) = old u j a in let (q, f) = o.alive u j b in alive' j q ne f;
}
  where
    -- Who still holds `j` held it before, and it is not `p`.
    old : (u j : ℕ) → update held t none u ≡ some j → (j ≢ p) × (held u ≡ some j)
    old u j a = elim (update-inv held t none u a) [
      | inl (same, v) ↦ absurd (cc v)
      | inr (other, b) ↦ (λ s. other (o.alone u t p (subst (λ x. held u ≡ some x) s b) e), b)
    ]

-- The owner `t`, whose hand is empty, takes a queue that no one holds.
pub Owned-take :
    {mq mq' : ℕ → Option MessageQueue} {ids : List ℕ} {held : ℕ → Option ℕ} (t p : ℕ)
    (ids' : List ℕ)
    → ((u : ℕ) → held u ≢ some p)
    → occurs p ids' ≡ false
    → (q : MessageQueue) × (mq' p ≡ some q)
    → ((j : ℕ) → occurs j ids ≡ false → occurs j ids' ≡ false)
    → ((j : ℕ) (q : MessageQueue) → mq j ≡ some q → (q' : MessageQueue) × (mq' j ≡ some q'))
    → Owned mq ids held
    → Owned mq' ids' (update held t (some p))
Owned-take {mq} {mq'} {ids} {held} t p ids' free off_p alive_p off' alive' o = record {
  alone =
      λ u v j a b. alone u v j (update-inv held t (some p) u a) (update-inv held t (some p) v b);
  off = λ u j a. elim (update-inv held t (some p) u a) [
    | inl (same, v) ↦ subst (λ x. occurs x ids' ≡ false) (some_inj v) off_p
    | inr (other, b) ↦ off' j (o.off u j b)
  ];
  alive = λ u j a. elim (update-inv held t (some p) u a) [
    | inl (same, v) ↦ subst (λ x. (q : MessageQueue) × (mq' x ≡ some q)) (some_inj v) alive_p
    | inr (other, b) ↦ let (q, f) = o.alive u j b in alive' j q f
  ];
}
  where
    alone :
        (u v j : ℕ)
        → ((u ≡ t) × (some p ≡ some j)) ⊎ ((u ≢ t) × (held u ≡ some j))
        → ((v ≡ t) × (some p ≡ some j)) ⊎ ((v ≢ t) × (held v ≡ some j))
        → u ≡ v
    alone u v j (inl (a, b)) (inl (c, d)) = a ∙ sym c
    alone u v j (inl (a, b)) (inr (c, d)) = absurd (free v (d ∙ sym b))
    alone u v j (inr (a, b)) (inl (c, d)) = absurd (free u (b ∙ sym d))
    alone u v j (inr (a, b)) (inr (c, d)) = o.alone u v j b d

-- The same hands, with a list that holds no queue in hand.
pub Owned-ext :
    {mq mq' : ℕ → Option MessageQueue} {ids ids' : List ℕ} {held : ℕ → Option ℕ}
    → ((t p : ℕ) → held t ≡ some p → occurs p ids ≡ false → occurs p ids' ≡ false)
    → ((j : ℕ) (q : MessageQueue) → mq j ≡ some q → (q' : MessageQueue) × (mq' j ≡ some q'))
    → Owned mq ids held
    → Owned mq' ids' held
Owned-ext off' alive' o = record {
  alone = o.alone;
  off = λ t p e. off' t p e (o.off t p e);
  alive = λ t p e. let (q, f) = o.alive t p e in alive' p q f;
}

pub occurs-snoc_ne : (j p : ℕ) (ids : List ℕ) → j ≢ p → occurs j (ids ++ p ∷ []) ≡ occurs j ids
occurs-snoc_ne j p ids h = ground (arith, occurs-append j ids (p ∷ []))

pub occurs-snoc_self : (p : ℕ) (ids : List ℕ) → occurs p (ids ++ p ∷ []) ≡ true
occurs-snoc_self p ids = ground (arith, occurs-append p ids (p ∷ []))
