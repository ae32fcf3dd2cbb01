-- ===== src/Timer/Adding.antt =====
-- Adding an event: it is linked into a list that fits its tick, and the others stay.
use m2_server.Common.{
  ℕ, ◌^◌, ◌<◌, ◌≡◌, ◌⊎◌, inl, inr, refl, sym, subst, [], ◌∷◌, ◌++◌, update, update-cases,
  update_self,
}
use m2_server.Timer.{TimerNode, Timer, link_near, link_level}
use m2_server.Timer.Wheel.{
  In, In-snoc, In-left, In-last, FitsNear, FitsLevel, IsPlaced, Waits, in_near, in_level,
}

-- What a change of the wheel by one more event does.
pub record Adds (node : TimerNode) (T T' : Timer) : Type 0 where
  pub placed : IsPlaced T'
  pub same_time : T'.time ≡ T.time
  pub new : Waits node T'
  pub old : (n : TimerNode) → Waits n T → Waits n T'
  pub only : (n : TimerNode) → Waits n T' → Waits n T ⊎ (n ≡ node)

module _ {T : Timer} (p : IsPlaced T) (node : TimerNode) (small : node.expire < 2 ^ 32) where
  near_after :
      (i k : ℕ) (n : TimerNode)
      → In n (update T.near i (T.near i ++ node ∷ []) k)
      → In n (T.near k) ⊎ ((n ≡ node) × (k ≡ i))
  near_after i k n h = elim (update-cases T.near i k (T.near i ++ node ∷ [])) [
    | inr (ne, e) ↦ inl (subst (In n) e h)
    | inl (same, e) ↦ elim (In-snoc n node (T.near i) (subst (In n) e h)) [
      | inl h' ↦ inl (subst (λ x. In n (T.near x)) (sym same) h')
      | inr is_new ↦ inr (is_new, same)
    ]
  ]

  near_keeps :
      (i k : ℕ) (n : TimerNode) → In n (T.near k) → In n (update T.near i (T.near i ++ node ∷ []) k)
  near_keeps i k n h = elim (update-cases T.near i k (T.near i ++ node ∷ [])) [
    | inr (ne, e) ↦ subst (In n) (sym e) h
    | inl (same, e) ↦
        subst (In n) (sym e)
          (In-left n (T.near i) (node ∷ []) (subst (λ x. In n (T.near x)) same h))
  ]

  pub link_near_lem : (i : ℕ) → FitsNear T.time i node.expire → Adds node T (link_near i node T)
  link_near_lem i fits = record {
    placed = record {
      near = λ k n h. elim (near_after i k n h) [
        | inl h' ↦ p.near k n h'
        | inr (is_new, same) ↦
            subst (λ (x : TimerNode). FitsNear T.time k x.expire × (x.expire < 2 ^ 32)) (sym is_new)
              (subst (λ x. FitsNear T.time x node.expire) (sym same) fits, small)
      ];
      level = p.level;
      now = p.now;
    };
    same_time = refl;
    new = in_near i (
        subst (In node) (sym (update_self T.near i (T.near i ++ node ∷ [])))
          (In-last node (T.near i)));
    old = λ n w. elim w [
      | in_near k h ↦ in_near k (near_keeps i k n h)
      | in_level l j h ↦ in_level l j h
    ];
    only = λ n w. elim w [
      | in_near k h ↦ elim (near_after i k n h) [ inl h' ↦ inl (in_near k h') | inr e ↦ inr e.0 ]
      | in_level l j h ↦ inl (in_level l j h)
    ];
  }

  level_after :
      (i idx l j : ℕ) (n : TimerNode)
      → In n ((link_level i idx node T).t l j)
      → In n (T.t l j) ⊎ ((n ≡ node) × ((l ≡ i) × (j ≡ idx)))
  level_after i idx l j n h =
      elim (update-cases T.t i l (update (T.t i) idx (T.t i idx ++ node ∷ []))) [
        | inr (ne, e) ↦ inl (subst (λ f. In n (f j)) e h)
        | inl (same_l, e) ↦ elim (update-cases (T.t i) idx j (T.t i idx ++ node ∷ [])) [
          | inr (ne, f) ↦ inl (
              subst (λ x. In n (T.t x j)) (sym same_l)
                (subst (In n) f (subst (λ f. In n (f j)) e h)))
          | inl (same_j, f) ↦
              elim (In-snoc n node (T.t i idx) (subst (In n) f (subst (λ f. In n (f j)) e h))) [
                | inl h' ↦ inl (
                    subst (λ x. In n (T.t x j)) (sym same_l)
                      (subst (λ x. In n (T.t i x)) (sym same_j) h'))
                | inr is_new ↦ inr (is_new, (same_l, same_j))
              ]
        ]
      ]

  level_keeps :
      (i idx l j : ℕ) (n : TimerNode) → In n (T.t l j) → In n ((link_level i idx node T).t l j)
  level_keeps i idx l j n h =
      elim (update-cases T.t i l (update (T.t i) idx (T.t i idx ++ node ∷ []))) [
        | inr (ne, e) ↦ subst (λ f. In n (f j)) (sym e) h
        | inl (same_l, e) ↦
            let h' = subst (λ x. In n (T.t x j)) same_l h in
            subst (λ f. In n (f j)) (sym e)
              (elim (update-cases (T.t i) idx j (T.t i idx ++ node ∷ [])) [
                | inr (ne, f) ↦ subst (In n) (sym f) h'
                | inl (same_j, f) ↦
                    subst (In n) (sym f)
                      (In-left n (T.t i idx) (node ∷ []) (subst (λ x. In n (T.t i x)) same_j h'))
              ])
      ]

  pub link_level_lem :
      (i idx : ℕ) → FitsLevel T.time i idx node.expire → Adds node T (link_level i idx node T)
  link_level_lem i idx fits = record {
    placed = record {
      near = p.near;
      level = λ l j n h. elim (level_after i idx l j n h) [
        | inl h' ↦ p.level l j n h'
        | inr (is_new, (same_l, same_j)) ↦
            subst (λ (x : TimerNode). FitsLevel T.time l j x.expire × (x.expire < 2 ^ 32))
              (sym is_new)
              (
                subst (λ x. FitsLevel T.time x j node.expire) (sym same_l)
                    (subst (λ x. FitsLevel T.time i x node.expire) (sym same_j) fits),
                small,
              )
      ];
      now = p.now;
    };
    same_time = refl;
    new = in_level i idx (
        subst (λ f. In node (f idx)) (sym (update_self T.t i _))
          (subst (In node) (sym (update_self (T.t i) idx _)) (In-last node (T.t i idx))));
    old = λ n w. elim w [
      | in_near k h ↦ in_near k h
      | in_level l j h ↦ in_level l j (level_keeps i idx l j n h)
    ];
    only = λ n w. elim w [
      | in_near k h ↦ inl (in_near k h)
      | in_level l j h ↦ elim (level_after i idx l j n h) [
        | inl h' ↦ inl (in_level l j h')
        | inr e ↦ inr e.0
      ]
    ];
  }
