-- ===== src/GlobalQueue/Chain.antt =====
-- The `next` links of the queues on the global list.
use mathlib.Core.List.{head?}
use m2_server.Common.{
  some_inj, ℕ, ◌≡◌, ◌≢◌, refl, arith, true, false, Option, none, some, List, [], ◌∷◌, ◌++◌, ◌∙◌,
  sym, update, inl, inr, update_self, update_ne, occurs-ne, occurs_of_append, occurs, Distinct,
  last?, occurs-last, ◌==◌, Bool-cases,
}
use m2_server.MessageQueue.{MessageQueue}

-- The queues at `ids` are allocated, and each one's `next` is the one after it.
abbrev pub Chain : (ℕ → Option MessageQueue) → List ℕ → Type 0
Chain mq [] = Unit
Chain mq (i ∷ ids) = (q : MessageQueue) × (mq i ≡ some q) × (q.next ≡ head? ids) × Chain mq ids

-- A write to a queue that is not on the list.
pub Chain-update :
    (mq : ℕ → Option MessageQueue) (p : ℕ) (v : Option MessageQueue) (ids : List ℕ)
    → occurs p ids ≡ false
    → Chain mq ids
    → Chain (update mq p v) ids
Chain-update mq p v [] h c = tt
Chain-update mq p v (i ∷ ids) h (q, e, n, c) =
    (q, ground arith, n, Chain-update mq p v ids (ground arith) c)

-- A change of a queue that keeps its `next`.
pub Chain-set :
    (mq : ℕ → Option MessageQueue) (p : ℕ) (q q' : MessageQueue) (ids : List ℕ)
    → mq p ≡ some q
    → q'.next ≡ q.next
    → Chain mq ids
    → Chain (update mq p (some q')) ids
Chain-set mq p q q' [] e n c = tt
Chain-set mq p q q' (i ∷ ids) e n (r, e', n', c) = elim (Bool-cases (i == p)) [
  | inl same ↦ (q', ground arith, ground arith, Chain-set mq p q q' ids e n c)
  | inr other ↦ (r, ground arith, n', Chain-set mq p q q' ids e n c)
]

-- The link that `skynet_globalmq_push` writes puts `p` behind the last queue `t`.
pub Chain-snoc :
    (mq : ℕ → Option MessageQueue) (p t : ℕ) (q last : MessageQueue) (ids : List ℕ)
    → last? ids ≡ some t
    → Distinct ids
    → occurs p ids ≡ false
    → mq p ≡ some q
    → q.next ≡ none
    → mq t ≡ some last
    → Chain mq ids
    → Chain (update mq t (some (record last { next = some p }))) (ids ++ p ∷ [])
Chain-snoc mq p t q last [] l d o e n e' c = cc
Chain-snoc mq p t q last (i ∷ []) l d o e n e' (r, er, nr, c) =
    let at_t : i ≡ t = some_inj l in
    (
      record last { next = some p },
      rw at_t (update_self mq t _),
      refl,
      (q, update_ne mq t p _ (occurs-ne p t (i ∷ []) o (occurs-last i [] t l)) ∙ e, n, tt),
    )
Chain-snoc mq p t q last (i ∷ j ∷ ids) l d o e n e' (r, er, nr, c) = (
  r,
  update_ne mq t i _ (occurs-ne i t (j ∷ ids) d.0 (occurs-last j ids t l)) ∙ er,
  nr,
  Chain-snoc mq p t q last (j ∷ ids) l d.1 (occurs_of_append p (i ∷ []) (j ∷ ids) o).1 e n e' c,
)

-- A queue on the list is allocated.
pub Chain-get :
    (mq : ℕ → Option MessageQueue) (t : ℕ) (ids : List ℕ)
    → occurs t ids ≡ true
    → Chain mq ids
    → (q : MessageQueue) × (mq t ≡ some q)
Chain-get mq t [] h c = cc
Chain-get mq t (i ∷ ids) h (q, e, n, c) = elim (Bool-cases (t == i)) [
  | inl same ↦ (q, ground arith)
  | inr other ↦ Chain-get mq t ids (ground arith) c
]

-- A heap that differs at a queue that is not on the list.
pub Chain-ext :
    {mq mq' : ℕ → Option MessageQueue} (p : ℕ) (ids : List ℕ)
    → ((j : ℕ) → j ≢ p → mq' j ≡ mq j)
    → occurs p ids ≡ false
    → Chain mq ids
    → Chain mq' ids
Chain-ext p [] same h c = tt
Chain-ext p (i ∷ ids) same h (q, e, n, c) =
    let (off, rest) = occurs_of_append p (i ∷ []) ids h in
    (
      q,
      same i (λ a. occurs-ne p i (i ∷ []) off (occurs-last i [] i refl) (sym a)) ∙ e,
      n,
      Chain-ext p ids same rest c,
    )
