-- ===== src/GateService/Pool.antt =====
-- service-src/service_gate.c: the nodes of the pool, in the free list or in the buffer of one connection.
use m2_server.Common.{
  ℕ, zero, suc, ◌+◌, ◌≤◌, ◌<◌, ◌≡◌, refl, ap, arith, Option, none, some, List, length, ◌>>=◌,
  Option-cases, Bool-cases, inl, inr, update, update_self, update_ne, ◌==◌, eq_of_==, ne_of_==, leb,
  some_inj, ltb, ltb→lt, ltb→le, sym, ◌∙◌,
}
use m2_server.DataBuffer.{
  Buffer, NodePool, read, appended, readheader, fetch_header, reset, int_limit,
}
use m2_server.DataBuffer.Contents.{push_returns, push_overflows}
use m2_server.DataBuffer.Pool.{Balanced, appended-Balanced, read-Balanced, clear-Balanced}
use m2_server.Gate.{
  Route, Delivery, Outcome, receiver, forward, dispatch_loop, dispatch_message, before, max_message,
}
use m2_server.GateService.{Connection}

fetch_header-Balanced :
    (db : Buffer) (mp : NodePool) (others h : ℕ) {r : Buffer × NodePool}
    → Balanced mp others db.chunks
    → fetch_header db mp h ≡ some (some r)
    → Balanced r.1 others r.0.chunks
unfolding fetch_header
fetch_header-Balanced db mp others h {r} b e = elim (Option-cases (read db mp h)) [
  | inl f ↦ ground (arith, f, e)
  | inr (t, f) ↦ ground (arith, f, e, read-Balanced db mp others h b f)
]

readheader-Balanced :
    (db : Buffer) (mp : NodePool) (others h : ℕ) {r : Option ℕ × Buffer × NodePool}
    → Balanced mp others db.chunks
    → readheader db mp h ≡ some r
    → Balanced r.2 others r.1.chunks
unfolding readheader
readheader-Balanced db mp others h {r} b e = elim (Option-cases (fetch_header db mp h)) [
  | inl f ↦ ground (arith, f, e)
  | inr (none, f) ↦ ground (arith, f, e)
  | inr (some t, f) ↦ ground (arith, f, e, fetch_header-Balanced db mp others h b f)
]

forward-Balanced :
    (r : Route) (db : Buffer) (mp : NodePool) (others n : ℕ) {t : List Delivery × Buffer × NodePool}
    → Balanced mp others db.chunks
    → forward r db mp n ≡ some t
    → Balanced t.2 others t.1.chunks
unfolding forward
forward-Balanced r db mp others n {t} b e = elim (Option-cases (receiver r)) [
  | inl f ↦ ground (arith, f, e)
  | inr (deliver, f) ↦ elim (Option-cases (read db mp n)) [
    | inl g ↦ ground (arith, f, e, g)
    | inr (u, g) ↦ ground (arith, f, e, g, read-Balanced db mp others n b g)
  ]
]

reset-Balanced :
    (db : Buffer) (mp : NodePool) (others : ℕ)
    → Balanced mp others db.chunks
    → Balanced mp others (reset db).chunks
unfolding reset
reset-Balanced db mp others b = b

before-Balanced :
    (m : Option Outcome) (ds : List Delivery) (others : ℕ) {o : Outcome}
    → ((o' : Outcome) → m ≡ some o' → Balanced o'.pool others o'.buffer.chunks)
    → (m >>= λ o'. some (before ds o')) ≡ some o
    → Balanced o.pool others o.buffer.chunks
before-Balanced none ds others all e = cc
before-Balanced (some o') ds others {o} all e = rw (← some_inj e) (all o' refl)

dispatch_loop-Balanced :
    (fuel : ℕ) (r : Route) (h : ℕ) (db : Buffer) (mp : NodePool) (others : ℕ) {o : Outcome}
    → Balanced mp others db.chunks
    → dispatch_loop fuel r h db mp ≡ some o
    → Balanced o.pool others o.buffer.chunks
unfolding dispatch_loop
dispatch_loop-Balanced zero r h db mp others b e = cc
dispatch_loop-Balanced (suc fuel) r h db mp others {o} b e =
    elim (Option-cases (readheader db mp h)) [
      | inl f ↦ ground (arith, f, e)
      | inr ((none, db', mp'), f) ↦ ground (arith, f, e, readheader-Balanced db mp others h b f)
      | inr ((some n, db', mp'), f) ↦
          let b' = readheader-Balanced db mp others h b f in
          elim (Bool-cases (n == 0)) [
            | inl z ↦
                dispatch_loop-Balanced fuel r h db' mp' others {o = o} b' (ground (arith, f, e, z))
            | inr p ↦ elim (Bool-cases (leb max_message n)) [
              | inl large ↦ ground (arith, f, e, p, large, clear-Balanced db' mp' others b')
              | inr fits ↦ elim (Option-cases (forward r db' mp' n)) [
                | inl none_sent ↦ ground (arith, f, e, p, fits, none_sent)
                | inr ((ds, db'', mp''), g) ↦
                    let b'' = forward-Balanced r db' mp' others n b' g in
                    before-Balanced (dispatch_loop fuel r h (reset db'') mp'') ds others {o = o}
                      (λ o' e'.
                        dispatch_loop-Balanced fuel r h (reset db'') mp'' others {o = o'}
                          (reset-Balanced db'' mp'' others b'') e')
                      (ground (arith, f, e, p, fits, g))
              ]
            ]
          ]
    ]

pub dispatch_message-Balanced :
    (r : Route) (h : ℕ) (db : Buffer) (mp : NodePool) (bytes : List ℕ) (others : ℕ) {o : Outcome}
    → Balanced mp others db.chunks
    → dispatch_message r h db mp bytes ≡ some o
    → Balanced o.pool others o.buffer.chunks
unfolding dispatch_message
dispatch_message-Balanced r h db mp bytes others {o} b e =
    let (db', mp') = appended db mp bytes in
    elim (Bool-cases (ltb (db.size + length bytes) int_limit)) [
      | inl fits ↦
          dispatch_loop-Balanced (suc (suc db'.size)) r h db' mp' others {o = o}
            (appended-Balanced db mp others bytes b)
            (sym (
                ap (λ p. p >>= λ (x, y). dispatch_loop (suc (suc x.size)) r h x y)
                  (push_returns db mp bytes (ltb→lt _ _ fits)))
              ∙ e)
      | inr over ↦ absurd (
          cc (
            sym (
              ap (λ p. p >>= λ (x, y). dispatch_loop (suc (suc x.size)) r h x y)
                (push_overflows db mp bytes (ltb→le _ _ over)))
            ∙ e))
    ]

-- The nodes in the buffers of the first `n` connections.
abbrev pub nodes : ℕ → (ℕ → Connection) → ℕ
nodes zero conn = 0
nodes (suc n) conn = length (conn n).buffer.chunks + nodes n conn

nodes-past :
    (n i : ℕ) (c : Connection) (conn : ℕ → Connection)
    → n ≤ i
    → nodes n (update conn i c) ≡ nodes n conn
nodes-past zero i c conn h = refl
nodes-past (suc n) i c conn h =
    rw (update_ne conn i n c (omega arith))
      (ap (λ t. length (conn n).buffer.chunks + t) (nodes-past n i c conn (omega arith)))

pub nodes-update :
    (n i : ℕ) (c : Connection) (conn : ℕ → Connection)
    → i < n
    → nodes n (update conn i c) + length (conn i).buffer.chunks
      ≡ nodes n conn + length c.buffer.chunks
nodes-update zero i c conn h = absurd (omega arith)
nodes-update (suc n) i c conn h = elim (Bool-cases (n == i)) [
  | inl last ↦
      let e = eq_of_== n i last in
      rw e (rw (update_self conn i c) (omega (arith, nodes-past i i c conn (omega arith))))
  | inr before ↦
      let d = ne_of_== n i before in
      rw (update_ne conn i n c d) (omega (arith, nodes-update n i c conn (omega (arith, d))))
]
