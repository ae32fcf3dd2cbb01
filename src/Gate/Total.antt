-- ===== src/Gate/Total.antt =====
-- No input makes the gate fault: `dispatch_message` returns for every block of bytes and every
-- route, with a header that is anything, and leaves the buffer valid.
use m2_server.Common.{
  ℕ, zero, suc, ◌+◌, ◌≤◌, ◌<◌, ◌≡◌, refl, arith, ◌⊎◌, inl, inr, true, false, Option, none, some,
  List, [], ◌∷◌, length, ◌==◌, if◌then◌else◌, ltb, leb, ◌||◌, Bool-cases, Option-cases, ltb→le,
  eq_of_==, ne_of_==, eq→==, ap, length-drop, take, ◌>>=◌,
}
use m2_server.DataBuffer.{
  Buffer, NodePool, empty, appended, fetch_header, header_value, readheader, reset, clear,
  int_limit,
}
use m2_server.DataBuffer.Contents.{
  IsValid, contents, read_lem, push_lem, push_returns, push_overflows,
}
use m2_server.Gate.{
  Route, Delivery, receiver, forward, max_message, Outcome, before, dispatch_loop, dispatch_message,
}
use m2_server.Gate.Frames.{HeaderSize, header_pos}

-- Bytes to read, and one for a header that is read already.
abbrev weight : Buffer → ℕ
weight db = if db.header == 0 then db.size else db.size + 1

-- A header is there, was read, or has to wait for bytes.
fetch_total :
    (db : Buffer) (mp : NodePool) (h : ℕ)
    → HeaderSize h
    → IsValid db
    → (fetch_header db mp h ≡ some none)
      ⊎ ((db' : Buffer) × (mp' : NodePool) × (fetch_header db mp h ≡ some (some (db', mp')))
          × IsValid db'
          × (db'.size < weight db))
unfolding fetch_header
fetch_total db mp h two v = elim (Bool-cases (db.header == 0)) [
  | inr set ↦ inr (db, mp, rw set, v, rw set (omega arith))
  | inl clear ↦ elim (Bool-cases (ltb db.size h)) [
    | inl few ↦ inl (rw clear (rw few))
    | inr enough ↦
        let (db', mp', e, r) = read_lem mp h v (header_pos two) (ltb→le _ _ enough) in
        inr (
          record db' { header = header_value h (take h (contents db)) },
          mp',
          rw clear (rw enough (rw e)),
          record { counted = r.valid.counted; offset_in = r.valid.offset_in },
          rw clear (
              omega (
                arith,
                r.valid.counted,
                v.counted,
                ap length r.left,
                length-drop h (contents db),
                header_pos two,
                ltb→le _ _ enough,
              )),
        )
  ]
]

abbrev pub Returns : Option Outcome → Type 0
Returns r = (o : Outcome) × (r ≡ some o) × IsValid o.buffer

-- `_forward` of a message that is there.
forward_total :
    (r : Route) (db : Buffer) (mp : NodePool) (n : ℕ)
    → IsValid db
    → 0 < n
    → n ≤ db.size
    → (ds : List Delivery) × (db' : Buffer) × (mp' : NodePool) × (forward r db mp n
        ≡ some (ds, db', mp'))
      × IsValid db'
      × (db'.size ≤ db.size)
unfolding forward
forward_total r db mp n v pos h = elim (Option-cases (receiver r)) [
  | inl e ↦ ([], db, mp, rw (e, forward) refl, v, omega arith)
  | inr (deliver, e) ↦
      let (db', mp', d, rd) = read_lem mp n v pos h in
      (
        deliver (take n (contents db)) ∷ [],
        db',
        mp',
        rw (e, forward) (rw d),
        rd.valid,
        omega (arith, rd.valid.counted, v.counted, ap length rd.left, length-drop n (contents db)),
      )
]

-- A round of the loop after which it stops, goes on behind an empty message, or behind a message.
module _ (r : Route) (h : ℕ) (two : HeaderSize h) where
  stops :
      (fuel : ℕ) (db : Buffer) (mp : NodePool)
      → IsValid db
      → fetch_header db mp h ≡ some none
      → Returns (dispatch_loop (suc fuel) r h db mp)
  unfolding dispatch_loop readheader
  stops fuel db mp v e = (record { sent = []; closed = false; buffer = db; pool = mp }, rw e, v)

  -- With the header there: every branch of the round, given that the next one returns.
  goes_on :
      (fuel : ℕ) (db : Buffer) (mp : NodePool) (db' : Buffer) (mp' : NodePool)
      → fetch_header db mp h ≡ some (some (db', mp'))
      → IsValid db'
      → ((db'' : Buffer) (mp'' : NodePool)
          → IsValid db''
          → db''.header ≡ 0
          → db''.size ≤ db'.size
          → Returns (dispatch_loop fuel r h db'' mp''))
      → Returns (dispatch_loop (suc fuel) r h db mp)
  unfolding dispatch_loop readheader clear reset
  goes_on fuel db mp db' mp' e v rec =
      elim (Bool-cases (leb int_limit db'.header || ltb db'.size db'.header)) [
        | inl waits ↦
            (record { sent = []; closed = false; buffer = db'; pool = mp' }, rw e (rw waits), v)
        | inr there ↦ elim (Bool-cases (db'.header == 0)) [
          | inl nothing ↦
              let (o, d, v') = rec db' mp' v (eq_of_== _ _ nothing) (omega arith) in
              (o, rw e (rw there (rw nothing d)), v')
          | inr something ↦ elim (Bool-cases (leb max_message db'.header)) [
            | inl big ↦ (
              record {
                sent = [];
                closed = true;
                buffer = empty;
                pool = record mp' { free = mp'.free + length db'.chunks };
              },
              rw e (rw there (rw something (rw big))),
              record { counted = refl; offset_in = refl },
            )
            | inr small ↦
                let pos : 0 < db'.header = omega (arith, ne_of_== _ _ something) in
                let fits : db'.header ≤ db'.size = ground (arith, there) in
                let (ds, db'', mp'', f, v'', le) = forward_total r db' mp' db'.header v pos fits in
                let (o, d, v') =
                  rec (record db'' { header = 0 }) mp''
                    (record { counted = v''.counted; offset_in = v''.offset_in }) refl le in
                (before ds o, rw e (rw there (rw something (rw small (rw f (rw d))))), v')
          ]
        ]
      ]

  loop_total :
      (fuel : ℕ) (db : Buffer) (mp : NodePool)
      → IsValid db
      → weight db < fuel
      → Returns (dispatch_loop fuel r h db mp)
  loop_total zero db mp v lt = absurd (omega arith)
  loop_total (suc fuel) db mp v lt = elim (fetch_total db mp h two v) [
    | inl e ↦ stops fuel db mp v e
    | inr (db', mp', e, v', less) ↦ goes_on fuel db mp db' mp' e v' (λ db'' mp'' v'' clear le.
        loop_total fuel db'' mp'' v'' (rw (eq→== _ _ clear) (omega arith)))
  ]

  -- Where the buffer and the block have less than 2^31 bytes together, with headers of two or four bytes and
  -- a valid buffer, `dispatch_message` returns whatever the client sent, on every route, and leaves a valid
  -- buffer.
  pub dispatch_message-Returns :
      (db : Buffer) (mp : NodePool) (block : List ℕ)
      → IsValid db
      → db.size + length block < int_limit
      → Returns (dispatch_message r h db mp block)
  unfolding dispatch_message
  dispatch_message-Returns db mp block v lt =
      let (db', mp') = appended db mp block in
      rw (push_returns db mp block lt, ◌>>=◌)
        (loop_total (suc (suc db'.size)) db' mp' (push_lem mp block v).0 (weight-lt db'))
    where
      weight-lt : (x : Buffer) → weight x < suc (suc x.size)
      weight-lt x = ground arith

  -- Else the size of the buffer overflows.
  pub dispatch_message-overflows :
      (db : Buffer) (mp : NodePool) (block : List ℕ)
      → int_limit ≤ db.size + length block
      → dispatch_message r h db mp block ≡ none
  unfolding dispatch_message
  dispatch_message-overflows db mp block ge = rw (push_overflows db mp block ge, ◌>>=◌) refl
