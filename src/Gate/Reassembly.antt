-- ===== src/Gate/Reassembly.antt =====
-- A connection as a whole: the messages that the client framed come out, however TCP cuts the bytes.
use m2_server.Common.{
  ℕ, suc, ◌+◌, ◌≤◌, ◌<◌, ◌>>=◌, ◌≡◌, refl, arith, inl, inr, false, some, List, [], ◌∷◌, ◌++◌, ◌∙◌,
  ap, ap₂, sym, subst, length, flatten, map, ◌==◌, append_assoc, append-nil, length-append,
  Bool-cases, eq→==, ne→==, map-append,
}
use m2_server.DataBuffer.{Buffer, NodePool, empty, appended, int_limit}
use m2_server.DataBuffer.Contents.{IsValid, contents, push_lem, push_returns}
use m2_server.Gate.{
  Route, Delivery, receiver, Outcome, before, dispatch_message, receive_all, max_message,
}
use m2_server.Gate.Frames.{
  HeaderSize, header_bytes, stream, length-header_bytes, header_pos, header_bytes-inj,
}
use m2_server.Gate.Framing.{pending, pending_of, AllFit, Waits, Delivers, dispatch_pending}

AllFit-append : (h : ℕ) (xs ys : List (List ℕ)) → AllFit h (xs ++ ys) → AllFit h ys
AllFit-append h [] ys f = f
AllFit-append h (x ∷ xs) ys f = AllFit-append h xs ys f.1

-- A buffer that waits holds no whole message.
Waits-eq-nil :
    {h : ℕ} {db : Buffer} (ms : List (List ℕ))
    → HeaderSize h
    → IsValid db
    → Waits h db
    → pending h db ≡ stream h ms
    → ms ≡ []
Waits-eq-nil [] two v w e = refl
Waits-eq-nil {h} {db} (m ∷ ms) two v (inl (clear, few)) e =
    let e' : contents db ≡ stream h (m ∷ ms) = rw (eq→== _ _ clear) at e in
    absurd (
      omega (
        arith,
        v.counted,
        ap length e',
        length-append (header_bytes h (length m) ++ m) (stream h ms),
        length-append (header_bytes h (length m)) m,
        length-header_bytes h (length m) two,
      ))
Waits-eq-nil {h} {db} (m ∷ ms) two v (inr (set, few, small)) e =
    let e' : header_bytes h db.header ++ contents db ≡ stream h (m ∷ ms) =
      rw (ne→== _ _ set) at e in
    let (same, rest) =
      header_bytes-inj two db.header (length m)
        (e' ∙ append_assoc (header_bytes h (length m)) m (stream h ms)) in
    absurd (omega (arith, v.counted, ap length rest, length-append m (stream h ms)))

-- Blocks so short that, behind what a waiting buffer holds, their bytes are counted by an `int`.
abbrev pub AllShort : List (List ℕ) → Type 0
AllShort [] = Unit
AllShort (block ∷ blocks) = (length block + max_message ≤ int_limit) × AllShort blocks

Waits-room :
    {h : ℕ} (db : Buffer) (block : List ℕ)
    → HeaderSize h
    → Waits h db
    → length block + max_message ≤ int_limit
    → db.size + length block < int_limit
Waits-room db block (inl two) (inl (clear, few)) short = omega (arith, two, few, short)
Waits-room db block (inr four) (inl (clear, few)) short = omega (arith, four, few, short)
Waits-room db block two (inr (set, few, small)) short = omega (arith, few, small, short)

pending_of-append :
    (h header : ℕ) (xs ys : List ℕ) → pending_of h header (xs ++ ys) ≡ pending_of h header xs ++ ys
pending_of-append h header xs ys = elim (Bool-cases (header == 0)) [
  | inl clear ↦ rw clear
  | inr set ↦ rw set (sym (append_assoc (header_bytes h header) xs ys))
]

pending-appended :
    (h : ℕ) (db : Buffer) (mp : NodePool) (block : List ℕ)
    → IsValid db
    → pending h (appended db mp block).0 ≡ pending h db ++ block
pending-appended h db mp block v =
    let (v', e, same) = push_lem mp block v in
    ap₂ (pending_of h) same e ∙ pending_of-append h db.header (contents db) block

module _ (r : Route) (h : ℕ) (deliver : List ℕ → Delivery) (two : HeaderSize h)
    (chosen : receiver r ≡ some deliver) where
  -- One data event.
  dispatch_message_lem :
      (db : Buffer) (mp : NodePool) (block rem : List ℕ) (ms : List (List ℕ))
      → AllFit h ms
      → IsValid db
      → db.size + length block < int_limit
      → (pending h db ++ block) ++ rem ≡ stream h ms
      → Delivers h deliver rem ms (dispatch_message r h db mp block)
  unfolding dispatch_message
  dispatch_message_lem db mp block rem ms fit v lt eq =
      let (db', mp') = appended db mp block in
      rw (push_returns db mp block lt, ◌>>=◌)
        (dispatch_pending r h deliver two chosen (suc (suc db'.size)) db' mp' rem ms fit
          (push_lem mp block v).0 (omega arith)
          (ap (λ x. x ++ rem) (pending-appended h db mp block v) ∙ eq))

  receive_from :
      (db : Buffer) (mp : NodePool) (blocks ms : List (List ℕ))
      → AllShort blocks
      → AllFit h ms
      → IsValid db
      → Waits h db
      → pending h db ++ flatten blocks ≡ stream h ms
      → (o : Outcome) × (receive_all r h db mp blocks ≡ some o)
        × (o.sent ≡ map deliver ms)
        × (o.closed ≡ false)
        × (pending h o.buffer ≡ [])
  unfolding receive_all
  receive_from db mp [] ms short fit v w eq =
      let eq' = sym (append-nil (pending h db)) ∙ eq in
      let none_left = Waits-eq-nil ms two v w eq' in
      (
        record { sent = []; closed = false; buffer = db; pool = mp },
        refl,
        ap (map deliver) (sym none_left),
        refl,
        eq' ∙ ap (stream h) none_left,
      )
  receive_from db mp (block ∷ blocks) ms short fit v w eq =
      let d =
        dispatch_message_lem db mp block (flatten blocks) ms fit v
          (Waits-room db block two w short.0)
          (append_assoc (pending h db) block (flatten blocks) ∙ eq) in
      let (o, e, sent, open_, rest) =
        receive_from d.outcome.buffer d.outcome.pool blocks d.left short.1
          (AllFit-append h d.done d.left (subst (AllFit h) d.split fit)) d.valid d.waits d.rest in
      (
        before d.outcome.sent o,
        rw d.returns (rw d.stays_open (rw e)),
        ap₂ ◌++◌ d.sent sent ∙ sym (ap (map deliver) d.split ∙ map-append deliver d.done d.left),
        open_,
        rest,
      )

  -- With headers of two or four bytes and a route that has a receiver, a new connection that gets the
  -- stream of some messages, each of them at least one byte and short enough for the header and the
  -- gate, delivers exactly these messages in order, is not closed and keeps no byte, for every way to
  -- cut the stream into blocks of at most 2^31 - 2^24 bytes.
  pub reassembles :
      (mp : NodePool) (blocks ms : List (List ℕ))
      → AllShort blocks
      → AllFit h ms
      → flatten blocks ≡ stream h ms
      → (o : Outcome) × (receive_all r h empty mp blocks ≡ some o)
        × (o.sent ≡ map deliver ms)
        × (o.closed ≡ false)
        × (pending h o.buffer ≡ [])
  reassembles mp blocks ms short fit eq =
      receive_from empty mp blocks ms short fit (record { counted = refl; offset_in = refl })
        (inl (refl, header_pos two)) eq
