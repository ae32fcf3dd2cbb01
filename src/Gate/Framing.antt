-- ===== src/Gate/Framing.antt =====
-- However the stream of a client is cut into blocks, the gate sends on the messages that the client
-- framed, each once and in order.
use m2_server.Common.{
  ℕ, zero, suc, ◌+◌, ◌≤◌, ◌<◌, ◌≡◌, ◌≢◌, refl, arith, ◌⊎◌, inl, inr, true, false, Option, none,
  some, List, [], ◌∷◌, ◌++◌, ◌∙◌, ap, sym, length, take, drop, map, ◌==◌, if◌then◌else◌, ltb, leb,
  append_assoc, length-append, le→ltb, lt→ltb, eq→==, ne→==, Bool-cases, ltb→lt, eq_of_==, ne_of_==,
  lt→leb, ltb→le, length-drop,
}
use m2_server.DataBuffer.{Buffer, NodePool, read, fetch_header, readheader, reset, clear, int_limit}
use m2_server.DataBuffer.Contents.{IsValid, contents, read_lem}
use m2_server.Gate.{Route, Delivery, receiver, forward, max_message, Outcome, before, dispatch_loop}
use m2_server.Gate.Frames.{
  HeaderSize, header_bytes, stream, Fits, split_header, Knows, fetch_header_lem, header_pos,
  header_ne_nil, header_bytes-inj,
}

-- The bytes of the stream that the buffer still has to deliver, with a header that it has read.
abbrev pub pending_of : ℕ → ℕ → List ℕ → List ℕ
pending_of h header bytes = if header == 0 then bytes else header_bytes h header ++ bytes

abbrev pub pending : ℕ → Buffer → List ℕ
pending h db = pending_of h db.header (contents db)

abbrev pub AllFit : ℕ → List (List ℕ) → Type 0
AllFit h [] = Unit
AllFit h (m ∷ ms) = Fits h m × AllFit h ms

-- The buffer waits for bytes: for a header, or for the message behind it.
abbrev pub Waits : ℕ → Buffer → Type 0
Waits h db =
    ((db.header ≡ 0) × (db.size < h))
    ⊎ ((db.header ≢ 0) × (db.size < db.header) × (db.header < max_message))

-- A call delivers some of the messages `ms`; with `rem` still to come, the others are pending.
pub record Delivers (h : ℕ) (deliver : List ℕ → Delivery) (rem : List ℕ) (ms : List (List ℕ))
    (r : Option Outcome) : Type 0 where
  pub outcome : Outcome
  pub returns : r ≡ some outcome
  pub done : List (List ℕ)
  pub left : List (List ℕ)
  pub split : ms ≡ done ++ left
  pub sent : outcome.sent ≡ map deliver done
  pub stays_open : outcome.closed ≡ false
  pub valid : IsValid outcome.buffer
  pub rest : pending h outcome.buffer ++ rem ≡ stream h left
  pub waits : Waits h outcome.buffer

module _ (r : Route) (h : ℕ) (deliver : List ℕ → Delivery) (two : HeaderSize h)
    (chosen : receiver r ≡ some deliver) where
  -- `databuffer_readheader` finds the length of the next message, which is not there yet.
  waits_for_message :
      (db : Buffer) {db' : Buffer} (mp : NodePool) {mp' : NodePool} (fuel : ℕ) (m rem : List ℕ)
      (ms : List (List ℕ))
      → Fits h m
      → fetch_header db mp h ≡ some (some (db', mp'))
      → Knows db' (length m) rem (m ++ stream h ms)
      → db'.size < length m
      → Delivers h deliver rem (m ∷ ms) (dispatch_loop (suc fuel) r h db mp)
  unfolding dispatch_loop readheader
  waits_for_message db {db' = db'} mp {mp' = mp'} fuel m rem ms f e k few =
      let header_set : db'.header ≢ 0 = omega (arith, k.header, f.some_byte) in
      let not_big : leb int_limit db'.header ≡ false =
        lt→leb _ _ (omega (arith, k.header, f.small)) in
      let waiting : ltb db'.size db'.header ≡ true = lt→ltb _ _ (omega (arith, k.header)) in
      record {
        outcome = record { sent = []; closed = false; buffer = db'; pool = mp' };
        returns = rw e (rw not_big (rw waiting));
        done = [];
        left = m ∷ ms;
        split = refl;
        sent = refl;
        stays_open = refl;
        valid = k.valid;
        rest = rw (ne→== _ _ header_set) (
            append_assoc (header_bytes h db'.header) (contents db') rem
            ∙ ap (λ n. header_bytes h n ++ (contents db' ++ rem)) k.header
            ∙ ap (λ x. header_bytes h (length m) ++ x) k.bytes
            ∙ sym (append_assoc (header_bytes h (length m)) m (stream h ms)));
        waits = inr (header_set, omega (arith, k.header), omega (arith, k.header, f.small));
      }

  forward_lem :
      (db : Buffer) (mp : NodePool) (n : ℕ) {bytes : List ℕ} {db' : Buffer} {mp' : NodePool}
      → read db mp n ≡ some (bytes, db', mp')
      → forward r db mp n ≡ some (deliver bytes ∷ [], db', mp')
  unfolding forward
  forward_lem db mp n e = rw (chosen, forward) (rw e)

  -- The next message is there: it is sent on, and the loop goes on behind it.
  takes_message :
      (db : Buffer) {db' : Buffer} (mp : NodePool) {mp' : NodePool} (fuel : ℕ) (m rem : List ℕ)
      (ms : List (List ℕ))
      → Fits h m
      → fetch_header db mp h ≡ some (some (db', mp'))
      → Knows db' (length m) rem (m ++ stream h ms)
      → length m ≤ db'.size
      → ((db'' : Buffer) (mp'' : NodePool)
          → IsValid db''
          → db''.header ≡ 0
          → contents db'' ++ rem ≡ stream h ms
          → db''.size < db'.size
          → Delivers h deliver rem ms (dispatch_loop fuel r h db'' mp''))
      → Delivers h deliver rem (m ∷ ms) (dispatch_loop (suc fuel) r h db mp)
  unfolding dispatch_loop readheader reset
  takes_message db {db' = db'} mp {mp' = mp'} fuel m rem ms f e k enough rec =
      let n = db'.header in
      let not_big : leb int_limit n ≡ false = lt→leb _ _ (omega (arith, k.header, f.small)) in
      let fits : ltb db'.size n ≡ false = le→ltb _ _ (omega (arith, k.header)) in
      let not_max : leb max_message n ≡ false = lt→leb _ _ (omega (arith, k.header, f.small)) in
      let pos : 0 < n = omega (arith, k.header, f.some_byte) in
      let (db'', mp'', d, rd) = read_lem mp' n k.valid pos (omega (arith, k.header)) in
      let parts =
        split_header (contents db') rem m (stream h ms) k.bytes (omega (arith, k.valid.counted)) in
      let taken : take n (contents db') ≡ m = ap (λ x. take x (contents db')) k.header ∙ parts.0 in
      let left : contents db'' ++ rem ≡ stream h ms =
        ap (λ x. x ++ rem) (rd.left ∙ ap (λ x. drop x (contents db')) k.header) ∙ parts.1 in
      let o =
        rec (record db'' { header = 0 }) mp''
          (record { counted = rd.valid.counted; offset_in = rd.valid.offset_in }) refl left
          (omega (
            arith,
            rd.valid.counted,
            k.valid.counted,
            ap length rd.left,
            length-drop n (contents db'),
          )) in
      record {
        outcome = before (deliver m ∷ []) o.outcome;
        returns = rw e (
            rw not_big (
              rw fits (
                rw (ne→== n 0 (omega arith))
                  (rw not_max (rw (forward_lem db' mp' n d) (rw taken (rw o.returns)))))));
        done = m ∷ o.done;
        left = o.left;
        split = ap (λ x. m ∷ x) o.split;
        sent = ap (λ x. deliver m ∷ x) o.sent;
        stays_open = o.stays_open;
        valid = o.valid;
        rest = o.rest;
        waits = o.waits;
      }

  -- The next message is known: it is sent on if it is there.
  next_message :
      (db : Buffer) {db' : Buffer} (mp : NodePool) {mp' : NodePool} (fuel : ℕ) (m rem : List ℕ)
      (ms : List (List ℕ))
      → Fits h m
      → fetch_header db mp h ≡ some (some (db', mp'))
      → Knows db' (length m) rem (m ++ stream h ms)
      → ((db'' : Buffer) (mp'' : NodePool)
          → IsValid db''
          → db''.header ≡ 0
          → contents db'' ++ rem ≡ stream h ms
          → db''.size < db'.size
          → Delivers h deliver rem ms (dispatch_loop fuel r h db'' mp''))
      → Delivers h deliver rem (m ∷ ms) (dispatch_loop (suc fuel) r h db mp)
  next_message db {db' = db'} mp fuel m rem ms f e k rec =
      elim (Bool-cases (ltb db'.size (length m))) [
        | inl few ↦ waits_for_message db mp fuel m rem ms f e k (ltb→lt _ _ few)
        | inr enough ↦ takes_message db mp fuel m rem ms f e k (ltb→le _ _ enough) rec
      ]

  fetch_set :
      (db : Buffer) (mp : NodePool) → db.header ≢ 0 → fetch_header db mp h ≡ some (some (db, mp))
  unfolding fetch_header
  fetch_set db mp ne = rw (ne→== _ _ ne)

  fetch_waits :
      (db : Buffer) (mp : NodePool) → db.header ≡ 0 → db.size < h → fetch_header db mp h ≡ some none
  unfolding fetch_header
  fetch_waits db mp e few = rw (eq→== _ _ e) (rw (lt→ltb _ _ few))

  -- A buffer that has no header and too few bytes for one.
  waits_for_header :
      (db : Buffer) (mp : NodePool) (fuel : ℕ) (rem : List ℕ) (ms : List (List ℕ))
      → IsValid db
      → db.header ≡ 0
      → db.size < h
      → contents db ++ rem ≡ stream h ms
      → Delivers h deliver rem ms (dispatch_loop (suc fuel) r h db mp)
  unfolding dispatch_loop readheader
  waits_for_header db mp fuel rem ms v e few eq = record {
    outcome = record { sent = []; closed = false; buffer = db; pool = mp };
    returns = rw (fetch_waits db mp e few);
    done = [];
    left = ms;
    split = refl;
    sent = refl;
    stays_open = refl;
    valid = v;
    rest = rw (eq→== _ _ e) eq;
    waits = inl (e, few);
  }

  -- The loop from a buffer with no header.
  dispatch_from :
      (fuel : ℕ) (db : Buffer) (mp : NodePool) (rem : List ℕ) (ms : List (List ℕ))
      → AllFit h ms
      → IsValid db
      → db.header ≡ 0
      → db.size < fuel
      → contents db ++ rem ≡ stream h ms
      → Delivers h deliver rem ms (dispatch_loop fuel r h db mp)
  dispatch_from zero db mp rem ms fit v e lt eq = absurd (omega arith)
  dispatch_from (suc fuel) db mp rem [] fit v e lt eq =
      waits_for_header db mp fuel rem [] v e
        (omega (arith, v.counted, ap length eq, length-append (contents db) rem, header_pos two)) eq
  dispatch_from (suc fuel) db mp rem (m ∷ ms) fit v e lt eq = elim (Bool-cases (ltb db.size h)) [
    | inl few ↦ waits_for_header db mp fuel rem (m ∷ ms) v e (ltb→lt _ _ few) eq
    | inr enough ↦
        let eq' = eq ∙ append_assoc (header_bytes h (length m)) m (stream h ms) in
        let (db', mp', f, k, shrinks) =
          fetch_header_lem mp h m rem (m ++ stream h ms) two fit.0 v e (ltb→le _ _ enough) eq' in
        next_message db mp fuel m rem ms fit.0 f k (λ db'' mp'' v' e' eq'' lt'.
          dispatch_from fuel db'' mp'' rem ms fit.1 v' e' (omega arith) eq'')
  ]

  -- The loop from a buffer that may know the header of the next message.
  pub dispatch_pending :
      (fuel : ℕ) (db : Buffer) (mp : NodePool) (rem : List ℕ) (ms : List (List ℕ))
      → AllFit h ms
      → IsValid db
      → db.size + 1 < fuel
      → pending h db ++ rem ≡ stream h ms
      → Delivers h deliver rem ms (dispatch_loop fuel r h db mp)
  dispatch_pending zero db mp rem ms fit v lt eq = absurd (omega arith)
  dispatch_pending (suc fuel) db mp rem ms fit v lt eq = elim (Bool-cases (db.header == 0)) [
    | inl clear ↦
        dispatch_from (suc fuel) db mp rem ms fit v (eq_of_== _ _ clear) (omega arith)
          (rw clear at eq)
    | inr set ↦ known ms fit (ne_of_== _ _ set) (rw set at eq)
  ]
    where
      known :
          (ms : List (List ℕ))
          → AllFit h ms
          → db.header ≢ 0
          → (header_bytes h db.header ++ contents db) ++ rem ≡ stream h ms
          → Delivers h deliver rem ms (dispatch_loop (suc fuel) r h db mp)
      known [] fit ne e = absurd (
          header_ne_nil two db.header (contents db ++ rem)
            (sym (append_assoc (header_bytes h db.header) _ _) ∙ e))
      known (m ∷ ms) fit ne e =
          let (same, rest) = header_bytes-inj two db.header (length m) (
            sym (append_assoc (header_bytes h db.header) (contents db) rem)
            ∙ e
            ∙ append_assoc (header_bytes h (length m)) m (stream h ms)) in
          next_message db mp fuel m rem ms fit.0 (fetch_set db mp ne)
            (record { valid = v; header = same; bytes = rest })
            (λ db'' mp'' v' e' eq'' lt'.
              dispatch_from fuel db'' mp'' rem ms fit.1 v' e' (omega arith) eq'')
