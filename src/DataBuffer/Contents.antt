-- ===== src/DataBuffer/Contents.antt =====
-- A buffer is the string of bytes that were pushed and not read, however they came in blocks.
use m2_server.Common.{
  ℕ, ◌+◌, ◌-◌, ◌≤◌, ◌<◌, ◌≡◌, refl, arith, some, List, [], ◌∷◌, ◌++◌, ◌∙◌, ap, sym, length, take,
  drop, length-append, length-drop, take-append_le, drop-append_le, take-append_ge, drop-append_ge,
  append-nil, drop-drop, drop_all, ltb, Bool-cases, inl, inr, ◌==◌, ltb→lt, eq_of_==, take_all,
  flatten, flatten-append, ap₂, le→leb, lt→ltb, le→ltb, none, ◌>>=◌,
}
use m2_server.DataBuffer.{
  Buffer, NodePool, Taken, give_back, read_loop, read, appended, push, int_limit,
}

abbrev pub unread : List (List ℕ) → ℕ → List ℕ
unread chunks offset = drop offset (flatten chunks)

abbrev pub contents : Buffer → List ℕ
contents db = unread db.chunks db.offset

-- The offset lies in the first node.
abbrev pub OffsetIn : List (List ℕ) → ℕ → Type 0
OffsetIn [] offset = offset ≡ 0
OffsetIn (c ∷ cs) offset = offset ≤ length c

pub record IsValid (db : Buffer) : Type 0 where
  pub counted : db.size ≡ length (contents db)
  pub offset_in : OffsetIn db.chunks db.offset

-- What the loop of `databuffer_read` returns from these nodes.
pub record Reads (chunks : List (List ℕ)) (offset sz : ℕ) (t : Taken) : Type 0 where
  pub bytes : t.bytes ≡ take sz (unread chunks offset)
  pub left : unread t.chunks t.offset ≡ drop sz (unread chunks offset)
  pub offset_in : OffsetIn t.chunks t.offset

OffsetIn-zero : (chunks : List (List ℕ)) → OffsetIn chunks 0
OffsetIn-zero [] = refl
OffsetIn-zero (c ∷ cs) = omega arith

-- The unread bytes are those left in the first node, and then the other nodes.
unread-cons :
    (c : List ℕ) (cs : List (List ℕ)) (offset : ℕ)
    → offset ≤ length c
    → unread (c ∷ cs) offset ≡ drop offset c ++ flatten cs
unread-cons c cs offset h = drop-append_le offset c (flatten cs) h

-- A read that ends inside the first node, at its end, and behind it.
Reads-within :
    (c : List ℕ) (cs : List (List ℕ)) (offset : ℕ) (mp : NodePool) (sz : ℕ)
    → offset + sz ≤ length c
    → Reads (c ∷ cs) offset sz (record {
      bytes = take sz (drop offset c);
      chunks = c ∷ cs;
      offset = offset + sz;
      pool = mp;
    })
Reads-within c cs offset mp sz h = record {
  bytes =
      rw (unread-cons c cs offset (omega arith)) (
        sym (take-append_le sz (drop offset c) (flatten cs) (omega (arith, length-drop offset c))));
  left = sym (drop-drop sz offset (c ++ flatten cs));
  offset_in = h;
}

Reads-all :
    (c : List ℕ) (cs : List (List ℕ)) (offset : ℕ) (mp : NodePool) (sz : ℕ)
    → offset + sz ≡ length c
    → Reads
        (c ∷ cs)
        offset
        sz
        (record { bytes = take sz (drop offset c); chunks = cs; offset = 0; pool = mp })
Reads-all c cs offset mp sz h =
    let len = length-drop offset c in
    let none_left : sz - length (drop offset c) ≡ 0 = omega arith in
    record {
      bytes =
          rw (unread-cons c cs offset (omega arith))
            (sym (take-append_le sz (drop offset c) (flatten cs) (omega arith)));
      left = rw (unread-cons c cs offset (omega arith)) (
          sym (
            drop-append_ge sz (drop offset c) (flatten cs) (omega arith)
            ∙ ap (λ k. drop k (flatten cs)) none_left));
      offset_in = OffsetIn-zero cs;
    }

Reads-beyond :
    (c : List ℕ) (cs : List (List ℕ)) (offset bsz sz : ℕ) (t : Taken)
    → offset + bsz ≡ length c
    → bsz ≤ sz
    → Reads cs 0 (sz - bsz) t
    → Reads (c ∷ cs) offset sz (record t { bytes = take bsz (drop offset c) ++ t.bytes })
Reads-beyond c cs offset bsz sz t h more r =
    let len = length-drop offset c in
    let e : sz - length (drop offset c) ≡ sz - bsz = omega arith in
    record {
      bytes = rw (unread-cons c cs offset (omega arith)) (
          ap₂ ◌++◌ (take_all bsz (drop offset c) (omega arith)) r.bytes
          ∙ sym (
              take-append_ge sz (drop offset c) (flatten cs) (omega arith)
              ∙ ap (λ k. drop offset c ++ take k (flatten cs)) e));
      left = rw (unread-cons c cs offset (omega arith)) (
          r.left
          ∙ sym (
              drop-append_ge sz (drop offset c) (flatten cs) (omega arith)
              ∙ ap (λ k. drop k (flatten cs)) e));
      offset_in = r.offset_in;
    }

read_loop_lem :
    (chunks : List (List ℕ)) (offset : ℕ) (mp : NodePool) (sz : ℕ)
    → OffsetIn chunks offset
    → 0 < sz
    → sz ≤ length (unread chunks offset)
    → (t : Taken) × (read_loop chunks offset mp sz ≡ some t) × Reads chunks offset sz t
unfolding read_loop
read_loop_lem [] offset mp sz o p h =
    absurd (omega (arith, ap length (drop_all {A = ℕ} offset [] (omega arith))))
read_loop_lem (c ∷ cs) offset mp sz o p h = elim (Bool-cases (ltb sz (length c - offset))) [
  | inl less ↦ (_, rw less, Reads-within c cs offset mp sz (omega (arith, ltb→lt _ _ less)))
  | inr more ↦ elim (Bool-cases (length c - offset == sz)) [
    | inl equal ↦ (
      _,
      rw more (rw equal),
      Reads-all c cs offset (give_back mp) sz (omega (arith, eq_of_== _ _ equal)),
    )
    | inr over ↦
        let bsz = length c - offset in
        let past : bsz < sz = ground (arith, more, over) in
        let len =
          ap length (unread-cons c cs offset o) ∙ length-append (drop offset c) (flatten cs) in
        let (t, e, r) =
          read_loop_lem cs 0 (give_back mp) (sz - bsz) (OffsetIn-zero cs) (omega arith)
            (omega (arith, length-drop offset c)) in
        (
          _,
          rw more (rw over (rw e)),
          Reads-beyond c cs offset bsz sz t (omega arith) (omega arith) r,
        )
  ]
]

-- What `databuffer_read` leaves of the buffer: the bytes after those read.
pub record ReadsTo (db : Buffer) (sz : ℕ) (db' : Buffer) : Type 0 where
  pub valid : IsValid db'
  pub left : contents db' ≡ drop sz (contents db)
  pub header : db'.header ≡ db.header

-- From a valid buffer a read of at least one byte, and no more than are there, returns the first bytes
-- whatever blocks they came in, and leaves the others in a valid buffer.
pub read_lem :
    {db : Buffer} (mp : NodePool) (sz : ℕ)
    → IsValid db
    → 0 < sz
    → sz ≤ db.size
    → (db' : Buffer) × (mp' : NodePool) × (read db mp sz ≡ some (take sz (contents db), db', mp'))
      × ReadsTo db sz db'
unfolding read
read_lem {db} mp sz v p h =
    let (t, e, r) =
      read_loop_lem db.chunks db.offset mp sz v.offset_in p (omega (arith, v.counted)) in
    (
      record db { size = db.size - sz; chunks = t.chunks; offset = t.offset },
      t.pool,
      rw (le→leb sz db.size h) (rw e (rw r.bytes)),
      record {
        valid = record {
          counted = omega (arith, v.counted, ap length r.left, length-drop sz (contents db));
          offset_in = r.offset_in;
        };
        left = r.left;
        header = refl;
      },
    )

OffsetIn-snoc :
    (chunks : List (List ℕ)) (offset : ℕ) (bytes : List ℕ)
    → OffsetIn chunks offset
    → OffsetIn (chunks ++ bytes ∷ []) offset
OffsetIn-snoc [] offset bytes h = omega arith
OffsetIn-snoc (c ∷ cs) offset bytes h = h

unread-snoc :
    (chunks : List (List ℕ)) (offset : ℕ) (bytes : List ℕ)
    → OffsetIn chunks offset
    → unread (chunks ++ bytes ∷ []) offset ≡ unread chunks offset ++ bytes
unread-snoc [] offset bytes h = rw h (append-nil bytes)
unread-snoc (c ∷ cs) offset bytes h =
    let e =
      flatten-append (c ∷ cs) (bytes ∷ []) ∙ ap (λ x. flatten (c ∷ cs) ++ x) (append-nil bytes) in
    ap (drop offset) e
    ∙ drop-append_le offset (flatten (c ∷ cs)) bytes (omega (arith, length-append c (flatten cs)))

-- `databuffer_push` returns where the new size is an `int`, and faults else.
pub push_returns :
    (db : Buffer) (mp : NodePool) (bytes : List ℕ)
    → db.size + length bytes < int_limit
    → push db mp bytes ≡ some (appended db mp bytes)
unfolding push
push_returns db mp bytes h = rw (lt→ltb (db.size + length bytes) int_limit h, ◌>>=◌) refl

pub push_overflows :
    (db : Buffer) (mp : NodePool) (bytes : List ℕ)
    → int_limit ≤ db.size + length bytes
    → push db mp bytes ≡ none
unfolding push
push_overflows db mp bytes h = rw (le→ltb (db.size + length bytes) int_limit h, ◌>>=◌) refl

-- `databuffer_push` adds the bytes at the end.
pub push_lem :
    {db : Buffer} (mp : NodePool) (bytes : List ℕ)
    → IsValid db
    → IsValid (appended db mp bytes).0
      × (contents (appended db mp bytes).0 ≡ contents db ++ bytes)
      × ((appended db mp bytes).0.header ≡ db.header)
push_lem {db} mp bytes v =
    let e = unread-snoc db.chunks db.offset bytes v.offset_in in
    (
      record {
        counted = omega (arith, v.counted, ap length e, length-append (contents db) bytes);
        offset_in = OffsetIn-snoc db.chunks db.offset bytes v.offset_in;
      },
      e,
      refl,
    )
