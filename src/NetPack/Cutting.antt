-- ===== src/NetPack/Cutting.antt =====
-- lualib-src/lua-netpack.c: push_more cuts the rest of a block into packets.
use m2_server.Common.{
  ℕ, zero, suc, ◌+◌, ◌-◌, ◌^◌, ◌≤◌, ◌<◌, ◌≡◌, refl, sym, ap, subst, ◌∙◌, arith, none, some, List,
  [], ◌∷◌, ◌++◌, length, take, drop, append_assoc, append-nil, take-append-drop, length-take,
  length-drop, length-append, ltb, Bool-cases, inl, inr, ltb→lt, ltb→le, ◌>>=◌, drop_all,
}
use m2_server.Gate.Frames.{frame, stream, header_bytes}
use m2_server.NetPack.{NetPack, Queue, read_size, save_uncomplete, push_more, half_header, partial}
use m2_server.NetPack.Ring.{Represents, push_data_lem}
use m2_server.NetPack.Chains.{Tidy, waiting}
use m2_server.NetPack.Waiting.{
  raw, AllBytes, AllBytes-drop, packs, Cuts, Cuts-save, read_size-bytes,
}

-- The chains decide what waits.
pub waiting-hash : (q q' : Queue) → q'.hash ≡ q.hash → (i : ℕ) → waiting q' i ≡ waiting q i
waiting-hash q q' e i = rw e refl

pub Tidy-hash : (q q' : Queue) → q'.hash ≡ q.hash → Tidy q → Tidy q'
Tidy-hash q q' e t = record { once = rw e t.once }

-- A packet goes into the ring, and then the rest of the bytes is cut.
pub Cuts-push :
    {q q1 q' : Queue} {fd : ℕ} {ms : List NetPack} (packet rest : List ℕ) (queued : List (List ℕ))
    → q1.hash ≡ q.hash
    → Cuts q1 fd (ms ++ record { id = fd; bytes = packet } ∷ []) rest [] queued q'
    → Cuts q fd ms (frame 2 packet ++ rest) [] (packet ∷ queued) q'
Cuts-push {q} {q1} {q'} {fd} {ms} packet rest queued e c = record {
  represents =
      subst (Represents q')
        (append_assoc ms (record { id = fd; bytes = packet } ∷ []) (packs fd queued)) c.represents;
  tidy = c.tidy;
  others = λ i ne. c.others i ne ∙ waiting-hash q q1 e i;
  bytes =
      append_assoc (frame 2 packet) (stream 2 queued) (raw (waiting q' fd))
      ∙ ap (λ xs. frame 2 packet ++ xs) c.bytes;
}

-- Nothing is left.
pub Cuts-done :
    {q : Queue} {fd : ℕ} {ms : List NetPack}
    → Represents q ms
    → Tidy q
    → waiting q fd ≡ none
    → Cuts q fd ms [] [] [] q
Cuts-done {q} {fd} {ms} r t free = record {
  represents = subst (Represents q) (sym (append-nil ms)) r;
  tidy = t;
  others = λ i ne. refl;
  bytes = ap raw free;
}

-- The first packet of a buffer that has all its bytes, and the rest.
pub first_packet :
    (b0 b1 : ℕ) (buffer : List ℕ)
    → b0 < 2 ^ 8
    → b1 < 2 ^ 8
    → read_size b0 b1 ≤ length buffer
    → frame 2 (take (read_size b0 b1) buffer) ++ drop (read_size b0 b1) buffer ≡ b0 ∷ b1 ∷ buffer
first_packet b0 b1 buffer h k enough =
    let n = read_size b0 b1 in
    let len : length (take n buffer) ≡ n = omega (arith, length-take n buffer) in
    ap (λ m. (header_bytes 2 m ++ take n buffer) ++ drop n buffer) len
    ∙ ap (λ hd. (hd ++ take n buffer) ++ drop n buffer) (read_size-bytes b0 b1 h k).0
    ∙ ap (λ xs. b0 ∷ b1 ∷ xs) (take-append-drop n buffer)

-- What the table keeps of a packet that is not complete.
pub Cuts-partial :
    {q : Queue} {ms : List NetPack} (fd b0 b1 : ℕ) (buffer : List ℕ)
    → Represents q ms
    → Tidy q
    → waiting q fd ≡ none
    → b0 < 2 ^ 8
    → b1 < 2 ^ 8
    → length buffer < read_size b0 b1
    → Cuts q fd ms
        (b0 ∷ b1 ∷ buffer)
        []
        []
        (save_uncomplete q (partial fd (read_size b0 b1) buffer))
Cuts-partial {q} {ms} fd b0 b1 buffer r t free h k short =
    let n = read_size b0 b1 in
    let (bytes, small) = read_size-bytes b0 b1 h k in
    subst (λ xs. Cuts q fd ms (xs ++ buffer) [] [] (save_uncomplete q (partial fd n buffer))) bytes
      (Cuts-save {q = q} {ms = ms} (partial fd n buffer) r t (refl, short, small) free)

-- `push_more` on a buffer with a byte at least, for a socket that has no packet waiting, returns and cuts
-- all the bytes.
pub push_more_lem :
    (fuel : ℕ) (q : Queue) (fd : ℕ) (ms : List NetPack) (buffer : List ℕ)
    → length buffer ≤ fuel
    → 0 < length buffer
    → AllBytes buffer
    → length ms + length buffer < 2 ^ 30
    → Represents q ms
    → Tidy q
    → waiting q fd ≡ none
    → (q' : Queue) × (queued : List (List ℕ)) × (push_more fuel q fd buffer ≡ some q')
      × Cuts q fd ms buffer [] queued q'
unfolding push_more
push_more_lem zero q fd ms buffer h p bs few r t free = absurd (omega arith)
push_more_lem (suc fuel) q fd ms [] h p bs few r t free = absurd (omega arith)
push_more_lem (suc fuel) q fd ms (b ∷ []) h p bs few r t free = (
  save_uncomplete q (half_header fd b),
  [],
  refl,
  Cuts-save {q = q} {ms = ms} (half_header fd b) r t bs.0 free,
)
push_more_lem (suc fuel) q fd ms (b0 ∷ b1 ∷ buffer) h p bs few r t free =
    let n = read_size b0 b1 in
    elim (Bool-cases (ltb (length buffer) n)) [
      | inl short ↦ (
        save_uncomplete q (partial fd n buffer),
        [],
        rw short refl,
        Cuts-partial {q = q} {ms = ms} fd b0 b1 buffer r t free bs.0 bs.1.0
            (ltb→lt (length buffer) n short),
      )
      | inr enough ↦
          let le = ltb→le (length buffer) n enough in
          let packet = take n buffer in
          let rest = drop n buffer in
          let rest_length = length-drop n buffer in
          let (q1, pushed, r1, hash) =
            push_data_lem {q = q} {ms = ms} fd packet r (omega (arith, few)) in
          let ms1 : List NetPack = ms ++ record { id = fd; bytes = packet } ∷ [] in
          let t1 = Tidy-hash q q1 hash t in
          let free1 = waiting-hash q q1 hash fd ∙ free in
          elim (Bool-cases (ltb 0 (length buffer - n))) [
            | inl more ↦
                let left = ltb→lt 0 (length buffer - n) more in
                let (q', queued, run, c) =
                  push_more_lem fuel q1 fd ms1 rest (omega (arith, h, rest_length))
                    (omega (arith, rest_length, left)) (AllBytes-drop n buffer bs.1.1)
                    (omega (
                      arith,
                      few,
                      rest_length,
                      length-append ms (record { id = fd; bytes = packet } ∷ []),
                    ))
                    r1 t1 free1 in
                (
                  q',
                  packet ∷ queued,
                  rw enough (rw (pushed, ◌>>=◌) (rw more run)),
                  subst (λ xs. Cuts q fd ms xs [] (packet ∷ queued) q')
                      (first_packet b0 b1 buffer bs.0 bs.1.0 le)
                      (Cuts-push {q = q} {q1 = q1} {q' = q'} {fd = fd} {ms = ms} packet rest queued
                        hash c),
                )
            | inr done ↦
                let nothing_left : rest ≡ [] =
                  drop_all n buffer (omega (arith, ltb→le 0 (length buffer - n) done)) in
                let c =
                  subst (λ xs. Cuts q1 fd ms1 xs [] [] q1) (sym nothing_left)
                    (Cuts-done {q = q1} {fd = fd} {ms = ms1} r1 t1 free1) in
                (
                  q1,
                  packet ∷ [],
                  rw enough (rw (pushed, ◌>>=◌) (rw done refl)),
                  subst (λ xs. Cuts q fd ms xs [] (packet ∷ []) q1)
                      (first_packet b0 b1 buffer bs.0 bs.1.0 le)
                      (Cuts-push {q = q} {q1 = q1} {q' = q1} {fd = fd} {ms = ms} packet rest [] hash
                        c),
                )
          ]
    ]
