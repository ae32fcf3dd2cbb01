-- ===== src/NetPack/Branches.antt =====
-- lualib-src/lua-netpack.c: the branches of filter_data_ cut the bytes of a connection into packets.
use m2_server.Common.{
  ℕ, ◌+◌, ◌-◌, ◌^◌, ◌≤◌, ◌<◌, ◌≡◌, refl, sym, ap, subst, ◌∙◌, arith, Option, none, some, List, [],
  ◌∷◌, ◌++◌, length, take, drop, append_assoc, append-nil, take-append-drop, length-take,
  length-drop, length-append, ◌==◌, eq_of_==, ne_of_==, ltb, Bool-cases, inl, inr, ltb→lt, ltb→le,
  ◌>>=◌, drop_all,
}
use m2_server.Gate.Frames.{frame, header_bytes}
use m2_server.NetPack.{
  NetPack, Queue, Uncomplete, Filtered, nothing, packet, more, read_size, save_uncomplete,
  push_data, push_more, half_header, partial, fill_packet, start_packet,
}
use m2_server.NetPack.Ring.{Represents, push_data_lem}
use m2_server.NetPack.Chains.{Tidy, waiting}
use m2_server.NetPack.Waiting.{raw, AllBytes, AllBytes-drop, Cuts, Cuts-save, read_size-bytes}
use m2_server.NetPack.Cutting.{
  push_more_lem, Cuts-push, Cuts-done, Cuts-partial, first_packet, waiting-hash, Tidy-hash,
}

-- The packets that a call returns itself.
abbrev pub returned : Filtered → List (List ℕ)
returned nothing = []
returned (packet fd bytes) = bytes ∷ []
returned more = []

-- A packet that is returned is one of the socket, and then nothing went into the ring.
abbrev pub OfSocket : ℕ → Filtered → List (List ℕ) → Type 0
OfSocket fd nothing queued = queued ≡ []
OfSocket fd (packet i bytes) queued = (i ≡ fd) × (queued ≡ [])
OfSocket fd more queued = Unit

-- The call returns, and cuts the input.
abbrev pub CutsAll : Queue → ℕ → List NetPack → List ℕ → Option (Filtered × Queue) → Type 0
CutsAll q fd ms input r =
    (f : Filtered) × (q' : Queue) × (queued : List (List ℕ)) × (r ≡ some (f, q'))
    × OfSocket fd f queued
    × Cuts q fd ms input (returned f) queued q'

module _ {q : Queue} {fd : ℕ} {ms : List NetPack} (r : Represents q ms) (t : Tidy q)
    (free : waiting q fd ≡ none) where
  -- A packet that ends with its block is returned.
  Cuts-packet : (bytes : List ℕ) → Cuts q fd ms (frame 2 bytes) (bytes ∷ []) [] q
  Cuts-packet bytes =
      let c = Cuts-done {q = q} {fd = fd} {ms = ms} r t free in
      record {
        represents = c.represents;
        tidy = t;
        others = c.others;
        bytes =
            append_assoc (frame 2 bytes) [] (raw (waiting q fd))
            ∙ ap (λ xs. frame 2 bytes ++ xs) c.bytes
            ∙ append-nil (frame 2 bytes);
      }

  -- A packet that is followed by others goes into the ring, and they with it.
  push_rest :
      (bytes rest : List ℕ)
      → 0 < length rest
      → AllBytes rest
      → length ms + length rest + 1 < 2 ^ 30
      → (q1 q' : Queue) × (queued : List (List ℕ)) × (push_data q fd bytes ≡ some q1)
        × (push_more (length rest) q1 fd rest ≡ some q')
        × Cuts q fd ms (frame 2 bytes ++ rest) [] (bytes ∷ queued) q'
  push_rest bytes rest p bs few =
      let (q1, pushed, r1, hash) =
        push_data_lem {q = q} {ms = ms} fd bytes r (omega (arith, few)) in
      let pack : NetPack = record { id = fd; bytes = bytes } in
      let (q', queued, run, c) =
        push_more_lem (length rest) q1 fd (ms ++ pack ∷ []) rest (omega arith) p bs
          (omega (arith, few, length-append ms (pack ∷ []))) r1 (Tidy-hash q q1 hash t)
          (waiting-hash q q1 hash fd ∙ free) in
      (
        q1,
        q',
        queued,
        pushed,
        run,
        Cuts-push {q = q} {q1 = q1} {q' = q'} {fd = fd} {ms = ms} bytes rest queued hash c,
      )

  pub start_packet_lem :
      (buffer : List ℕ)
      → 0 < length buffer
      → AllBytes buffer
      → length ms + length buffer < 2 ^ 30
      → CutsAll q fd ms buffer (start_packet q fd buffer)
  unfolding start_packet
  start_packet_lem [] p bs few = absurd (omega arith)
  start_packet_lem (b ∷ []) p bs few =
      (nothing, _, [], refl, refl, Cuts-save {q = q} {ms = ms} (half_header fd b) r t bs.0 free)
  start_packet_lem (b0 ∷ b1 ∷ buffer) p bs few =
      let n = read_size b0 b1 in
      elim (Bool-cases (ltb (length buffer) n)) [
        | inl short ↦ (
          nothing,
          save_uncomplete q (partial fd n buffer),
          [],
          rw short refl,
          refl,
          Cuts-partial {q = q} {ms = ms} fd b0 b1 buffer r t free bs.0 bs.1.0
              (ltb→lt (length buffer) n short),
        )
        | inr enough ↦
            let le = ltb→le (length buffer) n enough in
            let whole = first_packet b0 b1 buffer bs.0 bs.1.0 le in
            elim (Bool-cases (length buffer == n)) [
              | inl exact ↦
                  let same = eq_of_== (length buffer) n exact in
                  let (header, small) = read_size-bytes b0 b1 bs.0 bs.1.0 in
                  let framed : frame 2 buffer ≡ b0 ∷ b1 ∷ buffer =
                    ap (λ m. header_bytes 2 m ++ buffer) same ∙ ap (λ hd. hd ++ buffer) header in
                  (
                    packet fd buffer,
                    q,
                    [],
                    rw enough (rw exact refl),
                    (refl, refl),
                    subst (λ xs. Cuts q fd ms xs (buffer ∷ []) [] q) framed (Cuts-packet buffer),
                  )
              | inr longer ↦
                  let ne = ne_of_== (length buffer) n longer in
                  let (q1, q', queued, pushed, run, c) =
                    push_rest (take n buffer) (drop n buffer)
                      (omega (arith, length-drop n buffer, le, ne)) (AllBytes-drop n buffer bs.1.1)
                      (omega (arith, few, length-drop n buffer)) in
                  (
                    more,
                    q',
                    take n buffer ∷ queued,
                    rw enough (rw longer (rw (pushed, ◌>>=◌) (rw (run, ◌>>=◌) refl))),
                    tt,
                    subst (λ xs. Cuts q fd ms xs [] (take n buffer ∷ queued) q') whole c,
                  )
            ]
      ]

module _ {q : Queue} {ms : List NetPack} (uc : Uncomplete) (r : Represents q ms) (t : Tidy q)
    (free : waiting q uc.id ≡ none) where
  pub fill_packet_lem :
      (read : ℕ) (buffer : List ℕ)
      → read ≡ length uc.bytes
      → read ≤ uc.size
      → uc.size < 2 ^ 16
      → AllBytes buffer
      → length ms + length buffer + 1 < 2 ^ 30
      → CutsAll q uc.id ms
          (header_bytes 2 uc.size ++ (uc.bytes ++ buffer))
          (fill_packet q uc.id uc read buffer)
  unfolding fill_packet
  fill_packet_lem read buffer len le small bs few =
      let need = uc.size - read in
      elim (Bool-cases (ltb (length buffer) need)) [
        | inl short ↦
            let kept : Uncomplete = record uc {
              bytes = uc.bytes ++ buffer;
              read = some (read + length buffer);
            } in
            let total = length-append uc.bytes buffer in
            (
              nothing,
              save_uncomplete q kept,
              [],
              rw short refl,
              refl,
              Cuts-save {q = q} {ms = ms} kept r t
                  (
                    omega (arith, len, total),
                    omega (arith, ltb→lt (length buffer) need short),
                    small,
                  )
                  free,
            )
        | inr enough ↦
            let fits = ltb→le (length buffer) need enough in
            let bytes = uc.bytes ++ take need buffer in
            let rest = drop need buffer in
            let size_eq : length bytes ≡ uc.size = omega (
              arith,
              length-append uc.bytes (take need buffer),
              length-take need buffer,
              len,
              le,
              fits,
            ) in
            let whole : frame 2 bytes ++ rest ≡ header_bytes 2 uc.size ++ (uc.bytes ++ buffer) =
              ap (λ m. (header_bytes 2 m ++ bytes) ++ rest) size_eq
              ∙ append_assoc (header_bytes 2 uc.size) bytes rest
              ∙ ap (λ xs. header_bytes 2 uc.size ++ xs)
                  (append_assoc uc.bytes (take need buffer) rest
                    ∙ ap (λ xs. uc.bytes ++ xs) (take-append-drop need buffer)) in
            elim (Bool-cases (length rest == 0)) [
              | inl exact ↦
                  let nothing_left : rest ≡ [] =
                    drop_all need buffer
                      (omega (arith, eq_of_== (length rest) 0 exact, length-drop need buffer)) in
                  let framed : frame 2 bytes ≡ header_bytes 2 uc.size ++ (uc.bytes ++ buffer) =
                    sym (append-nil (frame 2 bytes))
                    ∙ ap (λ xs. frame 2 bytes ++ xs) (sym nothing_left)
                    ∙ whole in
                  (
                    packet uc.id bytes,
                    q,
                    [],
                    rw enough (rw exact refl),
                    (refl, refl),
                    subst (λ xs. Cuts q uc.id ms xs (bytes ∷ []) [] q) framed
                        (Cuts-packet {q = q} {fd = uc.id} {ms = ms} r t free bytes),
                  )
              | inr longer ↦
                  let ne = ne_of_== (length rest) 0 longer in
                  let (q1, q', queued, pushed, run, c) =
                    push_rest {q = q} {fd = uc.id} {ms = ms} r t free bytes rest (omega (arith, ne))
                      (AllBytes-drop need buffer bs)
                      (omega (arith, few, length-drop need buffer)) in
                  (
                    more,
                    q',
                    bytes ∷ queued,
                    rw enough (rw longer (rw (pushed, ◌>>=◌) (rw (run, ◌>>=◌) refl))),
                    tt,
                    subst (λ xs. Cuts q uc.id ms xs [] (bytes ∷ queued) q') whole c,
                  )
            ]
      ]
