-- ===== src/NetPack/Filter.antt =====
-- lualib-src/lua-netpack.c: filter_data cuts the bytes of a connection into packets.
use Prim.Native.Nat.{bit_or}
use m2_server.Common.{
  ℕ, ◌+◌, ◌*◌, ◌^◌, ◌<◌, ◌≡◌, refl, sym, ap, subst, ◌∙◌, arith, Option, none, some, List, [], ◌∷◌,
  ◌++◌, length, append_assoc, inl, inr, bit_or_comm,
}
use m2_server.Gate.Frames.{header_bytes}
use m2_server.NetPack.{
  NetPack, Queue, Uncomplete, Filtered, read_size, find_uncomplete, fill_packet, fill_uncomplete,
  start_packet, filter_after, filter_data,
}
use m2_server.NetPack.Ring.{Represents, Represents-hash}
use m2_server.NetPack.Chains.{Ok, ReadOk, Tidy, waiting, find_uncomplete_lem, Found}
use m2_server.NetPack.Waiting.{raw, raw_read, AllBytes, read_size-bytes}
use m2_server.NetPack.Branches.{CutsAll, start_packet_lem, fill_packet_lem}

-- The other bytes of a header whose first byte waited.
header_of : (b header : ℕ) → bit_or b (header * 2 ^ 8) ≡ read_size header b
unfolding read_size
header_of b header = bit_or_comm b (header * 2 ^ 8)

-- A call for the queue from which the entry was taken out counts for the queue before.
CutsAll-Found :
    {q : Queue} {fd : ℕ} {ms : List NetPack} {uc : Uncomplete} {hash' : ℕ → List Uncomplete}
    (input : List ℕ) (res : Option (Filtered × Queue))
    → Found q fd uc hash'
    → CutsAll (record q { hash = hash' }) fd ms input res
    → CutsAll q fd ms input res
CutsAll-Found input res f (out, q', queued, run, of, c) = (
  out,
  q',
  queued,
  run,
  of,
  record {
    represents = c.represents;
    tidy = c.tidy;
    others = λ i ne. c.others i ne ∙ f.others i ne;
    bytes = c.bytes;
  },
)

module _ (q : Queue) (uc : Uncomplete) where
  fill_known :
      (read : ℕ) (buffer : List ℕ)
      → uc.read ≡ some read
      → fill_uncomplete q uc.id uc buffer ≡ fill_packet q uc.id uc read buffer
  unfolding fill_uncomplete
  fill_known read buffer e = rw (e, fill_uncomplete) refl

  abbrev sized : ℕ → Uncomplete
  sized b = record uc { size = bit_or b (uc.header * 2 ^ 8); bytes = []; read = some 0 }

  fill_header :
      (b : ℕ) (rest : List ℕ)
      → uc.read ≡ none
      → fill_uncomplete q uc.id uc (b ∷ rest) ≡ fill_packet q uc.id (sized b) 0 rest
  unfolding fill_uncomplete
  fill_header b rest e = rw (e, fill_uncomplete) refl

module _ {q : Queue} {ms : List NetPack} (uc : Uncomplete) (r : Represents q ms) (t : Tidy q)
    (free : waiting q uc.id ≡ none) (ok : Ok uc) where
  fill_uncomplete_at :
      (read : Option ℕ) (buffer : List ℕ)
      → uc.read ≡ read
      → 0 < length buffer
      → AllBytes buffer
      → length ms + length buffer + 1 < 2 ^ 30
      → CutsAll q uc.id ms (raw (some uc) ++ buffer) (fill_uncomplete q uc.id uc buffer)
  fill_uncomplete_at none [] e p bs few = absurd (omega arith)
  fill_uncomplete_at none (b ∷ rest) e p bs few =
      let header_lt : uc.header < 2 ^ 8 = subst (λ o. ReadOk o uc) e ok in
      let size_eq = header_of b uc.header in
      let (header, small) = read_size-bytes uc.header b header_lt bs.0 in
      let small' : bit_or b (uc.header * 2 ^ 8) < 2 ^ 16 = omega (arith, size_eq, small) in
      let input : header_bytes 2 (bit_or b (uc.header * 2 ^ 8)) ++ ([] ++ rest)
          ≡ raw (some uc) ++ (b ∷ rest) =
        ap (λ m. header_bytes 2 m ++ rest) size_eq
        ∙ ap (λ hd. hd ++ rest) header
        ∙ ap (λ o. raw_read o uc ++ (b ∷ rest)) (sym e) in
      subst (λ xs. CutsAll q uc.id ms xs (fill_uncomplete q uc.id uc (b ∷ rest))) input
        (subst (CutsAll q uc.id ms (header_bytes 2 (bit_or b (uc.header * 2 ^ 8)) ++ rest))
          (sym (fill_header q uc b rest e))
          (fill_packet_lem {q = q} {ms = ms} (sized q uc b) r t free 0 rest refl (omega arith)
            small' bs.1 (omega (arith, few))))
  fill_uncomplete_at (some n) buffer e p bs few =
      let (len, short, small) = subst (λ o. ReadOk o uc) e ok in
      let input : header_bytes 2 uc.size ++ (uc.bytes ++ buffer) ≡ raw (some uc) ++ buffer =
        sym (append_assoc (header_bytes 2 uc.size) uc.bytes buffer)
        ∙ ap (λ o. raw_read o uc ++ buffer) (sym e) in
      subst (λ xs. CutsAll q uc.id ms xs (fill_uncomplete q uc.id uc buffer)) input
        (subst (CutsAll q uc.id ms (header_bytes 2 uc.size ++ (uc.bytes ++ buffer)))
          (sym (fill_known q uc n buffer e))
          (fill_packet_lem {q = q} {ms = ms} uc r t free n buffer len (omega (arith, short)) small
            bs few))

module _ (q : Queue) (fd : ℕ) (block : List ℕ) where
  filter_free : find_uncomplete q fd ≡ (none, q) → filter_data q fd block ≡ start_packet q fd block
  unfolding filter_data filter_after
  filter_free e = ap (λ x. filter_after x fd block) e

  filter_found :
      (uc : Uncomplete) (hash' : ℕ → List Uncomplete)
      → find_uncomplete q fd ≡ (some uc, record q { hash = hash' })
      → filter_data q fd block ≡ fill_uncomplete (record q { hash = hash' }) fd uc block
  unfolding filter_data filter_after
  filter_found uc hash' e = ap (λ x. filter_after x fd block) e

-- `filter_data` on a block of at least one byte, with fewer packets in the ring than 2^30 less the size
-- of the block and one, returns and loses no byte: the packets that it cuts, each behind its size, and
-- the bytes that wait for the socket then are together the bytes that waited for it before, and the
-- block. Only where it returns no packet itself, packets of the socket are in the ring, behind those
-- that were there. What waits for other sockets is as it was.
pub filter_data_lem :
    (q : Queue) (fd : ℕ) (ms : List NetPack) (block : List ℕ)
    → 0 < length block
    → AllBytes block
    → length ms + length block + 1 < 2 ^ 30
    → Represents q ms
    → Tidy q
    → CutsAll q fd ms (raw (waiting q fd) ++ block) (filter_data q fd block)
filter_data_lem q fd ms block p bs few r t = elim (find_uncomplete_lem q fd t) [
  | inl (e, free) ↦
      let res =
        start_packet_lem {q = q} {fd = fd} {ms = ms} r t free block p bs (omega (arith, few)) in
      subst (λ o. CutsAll q fd ms (raw o ++ block) (filter_data q fd block)) (sym free)
        (subst (CutsAll q fd ms block) (sym (filter_free q fd block e)) res)
  | inr (uc, hash', e, f) ↦
      let q1 : Queue = record q { hash = hash' } in
      let gone : waiting q1 uc.id ≡ none = subst (λ i. waiting q1 i ≡ none) (sym f.same) f.gone in
      let res =
        fill_uncomplete_at {q = q1} {ms = ms} uc (Represents-hash hash' r) f.tidy gone f.ok uc.read
          block refl p bs few in
      let res' : CutsAll q1 fd ms (raw (some uc) ++ block) (fill_uncomplete q1 fd uc block) =
        subst (λ i. CutsAll q1 i ms (raw (some uc) ++ block) (fill_uncomplete q1 i uc block)) f.same
          res in
      subst (λ o. CutsAll q fd ms (raw o ++ block) (filter_data q fd block)) (sym f.found)
        (subst (CutsAll q fd ms (raw (some uc) ++ block)) (sym (filter_found q fd block uc hash' e))
          (CutsAll-Found {q = q} {fd = fd} {ms = ms} {uc = uc} {hash' = hash'}
            (raw (some uc) ++ block) (fill_uncomplete q1 fd uc block) f res'))
]
