-- ===== src/Context/Sending.antt =====
-- skynet-src/skynet_server.c: what skynet_send does with a message.
use Prim.Native.Nat.{bit_and, bit_or}
use native.Mathlib.Decide.{dec_lt}
use m2_server.Common.{
  ℕ, ◌+◌, ◌-◌, ◌*◌, ◌/◌, ◌%◌, ◌^◌, ◌≤◌, ◌<◌, ◌≡◌, ◌≢◌, refl, sym, ap, ap₂, subst, ◌∙◌, arith, true,
  false, Option, some, List, [], ◌∷◌, ◌==◌, not, ◌&&◌, if◌then◌else◌, Bool-cases, inl, inr,
  bit_and-mask, bit_or-shift, bit_or_comm, ◌>>=◌, eq→==, ne→==,
}
use m2_server.MessageQueue.{Message}
use m2_server.Context.{
  Sender, Sent, Effect, pushed, to_harbor, freed, too_large, isremote, newsession, filter_args,
  fill, after, harbor_send, deliver, send, take_apart, has_tag, tag_dontcopy, tag_allocsession,
  type_shift, ptype_system, ptype_harbor,
}

-- The type goes above the size, and comes off again.
take_apart-fill :
    (fresh type payload sz field number : ℕ)
    → sz < 2 ^ 56
    → take_apart (fill fresh type payload sz field number).sz ≡ (type % 2 ^ 8, sz)
unfolding take_apart
take_apart-fill fresh type payload sz field number h =
    let t = bit_and type (2 ^ 8 - 1) in
    let t_eq : t ≡ type % 2 ^ 8 = bit_and-mask 8 type in
    let joined : bit_or sz (t * 2 ^ 56) ≡ t * 2 ^ 56 + sz =
      bit_or_comm sz (t * 2 ^ 56) ∙ bit_or-shift 56 t sz h in
    let high : bit_or sz (t * 2 ^ 56) / 2 ^ 56 ≡ type % 2 ^ 8 = omega (arith, joined, t_eq) in
    let low : bit_and (bit_or sz (t * 2 ^ 56)) (2 ^ 56 - 1) ≡ sz =
      bit_and-mask 56 (bit_or sz (t * 2 ^ 56)) ∙ omega (arith, joined) in
    ap₂ (λ a b. (a, b)) high low

-- A caller that asks for a session gives none.
abbrev pub Asks : ℕ → ℕ → Type 0
Asks type session = has_tag type tag_allocsession ≡ true → session ≡ 0

-- The session of a message: a new one where the caller asks for it, else the one that the caller gives.
abbrev pub number_of : ℕ → ℕ → ℕ → ℕ
number_of session_id type session =
    if has_tag type tag_allocsession then newsession session_id else session

-- The arguments after `_filter_args`.
filter_args_lem :
    (session_id fresh type session payload sz : ℕ)
    → Asks type session
    → (field : ℕ) × (filter_args session_id fresh type session payload sz
        ≡ some (fill fresh type payload sz field (number_of session_id type session)))
unfolding filter_args
filter_args_lem session_id fresh type session payload sz asks =
    elim (Bool-cases (has_tag type tag_allocsession)) [
      | inl alloc ↦
          (newsession session_id, rw alloc (rw (eq→== session 0 (asks alloc), ◌>>=◌) refl))
      | inr given ↦ (session_id, rw given refl)
    ]

-- The test of the size.
size_test : (sz : ℕ) → sz < 2 ^ 56 → (bit_and sz (2 ^ type_shift - 1) == sz) ≡ true
size_test sz h = eq→== _ _ (omega (arith, bit_and-mask 56 sz))

size_test_fails : (sz : ℕ) → 2 ^ 56 ≤ sz → (bit_and sz (2 ^ type_shift - 1) == sz) ≡ false
size_test_fails sz h = ne→== _ _ (omega (arith, bit_and-mask 56 sz))

-- The message as the receiver gets it: with the type and the size that were sent, the session that the
-- caller gets too, and the data or a copy of it.
abbrev pub Arrives : Sender → ℕ → ℕ → ℕ → ℕ → ℕ → ℕ → Message → Type 0
Arrives ctx fresh source type payload sz number m =
    (take_apart m.sz ≡ (type % 2 ^ 8, sz))
    × (m.session ≡ number)
    × (m.source ≡ (if source == 0 then ctx.handle else source))
    × (m.payload
        ≡ (if not (has_tag type tag_dontcopy) && not (payload == 0) then fresh else payload))

module _ (ctx : Sender) (fresh source destination type session payload sz : ℕ)
    (asks : Asks type session) (some_where : destination ≢ 0) where
  accepted :
      sz < 2 ^ 56
      → (field : ℕ) × (send ctx fresh source destination type session payload sz
          ≡ deliver ctx source destination
              (fill fresh type payload sz field (number_of ctx.session_id type session)))
  unfolding send
  accepted h =
      let (field, e) = filter_args_lem ctx.session_id fresh type session payload sz asks in
      (field, rw (size_test sz h) (rw (e, ◌>>=◌) refl))

  -- `skynet_send` of a message of less than 2^56 bytes to a service that lives on this node returns the
  -- session, and its only effect is that the message is put into the queue of the service, with its type,
  -- size, session and source. The session is a new one of the context where the caller asks for one, else
  -- the one that the caller gives. It holds where the caller gives no session if it asks for one, and a
  -- destination other than 0.
  pub send-Arrives :
      sz < 2 ^ 56
      → isremote ctx.harbor destination ≡ false
      → ctx.live destination ≡ true
      → (r : Sent) × (m : Message) × (send ctx fresh source destination type session payload sz
          ≡ some r)
        × (r.result ≡ some (number_of ctx.session_id type session))
        × (r.effects ≡ pushed destination m ∷ [])
        × Arrives ctx fresh source type payload sz (number_of ctx.session_id type session) m
  unfolding deliver
  send-Arrives h local lives =
      let (field, run) = accepted h in
      let number = number_of ctx.session_id type session in
      let f = fill fresh type payload sz field number in
      let m : Message = record {
        source = if source == 0 then ctx.handle else source;
        session = number;
        payload = f.payload;
        sz = f.sz;
      } in
      (
        after f (some number) (pushed destination m ∷ []),
        m,
        run ∙ rw (ne→== destination 0 some_where) (rw local (rw lives refl)),
        refl,
        refl,
        (take_apart-fill fresh type payload sz field number h, refl, refl, refl),
      )

-- How often the effects hand the data on or free it.
abbrev pub passes : ℕ → List Effect → ℕ
passes p [] = 0
passes p (pushed d m ∷ es) = (if m.payload == p then 1 else 0) + passes p es
passes p (to_harbor d s t m ∷ es) = (if m.payload == p then 1 else 0) + passes p es
passes p (freed q ∷ es) = (if q == p then 1 else 0) + passes p es
passes p (too_large d ∷ es) = passes p es

-- The call returns, and its effects pass the data on, or free it, exactly once.
abbrev pub Disposes : ℕ → Option Sent → Type 0
Disposes payload r = (s : Sent) × (r ≡ some s) × (passes payload s.effects ≡ 1)

module _ (ctx : Sender) (fresh source destination type session payload sz : ℕ)
    (asks : Asks type session) (some_where : destination ≢ 0)
    (kept : has_tag type tag_dontcopy ≡ true) (not_system : type % 2 ^ 8 ≢ ptype_system)
    (not_harbor : type % 2 ^ 8 ≢ ptype_harbor) (remote : ctx.remote ≡ true) where
  filled_payload : (field number : ℕ) → (fill fresh type payload sz field number).payload ≡ payload
  filled_payload field number = rw kept refl

  once : (p : ℕ) → p ≡ payload → (if p == payload then 1 else 0) + 0 ≡ 1
  once p e = rw (eq→== p payload e) refl

  delivers :
      (field number : ℕ)
      → sz < 2 ^ 56
      → Disposes payload (deliver ctx source destination (fill fresh type payload sz field number))
  unfolding deliver harbor_send take_apart
  delivers field number h =
      let f = fill fresh type payload sz field number in
      let one = once f.payload (filled_payload field number) in
      let t_eq : f.sz / 2 ^ type_shift ≡ type % 2 ^ 8 =
        ap (λ x. x.0) (take_apart-fill fresh type payload sz field number h) in
      let allowed : (not (f.sz / 2 ^ type_shift == ptype_system)
            && not (f.sz / 2 ^ type_shift == ptype_harbor)
            && ctx.remote)
          ≡ true =
        ground (arith, t_eq, not_system, not_harbor, remote) in
      rw (ne→== destination 0 some_where) (elim (Bool-cases (isremote ctx.harbor destination)) [
        | inl away ↦ rw away (rw (allowed, ◌>>=◌) (_, refl, one))
        | inr local ↦ rw local (elim (Bool-cases (ctx.live destination)) [
          | inl lives ↦ rw lives (_, refl, one)
          | inr gone ↦ rw gone (_, refl, one)
        ])
      ])

  refused :
      2 ^ 56 ≤ sz → Disposes payload (send ctx fresh source destination type session payload sz)
  unfolding send
  refused h = rw (size_test_fails sz h) (rw kept (_, refl, once payload refl))

  -- Data that `skynet_send` need not copy is handed on or freed exactly once when the destination is not 0:
  -- whether the message is too large, goes to the harbor service, to a service on this node, or to one that
  -- does not live. It holds where a harbor service runs, and the caller gives no session if it asks for one
  -- and a type that is neither PTYPE_SYSTEM nor PTYPE_HARBOR.
  pub send-Disposes : Disposes payload (send ctx fresh source destination type session payload sz)
  send-Disposes = elim (dec_lt sz (2 ^ 56)) [
    | yes small ↦
        let (field, run) =
          accepted ctx fresh source destination type session payload sz asks some_where small in
        subst (Disposes payload) (sym run)
          (delivers field (number_of ctx.session_id type session) small)
    | no large ↦ refused (omega (arith, large))
  ]
