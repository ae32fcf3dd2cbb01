-- ===== src/GateService/Init.antt =====
-- service-src/service_gate.c: gate_init either refuses its parameters or sets up a gate in order.
use m2_server.Common.{
  ℕ, ◌≤◌, ◌<◌, ◌≡◌, ◌≢◌, refl, arith, Option, none, some, List, [], ◌∷◌, false, Bool-cases, inl,
  inr, ◌⊎◌, ◌==◌, ltb, not, ◌&&◌, get_or,
}
use m2_server.HashId.{HashId, int_limit}
use m2_server.HashId.Valid
use m2_server.GateService.{GateState, Effect, Log}
use m2_server.GateService.Start.{Scan, Started, gate_init, split_colon, is_positive, refuse}
use m2_server.GateService.Words.{strtol}
use m2_server.GateService.Invariant.{IsValid}

-- The size of headers is the one of their style.
abbrev Styled : Scan → ℕ → Type 0
Styled s header_size =
    ((s.header ≡ b'S') × (header_size ≡ 2)) ⊎ ((s.header ≡ b'L') × (header_size ≡ 4))

-- The host and the port in the address.
abbrev pub address : Scan → List ℕ × ℕ
address s = elim (split_colon s.binding) [
  | none ↦ ([], strtol s.binding)
  | some (host, port) ↦ (host, strtol port)
]

-- The only calls are those to the log, at most one.
abbrev Silent : List Effect → Type 0
Silent effects = (effects ≡ []) ⊎ ((why : Log) × (effects ≡ Effect.log why ∷ []))

module _ (queryname : List ℕ → ℕ) (listen : List ℕ → ℕ → ℕ) where
  -- Parameters that `gate_init` refuses: too few, a number of connections that is not positive, a style of
  -- headers that is not known, or a watchdog that has no service.
  abbrev pub Bad : Scan → Type 0
  Bad s =
      (s.n < 4)
      ⊎ (s.max ≡ 0)
      ⊎ (int_limit ≤ s.max)
      ⊎ ((s.header ≢ b'S') × (s.header ≢ b'L'))
      ⊎ ((get_or s.watchdog 0 0 ≢ b'!') × (queryname s.watchdog ≡ 0))

  -- The port is not positive, or no socket listens there.
  abbrev pub NoSocket : Scan → Type 0
  NoSocket s =
      (is_positive (address s).1 ≡ false) ⊎ (int_limit ≤ listen (address s).0 (address s).1)

  -- A gate in order that listens at the socket for the address, which was started, and has no connection
  -- yet.
  abbrev pub Listening : Scan → Started → Type 0
  Listening s st =
      (k : ℕ) × IsValid k (λ h. []) st.gate
      × (st.gate.hash.count ≡ 0)
      × (st.gate.max_connection ≡ s.max)
      × Styled s st.gate.header_size
      × (st.gate.listen_id ≡ listen (address s).0 (address s).1)
      × (st.effects ≡ Effect.start_socket st.gate.listen_id ∷ [])

  -- The call returned 0 and the gate is ready, or it returned 1 and had a reason.
  abbrev pub Ready : Scan → Option Started → Type 0
  Ready s r =
      (st : Started) × (r ≡ some st)
      × (((st.code ≡ 0) × Listening s st)
          ⊎ ((st.code ≡ 1) × Silent st.effects × (Bad s ⊎ NoSocket s)))

  -- With such parameters `gate_init` returns 1, and its only call is one to the log: no socket is opened.
  pub gate_init_refuses :
      (g : GateState) (parm : List ℕ) (s : Scan)
      → Bad s
      → (why : Log) × (g' : GateState) × (gate_init queryname listen g parm s ≡ refuse why g')
        × (g'.listen_id ≡ g.listen_id)
  unfolding gate_init
  gate_init_refuses g parm s bad = elim (Bool-cases (ltb s.n 4)) [
    | inl few ↦ rw few (_, _, refl, refl)
    | inr n_ok ↦ rw n_ok (elim (Bool-cases (is_positive s.max)) [
      | inr bad_max ↦ rw bad_max (_, _, refl, refl)
      | inl max_ok ↦
          rw max_ok (elim (Bool-cases (not (s.header == b'S') && not (s.header == b'L'))) [
            | inl bad_header ↦ rw bad_header (_, _, refl, refl)
            | inr header_ok ↦ rw header_ok (elim (Bool-cases (get_or s.watchdog 0 0 == b'!')) [
              | inl no_dog ↦ ground (arith, n_ok, max_ok, header_ok, no_dog, bad)
              | inr dog ↦ rw dog (elim (Bool-cases (queryname s.watchdog == 0)) [
                | inl unknown ↦ rw unknown (_, _, refl, refl)
                | inr known ↦ ground (arith, n_ok, max_ok, header_ok, known, bad)
              ])
            ])
          ])
    ])
  ]
