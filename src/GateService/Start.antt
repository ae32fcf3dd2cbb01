-- ===== src/GateService/Start.antt =====
-- service-src/service_gate.c: how the gate starts and ends.
use m2_server.Common.{
  ℕ, zero, suc, ◌+◌, Bool, Option, none, some, List, [], ◌∷◌, ◌++◌, ltb, ◌==◌, ◌&&◌, get_or,
  if◌then◌else◌, ◌>>=◌, not,
}
use m2_server.HashId.{no_id, int_limit, hashid_init}
use m2_server.GateService.{GateState, Effect, Log, unused}
use m2_server.GateService.Words.{strtol}

-- The bytes before the first `:` and behind it: `strchr`.
abbrev pub split_colon : List ℕ → Option (List ℕ × List ℕ)
split_colon [] = none
split_colon (c ∷ cs) =
    if c == b':'
    then some ([], cs)
    else elim (split_colon cs) [ none ↦ none | some (host, port) ↦ some (c ∷ host, port) ]

-- `int` values that are greater than 0.
abbrev pub is_positive : ℕ → Bool
is_positive n = not (n == 0) && ltb n int_limit

-- The results of `sscanf(parm, "%c %s %s %d %d", ...)`: their number, and what was read.
pub record Scan : Type 0 where
  pub n : ℕ
  pub header : ℕ
  pub watchdog : List ℕ
  pub binding : List ℕ
  pub client_tag : ℕ
  pub max : ℕ

-- PTYPE_CLIENT
abbrev pub ptype_client : ℕ
ptype_client = 3

-- `gate_create`
unfoldable pub gate_create : GateState
gate_create = record {
  listen_id = no_id;
  watchdog = 0;
  broker = 0;
  client_tag = 0;
  header_size = 0;
  max_connection = 0;
  hash = record {
    hashmod = 0;
    cap = 0;
    count = 0;
    id = λ i. no_id;
    next = λ i. none;
    hash = λ h. none;
  };
  conn = λ i. unused;
  mp = record { blocks = 0; free = 0 };
}

-- What a call that may refuse its parameters returns: 0 or 1, the calls that it made, and the gate.
pub record Started : Type 0 where
  pub code : ℕ
  pub effects : List Effect
  pub gate : GateState

abbrev pub refuse : Log → GateState → Option Started
refuse why g = some (record { code = 1; effects = Effect.log why ∷ []; gate = g })

-- `skynet_queryname` is a function of the name, and `skynet_socket_listen` one of host and port.
module _ (queryname : List ℕ → ℕ) (listen : List ℕ → ℕ → ℕ) where
  -- `start_listen` with the host and the port.
  unfoldable pub listen_at : GateState → List ℕ → List ℕ → ℕ → Started
  listen_at g listen_addr host port =
      let fd = listen host port in
      let g' = record g { listen_id = fd } in
      if is_positive port
      then if ltb fd int_limit
        then record { code = 0; effects = Effect.start_socket fd ∷ []; gate = g' }
        else record { code = 1; effects = []; gate = g' }
      else record {
        code = 1;
        effects = Effect.log (Log.invalid_address listen_addr) ∷ [];
        gate = g;
      }

  -- `start_listen`
  unfoldable pub start_listen : GateState → List ℕ → Started
  unfolding listen_at
  start_listen g listen_addr = elim (split_colon listen_addr) [
    | none ↦ listen_at g listen_addr [] (strtol listen_addr)
    | some (host, port) ↦ listen_at g listen_addr host (strtol port)
  ]

  -- The lines of `gate_init` from `g->ctx = ctx` on.
  unfoldable pub set_up : GateState → Scan → Option Started
  unfolding start_listen
  set_up g s = do
    hash ← hashid_init s.max
    some (
        start_listen
          (record g {
            hash = hash;
            conn = λ i. unused;
            max_connection = s.max;
            client_tag = if s.client_tag == 0 then ptype_client else s.client_tag;
            header_size = if s.header == b'S' then 2 else 4;
          })
          s.binding)

  -- `gate_init`, where `parm` is not null, after `sscanf`.
  unfoldable pub gate_init : GateState → List ℕ → Scan → Option Started
  unfolding set_up
  gate_init g parm s =
      let watchdog = queryname s.watchdog in
      let named =
        if watchdog == 0
        then refuse (Log.invalid_watchdog s.watchdog) (record g { watchdog = 0 })
        else set_up (record g { watchdog = watchdog }) s in
      let headed =
        if get_or s.watchdog 0 0 == b'!' then set_up (record g { watchdog = 0 }) s else named in
      if ltb s.n 4
      then refuse (Log.invalid_parm parm) g
      else if not (is_positive s.max)
      then refuse Log.need_max g
      else if not (s.header == b'S') && not (s.header == b'L')
      then refuse Log.invalid_header g
      else headed

-- The loop of `gate_release` over the connections from the `i`-th on, with `n` to go.
unfoldable pub close_all : ℕ → ℕ → GateState → List Effect
close_all zero i g = []
close_all (suc n) i g =
    (if ltb (g.conn i).id int_limit then Effect.close_socket (g.conn i).id ∷ [] else [])
    ++ close_all n (i + 1) g

-- `gate_release`: the sockets that are closed. Then all memory of the gate is freed.
unfoldable pub gate_release : GateState → List Effect
unfolding close_all
gate_release g =
    close_all g.max_connection 0 g
    ++ (if ltb g.listen_id int_limit then Effect.close_socket g.listen_id ∷ [] else [])
