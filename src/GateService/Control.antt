-- ===== src/GateService/Control.antt =====
-- service-src/service_gate.c: the text commands that _ctrl understands.
use m2_server.Common.{ℕ, Option, none, some, List, [], ◌∷◌, ltb, if◌then◌else◌, ◌>>=◌, update, drop}
use m2_server.HashId.{no_id, int_limit, hashid_lookup}
use m2_server.GateService.{
  GateState, Effect, Log, SocketMessage, dispatch_socket_message, on_client,
}
use m2_server.GateService.Words.{c_string, word_end, memcmp_eq, parm, strsep, strtol, strtoul}

abbrev pub kick_word : List ℕ
kick_word = b'k' ∷ b'i' ∷ b'c' ∷ b'k' ∷ 0 ∷ []

abbrev pub forward_word : List ℕ
forward_word = b'f' ∷ b'o' ∷ b'r' ∷ b'w' ∷ b'a' ∷ b'r' ∷ b'd' ∷ 0 ∷ []

abbrev pub broker_word : List ℕ
broker_word = b'b' ∷ b'r' ∷ b'o' ∷ b'k' ∷ b'e' ∷ b'r' ∷ 0 ∷ []

abbrev pub start_word : List ℕ
start_word = b's' ∷ b't' ∷ b'a' ∷ b'r' ∷ b't' ∷ 0 ∷ []

abbrev pub close_word : List ℕ
close_word = b'c' ∷ b'l' ∷ b'o' ∷ b's' ∷ b'e' ∷ 0 ∷ []

-- `_forward_agent`
unfoldable pub forward_agent : GateState → ℕ → ℕ → ℕ → Option GateState
forward_agent g fd agentaddr clientaddr = do
  found ← hashid_lookup g.hash fd
  elim found [
    | none ↦ some g
    | some id ↦ some (record g {
      conn = update g.conn id (record (g.conn id) { agent = agentaddr; client = clientaddr });
    })
  ]

-- A call on the socket of the number, if the gate has a connection for it.
unfoldable pub on_connection : GateState → (ℕ → Effect) → List ℕ → Option (List Effect × GateState)
on_connection g call command = do
  let uid = strtol command
  found ← hashid_lookup g.hash uid
  some (elim found [ none ↦ [] | some id ↦ call uid ∷ [] ], g)

-- The command "forward": a number, the agent and the client.
unfoldable pub ctrl_forward : GateState → List ℕ → Option (List Effect × GateState)
unfolding forward_agent
ctrl_forward g tmp =
    let (idstr, client) = strsep tmp in
    elim client [
      | none ↦ some ([], g)
      | some s ↦
          let (agent, client') = strsep s in
          elim client' [
            | none ↦ some ([], g)
            | some s' ↦
                forward_agent g (strtol idstr) (strtoul (drop 1 agent)) (strtoul (drop 1 s'))
                >>= λ g'. some ([], g')
          ]
    ]

-- The command "close": the gate listens no more.
unfoldable pub ctrl_close : GateState → List Effect × GateState
ctrl_close g =
    if ltb g.listen_id int_limit
    then (Effect.close_socket g.listen_id ∷ [], record g { listen_id = no_id })
    else ([], g)

-- `if (memcmp(command, word, i) == 0)`
abbrev pub case_word {ℓ} :
    {A : Type ℓ} → ℕ → List ℕ → List ℕ → (ℕ → ℕ) → Option A → Option A → Option A
case_word i msg word behind hit miss =
    memcmp_eq i msg word behind >>= λ same. if same then hit else miss

-- A message to the gate by its type; `other` is any type that `_cb` has no case for.
pub data GateMessage : Type 0 where
  text : List ℕ → GateMessage
  client : ℕ → List ℕ → GateMessage
  socket : SocketMessage → GateMessage
  other : GateMessage

-- `skynet_queryname` is a function of the name. Where the first word of a command is longer than a literal,
-- `memcmp` reads on behind it, which C does not define: `behind` gives the bytes that stand behind each
-- literal, as they are part of the program's constant data and can be read on the machine.
module _ (queryname : List ℕ → ℕ) (behind : List ℕ → ℕ → ℕ) where
  -- `_ctrl`, where `msg` is not empty: the first word is `i` bytes long. A word that is the beginning
  -- of a command stands for it.
  unfoldable pub ctrl_words : GateState → List ℕ → ℕ → Option (List Effect × GateState)
  unfolding ctrl_forward on_connection ctrl_close
  ctrl_words g msg i =
      case_word i msg kick_word (behind kick_word)
        (on_connection g Effect.close_socket (parm msg i))
        (case_word i msg forward_word (behind forward_word) (ctrl_forward g (parm msg i)) (
          case_word i msg broker_word (behind broker_word)
            (some ([], record g { broker = queryname (c_string (parm msg i)) }))
            (case_word i msg start_word (behind start_word)
              (on_connection g Effect.start_socket (parm msg i))
              (case_word i msg close_word (behind close_word) (some (ctrl_close g))
                (some (Effect.log (Log.unknown_command (c_string msg)) ∷ [], g))))))

  unfoldable pub ctrl : GateState → List ℕ → Option (List Effect × GateState)
  unfolding ctrl_words word_end
  ctrl g [] = some ([], g)
  ctrl g (c ∷ cs) = ctrl_words g (c ∷ cs) (word_end (c ∷ cs))

  -- `_cb`: the value that it returns, which is 1 where the message must not be freed, the calls, and the
  -- gate.
  unfoldable pub cb : GateState → GateMessage → Option (ℕ × List Effect × GateState)
  unfolding ctrl dispatch_socket_message
  cb g (text msg) = ctrl g msg >>= λ (effects, g'). some (0, effects, g')
  cb g (client source msg) = on_client g source msg
  cb g (socket m) = dispatch_socket_message g m >>= λ (effects, g'). some (0, effects, g')
  cb g other = some (0, [], g)
