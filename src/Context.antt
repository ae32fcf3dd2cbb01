-- ===== src/Context.antt =====
-- skynet-src/skynet_server.c: how a service sends a message with its session and its type. skynet-src/skynet_harbor.c decides whether a handle is that of another node.
mod Sessions
mod Sending
mod Tests
use Prim.Native.Nat.{bit_and, bit_or}
use m2_server.Common.{
  ℕ, zero, suc, ◌+◌, ◌-◌, ◌*◌, ◌/◌, ◌%◌, ◌^◌, Bool, true, false, Option, none, some, List, [], ◌∷◌,
  ◌++◌, ltb, leb, ◌==◌, ◌&&◌, not, if◌then◌else◌, ◌>>=◌, ◌>>◌, assert, get_or, drop,
}
use m2_server.MessageQueue.{Message}

abbrev pub ptype_system : ℕ
ptype_system = 4

abbrev pub ptype_harbor : ℕ
ptype_harbor = 5

abbrev pub tag_dontcopy : ℕ
tag_dontcopy = 2 ^ 16

abbrev pub tag_allocsession : ℕ
tag_allocsession = 2 ^ 17

-- MESSAGE_TYPE_SHIFT on a machine with 64 bits.
abbrev pub type_shift : ℕ
type_shift = 56

-- `skynet_harbor_message_isremote`, where `harbor` is the number of this node. HARBOR and the masked handle
-- have their lower 24 bits clear.
unfoldable pub isremote : ℕ → ℕ → Bool
isremote harbor handle =
    let h = handle - bit_and handle (2 ^ 24 - 1) in not (h == harbor * 2 ^ 24) && not (h == 0)

-- `skynet_context_newsession` on the field `session_id`, the bit pattern of an `int`: the session, which is
-- also the new value of the field.
unfoldable pub newsession : ℕ → ℕ
newsession session_id =
    let session = (session_id + 1) % 2 ^ 32 in
    if session == 0 then 1 else if ltb session (2 ^ 31) then session else 1

-- What a call sends, frees or writes to the log. A pointer is a number, and 0 is NULL.
pub data Effect : Type 0 where
  pushed : ℕ → Message → Effect
  to_harbor : ℕ → ℕ → ℕ → Message → Effect
  freed : ℕ → Effect
  too_large : ℕ → Effect

-- The arguments as `_filter_args` leaves them, and the field `session_id`.
pub record Filtered : Type 0 where
  pub session_id : ℕ
  pub session : ℕ
  pub payload : ℕ
  pub sz : ℕ

abbrev pub has_tag : ℕ → ℕ → Bool
has_tag type tag = not (bit_and type tag == 0)

-- The copy of the data and the type in `sz`, after the session was set.
abbrev pub fill : ℕ → ℕ → ℕ → ℕ → ℕ → ℕ → Filtered
fill fresh type payload sz field number = record {
  session_id = field;
  session = number;
  payload = if not (has_tag type tag_dontcopy) && not (payload == 0) then fresh else payload;
  sz = bit_or sz (bit_and type (2 ^ 8 - 1) * 2 ^ type_shift);
}

-- `_filter_args`; `fresh` is the address that `skynet_malloc` returns.
unfoldable pub filter_args : ℕ → ℕ → ℕ → ℕ → ℕ → ℕ → Option Filtered
unfolding newsession
filter_args session_id fresh type session payload sz =
    let new = newsession session_id in
    if has_tag type tag_allocsession
    then assert (session == 0) >> some (fill fresh type payload sz new new)
    else some (fill fresh type payload sz session_id session)

-- A call of `skynet_send`: the field `session_id` after it, the result, `none` for -1, and its effects.
pub record Sent : Type 0 where
  pub session_id : ℕ
  pub result : Option ℕ
  pub effects : List Effect

abbrev pub after : Filtered → Option ℕ → List Effect → Sent
after f r effects = record { session_id = f.session_id; result = r; effects = effects }

-- `skynet_harbor_send` of a remote message with the handle `destination`: the type and the size are taken
-- apart again. `remote` says whether REMOTE is set, which is so while a harbor service runs.
unfoldable pub harbor_send : Bool → ℕ → ℕ → ℕ → ℕ → ℕ → Option Effect
harbor_send remote destination source session payload sz = do
  let type = sz / 2 ^ type_shift
  assert (not (type == ptype_system) && not (type == ptype_harbor) && remote)
  some (
      to_harbor destination source type (record {
        source = source;
        session = session;
        payload = payload;
        sz = bit_and sz (2 ^ type_shift - 1);
      }))

-- The context that sends, the node that it is on, whether a harbor service runs there, and the services
-- that live there.
pub record Sender : Type 0 where
  pub handle : ℕ
  pub session_id : ℕ
  pub harbor : ℕ
  pub remote : Bool
  pub live : ℕ → Bool

-- `skynet_send` with the filtered arguments: `skynet_context_push` fails where no service has the
-- handle.
unfoldable pub deliver : Sender → ℕ → ℕ → Filtered → Option Sent
unfolding harbor_send isremote
deliver ctx source destination f =
    let source' = if source == 0 then ctx.handle else source in
    let message : Message = record {
      source = source';
      session = f.session;
      payload = f.payload;
      sz = f.sz;
    } in
    let remote = harbor_send ctx.remote destination source' f.session f.payload f.sz >>= λ e.
    some (after f (some f.session) (e ∷ [])) in
    if destination == 0
    then some (after f (some f.session) [])
    else if isremote ctx.harbor destination
    then remote
    else if ctx.live destination
    then some (after f (some f.session) (pushed destination message ∷ []))
    else some (after f none (freed f.payload ∷ []))

-- `skynet_send`
unfoldable pub send : Sender → ℕ → ℕ → ℕ → ℕ → ℕ → ℕ → ℕ → Option Sent
unfolding filter_args deliver
send ctx fresh source destination type session payload sz =
    let refused : Sent = record {
      session_id = ctx.session_id;
      result = none;
      effects =
          too_large destination ∷ (if has_tag type tag_dontcopy then freed payload ∷ [] else []);
    } in
    let accepted = filter_args ctx.session_id fresh type session payload sz >>= λ f.
    deliver ctx source destination f in
    if bit_and sz (2 ^ type_shift - 1) == sz then accepted else some refused

-- How `dispatch_message` and `skynet_harbor_send` read the field `sz`: the type and the size.
unfoldable pub take_apart : ℕ → ℕ × ℕ
take_apart sz = (sz / 2 ^ type_shift, bit_and sz (2 ^ type_shift - 1))
