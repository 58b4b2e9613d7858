-- ===== src/Decorators.antt =====
-- app/decorators: the ante decorator that refuses transactions with blocked messages, and the mock
-- transaction of its tests. A message is its protobuf name, or an `authz.MsgExec` with what its
-- `GetMessages` returns: the nested messages, or an error.
pub mod Filter
use vector_chain.Prelude.{
  ℕ, ◌≡◌, String, text_append, str_eq, Bool, true, false, ◌||◌, Option, none, some, List, [], ◌∷◌,
  if◌then◌else◌, decimal,
}

mutual
  pub data Msg : Type 0 where
    plain : String → Msg
    exec : Msgs → Msg
    exec_corrupt : String → Msg

  pub data Msgs : Type 0 where
    nil : Msgs
    cons : Msg → Msgs → Msgs

-- `proto.MessageName`; `exec_name` is the name that the authz package registers for its MsgExec.
abbrev pub message_name : String → Msg → String
message_name exec_name (plain name) = name
message_name exec_name (exec msgs) = exec_name
message_name exec_name (exec_corrupt err) = exec_name

pub record MsgFilterDecorator : Type 0 where
  pub blocked_types : List Msg

unfoldable pub filter_decorator : List Msg → MsgFilterDecorator
filter_decorator blocked_msg_types = record { blocked_types = blocked_msg_types }

-- The inner loop: the name of some blocked type is `name`.
unfoldable pub is_blocked : String → List Msg → String → Bool
is_blocked exec_name [] name = false
is_blocked exec_name (b ∷ bs) name =
    str_eq name (message_name exec_name b) || is_blocked exec_name bs name

unfoldable mutual
  unfolding is_blocked

  -- The body of the loop, for one message.
  pub is_disallowed : String → List Msg → Msg → Bool
  is_disallowed exec_name blocked (plain name) = is_blocked exec_name blocked name
  is_disallowed exec_name blocked (exec msgs) =
      has_disallowed exec_name blocked msgs || is_blocked exec_name blocked exec_name
  is_disallowed exec_name blocked (exec_corrupt err) = true

  pub has_disallowed : String → List Msg → Msgs → Bool
  has_disallowed exec_name blocked nil = false
  has_disallowed exec_name blocked (cons msg msgs) =
      is_disallowed exec_name blocked msg || has_disallowed exec_name blocked msgs

unfoldable pub has_disallowed_message : String → MsgFilterDecorator → Msgs → Bool
unfolding has_disallowed
has_disallowed_message exec_name mfd msgs = has_disallowed exec_name mfd.blocked_types msgs

pub record Tx : Type 0 where
  pub msgs : Msgs

unfoldable pub new_mock_tx : Msgs → Tx
new_mock_tx msgs = record { msgs = msgs }

unfoldable pub get_msgs : Tx → Msgs
get_msgs tx = tx.msgs

-- An ante handler: the new context, and an error or nil.
abbrev pub AnteHandler : Type 0 → Type 0
AnteHandler Ctx = Ctx → Tx → Bool → Ctx × Option String

unfoldable pub empty_ante : {Ctx : Type 0} → AnteHandler Ctx
empty_ante ctx tx simulate = (ctx, none)

abbrev pub unsupported : ℕ → String
unsupported height = text_append "tx contains unsupported message types at height " (decimal height)

module _ {Ctx : Type 0} (block_height : Ctx → ℕ) (exec_name : String) where
  unfoldable pub ante_handle :
      MsgFilterDecorator → Ctx → Tx → Bool → AnteHandler Ctx → Ctx × Option String
  unfolding has_disallowed_message get_msgs
  ante_handle mfd ctx tx simulate next =
      if has_disallowed_message exec_name mfd (get_msgs tx)
      then (ctx, some (unsupported (block_height ctx)))
      else next ctx tx simulate
