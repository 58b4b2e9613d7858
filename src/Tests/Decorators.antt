-- ===== src/Tests/Decorators.antt =====
-- The message filter on a transaction with a blocked message inside two authorizations.
use vector_chain.Prelude.{◌≡◌, ◌↔◌, refl, String, true, false, some, decimal, List, [], ◌∷◌, ◌⊎◌}
use vector_chain.Decorators.{
  Msg, Msgs, plain, exec, nil, cons, Tx, filter_decorator, has_disallowed_message, new_mock_tx,
  empty_ante, unsupported, ante_handle,
}
use vector_chain.Decorators.Filter.{Offender, has_disallowed_message_iff, ante_handle_decides}

abbrev exec_name : String
exec_name = "cosmos.authz.v1beta1.MsgExec"

abbrev blocked : List Msg
blocked = plain "cosmos.bank.v1beta1.MsgMultiSend" ∷ []

abbrev nested : Msgs
nested =
    cons (plain "cosmos.bank.v1beta1.MsgSend")
      (cons (exec (cons (exec (cons (plain "cosmos.bank.v1beta1.MsgMultiSend") nil)) nil)) nil)

has_disallowed_runs : has_disallowed_message exec_name (filter_decorator blocked) nested ≡ true
unfolding has_disallowed_message filter_decorator
has_disallowed_runs = refl

has_disallowed_message_iff_example :
    (has_disallowed_message exec_name (filter_decorator blocked) nested ≡ true)
    ↔ Offender exec_name blocked nested
has_disallowed_message_iff_example = has_disallowed_message_iff exec_name blocked nested

abbrev nested_tx : Tx
nested_tx = record { msgs = nested }

ante_handle_decides_example :
    (Offender exec_name blocked nested
      × (ante_handle (λ n. n) exec_name (filter_decorator blocked) 7 nested_tx false empty_ante
          ≡ (7, some (unsupported 7))))
    ⊎ ((¬ Offender exec_name blocked nested)
        × (ante_handle (λ n. n) exec_name (filter_decorator blocked) 7 nested_tx false empty_ante
            ≡ empty_ante 7 nested_tx false))
ante_handle_decides_example =
    ante_handle_decides (λ n. n) exec_name blocked 7 nested_tx false empty_ante

ante_handle_runs :
    ante_handle
      (λ n. n)
      exec_name
      (filter_decorator blocked)
      7
      (new_mock_tx nested)
      false
      empty_ante
    ≡ (7, some "tx contains unsupported message types at height 7")
unfolding ante_handle filter_decorator new_mock_tx decimal
ante_handle_runs = refl
