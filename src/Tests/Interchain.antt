-- ===== src/Tests/Interchain.antt =====
-- A command line without a gas flag of the caller's, and a choice among three channels.
use vector_chain.Prelude.{
  ℕ, Outcome, arith, ◌+◌, ◌≤◌, ◌≡◌, refl, ap, String, false, List, [], ◌∷◌, ◌⊎◌, All, ok, fail,
  error,
}
use vector_chain.Interchain.{
  ChainNode, tx_command_builder_node, ChannelOutput, is_open_transfer, get_transfer_channel,
}
use vector_chain.Interchain.Laws.{
  count, at_least_one, tx_command_builder_node-gas, IsFirst, get_transfer_channel_lem,
}
use vector_chain.Interchain.Exec.{
  TestChain, WaitLaws, execute_query, execute_transaction, IsFailed, IsAnswered,
  execute_transaction_lem,
}

abbrev node : ChainNode
node = record {
  bin = "vectord";
  rpc_address = "tcp://vector:26657";
  home_dir = "/home";
  chain_id = "vector-1";
}

tx_command_runs :
    tx_command_builder_node "test" node ("tx" ∷ "bank" ∷ []) "alice" ("--fees" ∷ "5uvctr" ∷ [])
    ≡ "vectord" ∷ "tx" ∷ "bank" ∷ "--node" ∷ "tcp://vector:26657" ∷ "--home" ∷ "/home"
      ∷ "--chain-id" ∷ "vector-1" ∷ "--from" ∷ "alice" ∷ "--keyring-backend" ∷ "test"
      ∷ "--output=json" ∷ "--yes" ∷ "--gas" ∷ "500000" ∷ "--fees" ∷ "5uvctr" ∷ []
unfolding tx_command_builder_node
tx_command_runs = refl

tx_command_builder_node-gas_applied :
    count "--gas"
      (tx_command_builder_node "test" node ("tx" ∷ "bank" ∷ []) "alice" ("--fees" ∷ "5uvctr" ∷ []))
    ≡ count "--gas" (
        "vectord" ∷ "tx" ∷ "bank" ∷ "tcp://vector:26657" ∷ "/home" ∷ "vector-1" ∷ "alice" ∷ "test"
        ∷ [])
      + at_least_one (count "--gas" ("--fees" ∷ "5uvctr" ∷ []))
tx_command_builder_node-gas_applied =
    tx_command_builder_node-gas "test" node ("tx" ∷ "bank" ∷ []) "alice" ("--fees" ∷ "5uvctr" ∷ [])

abbrev channels : List ChannelOutput
channels =
    record { port_id = "icahost"; state = "STATE_OPEN"; channel_id = "channel-0" }
    ∷ record { port_id = "transfer"; state = "STATE_CLOSED"; channel_id = "channel-1" }
    ∷ record { port_id = "transfer"; state = "STATE_OPEN"; channel_id = "channel-2" }
    ∷ []

get_transfer_channel_runs : get_transfer_channel "STATE_OPEN" (λ cs. "") channels ≡ ok "channel-2"
unfolding get_transfer_channel
get_transfer_channel_runs = refl

get_transfer_channel_lem_applied :
    IsFirst "STATE_OPEN" (λ cs. "") channels (get_transfer_channel "STATE_OPEN" (λ cs. "") channels)
    ⊎ (All (λ c. is_open_transfer "STATE_OPEN" c ≡ false) channels
        × (e : String) × (get_transfer_channel "STATE_OPEN" (λ cs. "") channels ≡ fail (error e)))
get_transfer_channel_lem_applied = get_transfer_channel_lem "STATE_OPEN" (λ cs. "") channels

-- The chain is its height; a response is the text of the command.
abbrev answer : List String → (String × Outcome (Unit {0}))
answer [] = ("", fail (error "no command"))
answer (word ∷ words) = (word, ok tt)

abbrev test_chain : TestChain ℕ String String
test_chain = record {
  node = node;
  exec = λ cmd s. (answer cmd, s);
  wait_for_blocks = λ n s. (ok tt, s + n);
  empty_response = "";
  unmarshal_response = λ stdout r. (stdout, ok tt);
  unmarshal = λ stdout i. (stdout, ok tt);
  print_command = λ cmd s. s;
  print_text = λ text s. s;
  print_failure = λ e s. s;
}

test_chain_waits : WaitLaws test_chain
test_chain_waits = record { height = λ s. s; waits = λ n s s' e. waited n s s' e }
  where
    waited : (n s s' : ℕ) → ◌≡◌ {A = Outcome (Unit {0}) × ℕ} (ok tt, s + n) (ok tt, s') → s + n ≤ s'
    waited n s s' e = omega (arith, ap (λ p. p.1) e)

execute_transaction_runs :
    execute_transaction test_chain ("vectord" ∷ "tx" ∷ []) 5 ≡ (("vectord", ok tt), 7)
unfolding execute_transaction
execute_transaction_runs = refl

execute_transaction_lem_applied :
    IsFailed test_chain ("vectord" ∷ "tx" ∷ []) 5 7 "vectord" (ok tt)
    ⊎ IsAnswered test_chain test_chain_waits ("vectord" ∷ "tx" ∷ []) 5 7 "vectord" (ok tt)
execute_transaction_lem_applied =
    execute_transaction_lem test_chain test_chain_waits ("vectord" ∷ "tx" ∷ []) 5 7 "vectord"
      (ok tt) execute_transaction_runs

execute_query_runs : execute_query test_chain ("query" ∷ []) "" [] 5 ≡ ("vectord", 5)
unfolding execute_query
execute_query_runs = refl
