-- ===== src/Tests/Setup.antt =====
-- An application that is set up for a test: the process is the default limit of gas with the heights
-- of the blocks that were finalized.
use vector_chain.Prelude.{ℕ, ◌≡◌, refl, String, List, [], ◌∷◌, none, ok}
use vector_chain.Fixtures.{Coins}
use vector_chain.Fixtures.Setup.{SetupEnv, setup_with_genesis_val_set}
use vector_chain.Fixtures.{genesis_state_with_val_set}
use vector_chain.Fixtures.SetupLaws.{
  HeightLaws, IsStarted, HoldsSet, setup_with_genesis_val_set_lem,
}
use vector_chain.Fixtures.Single.{setup_app}
use vector_chain.Tests.Fixtures.{amount_of, env, measure, val_set, balances}

abbrev Test : Type 0
Test = ℕ × List ℕ

abbrev setup_env : SetupEnv String String Coins String Test ℕ ℕ ℕ ℕ ℕ ℕ
setup_env = record {
  test_temp_dir = λ s. (ok "/tmp/test", s);
  new_db = λ name dir s. (ok 1, s);
  close_after_test = λ db s. s;
  new_store = λ db dir s. (ok 2, s);
  new_chain_app = λ options s. (ok options.home, s);
  default_genesis = λ app m. none;
  marshal_indent = λ g. ok "{}";
  default_consensus_params = λ s. s.0;
  set_default_max_gas = λ n s. (n, s.1);
  default_gen_tx_gas = 10000000;
  now = λ s. 0;
  last_block_height = λ app s. 0;
  last_commit_hash = λ app s. "";
  val_set_hash = λ vals. "hash";
  init_chain = λ app request s. (ok tt, s);
  finalize_block = λ app block s. (ok 0, (s.0, block.height ∷ s.1));
  new_pub_key = λ s. (ok "key", s);
  pub_key_address = λ key. 1 ∷ [];
  new_account = λ s. (ok "alice", s);
  account_address = λ acc. acc;
  bond_denom = "stake";
  gen_signed_mock_tx = λ gas s. (ok gas, s);
  tx_encoder = λ tx. ok "tx";
}

setup_runs :
    setup_with_genesis_val_set env setup_env val_set
      ("alice" ∷ [])
      "testing"
      []
      balances
      (200000, [])
    ≡ (ok "/tmp/test", (1000000000, 1 ∷ []))
unfolding setup_with_genesis_val_set genesis_state_with_val_set
setup_runs = refl

setup_app_runs : setup_app env setup_env [] (200000, []) ≡ (ok "/tmp/test", (1000000000, 1 ∷ []))
unfolding setup_app genesis_state_with_val_set
setup_app_runs = refl

heights : HeightLaws env setup_env
heights = record { init_keeps = λ app request s s' e. refl }

setup_with_genesis_val_set_lem_example :
    (started : IsStarted env setup_env "testing" val_set
      ("alice" ∷ [])
      balances
      "/tmp/test"
      (1000000000, 1 ∷ []))
    × HoldsSet env setup_env amount_of val_set ("alice" ∷ []) balances started.g
setup_with_genesis_val_set_lem_example =
    setup_with_genesis_val_set_lem env setup_env heights amount_of measure val_set ("alice" ∷ [])
      "testing" [] balances (200000, []) (1000000000, 1 ∷ []) "/tmp/test" setup_runs
