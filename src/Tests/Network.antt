-- ===== src/Tests/Network.antt =====
-- The fixture of a test network on a host whose objects are the ways of packets.
use vector_chain.Prelude.{ℕ, ◌≡◌, refl, true, List, [], ◌∷◌, ok}
use vector_chain.Fixtures.Network.{
  NetworkEnv, fixture_of, new_test_network_fixture, new_test_network_fixture-Returns,
}
use vector_chain.Wiring.Places.{Place}
use vector_chain.Wiring.Calls.{Effect}
use vector_chain.Wiring.Construct.{Process, new_chain_app}
use vector_chain.Wiring.Encoding.{encoding_config_of, IsCoherent}
use vector_chain.Tests.Wiring.{Ways, host, works, empty}

abbrev env : NetworkEnv Ways (List Effect) ℕ ℕ
env = record {
  dirs = record {
    mkdir_temp = λ dir pattern s. (ok "/tmp/simapp1", s);
    remove_all = λ dir s. Effect.register_services ∷ s;
  };
  home_process = λ dir s. empty;
  validator_process = λ val s. empty;
  default_genesis = λ p. 0;
}

new_test_network_fixture-Returns_applied :
    (p : Process Ways (List Effect) ℕ) × (new_chain_app host true
        (env.home_process "/tmp/simapp1" [])
      ≡ (ok tt, p))
    × IsCoherent host.sdk Place.textual_tx_config (encoding_config_of host p)
    × (new_test_network_fixture host env []
        ≡ (ok (fixture_of host env p), Effect.register_services ∷ p.built.rest))
new_test_network_fixture-Returns_applied =
    new_test_network_fixture-Returns host env works (λ dir s. refl) (λ dir s. refl) []
      "/tmp/simapp1" [] refl
