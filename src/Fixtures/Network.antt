-- ===== src/Fixtures/Network.antt =====
-- app/test_helpers.go: the fixture of a test network, and the keys of a test account.
use vector_chain.Prelude.{
  ℕ, ◌≡◌, ap, ◌∙◌, String, text_append, true, List, [], Outcome, ok, fail, error, panic,
}
use vector_chain.Prelude.Actions.{Action, ◌>>=◌, pure, bind-passes}
use vector_chain.Commands.Root.{TempDirs}
use vector_chain.Wiring.Places.{Place}
use vector_chain.Wiring.Construct.{Host, Process, new_chain_app}
use vector_chain.Wiring.Steps.{Works}
use vector_chain.Wiring.ChainReturns.{new_chain_app-Returns}
use vector_chain.Wiring.Encoding.{
  EncodingConfig, encoding_config_of, encoding_config_of-IsCoherent, IsCoherent,
}

-- What the constructor of a network's applications reads of a validator.
pub record NetworkValidator : Type 0 where
  pub root_dir : String
  pub pruning : String
  pub min_gas_prices : String
  pub chain_id : String

-- What is called of the operating system and of the SDK: `home_process` and `validator_process` are
-- new processes, the former with options of the home directory, the latter with those of the
-- validator too; `G` is a genesis state.
pub record NetworkEnv (K S U G : Type 0) : Type 0 where
  pub dirs : TempDirs S
  pub home_process : String → S → Process K S U
  pub validator_process : NetworkValidator → S → Process K S U
  pub default_genesis : Process K S U → G

-- `network.TestFixture`
pub record TestFixture (K S U G : Type 0) : Type 0 where
  pub app_constructor : NetworkValidator → Action S (Process K S U)
  pub genesis_state : G
  pub encoding_config : EncodingConfig K

module _ {K S U G : Type 0} (host : Host K S U) (env : NetworkEnv K S U G) where
  abbrev pub started : Outcome (Unit {0}) × Process K S U → Outcome (Process K S U) × S
  started (r, p) = (elim r [ ok u ↦ ok p | fail e ↦ fail e ], p.built.rest)

  abbrev pub app_ctr : NetworkValidator → Action S (Process K S U)
  app_ctr val s = started (new_chain_app host true (env.validator_process val s))

  abbrev pub fixture_of : Process K S U → TestFixture K S U G
  fixture_of p = record {
    app_constructor = app_ctr;
    genesis_state = env.default_genesis p;
    encoding_config = encoding_config_of host p;
  }

  -- The deferred call removes the directory however the function ends.
  abbrev pub with_dir : String → Action S (TestFixture K S U G)
  with_dir dir s =
      let (r, s') = started (new_chain_app host true (env.home_process dir s)) in
      (elim r [ ok p ↦ ok (fixture_of p) | fail e ↦ fail e ], env.dirs.remove_all dir s')

  abbrev pub or_creation_panic : Outcome String → Outcome String
  or_creation_panic (fail (error e)) =
      fail (panic (text_append "failed creating temporary directory: " e))
  or_creation_panic r = r

  unfoldable pub new_test_network_fixture : Action S (TestFixture K S U G)
  new_test_network_fixture =
      (λ s. let (r, s') = env.dirs.mkdir_temp "" "simapp" s in (or_creation_panic r, s'))
      >>= with_dir

  -- Where the calls outside return as `Works` says, a fixture is made, with the genesis state and the encoding
  -- configuration of an application that was started while its directory was there; the
  -- configuration is coherent, and the directory is removed last. Assumed: a new process has nothing
  -- assigned and nothing sealed.
  pub new_test_network_fixture-Returns :
      (works : Works host)
      → ((dir : String) (s : S) → (env.home_process dir s).built.places ≡ [])
      → ((dir : String) (s : S) → works.succeeds.seals (env.home_process dir s).built.rest ≡ [])
      → (s : S) (dir : String) (s₁ : S) → env.dirs.mkdir_temp "" "simapp" s ≡ (ok dir, s₁)
      → (p : Process K S U) × (new_chain_app host true (env.home_process dir s₁) ≡ (ok tt, p))
        × IsCoherent host.sdk Place.textual_tx_config (encoding_config_of host p)
        × (new_test_network_fixture s ≡ (ok (fixture_of p), env.dirs.remove_all dir p.built.rest))
  unfolding new_test_network_fixture
  new_test_network_fixture-Returns works empty unsealed s dir s₁ created =
      let (p, e) =
        new_chain_app-Returns host works true (env.home_process dir s₁) (empty dir s₁)
          (unsealed dir s₁) in
      (
        p,
        e,
        encoding_config_of-IsCoherent host true (env.home_process dir s₁) p (empty dir s₁) e,
        bind-passes
              (λ s. let (r, s') = env.dirs.mkdir_temp "" "simapp" s in (or_creation_panic r, s'))
              with_dir s (ap {B = Outcome String × S} (λ r. (or_creation_panic r.0, r.1)) created)
            ∙ ap {B = Outcome (TestFixture K S U G) × S}
                (λ q. (
                  elim (started q).0 [ ok p ↦ ok (fixture_of p) | fail x ↦ fail x ],
                  env.dirs.remove_all dir (started q).1,
                ))
                e,
      )

-- `account`
pub record Account (Priv Val : Type 0) : Type 0 where
  pub priv : Priv
  pub addr : List ℕ
  pub val_key : Val

-- `GenAccount`, with the functions that generate keys and the address of a private key's public one.
unfoldable pub gen_account :
    {S Priv Val : Type 0} (secp256k1_key : Action S Priv) (ed25519_key : Action S Val)
    (key_address : Priv → List ℕ)
    → Action S (Account Priv Val)
gen_account secp256k1_key ed25519_key key_address = do
  priv ← secp256k1_key
  val_key ← ed25519_key
  pure (record { priv = priv; addr = key_address priv; val_key = val_key })
