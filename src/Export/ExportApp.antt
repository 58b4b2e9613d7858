-- ===== src/Export/ExportApp.antt =====
-- `ExportAppStateAndValidators` of app/export.go.
use vector_chain.Prelude.{ℕ, ◌+◌, String, Bool, List, if◌then◌else◌, Outcome, ok, ◌>>=◌}
use vector_chain.Export.{Keepers}
use vector_chain.Export.Prepare.{prep_for_zero_height_genesis}

-- What the export calls of the module manager, of encoding/json and of the base application.
pub record Exporter (S GenState ConsensusParams : Type 0) : Type 0 where
  pub last_block_height : ℕ
  pub export_genesis_for_modules : List String → ℕ → S → Outcome GenState
  pub marshal_indent : GenState → Outcome String
  pub write_validators : ℕ → S → Outcome (List String)
  pub get_consensus_params : ℕ → S → ConsensusParams

-- `servertypes.ExportedApp`
pub record ExportedApp (ConsensusParams : Type 0) : Type 0 where
  pub app_state : String
  pub validators : List String
  pub height : ℕ
  pub consensus_params : ConsensusParams

module _ {S Coins GenState ConsensusParams : Type 0} (k : Keepers S Coins)
    (x : Exporter S GenState ConsensusParams) where
  -- The part behind the preparation, on the state that it left.
  unfoldable pub collect : List String → ℕ → S → Outcome (ExportedApp ConsensusParams)
  collect modules_to_export height s = do
    gen_state ← x.export_genesis_for_modules modules_to_export x.last_block_height s
    app_state ← x.marshal_indent gen_state
    validators ← x.write_validators x.last_block_height s
    ok (record {
      app_state = app_state;
      validators = validators;
      height = height;
      consensus_params = x.get_consensus_params x.last_block_height s;
    })

  unfoldable pub export_app_state_and_validators :
      Bool → List String → List String → S → Outcome (ExportedApp ConsensusParams)
  unfolding collect
  export_app_state_and_validators for_zero_height jail_allowed_addrs modules_to_export s = do
    prepared ←
        if for_zero_height
        then prep_for_zero_height_genesis k jail_allowed_addrs x.last_block_height s
        else ok s
    collect modules_to_export (if for_zero_height then 0 else x.last_block_height + 1) prepared
