-- ===== src/Interchain.antt =====
-- interchaintest/setup.go: the command line that is built for a transaction, and the choice of a
-- transfer channel.
pub mod Laws
pub mod Exec
use vector_chain.Prelude.{
  String, str_eq, Bool, true, false, List, [], ◌∷◌, ◌++◌, ◌&&◌, if◌then◌else◌, Outcome, ok, fail,
  error, text_append,
}

-- What is asked of a node of a chain under test.
pub record ChainNode : Type 0 where
  pub bin : String
  pub rpc_address : String
  pub home_dir : String
  pub chain_id : String

-- The loop over the extra flags, with `gasFlag` as it stands.
unfoldable pub gas_flag : Bool → List String → Bool
gas_flag seen [] = seen
gas_flag seen (flag ∷ flags) = gas_flag (if str_eq flag "--gas" then true else seen) flags

-- `backend_test` is the keyring's constant.
unfoldable pub tx_command_builder_node :
    String → ChainNode → List String → String → List String → List String
unfolding gas_flag
tx_command_builder_node backend_test node cmd from_user extra_flags =
    let command =
      (((((((node.bin ∷ []) ++ cmd) ++ "--node" ∷ node.rpc_address ∷ [])
              ++ "--home" ∷ node.home_dir ∷ [])
            ++ "--chain-id" ∷ node.chain_id ∷ [])
          ++ "--from" ∷ from_user ∷ [])
        ++ "--keyring-backend" ∷ backend_test ∷ [])
      ++ "--output=json" ∷ "--yes" ∷ [] in
    let command' =
      if gas_flag false extra_flags then command else command ++ "--gas" ∷ "500000" ∷ [] in
    command' ++ extra_flags

-- `ibc.ChannelOutput`, as far as it is read.
pub record ChannelOutput : Type 0 where
  pub port_id : String
  pub state : String
  pub channel_id : String

-- `open_state` is the text of the open state.
unfoldable pub is_open_transfer : String → ChannelOutput → Bool
is_open_transfer open_state channel =
    str_eq channel.port_id "transfer" && str_eq channel.state open_state

module _ (open_state : String) (print : List ChannelOutput → String) where
  -- The loop, which has the whole list at hand for its error.
  unfoldable pub find_open : List ChannelOutput → List ChannelOutput → Outcome String
  unfolding is_open_transfer
  find_open channels [] =
      fail (error (text_append "no open transfer channel found: " (print channels)))
  find_open channels (channel ∷ rest) =
      let next = find_open channels rest in
      if is_open_transfer open_state channel then ok channel.channel_id else next

  unfoldable pub get_transfer_channel : List ChannelOutput → Outcome String
  unfolding find_open
  get_transfer_channel channels = find_open channels channels
