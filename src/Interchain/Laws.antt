-- ===== src/Interchain/Laws.antt =====
-- What the helpers of interchaintest/setup.go give.
use vector_chain.Prelude.{
  ℕ, ◌+◌, suc, zero, arith, String, str_eq, Bool, true, false, List, [], ◌∷◌, ◌++◌, if◌then◌else◌,
  All, Outcome, ok, fail, error, text_append, ◌≡◌, refl, ap, ◌∙◌, ◌⊎◌, inl, inr, Bool-cases,
}
use vector_chain.Interchain.{
  ChainNode, gas_flag, tx_command_builder_node, ChannelOutput, is_open_transfer, find_open,
  get_transfer_channel,
}

-- How often a text stands in a list.
unfoldable pub count : String → List String → ℕ
count k [] = 0
count k (x ∷ xs) = let rest = count k xs in if str_eq x k then suc rest else rest

count-append : (k : String) (xs ys : List String) → count k (xs ++ ys) ≡ count k xs + count k ys
unfolding count
count-append k [] ys = omega arith
count-append k (x ∷ xs) ys = elim (Bool-cases (str_eq x k)) [
  | inl yes' ↦ rw yes' (omega (arith, count-append k xs ys))
  | inr no' ↦ rw no' (count-append k xs ys)
]

-- The gas flags of the extra flags, or one for the default where there are none.
unfoldable pub at_least_one : ℕ → ℕ
at_least_one zero = 1
at_least_one (suc n) = suc n

count-cons : (k x : String) (xs : List String) → count k (x ∷ xs) ≡ count k (x ∷ []) + count k xs
count-cons k x xs = count-append k (x ∷ []) xs

one_gas : count "--gas" ("--gas" ∷ "500000" ∷ []) ≡ 1
unfolding count
one_gas = refl

no_gas : count "--gas" ("--yes" ∷ []) ≡ 0
unfolding count
no_gas = refl

gas_flag-seen : (flags : List String) → gas_flag true flags ≡ true
unfolding gas_flag
gas_flag-seen [] = refl
gas_flag-seen (flag ∷ flags) = elim (Bool-cases (str_eq flag "--gas")) [
  | inl yes' ↦ rw yes' (gas_flag-seen flags)
  | inr no' ↦ rw no' (gas_flag-seen flags)
]

-- The default is put in just where the extra flags have no gas flag.
gas_flag-count :
    (flags : List String)
    → (if gas_flag false flags then 0 else 1) + count "--gas" flags
      ≡ at_least_one (count "--gas" flags)
unfolding gas_flag count at_least_one
gas_flag-count [] = refl
gas_flag-count (flag ∷ flags) = elim (Bool-cases (str_eq flag "--gas")) [
  | inl yes' ↦ rw (yes', gas_flag-seen flags) (omega arith)
  | inr no' ↦ rw no' (gas_flag-count flags)
]

default_gas-count :
    (seen : Bool) (command flags : List String)
    → count "--gas" ((if seen then command else command ++ "--gas" ∷ "500000" ∷ []) ++ flags)
      ≡ count "--gas" command + ((if seen then 0 else 1) + count "--gas" flags)
default_gas-count true command flags = omega (arith, count-append "--gas" command flags)
default_gas-count false command flags = omega (
  arith,
  count-append "--gas" (command ++ "--gas" ∷ "500000" ∷ []) flags,
  count-append "--gas" command ("--gas" ∷ "500000" ∷ []),
  one_gas,
)

-- A flag that the builder writes itself, with the word behind it.
count-flag :
    (command : List String) (flag word : String)
    → str_eq flag "--gas" ≡ false
    → count "--gas" (command ++ flag ∷ word ∷ [])
      ≡ count "--gas" command + count "--gas" (word ∷ [])
unfolding count
count-flag command flag word other = count-append "--gas" command (flag ∷ word ∷ []) ∙ rw other refl

-- The command line has the gas flags that stand among the words of the caller and of the node, and
-- behind them those of the extra flags, or one where the extra flags have none.
pub tx_command_builder_node-gas :
    (backend_test : String) (node : ChainNode) (cmd : List String) (from_user : String)
    (extra_flags : List String)
    → count "--gas" (tx_command_builder_node backend_test node cmd from_user extra_flags)
      ≡ count "--gas" (
          node.bin ∷ cmd
          ++ node.rpc_address ∷ node.home_dir ∷ node.chain_id ∷ from_user ∷ backend_test ∷ [])
        + at_least_one (count "--gas" extra_flags)
unfolding tx_command_builder_node
tx_command_builder_node-gas backend_test node cmd from_user extra_flags =
    let c₀ = node.bin ∷ cmd in
    let c₁ = c₀ ++ "--node" ∷ node.rpc_address ∷ [] in
    let c₂ = c₁ ++ "--home" ∷ node.home_dir ∷ [] in
    let c₃ = c₂ ++ "--chain-id" ∷ node.chain_id ∷ [] in
    let c₄ = c₃ ++ "--from" ∷ from_user ∷ [] in
    let c₅ = c₄ ++ "--keyring-backend" ∷ backend_test ∷ [] in
    let c₆ = c₅ ++ "--output=json" ∷ "--yes" ∷ [] in
    omega (
      arith,
      default_gas-count (gas_flag false extra_flags) c₆ extra_flags,
      gas_flag-count extra_flags,
      count-flag c₅ "--output=json" "--yes" refl,
      count-flag c₄ "--keyring-backend" backend_test refl,
      count-flag c₃ "--from" from_user refl,
      count-flag c₂ "--chain-id" node.chain_id refl,
      count-flag c₁ "--home" node.home_dir refl,
      count-flag c₀ "--node" node.rpc_address refl,
      no_gas,
      count-append "--gas" c₀
          (node.rpc_address ∷ node.home_dir ∷ node.chain_id ∷ from_user ∷ backend_test ∷ []),
      count-cons "--gas" node.rpc_address
          (node.home_dir ∷ node.chain_id ∷ from_user ∷ backend_test ∷ []),
      count-cons "--gas" node.home_dir (node.chain_id ∷ from_user ∷ backend_test ∷ []),
      count-cons "--gas" node.chain_id (from_user ∷ backend_test ∷ []),
      count-cons "--gas" from_user (backend_test ∷ []),
    )

module _ (open_state : String) (print : List ChannelOutput → String) where
  unfoldable pub IsFirst : (channels : List ChannelOutput) → Outcome String → Type 0
  IsFirst channels r =
      (before : List ChannelOutput) × (channel : ChannelOutput) × (after : List ChannelOutput)
      × (channels ≡ before ++ channel ∷ after)
      × All (λ c. is_open_transfer open_state c ≡ false) before
      × (is_open_transfer open_state channel ≡ true)
      × (r ≡ ok channel.channel_id)

  find_open_lem :
      (all_of channels : List ChannelOutput)
      → IsFirst channels (find_open open_state print all_of channels)
        ⊎ (All (λ c. is_open_transfer open_state c ≡ false) channels
            × (e : String) × (find_open open_state print all_of channels ≡ fail (error e)))
  unfolding IsFirst find_open
  find_open_lem all_of [] =
      inr (tt, text_append "no open transfer channel found: " (print all_of), refl)
  find_open_lem all_of (channel ∷ rest) = elim (Bool-cases (is_open_transfer open_state channel)) [
    | inl yes' ↦ inl ([], channel, rest, refl, tt, yes', rw yes' refl)
    | inr no' ↦ elim (find_open_lem all_of rest) [
      | inl (before, c, after, e, closed, is_open, found) ↦ inl (
        channel ∷ before,
        c,
        after,
        ap (λ l. channel ∷ l) e,
        (no', closed),
        is_open,
        rw no' found,
      )
      | inr (closed, e, failed) ↦ inr ((no', closed), e, rw no' failed)
    ]
  ]

  -- The channel that is chosen is the first open one of the transfer port; an error is returned where
  -- there is none.
  pub get_transfer_channel_lem :
      (channels : List ChannelOutput)
      → IsFirst channels (get_transfer_channel open_state print channels)
        ⊎ (All (λ c. is_open_transfer open_state c ≡ false) channels
            × (e : String) × (get_transfer_channel open_state print channels ≡ fail (error e)))
  unfolding get_transfer_channel
  get_transfer_channel_lem channels = find_open_lem channels channels
