-- ===== src/Testnet/Flags/Kinds.antt =====
-- The kinds of the values of the flags of the commands of `testnet`.
use vector_chain.Prelude.{
  ℕ, ◌==◌, arith, ◌≡◌, refl, sym, ap, ◌∙◌, true, Option, none, some, if◌then◌else◌, Bool-cases, inl,
  inr, ==_iff,
}
use vector_chain.Testnet.Flags.{
  Flag, FlagValue, text, integer, duration, switch, kind, flag_number, same_flag, num_validators,
  output_dir, chain_id, min_gas_prices, key_type, key_algorithm, node_dir_prefix, node_daemon_home,
  starting_ip_address, keyring_backend, commit_timeout, single_host, enable_logging, rpc_address,
  api_address, grpc_address, print_mnemonic,
}
use vector_chain.Testnet.Flags.Table.{
  Table, put, text_of, integer_of, duration_of, switch_of, kind_of,
}

-- The flag of a number.
abbrev flag_at : ℕ → Flag
flag_at k =
    if k == 0
    then num_validators
    else if k == 1
    then output_dir
    else if k == 2
    then chain_id
    else if k == 3
    then min_gas_prices
    else if k == 4
    then key_type
    else if k == 5
    then key_algorithm
    else if k == 6
    then node_dir_prefix
    else if k == 7
    then node_daemon_home
    else if k == 8
    then starting_ip_address
    else if k == 9
    then keyring_backend
    else if k == 10
    then commit_timeout
    else if k == 11
    then single_host
    else if k == 12
    then enable_logging
    else if k == 13
    then rpc_address
    else if k == 14
    then api_address
    else if k == 15
    then grpc_address
    else print_mnemonic

flag_at-flag_number : (n : Flag) → flag_at (flag_number n) ≡ n
flag_at-flag_number num_validators = refl
flag_at-flag_number output_dir = refl
flag_at-flag_number chain_id = refl
flag_at-flag_number min_gas_prices = refl
flag_at-flag_number key_type = refl
flag_at-flag_number key_algorithm = refl
flag_at-flag_number node_dir_prefix = refl
flag_at-flag_number node_daemon_home = refl
flag_at-flag_number starting_ip_address = refl
flag_at-flag_number keyring_backend = refl
flag_at-flag_number commit_timeout = refl
flag_at-flag_number single_host = refl
flag_at-flag_number enable_logging = refl
flag_at-flag_number rpc_address = refl
flag_at-flag_number api_address = refl
flag_at-flag_number grpc_address = refl
flag_at-flag_number print_mnemonic = refl

same_flag-eq : (n m : Flag) → same_flag n m ≡ true → n ≡ m
same_flag-eq n m same =
    sym (flag_at-flag_number n)
    ∙ ap flag_at ((==_iff (flag_number n) (flag_number m)).0 same)
    ∙ flag_at-flag_number m

-- Each flag of the table has a value of its kind.
unfoldable pub HasKinds : Table → Table → Type 0
HasKinds defaults t = (n : Flag) → kind_of (t n) ≡ kind_of (defaults n)

pub put-HasKinds :
    (defaults : Table) (t : Table) (m : Flag) (v : FlagValue)
    → HasKinds defaults t
    → kind_of (defaults m) ≡ some (kind v)
    → HasKinds defaults (put m v t)
unfolding HasKinds
put-HasKinds defaults t m v kinds fits n = elim (Bool-cases (same_flag n m)) [
  | inl same ↦ rw same (sym (ap (λ k. kind_of (defaults k)) (same_flag-eq n m same) ∙ fits))
  | inr other ↦ rw other (kinds n)
]

pub text-of_kind : (o : Option FlagValue) → kind_of o ≡ some 0 → o ≡ some (text (text_of o))
text-of_kind none e = cc
text-of_kind (some (text s)) e = refl
text-of_kind (some (integer n)) e = grind (arith, e)
text-of_kind (some (duration d)) e = grind (arith, e)
text-of_kind (some (switch b)) e = grind (arith, e)

pub integer-of_kind :
    (o : Option FlagValue) → kind_of o ≡ some 1 → o ≡ some (integer (integer_of o))
integer-of_kind none e = cc
integer-of_kind (some (text s)) e = grind (arith, e)
integer-of_kind (some (integer n)) e = refl
integer-of_kind (some (duration d)) e = grind (arith, e)
integer-of_kind (some (switch b)) e = grind (arith, e)

pub duration-of_kind :
    (o : Option FlagValue) → kind_of o ≡ some 2 → o ≡ some (duration (duration_of o))
duration-of_kind none e = cc
duration-of_kind (some (text s)) e = grind (arith, e)
duration-of_kind (some (integer n)) e = grind (arith, e)
duration-of_kind (some (duration d)) e = refl
duration-of_kind (some (switch b)) e = grind (arith, e)

pub switch-of_kind : (o : Option FlagValue) → kind_of o ≡ some 3 → o ≡ some (switch (switch_of o))
switch-of_kind none e = cc
switch-of_kind (some (text s)) e = grind (arith, e)
switch-of_kind (some (integer n)) e = grind (arith, e)
switch-of_kind (some (duration d)) e = grind (arith, e)
switch-of_kind (some (switch b)) e = refl
