-- ===== src/App/AutoCli.antt =====
-- `AutoCliOpts` of app/app.go: the modules that the command line finds by their names.
use vector_chain.Prelude.{
  ◌≡◌, refl, sym, ap, ◌∙◌, String, str_eq, eq_iff, Bool, true, false, ◌&&◌, Option, none, some,
  List, [], ◌∷◌, lookup, if◌then◌else◌, Bool-cases, inl, inr, arith,
}

-- `m[k] = v`
unfoldable pub set_entry : {V : Type 0} → String → V → List (String × V) → List (String × V)
set_entry k v [] = (k, v) ∷ []
set_entry k v ((j, w) ∷ m) =
    let later = set_entry k v m in if str_eq j k then (k, v) ∷ m else (j, w) ∷ later

-- A module of the module manager, as the loop sees it: the name, if it has the method `Name`, and
-- whether it is an `appmodule.AppModule`.
pub record ListedModule (M : Type 0) : Type 0 where
  pub name : Option String
  pub is_app_module : Bool
  pub self : M

module _ {M : Type 0} where
  abbrev pub add_named : Option String → ListedModule M → List (String × M) → List (String × M)
  add_named none m modules = modules
  add_named (some name) m modules =
      if m.is_app_module then set_entry name m.self modules else modules

  -- The loop over `app.ModuleManager.Modules`.
  unfoldable pub auto_cli_modules : List (ListedModule M) → List (String × M) → List (String × M)
  unfolding set_entry
  auto_cli_modules [] modules = modules
  auto_cli_modules (m ∷ ms) modules = auto_cli_modules ms (add_named m.name m modules)

-- The fields of `autocli.AppOptions`.
pub record AppOptions (M O C : Type 0) : Type 0 where
  pub modules : List (String × M)
  pub module_options : O
  pub address_codec : C
  pub validator_address_codec : C
  pub consensus_address_codec : C

-- `extract` is `runtimeservices.ExtractAutoCLIOptions`, the rest the codec of a prefix and the three
-- prefixes of the SDK's configuration.
unfoldable pub auto_cli_opts :
    {M O C : Type 0} (extract : List (ListedModule M) → O) (new_bech32_codec : String → C)
    (account_prefix validator_prefix consensus_prefix : String)
    → List (ListedModule M)
    → AppOptions M O C
unfolding auto_cli_modules
auto_cli_opts extract new_bech32_codec account_prefix validator_prefix consensus_prefix ms =
    record {
      modules = auto_cli_modules ms [];
      module_options = extract ms;
      address_codec = new_bech32_codec account_prefix;
      validator_address_codec = new_bech32_codec validator_prefix;
      consensus_address_codec = new_bech32_codec consensus_prefix;
    }

and_true : (b : Bool) → (b && true) ≡ b
and_true true = refl
and_true false = refl

and_false : (b : Bool) → (b && false) ≡ false
and_false true = refl
and_false false = refl

abbrev pub goes_by : String → Option String → Bool
goes_by j none = false
goes_by j (some name) = str_eq name j

lookup-set_entry :
    {V : Type 0} (j k : String) (v : V) (m : List (String × V))
    → lookup j (set_entry k v m) ≡ (if str_eq k j then some v else lookup j m)
unfolding set_entry
lookup-set_entry j k v [] = refl
lookup-set_entry j k v ((i, w) ∷ m) =
    ground (arith, eq_iff k j, eq_iff i k, eq_iff i j, lookup-set_entry j k v m)

module _ {M : Type 0} where
  -- The last module that goes by the name and is an app module.
  unfoldable pub last_named : String → List (ListedModule M) → Option M → Option M
  last_named j [] before = before
  last_named j (m ∷ ms) before =
      last_named j ms (if goes_by j m.name && m.is_app_module then some m.self else before)

  lookup-add_named :
      (j : String) (name : Option String) (m : ListedModule M) (modules : List (String × M))
      → lookup j (add_named name m modules)
        ≡ (if goes_by j name && m.is_app_module then some m.self else lookup j modules)
  lookup-add_named j none m modules = refl
  lookup-add_named j (some name) m modules = elim (Bool-cases m.is_app_module) [
    | inl app ↦ rw app (
        lookup-set_entry j name m.self modules
        ∙ ap (λ b. if b then some m.self else lookup j modules) (sym (and_true (str_eq name j))))
    | inr other ↦
        rw other
          (ap (λ b. if b then some m.self else lookup j modules) (sym (and_false (str_eq name j))))
  ]

  lookup-auto_cli_modules :
      (j : String) (ms : List (ListedModule M)) (modules : List (String × M))
      → lookup j (auto_cli_modules ms modules) ≡ last_named j ms (lookup j modules)
  unfolding auto_cli_modules last_named
  lookup-auto_cli_modules j [] modules = refl
  lookup-auto_cli_modules j (m ∷ ms) modules =
      lookup-auto_cli_modules j ms (add_named m.name m modules)
      ∙ ap (last_named j ms) (lookup-add_named j m.name m modules)

-- Under a name the options have the last of the modules that goes by it and is an app module, and
-- nothing where there is none; the codecs of the addresses are those of the three prefixes.
pub auto_cli_opts_lem :
    {M O C : Type 0} (extract : List (ListedModule M) → O) (new_bech32_codec : String → C)
    (account_prefix validator_prefix consensus_prefix : String) (ms : List (ListedModule M))
    (j : String)
    → let opts =
        auto_cli_opts extract new_bech32_codec account_prefix validator_prefix consensus_prefix
          ms in
      (lookup j opts.modules ≡ last_named j ms none)
      × (opts.address_codec ≡ new_bech32_codec account_prefix)
      × (opts.validator_address_codec ≡ new_bech32_codec validator_prefix)
      × (opts.consensus_address_codec ≡ new_bech32_codec consensus_prefix)
unfolding auto_cli_opts
auto_cli_opts_lem extract new_bech32_codec a v c ms j =
    (lookup-auto_cli_modules j ms [], refl, refl, refl)
