-- ===== src/Testnet/Flags/SetLaws.antt =====
-- A flag set that shows a table takes the command lines that fit it.
use vector_chain.Prelude.{◌≡◌, refl, ap, ◌∙◌, none, some, List, [], ◌∷◌, ok, if◌then◌else◌, ◌>>=◌}
use vector_chain.Testnet.Flags.{Flag, FlagValue, kind, same_flag, FlagSets, normal_name, set_all}
use vector_chain.Testnet.Flags.Table.{Table, put, kind_of, FlagLaws, given, IsFit}
use vector_chain.Testnet.Flags.Kinds.{HasKinds, put-HasKinds}

module _ {F : Type 0} (sets : FlagSets F) (laws : FlagLaws sets) where
  -- The flag set normalizes by `g`, and finds what the table has.
  abbrev pub Looks : F → (Flag → Flag) → Table → Type 0
  Looks f g t = ((n : Flag) → laws.normalize f n ≡ g n) × ((n : Flag) → laws.find f n ≡ t n)

  pub define-Looks :
      (m : Flag) (v : FlagValue) (f : F) (g : Flag → Flag) (t : Table)
      → Looks f g t
      → t m ≡ none
      → Looks (sets.define m v f) g (λ n. if same_flag (g n) (g m) then some v else t n)
  define-Looks m v f g t (normal, found) is_new = (
    λ n. laws.define_normalize m v f n ∙ normal n,
    λ n.
        laws.define_find m v f (found m ∙ is_new) n
        ∙ (λ i. if same_flag (normal n i) (normal m i) then some v else found n i),
  )

  -- The table under the normalized names.
  abbrev pub Shows : F → Table → Type 0
  Shows f t = Looks f normal_name (λ n. t (normal_name n))

  set-Shows :
      (m : Flag) (v : FlagValue) (f : F) (t : Table)
      → Shows f t
      → kind_of (t (normal_name m)) ≡ some (kind v)
      → (f' : F) × (sets.set m v f ≡ ok f') × Shows f' (put (normal_name m) v t)
  set-Shows m v f t (normal, found) fits =
      let (f', e, normal', found') = laws.set_sets m v f (ap kind_of (found m) ∙ fits) in
      (
        f',
        e,
        (
          λ n. normal' n ∙ normal n,
          λ n. found' n ∙ (λ i. if same_flag (normal n i) (normal m i) then some v else found n i),
        ),
      )

  -- A line that fits is taken, whatever the values so far.
  pub set_all-Shows :
      (defaults : Table) (line : List (Flag × FlagValue)) (f : F) (t : Table)
      → IsFit defaults line
      → HasKinds defaults t
      → Shows f t
      → (f' : F) × (set_all sets line f ≡ ok f')
        × Shows f' (given line t)
        × HasKinds defaults (given line t)
  unfolding set_all IsFit given HasKinds
  set_all-Shows defaults [] f t fits kinds shows = (f, refl, shows, kinds)
  set_all-Shows defaults ((m, v) ∷ line) f t (fit, fits) kinds shows =
      let (f₁, e₁, shows₁) = set-Shows m v f t shows (kinds (normal_name m) ∙ fit) in
      let (f₂, e₂, shows₂, kinds₂) =
        set_all-Shows defaults line f₁ (put (normal_name m) v t) fits
          (put-HasKinds defaults t (normal_name m) v kinds fit) shows₁ in
      (f₂, ap (λ r. r >>= λ f'. set_all sets line f') e₁ ∙ e₂, shows₂, kinds₂)
