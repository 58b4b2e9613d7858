-- ===== src/App/Blocked.antt =====
-- Which addresses `BlockedAddresses` of app/app.go blocks, whatever the order of the iteration.
use vector_chain.Prelude.{
  false_is_true, String, str_eq, eq_iff, Bool, true, false, not, ◌||◌, ◌&&◌, ◌≢◌, List, [], ◌∷◌,
  contains, All, ◌≡◌, refl, sym, ap, ◌∙◌, ◌↔◌, ◌⊎◌, inl, inr, Bool-cases,
}
use vector_chain.App.Accounts.{Account, gov, insert, delete, module_addresses, blocked_addresses}

str_eq_refl : (x : String) → str_eq x x ≡ true
str_eq_refl x = (eq_iff x x).1 refl

str_eq-apart : (x y : String) → (x ≡ y → ⊥) → str_eq x y ≡ false
str_eq-apart x y h = elim (Bool-cases (str_eq x y)) [
  | inl same ↦ absurd (h ((eq_iff x y).0 same))
  | inr other ↦ other
]

or_swap : (a b c : Bool) → (a || (b || c)) ≡ ((b || a) || c)
or_swap true true c = refl
or_swap true false c = refl
or_swap false true c = refl
or_swap false false c = refl

or_false : (a : Bool) → (a || false) ≡ a
or_false true = refl
or_false false = refl

or_true : (a : Bool) → (a || true) ≡ true
or_true true = refl
or_true false = refl

contains-insert :
    (x k : String) (m : List String) → contains x (insert k m) ≡ str_eq x k || contains x m
unfolding insert
contains-insert x k m = elim (Bool-cases (contains k m)) [
  | inl yes' ↦ elim (Bool-cases (str_eq x k)) [
    | inl same ↦ rw (yes', same, (eq_iff x k).0 same) yes'
    | inr other ↦ rw (yes', other) refl
  ]
  | inr no' ↦ rw no' refl
]

contains-delete :
    (x k : String) (m : List String) → contains x (delete k m) ≡ not (str_eq k x) && contains x m
unfolding delete
contains-delete x k [] = elim (Bool-cases (str_eq k x)) [
  | inl same ↦ rw same refl
  | inr other ↦ rw other refl
]
contains-delete x k (y ∷ m) = elim (Bool-cases (str_eq k y)) [
  | inl gone ↦ elim (Bool-cases (str_eq k x)) [
    | inl same ↦ rw (gone, contains-delete x k m, same) refl
    | inr other ↦
        let apart : str_eq x y ≡ false =
          str_eq-apart x y
            λ e. false_is_true (sym other ∙ (eq_iff k x).1 ((eq_iff k y).0 gone ∙ sym e)) in
        rw (gone, contains-delete x k m, other, apart) refl
  ]
  | inr stays ↦ elim (Bool-cases (str_eq k x)) [
    | inl same ↦
        let apart : str_eq x y ≡ false =
          str_eq-apart x y
            λ e. false_is_true (sym stays ∙ (eq_iff k y).1 ((eq_iff k x).0 same ∙ e)) in
        rw (stays, apart, contains-delete x k m, same) refl
    | inr other ↦ rw (stays, contains-delete x k m, other) refl
  ]
]

module _ (module_address : Account → String) where
  -- The address is that of one of the accounts.
  unfoldable pub is_module_address : String → List Account → Bool
  is_module_address addr [] = false
  is_module_address addr (acc ∷ accs) =
      str_eq addr (module_address acc) || is_module_address addr accs

  contains-module_addresses :
      (addr : String) (accs : List Account) (m : List String)
      → contains addr (module_addresses module_address accs m)
        ≡ is_module_address addr accs || contains addr m
  unfolding module_addresses is_module_address
  contains-module_addresses addr [] m = refl
  contains-module_addresses addr (acc ∷ accs) m =
      rw
        (
          contains-module_addresses addr accs (insert (module_address acc) m),
          contains-insert addr (module_address acc) m,
        )
        (or_swap (is_module_address addr accs) (str_eq addr (module_address acc)) (contains addr m))

  contains-blocked_addresses :
      (addr : String) (accs : List Account)
      → contains addr (blocked_addresses module_address accs)
        ≡ not (str_eq (module_address gov) addr) && is_module_address addr accs
  unfolding blocked_addresses
  contains-blocked_addresses addr accs =
      contains-delete addr (module_address gov) (module_addresses module_address accs [])
      ∙ ap (λ b. not (str_eq (module_address gov) addr) && b)
          (contains-module_addresses addr accs [] ∙ or_false (is_module_address addr accs))

  -- In whatever order the accounts come, an address is blocked just where it is that of one of the
  -- accounts and is not the governance module's.
  pub blocked_addresses_iff :
      (addr : String) (accs : List Account)
      → (contains addr (blocked_addresses module_address accs) ≡ true)
        ↔ ((is_module_address addr accs ≡ true) × (addr ≢ module_address gov))
  blocked_addresses_iff addr accs = elim (Bool-cases (str_eq (module_address gov) addr)) [
    | inl same ↦ (
      λ h. absurd (false_is_true (rw (contains-blocked_addresses addr accs, same) at h)),
      λ (found, other). absurd (other (sym ((eq_iff (module_address gov) addr).0 same))),
    )
    | inr other ↦ (
      λ h. (
        rw (contains-blocked_addresses addr accs, other) at h,
        λ e. false_is_true (sym other ∙ (eq_iff (module_address gov) addr).1 (sym e)),
      ),
      λ (found, _). rw (contains-blocked_addresses addr accs, other) found,
    )
  ]

  -- The account is the governance module's and is not blocked, or is another one and is blocked.
  unfoldable pub BlockedUnlessGov : List Account → Account → Type 0
  BlockedUnlessGov accs acc =
      ((acc ≡ gov)
        × (contains (module_address acc) (blocked_addresses module_address accs) ≡ false))
      ⊎ ((acc ≢ gov)
          × (contains (module_address acc) (blocked_addresses module_address accs) ≡ true))

  module _ (apart : (acc : Account) → module_address acc ≡ module_address gov → acc ≡ gov) where
    listed-BlockedUnlessGov :
        (acc : Account) (accs : List Account)
        → is_module_address (module_address acc) accs ≡ true
        → BlockedUnlessGov accs acc
    unfolding BlockedUnlessGov
    listed-BlockedUnlessGov acc accs found =
        let answer = contains-blocked_addresses (module_address acc) accs in
        elim (Bool-cases (str_eq (module_address gov) (module_address acc))) [
          | inl same ↦ inl (
            apart acc (sym ((eq_iff (module_address gov) (module_address acc)).0 same)),
            rw (answer, same) refl,
          )
          | inr other ↦ inr (
            (λ e. false_is_true (
                sym other
                ∙ (eq_iff (module_address gov) (module_address acc)).1
                    (ap module_address (sym e)))),
            rw (answer, other) found,
          )
        ]

    All-listed :
        (accs listed : List Account)
        → ((addr : String)
            → is_module_address addr listed ≡ true
            → is_module_address addr accs ≡ true)
        → All (BlockedUnlessGov accs) listed
    unfolding is_module_address
    All-listed accs [] h = tt
    All-listed accs (acc ∷ listed) h =
        let mine : is_module_address (module_address acc) (acc ∷ listed) ≡ true =
          rw (str_eq_refl (module_address acc)) refl in
        let later : (addr : String)
            → is_module_address addr listed ≡ true
            → is_module_address addr accs ≡ true =
          λ addr found.
            let step : is_module_address addr (acc ∷ listed) ≡ true =
              rw (found) (or_true (str_eq addr (module_address acc))) in
            h addr step in
        (
          listed-BlockedUnlessGov acc accs (h (module_address acc) mine),
          All-listed accs listed later,
        )

    -- Where no other module account has the address of the governance module, each module account
    -- that the map holds is blocked, other than the governance module's, which is not; in whatever
    -- order the accounts come.
    pub blocked_addresses_but_gov : (accs : List Account) → All (BlockedUnlessGov accs) accs
    blocked_addresses_but_gov accs = All-listed accs accs (λ addr h. h)
