-- ===== src/App/StoreKeysLaws.antt =====
-- What `GetStoreKeys` of app/app.go promises: the keys of the map, each as often, in ascending order,
-- whatever the order of the iteration.
use Prim.Native.Char.{code}
use text.Mathlib.TextEquality.{Char-path}
use mathlib.Core.HLevel.{hedberg}
use mathlib.Core.List.{Perm, is_set}
use mathlib.Core.List.Perm
use vector_chain.Prelude.{
  ℕ, ◌≡◌, refl, sym, ap, ◌∙◌, String, eq_iff, str_eq, true, false, List, [], ◌∷◌, Bool-cases, inl,
  inr, arith, false_is_true, All,
}
use vector_chain.App.StoreKeys.{codes, codes_lt, name_lt, insert_key, get_store_keys}

codes_asym : (l m : List ℕ) → codes_lt l m ≡ true → codes_lt m l ≡ false
unfolding codes_lt
codes_asym l [] h = absurd (false_is_true h)
codes_asym [] (d ∷ ds) h = refl
codes_asym (c ∷ cs) (d ∷ ds) h = ground (arith, codes_asym cs ds)

codes_trans : (l m n : List ℕ) → codes_lt l m ≡ true → codes_lt m n ≡ true → codes_lt l n ≡ true
unfolding codes_lt
codes_trans l m [] h g = absurd (false_is_true g)
codes_trans l [] (e ∷ es) h g = absurd (false_is_true h)
codes_trans [] (d ∷ ds) (e ∷ es) h g = refl
codes_trans (c ∷ cs) (d ∷ ds) (e ∷ es) h g = ground (arith, codes_trans cs ds es)

codes_total : (l m : List ℕ) → codes_lt l m ≡ false → codes_lt m l ≡ false → l ≡ m
unfolding codes_lt
codes_total [] [] h g = refl
codes_total (c ∷ cs) [] h g = absurd (false_is_true (sym g))
codes_total [] (d ∷ ds) h g = absurd (false_is_true (sym h))
codes_total (c ∷ cs) (d ∷ ds) h g = ground (arith, codes_total cs ds)

abbrev head_or : ℕ → List ℕ → ℕ
head_or n [] = n
head_or n (m ∷ ms) = m

abbrev tail_of : List ℕ → List ℕ
tail_of [] = []
tail_of (m ∷ ms) = ms

codes-injective : (s t : String) → codes s ≡ codes t → s ≡ t
codes-injective String.[] String.[] e = refl
codes-injective String.[] (String.◌∷◌ d t) e = cc
codes-injective (String.◌∷◌ c s) String.[] e = cc
codes-injective (String.◌∷◌ c s) (String.◌∷◌ d t) e =
    let heads : c ≡ d = Char-path c d (ap (head_or (code c)) e) in
    let tails : s ≡ t = codes-injective s t (ap tail_of e) in cc

lt_asym : (s t : String) → name_lt s t ≡ true → name_lt t s ≡ false
unfolding name_lt
lt_asym s t = codes_asym (codes s) (codes t)

lt_trans : (s t u : String) → name_lt s t ≡ true → name_lt t u ≡ true → name_lt s u ≡ true
unfolding name_lt
lt_trans s t u = codes_trans (codes s) (codes t) (codes u)

lt_total : (s t : String) → name_lt s t ≡ false → name_lt t s ≡ false → s ≡ t
unfolding name_lt
lt_total s t h g = codes-injective s t (codes_total (codes s) (codes t) h g)

insert_key_comm :
    (a b : String) (l : List String) → insert_key a (insert_key b l) ≡ insert_key b (insert_key a l)
unfolding insert_key
insert_key_comm a b [] = ground (arith, lt_asym a b, lt_asym b a, lt_total a b)
insert_key_comm a b (x ∷ l) = ground (
  arith,
  lt_asym a b,
  lt_asym b a,
  lt_total a b,
  lt_trans a b x,
  lt_trans b a x,
  lt_asym a x,
  lt_asym b x,
  lt_asym x a,
  lt_asym x b,
  lt_total a x,
  lt_total b x,
  lt_trans b x a,
  lt_trans a x b,
  insert_key_comm a b l,
)

-- No name stands behind one that it is below.
abbrev pub IsSorted : List String → Type 0
IsSorted [] = Unit
IsSorted (k ∷ ks) = All (λ j. name_lt j k ≡ false) ks × IsSorted ks

insert_key-All :
    (P : String → Type 0) (k : String) (l : List String) → P k → All P l → All P (insert_key k l)
unfolding insert_key
insert_key-All P k [] p h = (p, tt)
insert_key-All P k (j ∷ js) p h = elim (Bool-cases (name_lt k j)) [
  | inl below ↦ rw below (p, h)
  | inr above ↦ rw above (h.0, insert_key-All P k js p h.1)
]

-- What is not below a name is not below one that is below it.
All-not_below :
    (k j : String) (l : List String)
    → name_lt k j ≡ true
    → All (λ i. name_lt i j ≡ false) l
    → All (λ i. name_lt i k ≡ false) l
All-not_below k j [] below h = tt
All-not_below k j (i ∷ l) below (h, hs) = (step, All-not_below k j l below hs)
  where
    step : name_lt i k ≡ false
    step = elim (Bool-cases (name_lt i k)) [
      | inl less ↦ absurd (false_is_true (sym h ∙ lt_trans i k j less below))
      | inr more ↦ more
    ]

insert_key-IsSorted : (k : String) (l : List String) → IsSorted l → IsSorted (insert_key k l)
unfolding insert_key
insert_key-IsSorted k [] h = (tt, tt)
insert_key-IsSorted k (j ∷ js) (first, others) = elim (Bool-cases (name_lt k j)) [
  | inl below ↦ rw below ((lt_asym k j below, All-not_below k j js below first), (first, others))
  | inr above ↦
      rw above (
        insert_key-All (λ i. name_lt i j ≡ false) k js above first,
        insert_key-IsSorted k js others,
      )
]

insert_key-perm : (k : String) (l : List String) → Perm (insert_key k l) (k ∷ l)
unfolding insert_key
insert_key-perm k [] = Perm.rfl
insert_key-perm k (j ∷ js) = elim (Bool-cases (name_lt k j)) [
  | inl below ↦ rw below Perm.rfl
  | inr above ↦ rw above (Perm.trans (Perm.cons j (insert_key-perm k js)) (Perm.swap k j js))
]

get_store_keys-IsSorted : (keys : List String) → IsSorted (get_store_keys keys)
unfolding get_store_keys
get_store_keys-IsSorted [] = tt
get_store_keys-IsSorted (k ∷ keys) = insert_key-IsSorted k _ (get_store_keys-IsSorted keys)

get_store_keys-perm : (keys : List String) → Perm (get_store_keys keys) keys
unfolding get_store_keys
get_store_keys-perm [] = Perm.rfl
get_store_keys-perm (k ∷ keys) =
    Perm.trans (insert_key-perm k (get_store_keys keys)) (Perm.cons k (get_store_keys-perm keys))

String-discrete : Discrete String
String-discrete s t = elim (Bool-cases (str_eq s t)) [
  | inl same ↦ yes ((eq_iff s t).0 same)
  | inr other ↦ no (λ e. false_is_true (sym other ∙ (eq_iff s t).1 e))
]

-- The keys of a map, whatever the order of the iteration, are sorted to one and the same list: it has
-- them all, each as often as the map, in ascending order of their names.
pub get_store_keys-perm_iff :
    (keys keys' : List String)
    → Perm keys keys'
    → (get_store_keys keys ≡ get_store_keys keys')
      × Perm (get_store_keys keys) keys
      × IsSorted (get_store_keys keys)
unfolding get_store_keys
get_store_keys-perm_iff keys keys' p = (
  Perm.foldr-eq (is_set (hedberg String-discrete)) insert_key insert_key_comm p [],
  get_store_keys-perm keys,
  get_store_keys-IsSorted keys,
)
