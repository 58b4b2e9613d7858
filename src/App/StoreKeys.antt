-- ===== src/App/StoreKeys.antt =====
-- `GetStoreKeys` of app/app.go: the keys of the stores, sorted by their names. A key is given by its
-- name, under which the map has it. Go compares texts by their bytes, and so by their code points.
use Prim.Native.Char.{code}
use mathlib.Core.List.{foldr}
use vector_chain.Prelude.{ℕ, ltb, String, Bool, true, false, List, [], ◌∷◌, if◌then◌else◌}

abbrev pub codes : String → List ℕ
codes String.[] = []
codes (String.◌∷◌ c s) = code c ∷ codes s

unfoldable pub codes_lt : List ℕ → List ℕ → Bool
codes_lt l [] = false
codes_lt [] (d ∷ ds) = true
codes_lt (c ∷ cs) (d ∷ ds) =
    let later = codes_lt cs ds in if ltb c d then true else if ltb d c then false else later

-- `keys[i].Name() < keys[j].Name()`
unfoldable pub name_lt : String → String → Bool
unfolding codes_lt
name_lt s t = codes_lt (codes s) (codes t)

unfoldable pub insert_key : String → List String → List String
insert_key k [] = k ∷ []
insert_key k (j ∷ js) = let later = insert_key k js in if name_lt k j then k ∷ j ∷ js else j ∷ later

-- `sort.Slice`, on the list that the iteration over the map has appended.
unfoldable pub get_store_keys : List String → List String
unfolding insert_key name_lt
get_store_keys keys = foldr insert_key [] keys
