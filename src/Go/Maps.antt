-- ===== src/Go/Maps.antt =====
-- `map[string]V` as an association list with distinct keys. The order of the entries stands for
-- the unspecified order in which Go ranges over a map.
use ouro_pass.Base.{
  if◌then◌else◌, Text, text_eq, text_eq_iff, ◌≡◌, refl, Option, none, some, List, [], ◌∷◌, arith,
}

module _ {ℓ} {V : Type ℓ} where
  unfoldable pub get : Text → List (Text × V) → Option V
  get k [] = none
  get k ((j, v) ∷ m) = let rest = get k m in if text_eq j k then some v else rest

  unfoldable pub put : Text → V → List (Text × V) → List (Text × V)
  put k v [] = (k, v) ∷ []
  put k v ((j, w) ∷ m) = let rest = put k v m in if text_eq j k then (k, v) ∷ m else (j, w) ∷ rest

  pub get-put :
      (k j : Text) (v : V) (m : List (Text × V))
      → get j (put k v m) ≡ (if text_eq k j then some v else get j m)
  unfolding get put
  get-put k j v [] = refl
  get-put k j v ((i, w) ∷ m) =
      ground (arith, text_eq_iff i k, text_eq_iff i j, text_eq_iff k j, get-put k j v m)

  -- `for k, v := range from { into[k] = v }`
  unfoldable pub put_all : List (Text × V) → List (Text × V) → List (Text × V)
  unfolding put
  put_all [] into = into
  put_all ((k, v) ∷ from) into = put_all from (put k v into)

-- `m[k]` on a map of strings, with the zero value for a missing key.
unfoldable pub get_text : Text → List (Text × Text) → Text
unfolding get
get_text k m = elim (get k m) [ none ↦ [] | some v ↦ v ]
