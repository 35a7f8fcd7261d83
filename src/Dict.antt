-- ===== src/Dict.antt =====
-- Go's maps with text keys, as lists of entries. The order of the entries is the order in which a
-- range loop meets them, which Go leaves open: what is proved for every list holds for every order.
pub mod Laws
use workbenches_operator.Prelude.{
  String, ◌==◌, Bool, true, false, Option, none, some, List, [], ◌∷◌, if◌then◌else◌, is_some,
}

abbrev pub Dict {ℓ} : Type ℓ → Type ℓ
Dict V = List (String × V)

-- map[string]string
abbrev pub StringMap : Type 0
StringMap = Dict String

module _ {ℓ} {V : Type ℓ} where
  -- m[key], with whether the key is there
  unfoldable pub lookup : String → Dict V → Option V
  lookup key [] = none
  lookup key (e ∷ entries) = if e.0 == key then some e.1 else lookup key entries

  -- m[key] = value
  unfoldable pub insert : String → V → Dict V → Dict V
  insert key value [] = (key, value) ∷ []
  insert key value (e ∷ entries) =
      if e.0 == key then (key, value) ∷ entries else e ∷ insert key value entries

  -- delete(m, key)
  unfoldable pub remove : String → Dict V → Dict V
  remove key [] = []
  remove key (e ∷ entries) =
      let rest = remove key entries in elim (e.0 == key) [ true ↦ rest | false ↦ e ∷ rest ]
