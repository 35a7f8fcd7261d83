-- ===== src/Dict/Laws.antt =====
-- Reading after a write or a deletion.
use workbenches_operator.Prelude.{
  String, ◌==◌, eq_iff, ◌≡◌, refl, none, some, [], ◌∷◌, arith, if◌then◌else◌,
}
use workbenches_operator.Dict.{Dict, lookup, insert, remove}

module _ {ℓ} {V : Type ℓ} where
  pub lookup-insert :
      (key other : String) (value : V) (entries : Dict V)
      → lookup other (insert key value entries)
        ≡ (if key == other then some value else lookup other entries)
  unfolding insert lookup
  lookup-insert key other value [] = refl
  lookup-insert key other value (e ∷ entries) = ground (
    arith,
    lookup-insert key other value entries,
    eq_iff e.0 key,
    eq_iff e.0 other,
    eq_iff key other,
  )

  pub lookup-remove :
      (k j : String) (m : Dict V) → lookup j (remove k m) ≡ (if k == j then none else lookup j m)
  unfolding lookup remove
  lookup-remove k j [] = ground arith
  lookup-remove k j ((i, w) ∷ m) =
      ground (arith, eq_iff k j, eq_iff i k, eq_iff i j, lookup-remove k j m)
