-- ===== src/Json/Slices.antt =====
-- []any as lists of values.
use workbenches_operator.Prelude.{◌≡◌, refl, ap, Option, none, some, List, [], ◌∷◌}
use workbenches_operator.Json.Defs.{Value, Items, nil, cons}
use workbenches_operator.Json.Defs.{nil_arr, arr}

unfoldable pub to_list : Items → List Value
to_list nil = []
to_list (cons v xs) = v ∷ to_list xs

unfoldable pub of_list : List Value → Items
of_list [] = nil
of_list (v ∷ xs) = cons v (of_list xs)

pub to_list-of_list : (xs : List Value) → to_list (of_list xs) ≡ xs
unfolding to_list of_list
to_list-of_list [] = refl
to_list-of_list (v ∷ xs) = ap (λ ys. v ∷ ys) (to_list-of_list xs)

pub of_list-to_list : (xs : Items) → of_list (to_list xs) ≡ xs
unfolding to_list of_list
of_list-to_list nil = refl
of_list-to_list (cons v xs) = ap (cons v) (of_list-to_list xs)

-- v.([]any)
unfoldable pub as_slice : Value → Option (List Value)
as_slice nil_arr = some []
as_slice (arr xs) = some (to_list xs)
as_slice _ = none

-- A slice that was made stored as a value.
abbrev pub slice : List Value → Value
slice xs = arr (of_list xs)

pub as_slice-slice : (xs : List Value) → as_slice (slice xs) ≡ some xs
unfolding as_slice
as_slice-slice xs = ap some (to_list-of_list xs)
