-- ===== src/HardwareProfile/Containers/Laws.antt =====
-- The validation of the container names agrees with the choice of the main container.
use workbenches_operator.Prelude.{
  ℕ, suc, String, ◌≡◌, refl, some, List, [], ◌∷◌, arith, is_some, not,
}
use workbenches_operator.Errors.{ok}
use workbenches_operator.Json.{Value, Fields}
use workbenches_operator.HardwareProfile.Injector.{Injector}
use workbenches_operator.HardwareProfile.Metadata.{containers_path}
use workbenches_operator.HardwareProfile.Claims.{index_named, main_container_index}
use workbenches_operator.HardwareProfile.Containers.{any_named, names_of, validate_container_names}

is_some-index_named :
    (name : String) (n : ℕ) (cs : List Value) → is_some (index_named name n cs) ≡ any_named name cs
unfolding index_named any_named
is_some-index_named name n [] = refl
is_some-index_named name n (c ∷ cs) = ground (arith, is_some-index_named name (suc n) cs)

names_of-main :
    (i : Injector) (object : Fields) (c : Value) (cs : List Value)
    → is_some (names_of i object (c ∷ cs))
      ≡ not (is_some (main_container_index (c ∷ cs) (i.unstructured.get_name object)))
unfolding names_of main_container_index
names_of-main i object c [] = refl
names_of-main i object c (d ∷ cs) =
    ground (arith, is_some-index_named (i.unstructured.get_name object) 0 (c ∷ d ∷ cs))

-- A Notebook with containers passes the validation exactly when one of them is the main container.
validate_container_names-main :
    (i : Injector) (object : Fields) (c : Value) (cs : List Value)
    → i.unstructured.nested_slice object containers_path ≡ ok (some (c ∷ cs))
    → is_some (validate_container_names i object)
      ≡ not (is_some (main_container_index (c ∷ cs) (i.unstructured.get_name object)))
unfolding validate_container_names
validate_container_names-main i object c cs h = rw h (names_of-main i object c cs)
