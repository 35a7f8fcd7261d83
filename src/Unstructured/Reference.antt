-- ===== src/Unstructured/Reference.antt =====
-- The functions of package unstructured as their documentation describes them, with which the
-- witnesses and tests run. No theorem about the operator's code is stated for these alone.
use workbenches_operator.Prelude.{String, true, false, Option, none, some, [], ◌∷◌, or_default}
use workbenches_operator.Errors.{failure, Result, ok, err, ◌>>=◌}
use workbenches_operator.Json.{
  Value, str, obj, Fields, end, field, get, put, delete, as_map, as_string, as_slice, slice,
}
use workbenches_operator.Dict.{StringMap}
use workbenches_operator.Unstructured.{Unstructured, FieldPath, found_value}

unfoldable pub read : FieldPath → Fields → Result (Option Value)
read [] m = ok (some (obj m))
read (k ∷ []) m = ok (get k m)
read (k ∷ j ∷ path) m = elim (get k m) [
  | none ↦ ok none
  | some v ↦ elim (as_map v) [
    | none ↦ err (failure "accessor error: the value is no map")
    | some m' ↦ read (j ∷ path) m'
  ]
]

unfoldable pub write : FieldPath → Value → Fields → Result Fields
write [] v m = ok m
write (k ∷ []) v m = ok (put k v m)
write (k ∷ j ∷ path) v m = elim (get k m) [
  | none ↦ (do m' ← write (j ∷ path) v end; ok (put k (obj m') m))
  | some w ↦ elim (as_map w) [
    | none ↦ err (failure "accessor error: the value is no map")
    | some inner ↦ do m' ← write (j ∷ path) v inner; ok (put k (obj m') m)
  ]
]

unfoldable pub erase : FieldPath → Fields → Fields
erase [] m = m
erase (k ∷ []) m = delete k m
erase (k ∷ j ∷ path) m = elim (get k m) [
  | none ↦ m
  | some v ↦ elim (as_map v) [ none ↦ m | some m' ↦ put k (obj (erase (j ∷ path) m')) m ]
]

unfoldable pub string_entries : Fields → Result StringMap
string_entries end = ok []
string_entries (field k v m) = do
  rest ← string_entries m
  elim (as_string v) [
    | none ↦ err (failure "accessor error: the value is no string")
    | some s ↦ ok ((k, s) ∷ rest)
  ]

unfoldable pub of_entries : StringMap → Fields
of_entries [] = end
of_entries ((k, s) ∷ m) = field k (str s) (of_entries m)

unfoldable pub as_string_map : Value → Option (Result StringMap)
as_string_map v = elim (as_map v) [ none ↦ none | some m ↦ some (string_entries m) ]

-- A value of the type asked for.
unfoldable pub typed {ℓ} :
    {A : Type ℓ} → (Value → Option A) → Result (Option Value) → Result (Option A)
typed f (err e) = err e
typed f (ok none) = ok none
typed f (ok (some v)) = elim (f v) [
  | none ↦ err (failure "accessor error: the value is of another type")
  | some a ↦ ok (some a)
]

unfoldable pub entries_at : Fields → FieldPath → Result (Option StringMap)
entries_at m path = do
  found ← typed as_string_map (read path m)
  elim found [ none ↦ ok none | some r ↦ do entries ← r; ok (some entries) ]

unfoldable pub text_at : FieldPath → Fields → String
text_at path m = or_default "" (found_value (typed as_string (read path m)))

unfoldable pub written : Fields → Result Fields → Fields
written m (ok m') = m'
written m (err e) = m

unfoldable pub reference : Unstructured
unfolding read write erase string_entries of_entries as_string_map typed entries_at text_at written
reference = record {
  nested_slice = λ m path. typed as_slice (read path m);
  nested_string = λ m path. typed as_string (read path m);
  nested_string_map = entries_at;
  nested_map = λ m path. typed as_map (read path m);
  nested_field = λ m path. read path m;
  set_nested_slice = λ m xs path. write path (slice xs) m;
  set_nested_string_map = λ m entries path. write path (obj (of_entries entries)) m;
  set_nested_map = λ m fields path. write path (obj fields) m;
  set_nested_field = λ m v path. write path v m;
  remove_nested_field = λ m path. erase path m;
  get_name = text_at ("metadata" ∷ "name" ∷ []);
  get_namespace = text_at ("metadata" ∷ "namespace" ∷ []);
  get_kind = text_at ("kind" ∷ []);
  get_api_version = text_at ("apiVersion" ∷ []);
  get_uid = text_at ("metadata" ∷ "uid" ∷ []);
  deletion_timestamp_is_zero = λ m.
      elim (found_value (read ("metadata" ∷ "deletionTimestamp" ∷ []) m)) [
        | none ↦ true
        | some v ↦ false
      ];
  get_annotations = λ m. found_value (entries_at m ("metadata" ∷ "annotations" ∷ []));
  set_annotations =
      λ m entries. written m (write ("metadata" ∷ "annotations" ∷ []) (obj (of_entries entries)) m);
  get_labels = λ m. found_value (entries_at m ("metadata" ∷ "labels" ∷ []));
  set_labels =
      λ m entries. written m (write ("metadata" ∷ "labels" ∷ []) (obj (of_entries entries)) m);
}
