-- ===== src/Json/Maps.antt =====
-- map[string]any: reading, writing and deleting a key.
use workbenches_operator.Prelude.{
  String, ◌==◌, eq_iff, eq_refl, ◌≡◌, refl, Bool, true, false, Option, none, some, arith,
  if◌then◌else◌,
}
use workbenches_operator.Json.Defs.{Value, str, Fields, end, field}
use workbenches_operator.Json.Defs.{obj}

-- m[k]
unfoldable pub get : String → Fields → Option Value
get k end = none
get k (field j v m) = if j == k then some v else get k m

-- m[k] = v
unfoldable pub put : String → Value → Fields → Fields
put k v end = field k v end
put k v (field j w m) = if j == k then field k v m else field j w (put k v m)

-- delete(m, k)
unfoldable pub delete : String → Fields → Fields
delete k end = end
delete k (field j v m) =
    let rest = delete k m in elim (j == k) [ true ↦ rest | false ↦ field j v rest ]

-- len(m) == 0
unfoldable pub is_empty_map : Fields → Bool
is_empty_map end = true
is_empty_map (field k v m) = false

-- v.(map[string]any)
unfoldable pub as_map : Value → Option Fields
as_map (obj m) = some m
as_map _ = none

-- v.(string)
unfoldable pub as_string : Value → Option String
as_string (str s) = some s
as_string _ = none

pub get-put :
    (k j : String) (v : Value) (m : Fields)
    → get j (put k v m) ≡ (if k == j then some v else get j m)
unfolding get put
get-put k j v end = refl
get-put k j v (field i w m) = ground (arith, eq_iff k j, eq_iff i k, eq_iff i j, get-put k j v m)

pub get-delete :
    (k j : String) (m : Fields) → get j (delete k m) ≡ (if k == j then none else get j m)
unfolding get delete
get-delete k j end = ground arith
get-delete k j (field i w m) = ground (arith, eq_iff k j, eq_iff i k, eq_iff i j, get-delete k j m)

pub get-put_self : (k : String) (v : Value) (m : Fields) → get k (put k v m) ≡ some v
get-put_self k v m = simp (get-put, eq_refl)
