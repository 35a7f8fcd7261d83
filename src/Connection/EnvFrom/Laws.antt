-- ===== src/Connection/EnvFrom/Laws.antt =====
-- How many entries name a secret, and which entries are left alone, after one reference.
use mathlib.Core.List.{append-nil}
use workbenches_operator.Prelude.{
  ℕ, ◌+◌, ◌-◌, String, ◌==◌, eq_iff, eq_refl, ◌≡◌, refl, sym, ◌∙◌, Bool, true, false, Option, none,
  some, List, [], ◌∷◌, ◌++◌, arith, or_default, if◌then◌else◌, keep, keep-append,
}
use workbenches_operator.Json.{Value, str, obj, Fields, get, as_map}
use workbenches_operator.Connection.Actions.{Action, create, delete, unset, NotebookSecretReference}
use workbenches_operator.Connection.EnvFrom.{
  secret_entry, is_text, ref_named, entry_names, remove_first, handle_connection_secret,
}

-- The number of entries that name the secret.
abbrev pub entry_count : String → List Value → ℕ
entry_count name [] = 0
entry_count name (entry ∷ entries) =
    (if entry_names name entry then 1 else 0) + entry_count name entries

abbrev pub env_count : String → Option (List Value) → ℕ
env_count name env = entry_count name (or_default [] env)

abbrev pub one_if : Bool → ℕ
one_if b = if b then 1 else 0

entry_names-secret_entry : (n m : String) → entry_names n (secret_entry m) ≡ (m == n)
unfolding entry_names
entry_names-secret_entry n m = refl

entry_count-append :
    (n : String) (xs ys : List Value)
    → entry_count n (xs ++ ys) ≡ entry_count n xs + entry_count n ys
entry_count-append n [] ys = omega arith
entry_count-append n (x ∷ xs) ys = omega (arith, entry_count-append n xs ys)

entry_count-remove_first_self :
    (n : String) (xs : List Value) → entry_count n (remove_first n xs) ≡ entry_count n xs - 1
unfolding remove_first
entry_count-remove_first_self n [] = refl
entry_count-remove_first_self n (x ∷ xs) = ground (arith, entry_count-remove_first_self n xs)

is_text_unique : (n m : String) (o : Option Value) → is_text n o ≡ true → is_text m o ≡ true → n ≡ m
is_text_unique n m (some (str s)) p q = sym ((eq_iff s n).0 p) ∙ (eq_iff s m).0 q
is_text_unique n m _ p q = cc

ref_named_unique :
    (n m : String) (o : Option Value) → ref_named n o ≡ true → ref_named m o ≡ true → n ≡ m
ref_named_unique n m none p q = cc
ref_named_unique n m (some ref) p q = go (as_map ref) p q
  where
    go :
        (r : Option Fields)
        → elim r [ none ↦ false | some f ↦ is_text n (get "name" f) ] ≡ true
        → elim r [ none ↦ false | some f ↦ is_text m (get "name" f) ] ≡ true
        → n ≡ m
    go none p q = cc
    go (some f) p q = is_text_unique n m (get "name" f) p q

-- An entry names one secret at most.
entry_names_unique :
    (n m : String) (e : Value) → entry_names n e ≡ true → entry_names m e ≡ true → n ≡ m
unfolding entry_names
entry_names_unique n m (obj f) p q = ref_named_unique n m (get "secretRef" f) p q
entry_names_unique n m _ p q = cc

entry_count-remove_first :
    (n m : String) (xs : List Value)
    → entry_count n (remove_first m xs) ≡ entry_count n xs - one_if (m == n)
unfolding remove_first
entry_count-remove_first n m [] = ground arith
entry_count-remove_first n m (x ∷ xs) =
    ground (arith, entry_count-remove_first n m xs, entry_names_unique n m x, eq_iff m n)

-- What one reference does to the number of entries that name a secret.
abbrev pub count_after : Action → ℕ → ℕ → ℕ
count_after create n k = n + k
count_after delete n k = n - k
count_after unset n k = n

pub env_count-handle :
    (n : String) (ref : NotebookSecretReference) (env : Option (List Value))
    → env_count n (handle_connection_secret ref env)
      ≡ count_after ref.action (env_count n env) (one_if (ref.secret.name == n))
unfolding handle_connection_secret
env_count-handle n ref env = go ref.action env
  where
    go :
        (a : Action) (o : Option (List Value))
        → env_count n (handle_connection_secret (record ref { action = a }) o)
          ≡ count_after a (env_count n o) (one_if (ref.secret.name == n))
    go create o = rw entry_count-append (ground (arith, entry_names-secret_entry n ref.secret.name))
    go delete none = ground arith
    go delete (some env) = entry_count-remove_first n ref.secret.name env
    go unset o = refl

keep-remove_first :
    (p : Value → Bool) (n : String) (xs : List Value)
    → ((e : Value) → entry_names n e ≡ true → p e ≡ false)
    → keep p (remove_first n xs) ≡ keep p xs
unfolding remove_first
keep-remove_first p n [] h = refl
keep-remove_first p n (x ∷ xs) h = ground (arith, keep-remove_first p n xs h, h x)

keep-one : (p : Value → Bool) (x : Value) → p x ≡ false → keep p (x ∷ []) ≡ []
keep-one p x h = ground arith

-- A test that no entry of the reference passes sees no change.
pub keep-handle :
    (p : Value → Bool) (ref : NotebookSecretReference) (env : Option (List Value))
    → ((e : Value) → entry_names ref.secret.name e ≡ true → p e ≡ false)
    → keep p (or_default [] (handle_connection_secret ref env)) ≡ keep p (or_default [] env)
unfolding handle_connection_secret
keep-handle p ref env h = go ref.action env
  where
    go :
        (a : Action) (o : Option (List Value))
        → keep p (or_default [] (handle_connection_secret (record ref { action = a }) o))
          ≡ keep p (or_default [] o)
    go create o =
        rw
          (
            keep-append,
            keep-one p _ (
                h (secret_entry ref.secret.name) (
                  entry_names-secret_entry ref.secret.name ref.secret.name
                  ∙ eq_refl ref.secret.name)),
          )
          (append-nil (keep p (or_default [] o)))
    go delete none = refl
    go delete (some env) = keep-remove_first p ref.secret.name env h
    go unset o = refl
