-- ===== src/Merge/Resources.antt =====
-- What the merge does to each of the target's containers.
use workbenches_operator.Prelude.{
  String, ◌==◌, eq_iff, ◌≡◌, refl, subst, Bool-cases, Option-cases, inl, inr, false, Option, none,
  some, List, [], ◌∷◌, arith, if◌then◌else◌, Bool, ap, sym, ◌∙◌,
}
use workbenches_operator.Errors.{ok, ok-injective, >>=-eq-ok}
use workbenches_operator.Json.{
  Value, obj, Fields, get, put, delete, is_empty_map, as_map, get-put, get-delete, end,
}
use workbenches_operator.Dict.{Dict, lookup}
use workbenches_operator.Dict.Laws.{lookup-insert}
use workbenches_operator.Merge.{
  container_name, with_resources, apply_resources, apply_container_resources, add_named, or_default,
  add_resources, container_resources_by_name,
}

-- A field of a container.
abbrev pub field_of : String → Value → Option Value
field_of k c = elim (as_map c) [ none ↦ none | some m ↦ get k m ]

-- The resources that a container of the source leaves to the target's container of its name: none if
-- they are an empty map.
abbrev pub copied : Value → Option Value
copied resources = elim (as_map resources) [
  | none ↦ none
  | some r ↦ if is_empty_map r then none else some resources
]

abbrev held : Fields → Option Value → Option Value
held m none = get "resources" m
held m (some resources) = copied resources

abbrev held_by : Dict Value → Fields → Option String → Option Value
held_by by_name m none = get "resources" m
held_by by_name m (some name) = held m (lookup name by_name)

-- The resources of a container after the merge.
abbrev resources_for : Dict Value → Value → Option Value
resources_for by_name c = elim (as_map c) [
  | none ↦ none
  | some m ↦ held_by by_name m (container_name m)
]

-- What holds of a container and what becomes of it.
abbrev IsApplied : Dict Value → Value → Value → Type 0
IsApplied by_name c d =
    ((k : String) → (k == "resources") ≡ false → field_of k d ≡ field_of k c)
    × (field_of "resources" d ≡ resources_for by_name c)

-- Every field but the resources is that of a map, and the resources are given.
abbrev HasResources : Fields → Option Value → Value → Type 0
HasResources m resources d =
    ((k : String) → (k == "resources") ≡ false → field_of k d ≡ get k m)
    × (field_of "resources" d ≡ resources)

delete-HasResources : (m : Fields) → HasResources m none (obj (delete "resources" m))
unfolding as_map
delete-HasResources m = (
  (λ k apart.
      ground
        (arith, get-delete "resources" k m, eq_iff "resources" k, eq_iff k "resources", apart)),
  get-delete "resources" "resources" m,
)

put-HasResources : (m : Fields) (v : Value) → HasResources m (some v) (obj (put "resources" v m))
unfolding as_map
put-HasResources m v = (
  (λ k apart.
      ground (arith, get-put "resources" k v m, eq_iff "resources" k, eq_iff k "resources", apart)),
  get-put "resources" "resources" v m,
)

with_resources-HasResources :
    (m : Fields) (resources d : Value)
    → with_resources m resources ≡ ok d
    → HasResources m (copied resources) d
unfolding with_resources as_map
with_resources-HasResources m (obj r) d h = elim (Bool-cases (is_empty_map r)) [
  | inl blank ↦
      rw blank (subst (HasResources m none) (ok-injective (rw blank at h)) (delete-HasResources m))
  | inr filled ↦ rw filled (
      subst (HasResources m (some (obj r))) (ok-injective (rw filled at h))
        (put-HasResources m (obj r)))
]
with_resources-HasResources m _ d h = absurd (cc h)

apply_resources-IsApplied :
    (by_name : Dict Value) (c d : Value) → apply_resources by_name c ≡ ok d → IsApplied by_name c d
unfolding apply_resources as_map
apply_resources-IsApplied by_name (obj m) d h = named (container_name m) refl
  where
    unchanged : ok (obj m) ≡ ok d → HasResources m (get "resources" m) d
    unchanged same =
        subst (HasResources m (get "resources" m)) (ok-injective same) ((λ k apart. refl), refl)

    named : (o : Option String) → container_name m ≡ o → HasResources m (held_by by_name m o) d
    named none e = unchanged (rw (e, apply_resources) at h)
    named (some name) e = elim (Option-cases (lookup name by_name)) [
      | inl absent ↦ rw absent (unchanged (rw (e, absent, apply_resources) at h))
      | inr (r, found) ↦
          rw found (with_resources-HasResources m r d (rw (e, found, apply_resources) at h))
    ]
apply_resources-IsApplied by_name _ d h = absurd (cc h)

abbrev is_named : String → Fields → Bool
is_named name m = elim (container_name m) [ none ↦ false | some other ↦ other == name ]

abbrev own : String → Value → Option Fields
own name c = elim (as_map c) [ none ↦ none | some m ↦ if is_named name m then some m else none ]

-- The last container of the name.
abbrev pub last_named : String → List Value → Option Fields
last_named name [] = none
last_named name (c ∷ cs) =
    let rest = last_named name cs in elim rest [ none ↦ own name c | some m ↦ some m ]

-- The resources of a live container; a container without resources and one whose resources are empty
-- have none.
abbrev pub live_resources : Fields → Option Value
live_resources m = elim (get "resources" m) [ none ↦ none | some resources ↦ copied resources ]

-- What a rendered container of this name has after the merge.
abbrev pub live_held : List Value → Fields → Option String → Option Value
live_held live m none = get "resources" m
live_held live m (some name) = elim (last_named name live) [
  | none ↦ get "resources" m
  | some other ↦ live_resources other
]

-- A rendered container and what becomes of it.
abbrev pub IsMerged : List Value → Value → Value → Type 0
IsMerged live (obj m) d =
    ((k : String) → (k == "resources") ≡ false → field_of k d ≡ get k m)
    × (field_of "resources" d ≡ live_held live m (container_name m))
IsMerged live _ d = ⊥

-- Pairs of containers, in the order of the two lists, which have one length.
abbrev pub AllMerged : List Value → List Value → List Value → Type 0
AllMerged live [] [] = Unit
AllMerged live (c ∷ cs) (d ∷ ds) = IsMerged live c d × AllMerged live cs ds
AllMerged live _ _ = ⊥

abbrev found_in : Option Fields → Option Value → Option Value
found_in none before = before
found_in (some m) before = some (or_default (obj end) (get "resources" m))

add_one :
    (name : String) (m : Fields) (found : Dict Value)
    → lookup name (add_named (container_name m) m found)
      ≡ found_in (if is_named name m then some m else none) (lookup name found)
add_one name m found = go (container_name m) refl
  where
    go :
        (o : Option String)
        → container_name m ≡ o
        → lookup name (add_named o m found)
          ≡ found_in
              (if (elim o as (λ _. Bool) [ none ↦ false | some other ↦ other == name ])
                then some m
                else none)
              (lookup name found)
    go none e = refl
    go (some other) e = elim (Bool-cases (other == name)) [
      | inl same ↦ rw (lookup-insert, same)
      | inr apart ↦ rw (lookup-insert, apart)
    ]

found_cons :
    (name : String) (m : Fields) (found : Dict Value) (rest : Option Fields)
    → found_in rest (lookup name (add_named (container_name m) m found))
      ≡ found_in
          (elim rest as (λ _. Option Fields) [ none ↦ own name (obj m) | some m' ↦ some m' ])
          (lookup name found)
unfolding as_map
found_cons name m found none = add_one name m found
found_cons name m found (some m') = refl

lookup-add_resources :
    (name : String) (cs : List Value) (found by_name : Dict Value)
    → add_resources cs found ≡ ok by_name
    → lookup name by_name ≡ found_in (last_named name cs) (lookup name found)
unfolding add_resources as_map
lookup-add_resources name [] found by_name h = ap (lookup name) (sym (ok-injective h))
lookup-add_resources name (obj m ∷ cs) found by_name h =
    lookup-add_resources name cs (add_named (container_name m) m found) by_name h
    ∙ found_cons name m found (last_named name cs)
lookup-add_resources name (c ∷ cs) found by_name h = absurd (cc h)

module _ (live : List Value) (by_name : Dict Value)
    (collected : container_resources_by_name live ≡ ok by_name) where
  lookup-container_resources_by_name :
      (name : String) → lookup name by_name ≡ found_in (last_named name live) none
  unfolding container_resources_by_name lookup
  lookup-container_resources_by_name name = lookup-add_resources name live [] by_name collected

  held-left :
      (m : Fields) (other : Option Fields)
      → held m (found_in other none) ≡ (elim other as (λ _. Option Value) [
        | none ↦ get "resources" m
        | some o ↦ live_resources o
      ])
  unfolding as_map is_empty_map
  held-left m none = refl
  held-left m (some other) = go (get "resources" other)
    where
      go :
          (o : Option Value)
          → copied (or_default (obj end) o)
            ≡ (elim o as (λ _. Option Value) [ none ↦ none | some resources ↦ copied resources ])
      go none = refl
      go (some resources) = refl

  held_by-live_held : (m : Fields) (o : Option String) → held_by by_name m o ≡ live_held live m o
  held_by-live_held m none = refl
  held_by-live_held m (some name) =
      rw (lookup-container_resources_by_name name) (held-left m (last_named name live))

  applied-IsMerged : (c d : Value) → apply_resources by_name c ≡ ok d → IsMerged live c d
  unfolding apply_resources as_map
  applied-IsMerged (obj m) d h =
      let (others, resources) = apply_resources-IsApplied by_name (obj m) d h in
      (others, resources ∙ held_by-live_held m (container_name m))
  applied-IsMerged _ d h = absurd (cc h)

  -- If the resources of the live Deployment's containers are collected and applied to the rendered
  -- containers, there are as many containers as before, in their order, each with every field but
  -- its resources as it was; its resources are those of the last live container of its name, none
  -- if these are empty or not there, and stay as they are if it has no name or there is no such
  -- container.
  pub apply_container_resources-AllMerged :
      (cs ds : List Value) → apply_container_resources by_name cs ≡ ok ds → AllMerged live cs ds
  unfolding apply_container_resources
  apply_container_resources-AllMerged [] ds h = subst (AllMerged live []) (ok-injective h) tt
  apply_container_resources-AllMerged (c ∷ cs) ds h =
      let (d, e, rest) = >>=-eq-ok (apply_resources by_name c) _ h in
      let (others, e', last) = >>=-eq-ok (apply_container_resources by_name cs) _ rest in
      subst (AllMerged live (c ∷ cs)) (ok-injective last)
        (applied-IsMerged c d e, apply_container_resources-AllMerged cs others e')
