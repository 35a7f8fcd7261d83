-- ===== src/Conditions/Reference.antt =====
-- An implementation of the functions on conditions.
use workbenches_operator.Prelude.{
  String, ◌==◌, eq_iff, eq_refl, ◌≡◌, refl, ◌∙◌, Option, none, some, List, [], ◌∷◌, arith,
  if◌then◌else◌,
}
use workbenches_operator.Api.{Condition}
use workbenches_operator.Conditions.{Conditions, IsLawful, present_and_true}

store : List Condition → Condition → List Condition
store [] c = c ∷ []
store (d ∷ conditions) c =
    if d.type_name == c.type_name then c ∷ conditions else d ∷ store conditions c

find : List Condition → String → Option Condition
find [] type_name = none
find (c ∷ conditions) type_name =
    if c.type_name == type_name then some c else find conditions type_name

find-store :
    (conditions : List Condition) (c : Condition) (type_name : String)
    → find (store conditions c) type_name
      ≡ (if c.type_name == type_name then some c else find conditions type_name)
unfolding find store
find-store [] c type_name = refl
find-store (d ∷ conditions) c type_name = ground (
  arith,
  find-store conditions c type_name,
  eq_iff d.type_name c.type_name,
  eq_iff d.type_name type_name,
  eq_iff c.type_name type_name,
)

unfoldable pub reference : Conditions
unfolding find store
reference = record {
  set_status_condition = store;
  find_status_condition = find;
  is_status_condition_true = λ conditions type_name. present_and_true (find conditions type_name);
}

pub reference-IsLawful : IsLawful reference
unfolding reference
reference-IsLawful = record {
  find-set = λ conditions c. find-store conditions c c.type_name ∙ rw (eq_refl c.type_name);
  find-set_other = λ conditions c type_name other. find-store conditions c type_name ∙ rw other;
  is_true-find = λ conditions type_name. refl;
  find-nil = λ type_name. refl;
  find-cons = λ c conditions type_name. refl;
}
