-- ===== src/Tls/Owner.antt =====
-- `upsertOwnerReference` and `ownerRefMatches`.
pub mod Upsert
use workbenches_operator.Prelude.{
  String, ◌==◌, Bool, true, false, ◌&&◌, ◌||◌, Option, List, [], ◌∷◌, ◌++◌,
}

-- metav1.OwnerReference; the two flags may be nil.
pub record OwnerReference : Type 0 where
  pub api_version : String
  pub kind : String
  pub name : String
  pub uid : String
  pub controller : Option Bool
  pub block_owner_deletion : Option Bool

abbrev pub same_owner : OwnerReference → OwnerReference → Bool
same_owner a b = a.kind == b.kind && a.name == b.name && a.api_version == b.api_version

-- The loop: the references with the owner in the place of each that names it.
unfoldable pub replace_owner : List OwnerReference → OwnerReference → List OwnerReference
replace_owner [] owner = []
replace_owner (ref ∷ refs) owner =
    let rest = replace_owner refs owner in
    elim (same_owner ref owner) [ true ↦ owner ∷ rest | false ↦ ref ∷ rest ]

-- The variable `replaced` at the end of the loop.
unfoldable pub any_replaced : List OwnerReference → OwnerReference → Bool
any_replaced [] owner = false
any_replaced (ref ∷ refs) owner = same_owner ref owner || any_replaced refs owner

unfoldable pub upsert_owner_reference : List OwnerReference → OwnerReference → List OwnerReference
upsert_owner_reference refs owner = elim (any_replaced refs owner) [
  | true ↦ replace_owner refs owner
  | false ↦ replace_owner refs owner ++ (owner ∷ [])
]

unfoldable pub owner_ref_matches : List OwnerReference → OwnerReference → Bool
owner_ref_matches [] want = false
owner_ref_matches (ref ∷ refs) want =
    (ref.uid == want.uid && same_owner ref want) || owner_ref_matches refs want
