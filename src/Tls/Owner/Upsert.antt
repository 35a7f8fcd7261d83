-- ===== src/Tls/Owner/Upsert.antt =====
-- What an upsert does to a list of owner references.
use mathlib.Core.List.{append-nil}
use workbenches_operator.Prelude.{
  eq_refl, ◌≡◌, refl, ap, ◌∙◌, true, not, ◌||◌, List, [], ◌∷◌, ◌++◌, arith, keep, Bool-cases, inl,
  inr,
}
use workbenches_operator.Tls.Owner.{
  OwnerReference, same_owner, replace_owner, any_replaced, upsert_owner_reference,
  owner_ref_matches,
}

same_owner_refl : (o : OwnerReference) → same_owner o o ≡ true
same_owner_refl o = rw (eq_refl o.kind, eq_refl o.name, eq_refl o.api_version)

matches_self :
    (refs : List OwnerReference) (o : OwnerReference) → owner_ref_matches (o ∷ refs) o ≡ true
unfolding owner_ref_matches
matches_self refs o = rw (eq_refl o.uid, same_owner_refl o)

matches-append :
    (xs ys : List OwnerReference) (o : OwnerReference)
    → owner_ref_matches (xs ++ ys) o ≡ (owner_ref_matches xs o || owner_ref_matches ys o)
unfolding owner_ref_matches
matches-append [] ys o = refl
matches-append (x ∷ xs) ys o = ground (arith, matches-append xs ys o)

matches-replace_owner :
    (refs : List OwnerReference) (o : OwnerReference)
    → any_replaced refs o ≡ true
    → owner_ref_matches (replace_owner refs o) o ≡ true
unfolding any_replaced replace_owner owner_ref_matches
matches-replace_owner [] o h = absurd (cc h)
matches-replace_owner (ref ∷ refs) o h =
    ground (arith, matches-replace_owner refs o, eq_refl o.uid, same_owner_refl o)

matches-upsert :
    (refs : List OwnerReference) (o : OwnerReference)
    → owner_ref_matches (upsert_owner_reference refs o) o ≡ true
unfolding upsert_owner_reference
matches-upsert refs o = ground (
  arith,
  matches-replace_owner refs o,
  matches-append (replace_owner refs o) (o ∷ []) o,
  matches_self [] o,
)

-- The references that name another owner.
abbrev pub others : OwnerReference → List OwnerReference → List OwnerReference
others o refs = keep (λ ref. not (same_owner ref o)) refs

others-replace_owner :
    (refs : List OwnerReference) (o : OwnerReference)
    → others o (replace_owner refs o) ≡ others o refs
unfolding replace_owner
others-replace_owner [] o = refl
others-replace_owner (ref ∷ refs) o = ground (arith, others-replace_owner refs o, same_owner_refl o)

others-append :
    (xs ys : List OwnerReference) (o : OwnerReference)
    → others o (xs ++ ys) ≡ others o xs ++ others o ys
others-append [] ys o = refl
others-append (x ∷ xs) ys o = ground (arith, others-append xs ys o)

others_self : (o : OwnerReference) → others o (o ∷ []) ≡ []
others_self o = ground (arith, same_owner_refl o)

others-upsert :
    (refs : List OwnerReference) (o : OwnerReference)
    → others o (upsert_owner_reference refs o) ≡ others o refs
unfolding upsert_owner_reference
others-upsert refs o = elim (Bool-cases (any_replaced refs o)) [
  | inl replaced ↦ rw (replaced, upsert_owner_reference) (others-replace_owner refs o)
  | inr absent ↦
      rw (absent, upsert_owner_reference)
        (others-append (replace_owner refs o) (o ∷ []) o
          ∙ ap (λ rest. others o (replace_owner refs o) ++ rest) (others_self o)
          ∙ append-nil (others o (replace_owner refs o))
          ∙ others-replace_owner refs o)
]

any_replaced-append :
    (xs ys : List OwnerReference) (o : OwnerReference)
    → any_replaced (xs ++ ys) o ≡ (any_replaced xs o || any_replaced ys o)
unfolding any_replaced
any_replaced-append [] ys o = refl
any_replaced-append (x ∷ xs) ys o = ground (arith, any_replaced-append xs ys o)

any_replaced_self : (o : OwnerReference) → any_replaced (o ∷ []) o ≡ true
unfolding any_replaced
any_replaced_self o = rw (same_owner_refl o)

any_replaced-replace_owner :
    (refs : List OwnerReference) (o : OwnerReference)
    → any_replaced (replace_owner refs o) o ≡ any_replaced refs o
unfolding any_replaced replace_owner
any_replaced-replace_owner [] o = refl
any_replaced-replace_owner (ref ∷ refs) o =
    ground (arith, any_replaced-replace_owner refs o, same_owner_refl o)

replace_owner_idem :
    (refs : List OwnerReference) (o : OwnerReference)
    → replace_owner (replace_owner refs o) o ≡ replace_owner refs o
unfolding replace_owner
replace_owner_idem [] o = refl
replace_owner_idem (ref ∷ refs) o = ground (arith, replace_owner_idem refs o, same_owner_refl o)

replace_owner-append :
    (xs ys : List OwnerReference) (o : OwnerReference)
    → replace_owner (xs ++ ys) o ≡ replace_owner xs o ++ replace_owner ys o
unfolding replace_owner
replace_owner-append [] ys o = refl
replace_owner-append (x ∷ xs) ys o = ground (arith, replace_owner-append xs ys o)

replace_owner_self : (o : OwnerReference) → replace_owner (o ∷ []) o ≡ o ∷ []
unfolding replace_owner
replace_owner_self o = rw (same_owner_refl o, replace_owner)

upsert_idem :
    (refs : List OwnerReference) (o : OwnerReference)
    → upsert_owner_reference (upsert_owner_reference refs o) o ≡ upsert_owner_reference refs o
unfolding upsert_owner_reference
upsert_idem refs o = ground (
  arith,
  any_replaced-append (replace_owner refs o) (o ∷ []) o,
  any_replaced_self o,
  any_replaced-replace_owner refs o,
  replace_owner_idem refs o,
  replace_owner-append (replace_owner refs o) (o ∷ []) o,
  replace_owner_self o,
  same_owner_refl o,
)

-- After an upsert the owner is among the references, every reference to another owner is as it was,
-- in its order, and a second upsert changes nothing.
pub upsert_owner_reference_lem :
    (refs : List OwnerReference) (o : OwnerReference)
    → (owner_ref_matches (upsert_owner_reference refs o) o ≡ true)
      × (others o (upsert_owner_reference refs o) ≡ others o refs)
      × (upsert_owner_reference (upsert_owner_reference refs o) o ≡ upsert_owner_reference refs o)
upsert_owner_reference_lem refs o =
    (matches-upsert refs o, others-upsert refs o, upsert_idem refs o)
