-- ===== src/HardwareProfile/Claims/Laws.antt =====
-- Setting and removing the webhook's claim among those of a container.
use mathlib.Core.Path.{ap₂}
use mathlib.Core.List.{append-nil}
use workbenches_operator.Prelude.{
  String, eq_refl, ◌≡◌, refl, ap, sym, ◌∙◌, none, some, List, [], ◌∷◌, ◌++◌, arith, or_default,
}
use workbenches_operator.Json.{
  Value, Fields, get, put, delete, as_map, as_string, as_slice, slice, get-delete, get-put_self,
  as_slice-slice,
}
use workbenches_operator.HardwareProfile.Claims.{
  filter_out_claim, claims_of, claim_entry, with_claim, without_claim,
}

filter-append :
    (xs ys : List Value) (n : String)
    → filter_out_claim (xs ++ ys) n ≡ filter_out_claim xs n ++ filter_out_claim ys n
unfolding filter_out_claim
filter-append [] ys n = refl
filter-append (x ∷ xs) ys n = ground (arith, filter-append xs ys n)

filter_idem :
    (xs : List Value) (n : String)
    → filter_out_claim (filter_out_claim xs n) n ≡ filter_out_claim xs n
unfolding filter_out_claim
filter_idem [] n = refl
filter_idem (x ∷ xs) n = ground (arith, filter_idem xs n)

filter-claim_entry : (n : String) → filter_out_claim (claim_entry n ∷ []) n ≡ []
unfolding filter_out_claim as_map as_string get
filter-claim_entry n = rw (eq_refl n, filter_out_claim)

claims_of-put : (xs : List Value) (m : Fields) → claims_of (put "claims" (slice xs) m) ≡ some xs
claims_of-put xs m =
    ap (λ o. elim o [ none ↦ none | some v ↦ as_slice v ]) (get-put_self "claims" (slice xs) m)
    ∙ as_slice-slice xs

claims_of-delete : (m : Fields) → claims_of (delete "claims" m) ≡ none
claims_of-delete m =
    ap (λ o. elim o [ none ↦ none | some v ↦ as_slice v ]) (get-delete "claims" "claims" m)

-- The user's claims of some resources.
abbrev pub user_claims : String → Fields → List Value
user_claims n resources = filter_out_claim (or_default [] (claims_of resources)) n

claims_of-with_claim :
    (n : String) (resources : Fields)
    → claims_of (with_claim n resources) ≡ some (user_claims n resources ++ (claim_entry n ∷ []))
unfolding with_claim
claims_of-with_claim n resources =
    claims_of-put (user_claims n resources ++ (claim_entry n ∷ [])) resources

claims_of-without_claim :
    (n : String) (claims : List Value) (resources : Fields)
    → or_default [] (claims_of (without_claim n claims resources)) ≡ filter_out_claim claims n
unfolding without_claim
claims_of-without_claim n claims resources = go (filter_out_claim claims n) refl
  where
    go :
        (cs : List Value)
        → filter_out_claim claims n ≡ cs
        → or_default [] (claims_of (without_claim n claims resources)) ≡ filter_out_claim claims n
    go [] e = rw (e, without_claim) (ap (or_default []) (claims_of-delete resources))
    go (c ∷ cs) e = rw (e, without_claim) (ap (or_default []) (claims_of-put (c ∷ cs) resources))

-- The claims with the webhook's at their end, whatever they were.
abbrev pub claims_set : String → Fields → List Value
claims_set n resources = or_default [] (claims_of (with_claim n resources))

-- Setting the claim puts one entry of its name at the end of the user's claims, however often it is
-- set, and removing it again leaves the user's claims, in their order.
pub with_claim-without_claim :
    (n : String) (resources : Fields)
    → (claims_set n resources ≡ user_claims n resources ++ (claim_entry n ∷ []))
      × (claims_set n (with_claim n resources) ≡ claims_set n resources)
      × (or_default []
            (claims_of (without_claim n (claims_set n resources) (with_claim n resources)))
          ≡ user_claims n resources)
with_claim-without_claim n resources =
    let set_once = ap (or_default []) (claims_of-with_claim n resources) in
    let filtered =
      ap (λ cs. filter_out_claim cs n) set_once
      ∙ filter-append (user_claims n resources) (claim_entry n ∷ []) n
      ∙ ap₂ (λ xs ys. xs ++ ys) (filter_idem (or_default [] (claims_of resources)) n)
          (filter-claim_entry n)
      ∙ append-nil (user_claims n resources) in
    (
      set_once,
      ap (or_default []) (claims_of-with_claim n (with_claim n resources))
          ∙ ap (λ cs. cs ++ (claim_entry n ∷ [])) filtered
          ∙ sym set_once,
      claims_of-without_claim n (claims_set n resources) (with_claim n resources) ∙ filtered,
    )
