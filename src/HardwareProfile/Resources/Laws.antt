-- ===== src/HardwareProfile/Resources/Laws.antt =====
-- Which requests and limits the identifiers of a profile leave.
use workbenches_operator.Prelude.{
  String, ◌==◌, eq_iff, eq_refl, ◌≡◌, refl, sym, ◌∙◌, Option, none, some, List, [], ◌∷◌, arith,
  if◌then◌else◌, Option-cases, inl, inr,
}
use workbenches_operator.Errors.{Result, ok, ok-injective, >>=-eq-ok}
use workbenches_operator.Json.{Value, str, Fields, get, get-put}
use workbenches_operator.HardwareProfile.Injector.{Injector}
use workbenches_operator.HardwareProfile.Resources.{
  Amounts, put_new, add_amount, identifier_amount, add_optional, add_amounts,
}

-- The first value that is there.
abbrev pub or_value : Option Value → Option Value → Option Value
or_value none o = o
or_value (some v) o = some v

get-put_new :
    (j k : String) (v : Value) (m : Fields)
    → get k (put_new j v m) ≡ or_value (get k m) (if j == k then some v else none)
get-put_new j k v m = ground (arith, get-put j k v m, eq_iff j k)

abbrev pub text_value : Option String → Option Value
text_value none = none
text_value (some s) = some (str s)

-- The value for an identifier that was named, and nothing for one that was not.
abbrev pub when_named : Option String → Option Value → Option Value
when_named none v = none
when_named (some q) v = v

requests-add_amount :
    (j k q : String) (a : Amounts)
    → get k (add_amount j q a).requests
      ≡ or_value (get k a.requests) (if j == k then some (str q) else none)
unfolding add_amount
requests-add_amount j k q a = get-put_new j k (str q) a.requests

get-put_new_self :
    (k : String) (v : Value) (m : Fields) → get k (put_new k v m) ≡ or_value (get k m) (some v)
get-put_new_self k v m = get-put_new k k v m ∙ rw (eq_refl k)

or_value-some : (o : Option Value) (v : Value) → or_value o (some v) ≡ none → ⊥
or_value-some none v h = cc
or_value-some (some w) v h = cc

-- After the write of a request there is one, so the limit is copied.
limits-add_amount :
    (j k q : String) (a : Amounts)
    → get k (add_amount j q a).limits
      ≡ or_value (get k a.limits) (if j == k then get k (add_amount j q a).requests else none)
unfolding add_amount
limits-add_amount j k q a =
    let requests = put_new j (str q) a.requests in
    elim (Option-cases (get j requests)) [
      | inl gone ↦ absurd (
          or_value-some (get j a.requests) (str q)
            (sym (get-put_new_self j (str q) a.requests) ∙ gone))
      | inr (v, e) ↦ rw e (ground (arith, get-put_new j k v a.limits, eq_iff j k))
    ]

-- The quantity of the first identifier of the name.
module _ (i : Injector) where
  abbrev of_name : String → Result (Option (String × String)) → Option String → Option String
  of_name k (ok (some (j, q))) rest = if j == k then some q else rest
  of_name k _ rest = rest

  abbrev pub first_amount : String → List Value → Option String
  first_amount k [] = none
  first_amount k (id ∷ ids) = of_name k (identifier_amount i id) (first_amount k ids)

  requests-add_optional :
      (k : String) (r : Option (String × String)) (a : Amounts) (rest : Option String)
      → or_value (get k (add_optional i r a).requests) (text_value rest)
        ≡ or_value (get k a.requests) (text_value (of_name k (ok r) rest))
  unfolding add_optional
  requests-add_optional k none a rest = refl
  requests-add_optional k (some (j, q)) a rest = ground (arith, requests-add_amount j k q a)

  requests-add_amounts :
      (ids : List Value) (k : String) (a : Amounts) {b : Amounts}
      → add_amounts i ids a ≡ ok b
      → get k b.requests ≡ or_value (get k a.requests) (text_value (first_amount k ids))
  unfolding add_amounts
  requests-add_amounts [] k a h = rw (← ok-injective h) (ground arith)
  requests-add_amounts (id ∷ ids) k a h =
      let (r, e, rest) = >>=-eq-ok (identifier_amount i id) _ h in
      rw e (
        requests-add_amounts ids k (add_optional i r a) rest
        ∙ requests-add_optional k r a (first_amount k ids))

  limits-add_optional :
      (k : String) (r : Option (String × String)) (a : Amounts) (rest : Option String)
      (final : Option Value)
      → or_value (get k (add_optional i r a).requests) (text_value rest) ≡ final
      → or_value (get k (add_optional i r a).limits) (when_named rest final)
        ≡ or_value (get k a.limits) (when_named (of_name k (ok r) rest) final)
  unfolding add_optional
  limits-add_optional k none a rest final e = refl
  limits-add_optional k (some (j, q)) a rest final e =
      ground (arith, limits-add_amount j k q a, requests-add_amount j k q a)

  limits-add_amounts :
      (ids : List Value) (k : String) (a : Amounts) {b : Amounts}
      → add_amounts i ids a ≡ ok b
      → get k b.limits
        ≡ or_value (get k a.limits) (when_named (first_amount k ids) (get k b.requests))
  unfolding add_amounts
  limits-add_amounts [] k a h = rw (← ok-injective h) (ground arith)
  limits-add_amounts (id ∷ ids) k a h =
      let (r, e, rest) = >>=-eq-ok (identifier_amount i id) _ h in
      let next = add_optional i r a in
      rw e (
        limits-add_amounts ids k next rest
        ∙ limits-add_optional k r a (first_amount k ids) _
            (sym (requests-add_amounts ids k next rest)))

  -- The loop over the identifiers keeps every request and limit that was set. A name that had no
  -- request gets the quantity of the first identifier of that name; a name that had no limit and is
  -- that of some identifier gets its request as the limit; no other name changes.
  pub add_amounts_lem :
      (ids : List Value) (k : String) (a b : Amounts)
      → add_amounts i ids a ≡ ok b
      → (get k b.requests ≡ or_value (get k a.requests) (text_value (first_amount k ids)))
        × (get k b.limits
            ≡ or_value (get k a.limits) (when_named (first_amount k ids) (get k b.requests)))
  add_amounts_lem ids k a b h = (requests-add_amounts ids k a h, limits-add_amounts ids k a h)
