-- ===== src/HardwareProfile/Tolerations/Laws.antt =====
-- Merging and removing the tolerations of a profile.
use workbenches_operator.Prelude.{
  String, ◌≡◌, refl, ap, ◌∙◌, true, false, Option, none, some, List, [], ◌∷◌, ◌++◌, arith, contains,
  All, eq_refl,
}
use workbenches_operator.Json.{Value, obj, Fields, as_map}
use workbenches_operator.HardwareProfile.Tolerations.{
  toleration_key, toleration_keys, without_keys, merged_tolerations, remaining_tolerations,
}

module _ (show : Value → String) where
  without_keys-append :
      (ks : List String) (xs ys : List Value)
      → without_keys show ks (xs ++ ys) ≡ without_keys show ks xs ++ without_keys show ks ys
  unfolding without_keys
  without_keys-append ks [] ys = refl
  without_keys-append ks (x ∷ xs) ys = ground (arith, without_keys-append ks xs ys)

  without_keys_idem :
      (ks : List String) (xs : List Value)
      → without_keys show ks (without_keys show ks xs) ≡ without_keys show ks xs
  unfolding without_keys
  without_keys_idem ks [] = refl
  without_keys_idem ks (x ∷ xs) = ground (arith, without_keys_idem ks xs)

  -- The key of a toleration that is a map is among the keys.
  abbrev Covered : List String → Option Fields → Type 0
  Covered ks none = Unit
  Covered ks (some m) = contains (toleration_key show m) ks ≡ true

  abbrev Covers : List String → List Value → Type 0
  Covers ks tols = All (λ tol. Covered ks (as_map tol)) tols

  Covered-cons :
      (k : String) (ks : List String) (o : Option Fields) → Covered ks o → Covered (k ∷ ks) o
  Covered-cons k ks none c = tt
  Covered-cons k ks (some m) c = ground arith

  Covers-cons :
      (k : String) (ks : List String) (tols : List Value) → Covers ks tols → Covers (k ∷ ks) tols
  Covers-cons k ks [] c = tt
  Covers-cons k ks (tol ∷ tols) c = (Covered-cons k ks (as_map tol) c.0, Covers-cons k ks tols c.1)

  Covers-toleration_keys : (tols : List Value) → Covers (toleration_keys show tols) tols
  unfolding toleration_keys as_map
  Covers-toleration_keys [] = tt
  Covers-toleration_keys (obj m ∷ tols) = (
    rw (eq_refl (toleration_key show m)),
    Covers-cons (toleration_key show m) (toleration_keys show tols) tols
        (Covers-toleration_keys tols),
  )
  Covers-toleration_keys (_ ∷ tols) = (tt, Covers-toleration_keys tols)

  without_keys-Covers :
      (ks : List String) (tols : List Value) → Covers ks tols → without_keys show ks tols ≡ []
  unfolding without_keys as_map
  without_keys-Covers ks [] c = refl
  without_keys-Covers ks (obj m ∷ tols) c = rw (c.0, without_keys) (without_keys-Covers ks tols c.1)
  without_keys-Covers ks (_ ∷ tols) c = without_keys-Covers ks tols c.1

  remaining-merged_tolerations :
      (hwp existing : List Value)
      → remaining_tolerations show hwp (merged_tolerations show hwp existing)
        ≡ remaining_tolerations show hwp existing
  unfolding remaining_tolerations merged_tolerations
  remaining-merged_tolerations hwp existing =
      rw
        (
          without_keys-append,
          without_keys-Covers (toleration_keys show hwp) hwp (Covers-toleration_keys hwp),
        )
        (without_keys_idem (toleration_keys show hwp) existing)

  -- Merging the tolerations of a profile a second time changes nothing.
  pub merged_tolerations_idem :
      (hwp existing : List Value)
      → merged_tolerations show hwp (merged_tolerations show hwp existing)
        ≡ merged_tolerations show hwp existing
  unfolding merged_tolerations remaining_tolerations
  merged_tolerations_idem hwp existing =
      ap (λ rest. hwp ++ rest) (remaining-merged_tolerations hwp existing)

  -- A toleration that is a map, with a key that none of the profile's tolerations has.
  abbrev pub Foreign : List String → Value → Type 0
  Foreign ks (obj m) = contains (toleration_key show m) ks ≡ false
  Foreign ks _ = ⊥

  without_keys-Foreign :
      (ks : List String) (tols : List Value)
      → All (Foreign ks) tols
      → without_keys show ks tols ≡ tols
  unfolding without_keys as_map
  without_keys-Foreign ks [] f = refl
  without_keys-Foreign ks (obj m ∷ tols) f =
      rw (f.0, without_keys) (ap (λ rest. obj m ∷ rest) (without_keys-Foreign ks tols f.1))
  without_keys-Foreign ks (_ ∷ tols) f = absurd (f.0)

  -- Removing a profile's tolerations after merging them gives back the tolerations that were there,
  -- if these are maps and share no key with the profile's.
  pub remaining-merged-Foreign :
      (hwp existing : List Value)
      → All (Foreign (toleration_keys show hwp)) existing
      → remaining_tolerations show hwp (merged_tolerations show hwp existing) ≡ existing
  unfolding remaining_tolerations
  remaining-merged-Foreign hwp existing f =
      remaining-merged_tolerations hwp existing
      ∙ without_keys-Foreign (toleration_keys show hwp) existing f
