-- ===== src/Platform/Namespace.antt =====
-- What the defaults are for a type that is not known, and which namespaces are valid.
use workbenches_operator.Prelude.{
  ◌==◌, Bool-cases, inl, inr, ◌⊎◌, not, ◌&&◌, String, eq_iff, ◌≡◌, refl, ◌↔◌, true, ◌∷◌, ◌≢◌, false,
  List, [], arith, is_empty, Bool-cases, ◌⊎◌, not,
}
use workbenches_operator.Prelude.Text.{trim_space}
use workbenches_operator.Prelude.TextLaws.{trim_space_idem}
use workbenches_operator.Platform.{
  open_data_hub, is_valid, section_title, valid_applications_namespace,
  default_applications_namespace, default_legacy_workbench_namespace, not,
}

-- A type that is not valid has the title and the two namespaces of Open Data Hub.
unknown-open_data_hub :
    (platform_type : String)
    → is_valid platform_type ≡ false
    → (section_title platform_type ≡ section_title open_data_hub)
      × (default_applications_namespace platform_type
          ≡ default_applications_namespace open_data_hub)
      × (default_legacy_workbench_namespace platform_type
          ≡ default_legacy_workbench_namespace open_data_hub)
unfolding is_valid section_title default_applications_namespace default_legacy_workbench_namespace
unknown-open_data_hub platform_type h = ground arith

is_empty-nil : (xs : List String) → (is_empty xs ≡ true) ↔ (xs ≡ [])
is_empty-nil [] = ((λ h. refl), (λ h. refl))
is_empty-nil (x ∷ xs) = ((λ h. absurd (cc h)), (λ h. absurd (cc h)))

valid_lem :
    (label_errors : String → List String) (name : String)
    → (valid_applications_namespace label_errors name ≢ "")
      ↔ ((trim_space name ≢ "") × (label_errors (trim_space name) ≡ []))
unfolding valid_applications_namespace
valid_lem label_errors name =
    let blank = eq_iff (trim_space name) "" in
    let no_errors = is_empty-nil (label_errors (trim_space name)) in
    ((λ h. ground (arith, blank, no_errors)), (λ h. ground (arith, blank, no_errors)))

valid_form :
    (label_errors : String → List String) (name : String)
    → (valid_applications_namespace label_errors name ≡ "")
      ⊎ (valid_applications_namespace label_errors name ≡ trim_space name)
unfolding valid_applications_namespace
valid_form label_errors name =
    elim (Bool-cases (not (trim_space name == "") && is_empty (label_errors (trim_space name)))) [
      | inl valid ↦ inr (rw valid)
      | inr other ↦ inl (rw other)
    ]

valid_idem :
    (label_errors : String → List String) (name : String)
    → valid_applications_namespace label_errors (valid_applications_namespace label_errors name)
      ≡ valid_applications_namespace label_errors name
unfolding valid_applications_namespace trim_space
valid_idem label_errors name =
    elim (Bool-cases (not (trim_space name == "") && is_empty (label_errors (trim_space name)))) [
      | inl valid ↦ rw (valid, trim_space_idem, valid)
      | inr other ↦ rw other
    ]

-- An applications namespace is taken over exactly when it is not blank and, without the spaces
-- around it, a valid label; the result is empty or the name without these spaces, and taking it
-- over again does not change it.
pub valid_applications_namespace_nonempty :
    (label_errors : String → List String) (name : String)
    → ((valid_applications_namespace label_errors name ≢ "")
        ↔ ((trim_space name ≢ "") × (label_errors (trim_space name) ≡ [])))
      × ((valid_applications_namespace label_errors name ≡ "")
          ⊎ (valid_applications_namespace label_errors name ≡ trim_space name))
      × (valid_applications_namespace label_errors (valid_applications_namespace label_errors name)
          ≡ valid_applications_namespace label_errors name)
valid_applications_namespace_nonempty label_errors name =
    (valid_lem label_errors name, valid_form label_errors name, valid_idem label_errors name)
