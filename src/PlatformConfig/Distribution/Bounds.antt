-- ===== src/PlatformConfig/Distribution/Bounds.antt =====
-- The distribution that the status reports meets the limits of the custom resource.
use workbenches_operator.Prelude.{
  ◌≤◌, String, ◌==◌, eq_iff, ◌≡◌, ◌≢◌, refl, sym, subst, ◌∙◌, false≢true, true, false, not, ◌&&◌,
  ◌||◌, inl, inr, Option, none, some, arith, or_default, Bool-cases, is_some, if◌then◌else◌,
}
use workbenches_operator.Prelude.Text.{trim_space}
use workbenches_operator.Errors.{Error, is_not_found, Result, ok, err, ok-injective}
use workbenches_operator.Format.{Format}
use workbenches_operator.Dict.{StringMap, lookup}
use workbenches_operator.Api.{Distribution}
use workbenches_operator.Platform.{open_data_hub, self_managed_rhoai}
use workbenches_operator.PlatformConfig.Distribution.{
  rune_count, has_control, is_distribution_name, validate_distribution_version,
  validate_distribution_fields, read_desired_distribution, resolve_desired_distribution,
  standalone_distribution, distribution_empty, distribution_name_key, distribution_version_key,
  max_distribution_field_length, distribution_name_standalone, distribution_name_from_platform,
  distribution_of, is_distribution_empty, resolved_name, read_distribution, validated, or_text,
}

-- At most 64 characters, none of them a control character.
pub record IsVersion (version : String) : Type 0 where
  pub short : rune_count version ≤ max_distribution_field_length
  pub printable : has_control version ≡ false

IsVersion-empty : IsVersion ""
unfolding validate_distribution_version
IsVersion-empty = record { short = omega arith; printable = refl }

validate_distribution_version-IsVersion :
    (version : String) → validate_distribution_version version ≡ none → IsVersion version
unfolding validate_distribution_version
validate_distribution_version-IsVersion version h = elim (Bool-cases (version == "")) [
  | inl blank ↦ subst (λ v. IsVersion v) (sym ((eq_iff version "").0 blank)) IsVersion-empty
  | inr set ↦ ground arith
]

pub nonempty : (s : String) → (s == "") ≡ false → s ≢ ""
nonempty s set e = false≢true (sym set ∙ (eq_iff s "").1 e)

-- What the ConfigMap can ask for: the fields may be empty.
pub record IsDesired (d : Distribution) : Type 0 where
  pub name_listed : d.name ≢ "" → is_distribution_name d.name ≡ true
  pub version_valid : IsVersion d.version

IsDesired-empty : IsDesired distribution_empty
unfolding distribution_empty
IsDesired-empty = record { name_listed = λ h. absurd (h refl); version_valid = IsVersion-empty }

-- What the status reports: both fields are set.
pub record IsReported (d : Distribution) : Type 0 where
  pub name_listed : is_distribution_name d.name ≡ true
  pub version_set : d.version ≢ ""
  pub version_valid : IsVersion d.version

abbrev named_standalone : String → Distribution
named_standalone version = record { name = distribution_name_standalone; version = version }

zero_version : IsReported (named_standalone "0.0.0")
unfolding validate_distribution_version
zero_version = record {
  name_listed = refl;
  version_set = λ e. false≢true ((eq_iff "0.0.0" "").1 e);
  version_valid = record { short = omega arith; printable = refl };
}

standalone_version :
    (version : String) (e : Option Error)
    → validate_distribution_version version ≡ e
    → IsReported (named_standalone (if version == "" || is_some e then "0.0.0" else version))
unfolding validate_distribution_version
standalone_version version (some e) h = elim (Bool-cases (version == "")) [
  | inl blank ↦ rw blank zero_version
  | inr set ↦ rw set zero_version
]
standalone_version version none h = elim (Bool-cases (version == "")) [
  | inl blank ↦ rw blank zero_version
  | inr set ↦ rw set (record {
    name_listed = refl;
    version_set = λ e. false≢true (sym set ∙ (eq_iff version "").1 e);
    version_valid = validate_distribution_version-IsVersion version h;
  })
]

standalone_distribution-IsReported :
    (operator_version : String) → IsReported (standalone_distribution operator_version)
unfolding standalone_distribution
standalone_distribution-IsReported operator_version =
    let version = trim_space operator_version in
    standalone_version version (validate_distribution_version version) refl

listed :
    (name : String)
    → name ≢ ""
    → (not (name == "") && not (is_distribution_name name)) ≡ false
    → is_distribution_name name ≡ true
listed name set good = elim (Bool-cases (name == "")) [
  | inl blank ↦ absurd (set ((eq_iff name "").0 blank))
  | inr other ↦ elim (Bool-cases (is_distribution_name name)) [
    | inl yes' ↦ yes'
    | inr no' ↦ absurd (false≢true (sym good ∙ rw (other, no')))
  ]
]

validate_fields-IsDesired :
    (format : Format) (name version : String)
    → validate_distribution_fields format name version ≡ none
    → IsDesired (record { name = name; version = version })
unfolding validate_distribution_fields
validate_fields-IsDesired format name version h =
    elim (Bool-cases (not (name == "") && not (is_distribution_name name))) [
      | inl bad ↦ absurd (cc (rw bad at h))
      | inr good ↦ record {
        name_listed = λ set. listed name set good;
        version_valid = validate_distribution_version-IsVersion version (rw good at h);
      }
    ]

validated_cases :
    (format : Format) (namespace name version : String) (d : Distribution) (e : Option Error)
    → validate_distribution_fields format name version ≡ e
    → validated format namespace name version e ≡ ok d
    → IsDesired d
unfolding validated
validated_cases format namespace name version d none valid h =
    subst IsDesired (ok-injective h) (validate_fields-IsDesired format name version valid)
validated_cases format namespace name version d (some e) valid h = absurd (cc h)

validated-IsDesired :
    (format : Format) (namespace name version : String) (d : Distribution)
    → validated format namespace name version (validate_distribution_fields format name version)
      ≡ ok d
    → IsDesired d
validated-IsDesired format namespace name version d h =
    validated_cases format namespace name version d _ refl h

distribution_of-IsDesired :
    (format : Format) (namespace : String) (values : Option StringMap) (d : Distribution)
    → distribution_of format namespace values ≡ ok d
    → IsDesired d
unfolding distribution_of
distribution_of-IsDesired format namespace none d h =
    subst IsDesired (ok-injective h) IsDesired-empty
distribution_of-IsDesired format namespace (some values) d h =
    validated-IsDesired format namespace
      (trim_space (or_default "" (lookup distribution_name_key values)))
      (trim_space (or_default "" (lookup distribution_version_key values))) d h

read_distribution-IsDesired :
    (format : Format) (namespace : String) (answer : Result (Option StringMap)) (d : Distribution)
    → read_distribution format namespace answer ≡ ok d
    → IsDesired d
unfolding read_distribution
read_distribution-IsDesired format namespace (err e) d h = elim (Bool-cases (is_not_found e)) [
  | inl missing ↦ subst IsDesired (ok-injective (rw missing at h)) IsDesired-empty
  | inr other ↦ absurd (cc (rw other at h))
]
read_distribution-IsDesired format namespace (ok values) d h =
    distribution_of-IsDesired format namespace values d h

-- What is read without an error is valid.
read_desired_distribution-IsDesired :
    (format : Format) (get : String → String → Result (Option StringMap)) (namespace : String)
    → (d : Distribution) → read_desired_distribution format get namespace ≡ ok d
    → IsDesired d
unfolding read_desired_distribution
read_desired_distribution-IsDesired format get namespace d h = elim (Bool-cases (namespace == "")) [
  | inl blank ↦ subst IsDesired (ok-injective (rw blank at h)) IsDesired-empty
  | inr set ↦ read_distribution-IsDesired format namespace _ d (rw set at h)
]

is_distribution_name-from_platform :
    (spec_platform : String)
    → distribution_name_from_platform spec_platform ≢ ""
    → is_distribution_name (distribution_name_from_platform spec_platform) ≡ true
unfolding distribution_name_from_platform
is_distribution_name-from_platform spec_platform set =
    elim (Bool-cases (spec_platform == self_managed_rhoai)) [
      | inl rhoai ↦ rw rhoai
      | inr other ↦ rw other (elim (Bool-cases (spec_platform == open_data_hub)) [
        | inl odh ↦ rw odh
        | inr neither ↦ absurd (set (rw (other, neither)))
      ])
    ]

-- A listed name, or the fallback for an empty one.
or_text_listed :
    (name fallback : String)
    → (name ≢ "" → is_distribution_name name ≡ true)
    → is_distribution_name fallback ≡ true
    → is_distribution_name (or_text name fallback) ≡ true
or_text_listed name fallback listed default = elim (Bool-cases (name == "")) [
  | inl blank ↦ rw blank default
  | inr set ↦ rw set (listed (nonempty name set))
]

resolved_name_listed :
    (d : Distribution) (spec_platform operator_version : String)
    → IsDesired d
    → is_distribution_name (resolved_name d.name spec_platform operator_version) ≡ true
resolved_name_listed d spec_platform operator_version valid =
    or_text_listed
      (if d.name == "" && not (spec_platform == "")
        then distribution_name_from_platform spec_platform
        else d.name)
      ((standalone_distribution operator_version).name)
      (elim (Bool-cases (d.name == "" && not (spec_platform == ""))) [
        | inl derived ↦ rw derived (is_distribution_name-from_platform spec_platform)
        | inr own ↦ rw own valid.name_listed
      ])
      (standalone_distribution-IsReported operator_version).name_listed

resolved-IsVersion :
    (version fallback : String)
    → IsVersion version
    → (fallback ≢ "") × IsVersion fallback
    → (or_text version fallback ≢ "") × IsVersion (or_text version fallback)
resolved-IsVersion version fallback valid default = elim (Bool-cases (version == "")) [
  | inl blank ↦ rw blank default
  | inr set ↦ rw set (nonempty version set, valid)
]

resolve_desired_distribution-IsReported :
    (d : Distribution) (spec_platform operator_version : String)
    → IsDesired d
    → IsReported (resolve_desired_distribution d spec_platform operator_version)
unfolding resolve_desired_distribution
resolve_desired_distribution-IsReported d spec_platform operator_version valid =
    let standalone = standalone_distribution-IsReported operator_version in
    elim (Bool-cases (is_distribution_empty d)) [
      | inl blank ↦ rw blank standalone
      | inr set ↦
          let version =
            resolved-IsVersion d.version (standalone_distribution operator_version).version
              valid.version_valid (standalone.version_set, standalone.version_valid) in
          rw set (record {
            name_listed = resolved_name_listed d spec_platform operator_version valid;
            version_set = version.0;
            version_valid = version.1;
          })
    ]

-- Whatever the ConfigMap, the platform and the operator's version are: if the ConfigMap is read
-- without an error, the resolved distribution has one of the three names, and a version that is not
-- empty, has at most 64 characters and no control character, as the custom resource demands.
pub read_desired_distribution-IsReported :
    (format : Format) (get : String → String → Result (Option StringMap))
    (namespace spec_platform operator_version : String) (d : Distribution)
    → read_desired_distribution format get namespace ≡ ok d
    → IsReported (resolve_desired_distribution d spec_platform operator_version)
read_desired_distribution-IsReported format get namespace spec_platform operator_version d h =
    resolve_desired_distribution-IsReported d spec_platform operator_version
      (read_desired_distribution-IsDesired format get namespace d h)
