-- ===== src/PlatformConfig/Distribution.antt =====
-- The distribution that the platform asks for, and its validation. The ConfigMap is read by an
-- argument: its data is `none` where the map is nil.
pub mod Bounds
use Prim.Native.Char.{code}
use workbenches_operator.Prelude.{
  ℕ, zero, suc, String, ◌<>◌, ◌==◌, Bool, false, not, ◌&&◌, ◌||◌, Option, none, some, ltb, leb,
  nat_eq, or_default, is_some, if◌then◌else◌,
}
use workbenches_operator.Prelude.Text.{trim_space}
use workbenches_operator.Errors.{Error, failure, is_not_found, Result, ok, err, wrap}
use workbenches_operator.Format.{Format}
use workbenches_operator.Dict.{StringMap, lookup}
use workbenches_operator.Api.{Distribution}
use workbenches_operator.Platform.{open_data_hub, self_managed_rhoai}

abbrev pub config_map_name : String
config_map_name = "odh-workbenches-config"

abbrev pub distribution_name_key : String
distribution_name_key = "distribution.name"

abbrev pub distribution_version_key : String
distribution_version_key = "distribution.version"

abbrev pub version_data_key : String
version_data_key = "platformVersion"

abbrev pub distribution_name_standalone : String
distribution_name_standalone = "Standalone"

abbrev pub distribution_name_self_managed_rhoai : String
distribution_name_self_managed_rhoai = "SelfManagedRHOAI"

abbrev pub max_distribution_field_length : ℕ
max_distribution_field_length = 64

abbrev pub max_logged_platform_length : ℕ
max_logged_platform_length = 128

-- utf8.RuneCountInString
unfoldable pub rune_count : String → ℕ
rune_count String.[] = 0
rune_count (String.◌∷◌ c s) = suc (rune_count s)

-- unicode.IsControl: the two blocks of control characters.
unfoldable pub is_control : ℕ → Bool
is_control c = ltb c 32 || (leb 127 c && ltb c 160)

-- The loop of `validateDistributionVersion`.
unfoldable pub has_control : String → Bool
unfolding is_control
has_control String.[] = false
has_control (String.◌∷◌ c s) = is_control (code c) || has_control s

-- `none` is the nil error.
unfoldable pub validate_distribution_version : String → Option Error
unfolding rune_count has_control
validate_distribution_version value =
    if value == ""
    then none
    else if ltb max_distribution_field_length (rune_count value)
    then some (failure (distribution_version_key <> " exceeds max length 64"))
    else if has_control value
    then some (failure (distribution_version_key <> " contains control characters"))
    else none

abbrev pub is_distribution_name : String → Bool
is_distribution_name name =
    name == open_data_hub
    || name == distribution_name_self_managed_rhoai
    || name == distribution_name_standalone

unfoldable pub standalone_distribution : String → Distribution
unfolding validate_distribution_version
standalone_distribution operator_version =
    let version = trim_space operator_version in
    record {
      name = distribution_name_standalone;
      version =
          if version == "" || is_some (validate_distribution_version version)
          then "0.0.0"
          else version;
    }

unfoldable pub is_distribution_empty : Distribution → Bool
is_distribution_empty d = trim_space d.name == "" && trim_space d.version == ""

unfoldable pub distribution_aligned : Distribution → Distribution → Bool
distribution_aligned desired current =
    if desired.name == ""
    then false
    else desired.name == current.name && desired.version == current.version

unfoldable pub distribution_name_from_platform : String → String
distribution_name_from_platform spec_platform =
    if spec_platform == self_managed_rhoai
    then distribution_name_self_managed_rhoai
    else if spec_platform == open_data_hub
    then open_data_hub
    else ""

abbrev or_text : String → String → String
or_text value fallback = if value == "" then fallback else value

-- The name: the ConfigMap's, or the platform's, or that of the standalone distribution.
abbrev resolved_name : String → String → String → String
resolved_name name spec_platform operator_version =
    or_text
      (if name == "" && not (spec_platform == "")
        then distribution_name_from_platform spec_platform
        else name)
      ((standalone_distribution operator_version).name)

unfoldable pub resolve_desired_distribution : Distribution → String → String → Distribution
resolve_desired_distribution desired spec_platform operator_version =
    if is_distribution_empty desired then standalone_distribution operator_version else record {
      name = resolved_name desired.name spec_platform operator_version;
      version = or_text desired.version (standalone_distribution operator_version).version;
    }

unfoldable pub distribution_empty : Distribution
distribution_empty = record { name = ""; version = "" }

-- The first n runes.
unfoldable pub take_runes : ℕ → String → String
take_runes zero s = ""
take_runes (suc n) String.[] = ""
take_runes (suc n) (String.◌∷◌ c s) = String.◌∷◌ c (take_runes n s)

-- A limit of 0 is no limit.
unfoldable pub truncate_for_log : String → ℕ → String
unfolding rune_count take_runes
truncate_for_log value max_runes =
    if nat_eq max_runes 0 || leb (rune_count value) max_runes
    then value
    else take_runes max_runes value <> "..."

module _ (format : Format) where
  unfoldable pub validate_distribution_fields : String → String → Option Error
  unfolding validate_distribution_version
  validate_distribution_fields name version =
      if not (name == "") && not (is_distribution_name name)
      then some (failure ("unsupported distribution.name " <> format.quote name))
      else validate_distribution_version version

  validated : String → String → String → Option Error → Result Distribution
  validated namespace name version (some e) =
      err (wrap ("invalid distribution in ConfigMap " <> namespace <> "/" <> config_map_name) e)
  validated namespace name version none = ok (record { name = name; version = version })

  distribution_of : String → Option StringMap → Result Distribution
  unfolding validated validate_distribution_fields
  distribution_of namespace none = ok distribution_empty
  distribution_of namespace (some values) =
      let name = trim_space (or_default "" (lookup distribution_name_key values)) in
      let version = trim_space (or_default "" (lookup distribution_version_key values)) in
      validated namespace name version (validate_distribution_fields name version)

  -- What is read from the answer of the API server.
  read_distribution : String → Result (Option StringMap) → Result Distribution
  unfolding distribution_of distribution_empty
  read_distribution namespace (err e) =
      if is_not_found e
      then ok distribution_empty
      else err (wrap ("reading ConfigMap " <> namespace <> "/" <> config_map_name) e)
  read_distribution namespace (ok values) = distribution_of namespace values

  -- `get` answers with the data of the ConfigMap of a namespace and a name.
  unfoldable pub read_desired_distribution :
      (String → String → Result (Option StringMap)) → String → Result Distribution
  unfolding read_distribution
  read_desired_distribution get namespace =
      if namespace == ""
      then ok distribution_empty
      else read_distribution namespace (get namespace config_map_name)

version_of : Option StringMap → String
version_of none = ""
version_of (some values) = trim_space (or_default "" (lookup version_data_key values))

read_version : String → Result (Option StringMap) → Result String
unfolding version_of
read_version namespace (err e) =
    if is_not_found e
    then ok ""
    else err (wrap ("reading ConfigMap " <> namespace <> "/" <> config_map_name) e)
read_version namespace (ok values) = ok (version_of values)

unfoldable pub read_platform_version :
    (String → String → Result (Option StringMap)) → String → Result String
unfolding read_version
read_platform_version get namespace =
    if namespace == "" then ok "" else read_version namespace (get namespace config_map_name)
