-- ===== src/Tests/PlatformConfig.antt =====
-- Runs of the platform's configuration, and its theorems at concrete data.
use workbenches_operator.Prelude.{String, ◌==◌, ◌≡◌, refl, not, Option, some, List, [], ◌∷◌, keep}
use workbenches_operator.Prelude.Text.{trim_space}
use workbenches_operator.Errors.{Result, ok, err, not_found, is_not_found}
use workbenches_operator.Dict.{StringMap, lookup}
use workbenches_operator.Api.{ComponentRelease, Distribution}
use workbenches_operator.PlatformConfig.Distribution.{
  read_desired_distribution, resolve_desired_distribution, truncate_for_log, is_distribution_empty,
  distribution_name_from_platform,
}
use workbenches_operator.PlatformConfig.Distribution.Bounds.{
  IsReported, read_desired_distribution-IsReported,
}
use workbenches_operator.PlatformConfig.Releases.{
  get_platform_release, set_platform_release, merge_component_releases, handshake_complete,
  is_component,
}
use workbenches_operator.PlatformConfig.Releases.Handshake.{
  set_platform_release-handshake_complete, merge_component_releases-handshake_complete,
}
use workbenches_operator.PlatformConfig.Predicate.{
  ConfigMap, config_changed, matches, platform_config_value,
}
use workbenches_operator.PlatformConfig.Predicate.Dropped.{ReadAlike, config_changed-ReadAlike}
use workbenches_operator.Releases.{load_metadata_file}
use workbenches_operator.Tests.Cluster.{format}

abbrev values : StringMap
values = ("distribution.version", " 3.5.1 ") ∷ ("platformVersion", "3.5.1") ∷ []

abbrev get_values : String → String → Result (Option StringMap)
get_values namespace name = ok (some values)

abbrev unnamed : Distribution
unnamed = record { name = ""; version = "3.5.1" }

reads : read_desired_distribution format get_values "opendatahub" ≡ ok unnamed
unfolding read_desired_distribution trim_space lookup
reads = refl

read_desired_distribution-IsReported_example :
    IsReported (resolve_desired_distribution unnamed "SelfManagedRhoai" "")
read_desired_distribution-IsReported_example =
    read_desired_distribution-IsReported format get_values "opendatahub" "SelfManagedRhoai" ""
      unnamed reads

resolved_test :
    resolve_desired_distribution unnamed "SelfManagedRhoai" ""
    ≡ record { name = "SelfManagedRHOAI"; version = "3.5.1" }
unfolding resolve_desired_distribution is_distribution_empty distribution_name_from_platform
    trim_space
resolved_test = refl

truncate_test : truncate_for_log "abcdef" 3 ≡ "abc..."
unfolding truncate_for_log
truncate_test = refl

abbrev releases : List ComponentRelease
releases =
    record { name = "Kubeflow"; version = "1.10"; repo_url = "" }
    ∷ record { name = "platform"; version = "3.4.0"; repo_url = "" }
    ∷ []

set_platform_release-handshake_complete_example :
    (handshake_complete " 3.5.1 " (set_platform_release releases " 3.5.1 ")
      ≡ not (trim_space " 3.5.1 " == ""))
    × (keep is_component (set_platform_release releases " 3.5.1 ") ≡ keep is_component releases)
set_platform_release-handshake_complete_example =
    set_platform_release-handshake_complete releases " 3.5.1 "

merge_component_releases-handshake_complete_example :
    handshake_complete "3.4.0" (merge_component_releases [] (get_platform_release releases))
    ≡ handshake_complete "3.4.0" releases
merge_component_releases-handshake_complete_example =
    merge_component_releases-handshake_complete [] releases "3.4.0"

-- The file is not there.
missing_test :
    load_metadata_file
      (λ path. err (not_found path))
      (λ text. ok releases)
      "component_metadata.yaml"
    ≡ ok []
unfolding load_metadata_file is_not_found
missing_test = refl

abbrev config : StringMap → ConfigMap
config m = record { name = "odh-workbenches-config"; namespace = "opendatahub"; values = some m }

-- The same values with other spaces, and with a key that the operator does not read.
abbrev rewritten : StringMap
rewritten = ("distribution.version", "3.5.1") ∷ ("platformVersion", " 3.5.1") ∷ ("note", "x") ∷ []

config_changed-ReadAlike_example : ReadAlike (some values) (some rewritten)
unfolding matches platform_config_value config_changed trim_space lookup
config_changed-ReadAlike_example =
    config_changed-ReadAlike ("opendatahub" ∷ []) (config values) (config rewritten)
      (
        tt,
        (
          (refl, (refl, (refl, (refl, (refl, tt))))),
          ((refl, (refl, (refl, (refl, (refl, tt))))), tt),
        ),
      )
      (
        tt,
        (
          (refl, (refl, (refl, (refl, (refl, tt))))),
          ((refl, (refl, (refl, (refl, (refl, tt))))), tt),
        ),
      )
      refl refl
