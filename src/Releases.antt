-- ===== src/Releases.antt =====
-- internal/releases/releases.go: the releases in the metadata file of the operator's image. The file
-- and the parsing of YAML are arguments.
use workbenches_operator.Prelude.{String, ◌<>◌, ◌==◌, ◌||◌, List, [], ◌∷◌, if◌then◌else◌}
use workbenches_operator.Prelude.Text.{trim_space}
use workbenches_operator.Errors.{is_not_found, Result, ok, err, wrap}
use workbenches_operator.Api.{ComponentRelease}

abbrev pub component_metadata_filename : String
component_metadata_filename = "component_metadata.yaml"

abbrev pub metadata_relative_path : String
metadata_relative_path = "workbenches/kf-notebook-controller"

-- The loop of `loadMetadataFile`.
unfoldable pub valid_releases : List ComponentRelease → List ComponentRelease
valid_releases [] = []
valid_releases (item ∷ items) =
    let rest = valid_releases items in
    if trim_space item.name == "" || trim_space item.version == ""
    then rest
    else record {
      name = trim_space item.name;
      version = trim_space item.version;
      repo_url = item.repo_url;
    }
      ∷ rest

unmarshaled : String → Result (List ComponentRelease) → Result (List ComponentRelease)
unfolding valid_releases
unmarshaled path (err e) = err (wrap ("unmarshaling metadata file " <> path) e)
unmarshaled path (ok items) = ok (valid_releases items)

read_file :
    (String → Result (List ComponentRelease))
    → String
    → Result String
    → Result (List ComponentRelease)
unfolding unmarshaled
read_file unmarshal path (err e) =
    if is_not_found e then ok [] else err (wrap ("reading metadata file " <> path) e)
read_file unmarshal path (ok text) = unmarshaled path (unmarshal text)

-- os.ReadFile, of which a file that does not exist is the error `not_found`, and yaml.Unmarshal.
module _ (open_file : String → Result String)
    (unmarshal : String → Result (List ComponentRelease)) where
  unfoldable pub load_metadata_file : String → Result (List ComponentRelease)
  unfolding read_file
  load_metadata_file path = read_file unmarshal path (open_file path)

  -- filepath.Join is an argument.
  unfoldable pub collect_workbenches_releases :
      (List String → String) → String → Result (List ComponentRelease)
  unfolding load_metadata_file
  collect_workbenches_releases join manifests_base_path =
      load_metadata_file
        (join (manifests_base_path ∷ metadata_relative_path ∷ component_metadata_filename ∷ []))
