-- ===== src/PlatformConfig/Releases.antt =====
-- The entry of the platform in the releases of the status, and the handshake on its version.
pub mod Handshake
use workbenches_operator.Prelude.{
  String, ◌==◌, Bool, false, not, ◌&&◌, List, [], ◌∷◌, ◌++◌, keep, if◌then◌else◌,
}
use workbenches_operator.Prelude.Text.{trim_space}
use workbenches_operator.Api.{ComponentRelease, Distribution}
use workbenches_operator.PlatformConfig.Distribution.{distribution_name_standalone}

abbrev pub release_name : String
release_name = "platform"

abbrev pub is_platform : ComponentRelease → Bool
is_platform release = release.name == release_name

abbrev pub no_release : ComponentRelease
no_release = record { name = ""; version = ""; repo_url = "" }

unfoldable pub get_platform_release : List ComponentRelease → ComponentRelease
get_platform_release [] = no_release
get_platform_release (release ∷ releases) =
    if is_platform release then release else get_platform_release releases

-- The loop of `SetPlatformRelease`, and the entry behind the others where there is none.
unfoldable pub record_version : List ComponentRelease → String → List ComponentRelease
record_version [] version = record { name = release_name; version = version; repo_url = "" } ∷ []
record_version (release ∷ releases) version =
    if is_platform release
    then record { name = release.name; version = version; repo_url = release.repo_url } ∷ releases
    else release ∷ record_version releases version

unfoldable pub set_platform_release : List ComponentRelease → String → List ComponentRelease
unfolding record_version
set_platform_release releases version =
    if trim_space version == "" then releases else record_version releases (trim_space version)

abbrev pub is_component : ComponentRelease → Bool
is_component release = not (is_platform release)

unfoldable pub merge_component_releases :
    List ComponentRelease → ComponentRelease → List ComponentRelease
merge_component_releases component_releases platform_release =
    keep is_component component_releases
    ++ (if is_platform platform_release && not (trim_space platform_release.version == "")
        then platform_release ∷ []
        else [])

unfoldable pub handshake_complete : String → List ComponentRelease → Bool
unfolding get_platform_release
handshake_complete platform_version releases =
    if trim_space platform_version == ""
    then false
    else (get_platform_release releases).version == trim_space platform_version

unfoldable pub handshake_required : Distribution → Bool
handshake_required desired = not (desired.name == distribution_name_standalone)
