-- ===== src/PlatformConfig/Releases/Handshake.antt =====
-- What recording the platform's version and refreshing the releases do to the handshake.
use workbenches_operator.Prelude.{
  String, ◌==◌, eq_iff, eq_refl, ◌≡◌, refl, ◌∙◌, ap, true, false, not, List, [], ◌∷◌, ◌++◌, map,
  keep, arith, Bool-cases, inl, inr, ◌⊎◌,
}
use workbenches_operator.Prelude.Text.{trim_space}
use workbenches_operator.Prelude.TextLaws.{trim_space_idem}
use workbenches_operator.Api.{ComponentRelease}
use workbenches_operator.PlatformConfig.Releases.{
  is_platform, is_component, no_release, get_platform_release, record_version, set_platform_release,
  merge_component_releases, handshake_complete,
}

pub get-record_version :
    (releases : List ComponentRelease) (version : String)
    → (get_platform_release (record_version releases version)).version ≡ version
unfolding get_platform_release record_version
get-record_version [] version = refl
get-record_version (release ∷ releases) version = elim (Bool-cases (is_platform release)) [
  | inl here ↦ rw (here, here)
  | inr later ↦ rw (later, later) (get-record_version releases version)
]

keep-record_version :
    (releases : List ComponentRelease) (version : String)
    → keep is_component (record_version releases version) ≡ keep is_component releases
unfolding record_version
keep-record_version [] version = refl
keep-record_version (release ∷ releases) version =
    ground (arith, keep-record_version releases version)

abbrev names : List ComponentRelease → List String
names releases = map (λ release. release.name) releases

-- After the platform's version is recorded, the handshake on it is complete unless the version is
-- blank, and the entries of the components are as they were, in their order.
pub set_platform_release-handshake_complete :
    (releases : List ComponentRelease) (version : String)
    → (handshake_complete version (set_platform_release releases version)
        ≡ not (trim_space version == ""))
      × (keep is_component (set_platform_release releases version) ≡ keep is_component releases)
unfolding set_platform_release handshake_complete
set_platform_release-handshake_complete releases version =
    elim (Bool-cases (trim_space version == "")) [
      | inl blank ↦ rw blank (refl, refl)
      | inr set ↦ rw set (
        rw (get-record_version releases (trim_space version)) (eq_refl (trim_space version)),
        keep-record_version releases (trim_space version),
      )
    ]

get-append :
    (components : List ComponentRelease) (last : List ComponentRelease)
    → get_platform_release (keep is_component components ++ last) ≡ get_platform_release last
unfolding get_platform_release
get-append [] last = refl
get-append (release ∷ releases) last = ground (arith, get-append releases last)

get-is_platform :
    (releases : List ComponentRelease)
    → (get_platform_release releases ≡ no_release)
      ⊎ (is_platform (get_platform_release releases) ≡ true)
unfolding get_platform_release
get-is_platform [] = inl refl
get-is_platform (release ∷ releases) = elim (Bool-cases (is_platform release)) [
  | inl here ↦ rw here (inr here)
  | inr later ↦ rw later (get-is_platform releases)
]

single :
    (release : ComponentRelease)
    → is_platform release ≡ true
    → get_platform_release (release ∷ []) ≡ release
unfolding get_platform_release
single release found = rw found

-- The platform's entry of the merged releases has the version of the one merged, unless that is blank.
merged_version :
    (components : List ComponentRelease) (release : ComponentRelease) (target : String)
    → (release ≡ no_release) ⊎ (is_platform release ≡ true)
    → (target == "") ≡ false
    → trim_space target ≡ target
    → ((get_platform_release (merge_component_releases components release)).version == target)
      ≡ (release.version == target)
unfolding merge_component_releases get_platform_release
merged_version components release target (inl absent) set trimmed =
    rw absent (ap (λ r. r.version == target) (get-append components []))
merged_version components release target (inr found) set trimmed =
    elim (Bool-cases (trim_space release.version == "")) [
      | inl blank ↦
          rw (found, blank)
            (ap (λ r. r.version == target) (get-append components [])
              ∙ ground (
                arith,
                eq_iff "" target,
                eq_iff release.version target,
                eq_iff (trim_space release.version) "",
                eq_iff target "",
              ))
      | inr filled ↦
          rw (found, filled)
            (ap (λ r. r.version == target)
              (get-append components (release ∷ []) ∙ single release found))
    ]

-- Refreshing the releases of the components neither completes nor breaks a handshake.
pub merge_component_releases-handshake_complete :
    (components releases : List ComponentRelease) (version : String)
    → handshake_complete version
        (merge_component_releases components (get_platform_release releases))
      ≡ handshake_complete version releases
unfolding handshake_complete
merge_component_releases-handshake_complete components releases version =
    elim (Bool-cases (trim_space version == "")) [
      | inl blank ↦ rw blank
      | inr set ↦ rw set (
          merged_version components (get_platform_release releases) (trim_space version)
            (get-is_platform releases) set (trim_space_idem version))
    ]

pub get-set_platform_release :
    (releases : List ComponentRelease) (version : String)
    → (trim_space version == "") ≡ false
    → (get_platform_release (set_platform_release releases version)).version ≡ trim_space version
unfolding set_platform_release
get-set_platform_release releases version set =
    rw set (get-record_version releases (trim_space version))
