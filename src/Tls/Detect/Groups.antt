-- ===== src/Tls/Detect/Groups.antt =====
-- The order of the API groups does not matter to the provider.
use workbenches_operator.Prelude.{
  String, eq_iff, ◌≡◌, false, ◌||◌, Option, some, List, [], ◌∷◌, arith, contains, if◌then◌else◌,
}
use workbenches_operator.Errors.{Error, ok}
use workbenches_operator.Tls.Detect.{
  open_shift, cert_manager, open_shift_route_group, open_shift_security_group, cert_manager_group,
  Flags, see, scan_groups, no_provider_of, detect,
}

open_shift-scan_groups :
    (names : List String) (flags : Flags)
    → (scan_groups names flags).has_open_shift ≡ (
        flags.has_open_shift
        || contains open_shift_route_group names
        || contains open_shift_security_group names)
unfolding scan_groups
open_shift-scan_groups [] flags = ground arith
open_shift-scan_groups (name ∷ names) flags = ground (
  arith,
  open_shift-scan_groups names (see name flags),
  eq_iff name open_shift_route_group,
  eq_iff name open_shift_security_group,
  eq_iff open_shift_route_group name,
  eq_iff open_shift_security_group name,
)

cert_manager-scan_groups :
    (names : List String) (flags : Flags)
    → (scan_groups names flags).has_cert_manager
      ≡ (flags.has_cert_manager || contains cert_manager_group names)
unfolding scan_groups
cert_manager-scan_groups [] flags = ground arith
cert_manager-scan_groups (name ∷ names) flags = ground (
  arith,
  cert_manager-scan_groups names (see name flags),
  eq_iff name open_shift_route_group,
  eq_iff name open_shift_security_group,
  eq_iff name cert_manager_group,
  eq_iff cert_manager_group name,
  eq_iff open_shift_route_group cert_manager_group,
  eq_iff open_shift_security_group cert_manager_group,
)

-- OpenShift is chosen when one of its two groups is there, even if the list of groups is partial;
-- cert-manager when its group is there and OpenShift's are not; and otherwise none, or the error that
-- came with the list.
pub detect_lem :
    (names : List String) (e : Option Error)
    → detect (some names) e ≡ (
        if contains open_shift_route_group names || contains open_shift_security_group names
        then ok open_shift
        else if contains cert_manager_group names
        then ok cert_manager
        else no_provider_of e)
unfolding detect
detect_lem names e =
    let start : Flags = record { has_open_shift = false; has_cert_manager = false } in
    rw (open_shift-scan_groups names start, cert_manager-scan_groups names start)
