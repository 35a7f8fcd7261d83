-- ===== src/Tls/Detect.antt =====
-- `Detect`: the provider, from the API groups of the cluster.
pub mod Groups
use workbenches_operator.Prelude.{
  String, ◌==◌, Bool, true, false, ◌||◌, Option, none, some, List, [], ◌∷◌, if◌then◌else◌,
}
use workbenches_operator.Errors.{Error, failure, Result, ok, err, wrap}

pub data Provider : Type 0 where
  open_shift cert_manager no_provider : Provider

abbrev pub open_shift_route_group : String
open_shift_route_group = "route.openshift.io"

abbrev pub open_shift_security_group : String
open_shift_security_group = "security.openshift.io"

abbrev pub cert_manager_group : String
cert_manager_group = "cert-manager.io"

-- The loop's variables.
pub record Flags : Type 0 where
  pub has_open_shift : Bool
  pub has_cert_manager : Bool

abbrev pub see : String → Flags → Flags
see name flags =
    if name == open_shift_route_group || name == open_shift_security_group
    then record { has_open_shift = true; has_cert_manager = flags.has_cert_manager }
    else if name == cert_manager_group
    then record { has_open_shift = flags.has_open_shift; has_cert_manager = true }
    else flags

unfoldable pub scan_groups : List String → Flags → Flags
scan_groups [] flags = flags
scan_groups (name ∷ names) flags = scan_groups names (see name flags)

abbrev no_provider_of : Option Error → Result Provider
no_provider_of none = ok no_provider
no_provider_of (some e) = err (wrap "discover API groups (partial)" e)

abbrev provider_of : Flags → Option Error → Result Provider
provider_of flags e =
    if flags.has_open_shift
    then ok open_shift
    else if flags.has_cert_manager
    then ok cert_manager
    else no_provider_of e

-- `ServerGroups` gives the names of the groups, or nil, and an error or nil: it may give both. With
-- neither, the text wraps a nil error.
abbrev undiscovered : Option Error → Error
undiscovered none = failure "discover API groups: %!w(<nil>)"
undiscovered (some e) = wrap "discover API groups" e

unfoldable pub detect : Option (List String) → Option Error → Result Provider
detect none e = err (undiscovered e)
detect (some names) e =
    provider_of (scan_groups names (record { has_open_shift = false; has_cert_manager = false })) e
