-- ===== src/Tests/Status.antt =====
-- Runs of the phase and of the platform's names, and their theorems at concrete data.
use workbenches_operator.Prelude.{
  String, ◌==◌, eq_iff, ◌≡◌, ◌≢◌, refl, true, false, false≢true, List, [], ◌∷◌, if◌then◌else◌,
}
use workbenches_operator.Prelude.Text.{trim_space}
use workbenches_operator.Json.{pos}
use workbenches_operator.Phase.{PhaseContext, compute_phase, gt, upgrading}
use workbenches_operator.Platform.{valid_applications_namespace}
use workbenches_operator.Platform.Namespace.{valid_applications_namespace_nonempty}

abbrev upgrade : PhaseContext
upgrade = record {
  previous_observed_generation = pos 3;
  generation = pos 4;
  was_ready = true;
  is_ready = false;
  is_degraded = true;
  is_failed = false;
  removed = false;
  provisioning_succeeded = true;
}

upgrades : compute_phase upgrade ≡ upgrading
unfolding compute_phase gt
upgrades = refl

-- A validation that refuses a name with a space in it.
abbrev label_errors : String → List String
label_errors name = if name == "a b" then "invalid" ∷ [] else []

taken : valid_applications_namespace label_errors " my-apps " ≢ ""
unfolding valid_applications_namespace trim_space
taken e = false≢true ((eq_iff (valid_applications_namespace label_errors " my-apps ") "").1 e)

valid_applications_namespace_nonempty_example :
    (trim_space " my-apps " ≢ "") × (label_errors (trim_space " my-apps ") ≡ [])
valid_applications_namespace_nonempty_example =
    (valid_applications_namespace_nonempty label_errors " my-apps ").0.0 taken
