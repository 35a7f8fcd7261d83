-- ===== src/Phase.antt =====
-- internal/status/phase.go: `ComputePhase`, the phase of the module's status.
use workbenches_operator.Prelude.{zero, Bool, true, false, not, ◌&&◌, ◌||◌, ltb, if◌then◌else◌}
use workbenches_operator.Json.{ℤ, pos, negsuc}

pub data Phase : Type 0 where
  pending initializing ready upgrading degraded failed : Phase

-- x > y on int64
unfoldable pub gt : ℤ → ℤ → Bool
gt (pos x) (pos y) = ltb y x
gt (pos x) (negsuc y) = true
gt (negsuc x) (pos y) = false
gt (negsuc x) (negsuc y) = ltb x y

abbrev pub is_zero : ℤ → Bool
is_zero (pos zero) = true
is_zero _ = false

pub record PhaseContext : Type 0 where
  pub previous_observed_generation : ℤ
  pub generation : ℤ
  pub was_ready : Bool
  pub is_ready : Bool
  pub is_degraded : Bool
  pub is_failed : Bool
  pub removed : Bool
  pub provisioning_succeeded : Bool

unfoldable pub compute_phase : PhaseContext → Phase
compute_phase ctx =
    if ctx.is_failed || ctx.removed
    then failed
    else if ctx.is_ready
    then ready
    else if ctx.was_ready
        && gt ctx.generation ctx.previous_observed_generation
        && gt ctx.previous_observed_generation (pos 0)
    then upgrading
    else if ctx.is_degraded
    then degraded
    else if is_zero ctx.previous_observed_generation && not ctx.provisioning_succeeded
    then pending
    else initializing
