-- ===== src/Reconciler/Ready/Phases.antt =====
-- The phase of the status that a reconcile writes, against its condition Ready.
use workbenches_operator.Prelude.{◌≡◌, ◌≢◌, ◌↔◌, Bool, true, false, ◌&&◌, Option, some}
use workbenches_operator.Json.{pos}
use workbenches_operator.Format.{Format}
use workbenches_operator.Phase.{Phase, ready, upgrading, failed, gt}
use workbenches_operator.Conditions.{Conditions}
use workbenches_operator.Reconciler.Ready.{Earlier}

-- When the spec is newer than what was observed, and something was observed.
abbrev pub is_newer : Earlier → Bool
is_newer earlier =
    gt earlier.generation earlier.previous_observed_generation
    && gt earlier.previous_observed_generation (pos 0)

-- What the phase says, given whether Ready is True.
pub record Phases (earlier : Earlier) (phase : Option Phase) (is_ready : Bool) : Type 0 where
  pub on_ready : (phase ≡ some ready) ↔ (is_ready ≡ true)
  pub on_upgrading :
      (phase ≡ some upgrading)
      ↔ ((is_ready ≡ false) × (earlier.was_ready ≡ true) × (is_newer earlier ≡ true))
  pub never_failed : phase ≢ some failed
