-- ===== src/Reconciler/Ready/Machine.antt =====
-- The handshake on the platform's version over the reconciles: an abstract state machine.
use workbenches_operator.Prelude.{
  String, ◌==◌, eq_iff, eq_refl, ◌≡◌, ◌≢◌, refl, ap, ◌∙◌, Bool, true, false, not, ◌&&◌, ◌||◌,
  Bool-cases, inl, inr, if◌then◌else◌,
}
use workbenches_operator.PlatformConfig.Distribution.Bounds.{nonempty}
use workbenches_operator.Reconciler.Ready.Gate.{Verdict, reason_of, verdict}

-- The platform's version that is recorded, and whether Ready says that a version is pending.
pub record Handshake : Type 0 where
  pub recorded : String
  pub announced : Bool

-- A reconcile towards a target. An upgrade is announced by one reconcile and recorded by the next; a
-- first version is recorded at once.
unfoldable pub next : Bool → String → Handshake → Handshake
next deployments_ready target h =
    if not deployments_ready
    then record { recorded = h.recorded; announced = false }
    else if target == ""
    then record { recorded = h.recorded; announced = true }
    else if h.recorded == target
    then record { recorded = h.recorded; announced = false }
    else if h.recorded == "" || h.announced
    then record { recorded = target; announced = false }
    else record { recorded = h.recorded; announced = true }

abbrev pub says_pending : Verdict → Bool
says_pending v = reason_of v == "PlatformVersionPending"

abbrev pub advanced : Bool → String → Handshake → String
advanced deployments_ready target h =
    if deployments_ready
      && not (target == "")
      && not (h.recorded == target)
      && (h.recorded == "" || h.announced || false)
    then target
    else h.recorded

-- The machine in the terms of the code.
pub next-advanced :
    (deployments_ready : Bool) (target : String) (h : Handshake)
    → next deployments_ready target h ≡ record {
      recorded = advanced deployments_ready target h;
      announced = says_pending (
          verdict deployments_ready deployments_ready true
            (if target == "" then false else advanced deployments_ready target h == target));
    }
unfolding next
next-advanced false target h = refl
next-advanced true target h = elim (Bool-cases (target == "")) [
  | inl blank ↦ rw blank
  | inr set ↦ elim (Bool-cases (h.recorded == target)) [
    | inl same ↦ rw (set, same, same)
    | inr old ↦ elim (Bool-cases (h.recorded == "")) [
      | inl first ↦ rw (set, old, first, eq_refl target)
      | inr later ↦ elim (Bool-cases h.announced) [
        | inl known ↦ rw (set, old, later, known, eq_refl target)
        | inr fresh ↦ rw (set, old, later, fresh, old)
      ]
    ]
  ]
]

-- Two steps reach the target from wherever the machine is.
advanced_twice :
    (target : String) (h : Handshake)
    → (target == "") ≡ false
    → advanced true target (next true target h) ≡ target
unfolding next
advanced_twice target h set = elim (Bool-cases (h.recorded == target)) [
  | inl same ↦ rw (set, same, same) ((eq_iff h.recorded target).0 same)
  | inr old ↦ elim (Bool-cases (h.recorded == "")) [
    | inl first ↦ rw (set, old, first, eq_refl target)
    | inr later ↦ elim (Bool-cases h.announced) [
      | inl known ↦ rw (set, old, later, known, eq_refl target)
      | inr fresh ↦ rw (set, old, later, fresh, old, later)
    ]
  ]
]

pub reaches_target :
    (target : String) (h : Handshake)
    → (target == "") ≡ false
    → (if target == "" then false else advanced true target (next true target h) == target) ≡ true
reaches_target target h set =
    ap (λ v. if target == "" then false else v == target) (advanced_twice target h set)
    ∙ rw set (eq_refl target)

-- What a step does to the recorded version.
pub data Advance (target : String) : Handshake → Handshake → Type 0 where
  stay :
      {h : Handshake} (announced : Bool)
      → Advance target h (record { recorded = h.recorded; announced = announced })
  first :
      {h : Handshake}
      → h.recorded ≡ ""
      → target ≢ ""
      → Advance target h (record { recorded = target; announced = false })
  upgrade :
      {h : Handshake}
      → h.announced ≡ true
      → target ≢ ""
      → Advance target h (record { recorded = target; announced = false })

announced-Advance :
    (target : String) (h : Handshake) (announced : Bool)
    → h.announced ≡ announced
    → target ≢ ""
    → Advance target h (
        if announced
        then record { recorded = target; announced = false }
        else record { recorded = h.recorded; announced = true })
announced-Advance target h true known set = upgrade known set
announced-Advance target h false known set = stay true

-- A version that is recorded is replaced only after the upgrade was announced.
pub next-Advance :
    (deployments_ready : Bool) (target : String) (h : Handshake)
    → Advance target h (next deployments_ready target h)
unfolding next
next-Advance false target h = stay false
next-Advance true target h = elim (Bool-cases (target == "")) [
  | inl blank ↦ rw blank (stay true)
  | inr set ↦ elim (Bool-cases (h.recorded == target)) [
    | inl same ↦ rw (set, same) (stay false)
    | inr old ↦ elim (Bool-cases (h.recorded == "")) [
      | inl empty ↦
          rw (set, old, empty) (first ((eq_iff h.recorded "").0 empty) (nonempty target set))
      | inr later ↦
          rw (set, old, later) (announced-Advance target h h.announced refl (nonempty target set))
    ]
  ]
]
