-- ===== src/Reconciler/Ready/Evidence.antt =====
-- What a status that says Ready is evidence of.
use workbenches_operator.Prelude.{
  String, ◌==◌, eq_iff, ◌≡◌, ◌≢◌, ◌↔◌, refl, sym, ap, ◌∙◌, Bool, true, false, ◌&&◌, arith,
  Bool-cases, inl, inr, false≢true,
}
use workbenches_operator.Prelude.Text.{trim_space}
use workbenches_operator.Format.{Format}
use workbenches_operator.Api.{Workbenches, Distribution, WorkbenchesStatus}
use workbenches_operator.Conditions.{Conditions, IsLawful, holds, present_and_true, type_ready}
use workbenches_operator.PlatformConfig.Distribution.{
  distribution_aligned, distribution_name_standalone,
}
use workbenches_operator.PlatformConfig.Releases.{
  get_platform_release, handshake_complete, handshake_required,
}
use workbenches_operator.Reconciler.Ready.{
  Earlier, is_ready, settle, record_platform_version, record_distribution, handshake_settled,
}
use workbenches_operator.Reconciler.Ready.Gate.{
  Judged, bool_status, Verdict, accepts, verdict, settle-Judged,
}

-- The deployments run, the status has the distribution that is wanted, and unless that is the
-- standalone one, the platform's version is recorded.
pub record Evidence (deployments_ready : Bool) (desired : Distribution) (platform_version : String)
    (wb : Workbenches) : Type 0 where
  pub available : deployments_ready ≡ true
  pub named : desired.name ≢ ""
  pub same_name : wb.status.distribution.name ≡ desired.name
  pub same_version : wb.status.distribution.version ≡ desired.version
  pub shaken :
      desired.name ≢ distribution_name_standalone
      → (trim_space platform_version ≢ "")
        × ((get_platform_release wb.status.releases).version ≡ trim_space platform_version)

-- Only the status counts.
pub Evidence-cong :
    (deployments_ready : Bool) (desired : Distribution) (platform_version : String)
    (wb wb' : Workbenches)
    → wb.status ≡ wb'.status
    → Evidence deployments_ready desired platform_version wb
    → Evidence deployments_ready desired platform_version wb'
Evidence-cong deployments_ready desired platform_version wb wb' same e = record {
  available = e.available;
  named = e.named;
  same_name =
      ap (λ (status : WorkbenchesStatus). status.distribution.name) (sym same) ∙ e.same_name;
  same_version =
      ap (λ (status : WorkbenchesStatus). status.distribution.version) (sym same) ∙ e.same_version;
  shaken = λ required. (
    (e.shaken required).0,
    ap (λ (status : WorkbenchesStatus). (get_platform_release status.releases).version) (sym same)
        ∙ (e.shaken required).1,
  );
}

module _ (meta : Conditions) (format : Format) where
  pub is_ready-Evidence :
      (deployments_ready : Bool) (desired : Distribution) (platform_version : String)
      (wb : Workbenches)
      → is_ready meta format deployments_ready desired platform_version wb ≡ true
      → Evidence deployments_ready desired platform_version wb
  unfolding distribution_aligned handshake_complete handshake_required
  is_ready-Evidence deployments_ready desired platform_version wb h =
      let names = eq_iff desired.name wb.status.distribution.name in
      let versions = eq_iff desired.version wb.status.distribution.version in
      record {
        available = ground (arith, h);
        named = λ blank. ground (arith, h, eq_iff desired.name "");
        same_name = ground (arith, h, names);
        same_version = ground (arith, h, versions);
        shaken = λ required. (
          (λ blank. ground (
            arith,
            h,
            eq_iff desired.name distribution_name_standalone,
            eq_iff (trim_space platform_version) "",
          )),
          ground (
            arith,
            h,
            eq_iff desired.name distribution_name_standalone,
            eq_iff (get_platform_release wb.status.releases).version (trim_space platform_version),
          ),
        );
      }

  Evidence-is_ready :
      (deployments_ready : Bool) (desired : Distribution) (platform_version : String)
      (wb : Workbenches)
      → Evidence deployments_ready desired platform_version wb
      → is_ready meta format deployments_ready desired platform_version wb ≡ true
  unfolding distribution_aligned handshake_complete handshake_required
  Evidence-is_ready deployments_ready desired platform_version wb e =
      let names = eq_iff desired.name wb.status.distribution.name in
      let versions = eq_iff desired.version wb.status.distribution.version in
      elim (Bool-cases (desired.name == distribution_name_standalone)) [
        | inl standalone ↦ ground (arith, e, names, versions, eq_iff desired.name "")
        | inr managed ↦
            let shaken = e.shaken (λ same.
              false≢true
                (sym managed ∙ (eq_iff desired.name distribution_name_standalone).1 same)) in
            ground (
              arith,
              e,
              shaken.1,
              names,
              versions,
              eq_iff desired.name "",
              eq_iff (trim_space platform_version) "",
              eq_iff (get_platform_release wb.status.releases).version
                  (trim_space platform_version),
            )
      ]

  is_ready_cong :
      (deployments_ready : Bool) (desired : Distribution) (platform_version : String)
      (wb wb' : Workbenches)
      → wb'.status.distribution ≡ wb.status.distribution
      → wb'.status.releases ≡ wb.status.releases
      → is_ready meta format deployments_ready desired platform_version wb'
        ≡ is_ready meta format deployments_ready desired platform_version wb
  is_ready_cong deployments_ready desired platform_version wb wb' d r = rw (d, r)

pub accepts-verdict :
    (deployments_ready aligned required settled : Bool)
    → accepts (verdict deployments_ready aligned required settled)
      ≡ (deployments_ready && aligned && settled)
accepts-verdict deployments_ready aligned required settled = ground arith

holds-bool_status : (b : Bool) → holds (bool_status b) ≡ b
holds-bool_status true = refl
holds-bool_status false = refl

module _ (meta : Conditions) (lawful : IsLawful meta) (format : Format) where
  pub Judged-true :
      {v : Verdict} {before after : Workbenches}
      → Judged meta v before after
      → meta.is_status_condition_true after.status.conditions type_ready ≡ accepts v
  Judged-true {v = v} {after = after} j =
      lawful.is_true-find after.status.conditions type_ready
      ∙ ap present_and_true j.ready_found
      ∙ ap holds j.ready_status
      ∙ holds-bool_status (accepts v)

  -- In the status that a reconcile writes, the condition Ready is True exactly if there is the
  -- evidence for it: the deployments are available, the distribution of the status is the desired
  -- one and has a name, and, unless that is Standalone, the recorded platform version is the target
  -- one, which is not blank.
  pub settle-Evidence :
      (trim_dots : String → String) (earlier : Earlier) (deployments_ready : Bool) (text : String)
      (desired : Distribution) (platform_version : String) (wb : Workbenches)
      → let after =
          settle meta format trim_dots earlier deployments_ready text desired platform_version wb in
        (meta.is_status_condition_true after.status.conditions type_ready ≡ true)
        ↔ Evidence deployments_ready desired platform_version after
  settle-Evidence trim_dots earlier deployments_ready text desired platform_version wb =
      let after =
        settle meta format trim_dots earlier deployments_ready text desired platform_version wb in
      let recorded =
        record_platform_version meta deployments_ready desired platform_version
          (record_distribution meta deployments_ready desired wb) in
      let judged =
        settle-Judged meta lawful format trim_dots earlier deployments_ready text desired
          platform_version wb in
      let same =
        is_ready_cong meta format deployments_ready desired platform_version recorded after
          judged.distribution judged.releases in
      let truth =
        Judged-true judged
        ∙ accepts-verdict deployments_ready
            (distribution_aligned desired recorded.status.distribution) (handshake_required desired)
            (handshake_settled meta format desired platform_version recorded)
        ∙ sym same in
      (
        (λ h.
            is_ready-Evidence meta format deployments_ready desired platform_version after
              (sym truth ∙ h)),
        (λ e.
            truth
            ∙ Evidence-is_ready meta format deployments_ready desired platform_version after e),
      )
