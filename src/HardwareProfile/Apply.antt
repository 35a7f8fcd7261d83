-- ===== src/HardwareProfile/Apply.antt =====
-- `applyHardwareProfileToNotebook` and the parts that it calls.
use workbenches_operator.Prelude.{
  String, ◌<>◌, ◌==◌, Bool, true, false, ◌||◌, List, [], ◌∷◌, ◌++◌, or_default, if◌then◌else◌,
  is_empty,
}
use workbenches_operator.Errors.{
  Error, failure, is_not_found, Result, ok, err, wrap_err, ◌>>=◌, ◌>>◌, wrap,
}
use workbenches_operator.Json.{Value, Fields}
use workbenches_operator.Dict.{StringMap}
use workbenches_operator.Unstructured.{FieldPath, found_value}
use workbenches_operator.HardwareProfile.Injector.{Injector}
use workbenches_operator.HardwareProfile.Metadata.{
  node_selector_path, tolerations_path, resource_claims_path, kueue_queue_name_label,
  dra_claim_name, get_label, set_label, remove_label,
}
use workbenches_operator.HardwareProfile.Claims.{filter_out_claim, template_claim}
use workbenches_operator.HardwareProfile.NotebookClaims.{
  set_container_resource_claims, remove_dra_from_notebook,
}
use workbenches_operator.HardwareProfile.Resources.{apply_resources_to_notebook_container}
use workbenches_operator.HardwareProfile.NodeSelector.{merge_node_selector}
use workbenches_operator.HardwareProfile.Tolerations.{merge_tolerations}

abbrev pub identifiers_path : FieldPath
identifiers_path = "spec" ∷ "identifiers" ∷ []

abbrev pub claim_template_path : FieldPath
claim_template_path = "spec" ∷ "dra" ∷ "resourceClaimTemplateName" ∷ []

abbrev pub queue_path : FieldPath
queue_path = "spec" ∷ "scheduling" ∷ "kueue" ∷ "localQueueName" ∷ []

abbrev pub hwp_node_selector_path : FieldPath
hwp_node_selector_path = "spec" ∷ "scheduling" ∷ "node" ∷ "nodeSelector" ∷ []

abbrev pub hwp_tolerations_path : FieldPath
hwp_tolerations_path = "spec" ∷ "scheduling" ∷ "node" ∷ "tolerations" ∷ []

-- What the application returns: the Notebook as it is then, and the warnings.
pub record Applied : Type 0 where
  pub notebook : Fields
  pub warnings : List String

abbrev first_error : List String → String
first_error [] = ""
first_error (e ∷ es) = e

abbrev queue_warning : String → String → String → List String
queue_warning existing name queue =
    if existing == "" || existing == queue
    then []
    else ("label '" <> kueue_queue_name_label <> "' has value '" <> existing
        <> "' which will be overwritten by HardwareProfile '" <> name <> "' which has value '"
        <> queue <> "'")
      ∷ []

module _ (i : Injector) where
  open i use {unstructured as u}

  abbrev template_error : String → String → Error → Error
  template_error name namespace e =
      if is_not_found e
      then failure
          ("ResourceClaimTemplate '" <> name <> "' not found in namespace '" <> namespace <> "'")
      else wrap
          ("failed to get ResourceClaimTemplate '" <> name <> "' from namespace '" <> namespace
            <> "'")
          e

  abbrev checked_template : String → String → Result (Unit {0}) → Result (Unit {0})
  checked_template name namespace (ok _) = ok tt
  checked_template name namespace (err e) = err (template_error name namespace e)

  -- `applyDRAToNotebook`
  unfoldable pub apply_dra_to_notebook : Fields → String → Result Fields
  apply_dra_to_notebook notebook template = do
    let namespace = u.get_namespace notebook
    checked_template template namespace (i.get_claim_template namespace template)
    let existing = or_default [] (found_value (u.nested_slice notebook resource_claims_path))
    notebook' ← wrap_err "failed to set resourceClaims" (
        u.set_nested_slice notebook
          (filter_out_claim existing dra_claim_name ++ (template_claim template ∷ []))
          resource_claims_path)
    wrap_err "failed to set container resource claims"
        (set_container_resource_claims u notebook' dra_claim_name)

  abbrev invalid_template : String → String → List String → Error
  invalid_template template name errors = failure (
      "invalid resourceClaimTemplateName "
      <> i.quote template
      <> " in HardwareProfile '"
      <> name
      <> "': "
      <> first_error errors)

  -- `applyDRAIfConfigured`
  unfoldable pub apply_dra_if_configured : Fields → Fields → Result Fields
  apply_dra_if_configured notebook hwp = do
    found ←
        wrap_err "failed to read spec.dra.resourceClaimTemplateName"
          (u.nested_string hwp claim_template_path)
    let template = or_default "" found
    if template == ""
        then ok notebook
        else if is_empty (i.dns1123_subdomain_errors template)
        then wrap_err "failed to apply DRA configuration" (apply_dra_to_notebook notebook template)
        else err (invalid_template template (u.get_name hwp) (i.dns1123_subdomain_errors template))

  -- `applyNodeSelector`
  unfoldable pub apply_node_selector : Fields → StringMap → Bool → String → Result Applied
  apply_node_selector notebook selector true name = do
    notebook' ←
        wrap_err "failed to set nodeSelector"
          (u.set_nested_string_map notebook selector node_selector_path)
    ok (record { notebook = notebook'; warnings = [] })
  apply_node_selector notebook selector false name = do
    (merged, warnings) ←
        wrap_err "failed to merge nodeSelector"
          (merge_node_selector u notebook node_selector_path selector name)
    notebook' ←
        wrap_err "failed to set merged nodeSelector"
          (u.set_nested_string_map notebook merged node_selector_path)
    ok (record { notebook = notebook'; warnings = warnings })

  -- `applyTolerations`
  unfoldable pub apply_tolerations : Fields → List Value → Bool → Result Fields
  apply_tolerations notebook tolerations true =
      wrap_err "failed to set tolerations"
        (u.set_nested_slice notebook tolerations tolerations_path)
  apply_tolerations notebook tolerations false = do
    merged ←
        wrap_err "failed to merge tolerations"
          (merge_tolerations i.show_value u notebook tolerations_path tolerations)
    wrap_err "failed to set merged tolerations"
        (u.set_nested_slice notebook merged tolerations_path)

  -- The clearing of the scheduling settings when the profile changed.
  unfoldable pub clear_scheduling : Fields → Fields
  clear_scheduling notebook = remove_dra_from_notebook u (
      u.remove_nested_field
        (u.remove_nested_field (remove_label u notebook kueue_queue_name_label) node_selector_path)
        tolerations_path)

  -- The resource requests of the profile's identifiers, if it has any.
  unfoldable pub apply_identifiers : Fields → Fields → Bool → Result Fields
  apply_identifiers notebook hwp profile_changed =
      let ids = or_default [] (found_value (u.nested_slice hwp identifiers_path)) in
      if is_empty ids
      then ok notebook
      else wrap_err "failed to apply resource requirements"
          (apply_resources_to_notebook_container i ids notebook profile_changed)

  abbrev invalid_queue : String → String → List String → Error
  invalid_queue queue name errors = failure (
      "invalid localQueueName "
      <> i.quote queue
      <> " in HardwareProfile '"
      <> name
      <> "': "
      <> first_error errors)

  -- The branch for Kueue: the label, with a warning if it overwrites another value.
  unfoldable pub apply_queue : Fields → Fields → String → Bool → Result Applied
  apply_queue notebook hwp queue profile_changed =
      if is_empty (i.label_value_errors queue)
      then ok (record {
        notebook = set_label u notebook kueue_queue_name_label queue;
        warnings =
            if profile_changed
            then []
            else queue_warning (get_label u notebook kueue_queue_name_label) (u.get_name hwp) queue;
      })
      else err (invalid_queue queue (u.get_name hwp) (i.label_value_errors queue))

  -- The branch for node scheduling: the selector and then the tolerations.
  unfoldable pub apply_node_scheduling : Fields → Fields → Bool → Result Applied
  apply_node_scheduling notebook hwp profile_changed = do
    let selector = or_default [] (found_value (u.nested_string_map hwp hwp_node_selector_path))
    let tolerations = or_default [] (found_value (u.nested_slice hwp hwp_tolerations_path))
    selected ←
        if is_empty selector
        then ok (record { notebook = notebook; warnings = [] })
        else apply_node_selector notebook selector profile_changed (u.get_name hwp)
    tolerating ←
        if is_empty tolerations
        then ok selected.notebook
        else apply_tolerations selected.notebook tolerations profile_changed
    ok (record { notebook = tolerating; warnings = selected.warnings })

  unfoldable pub apply_scheduling : Fields → Fields → Bool → Result Applied
  apply_scheduling notebook hwp profile_changed = do
    found ←
        wrap_err "failed to read spec.scheduling.kueue.localQueueName"
          (u.nested_string hwp queue_path)
    let queue = or_default "" found
    if queue == ""
        then apply_node_scheduling notebook hwp profile_changed
        else apply_queue notebook hwp queue profile_changed

  -- `applyHardwareProfileToNotebook`
  unfoldable pub apply_hardware_profile_to_notebook : Fields → Fields → Bool → Bool → Result Applied
  apply_hardware_profile_to_notebook notebook hwp profile_changed is_new = do
    let cleared = if profile_changed then clear_scheduling notebook else notebook
    requested ← apply_identifiers cleared hwp profile_changed
    claimed ←
        if is_new || profile_changed then apply_dra_if_configured requested hwp else ok requested
    apply_scheduling claimed hwp profile_changed
