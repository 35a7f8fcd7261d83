-- ===== src/HardwareProfile/Removal.antt =====
-- `removeHWPSettings`: what a profile had set is taken out of a Notebook.
use workbenches_operator.Prelude.{◌==◌, [], or_default, if◌then◌else◌, is_empty}
use workbenches_operator.Errors.{Result, ok, wrap_err, ◌>>=◌}
use workbenches_operator.Json.{Fields}
use workbenches_operator.Unstructured.{found_value}
use workbenches_operator.HardwareProfile.Injector.{Injector}
use workbenches_operator.HardwareProfile.Metadata.{
  node_selector_path, tolerations_path, kueue_queue_name_label, remove_label,
}
use workbenches_operator.HardwareProfile.NotebookClaims.{remove_dra_from_notebook}
use workbenches_operator.HardwareProfile.NodeSelector.{remove_hwp_node_selector}
use workbenches_operator.HardwareProfile.Tolerations.{remove_hwp_tolerations}
use workbenches_operator.HardwareProfile.Apply.{
  queue_path, hwp_node_selector_path, hwp_tolerations_path,
}

module _ (i : Injector) where
  open i use {unstructured as u}

  unfoldable pub remove_hwp_settings : Fields → Fields → Result Fields
  remove_hwp_settings object hwp = do
    let queue = or_default "" (found_value (u.nested_string hwp queue_path))
    let unqueued = if queue == "" then object else remove_label u object kueue_queue_name_label
    let selector = or_default [] (found_value (u.nested_string_map hwp hwp_node_selector_path))
    unselected ←
        if is_empty selector
        then ok unqueued
        else wrap_err "failed to remove HWP nodeSelector"
            (remove_hwp_node_selector u unqueued node_selector_path selector)
    let tolerations = or_default [] (found_value (u.nested_slice hwp hwp_tolerations_path))
    untolerated ←
        if is_empty tolerations
        then ok unselected
        else wrap_err "failed to remove HWP tolerations"
            (remove_hwp_tolerations i.show_value u unselected tolerations_path tolerations)
    ok (remove_dra_from_notebook u untolerated)
