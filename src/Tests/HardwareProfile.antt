-- ===== src/Tests/HardwareProfile.antt =====
-- Runs of the HardwareProfile webhook, and its theorems at concrete data.
use workbenches_operator.HardwareProfile.Resources.{parse_quantity_value}
use workbenches_operator.Json.{of_list}
use workbenches_operator.HardwareProfile.Claims.{filter_out_claim}
use workbenches_operator.Prelude.{String, ◌<>◌, ◌≡◌, refl, true, some, [], ◌∷◌, All}
use workbenches_operator.Errors.{not_found, ok, err}
use workbenches_operator.Json.{
  Value, str, obj, Fields, end, field, slice, get, put, as_map, as_string, as_slice, to_list,
}
use workbenches_operator.Dict.{StringMap, lookup}
use workbenches_operator.Unstructured.Reference.{reference}
use workbenches_operator.Admission.{update, Request, is_allowed}
use workbenches_operator.Metadata.{get_annotation, hardware_profile_name_annotation}
use workbenches_operator.HardwareProfile.Injector.{Injector}
use workbenches_operator.HardwareProfile.Tolerations.{
  merged_tolerations, remaining_tolerations, toleration_key, toleration_keys,
}
use workbenches_operator.HardwareProfile.Tolerations.Laws.{
  merged_tolerations_idem, Foreign, remaining-merged-Foreign,
}
use workbenches_operator.HardwareProfile.NodeSelector.{merge_entries, remove_entries}
use workbenches_operator.HardwareProfile.NodeSelector.Laws.{
  lookup-merge_entries, lookup-remove_entries-merge_entries,
}
use workbenches_operator.HardwareProfile.Claims.{claim_entry}
use workbenches_operator.HardwareProfile.Claims.Laws.{claims_set, with_claim-without_claim}
use workbenches_operator.HardwareProfile.Resources.{
  Amounts, add_amounts, identifier_amount, add_amount,
}
use workbenches_operator.HardwareProfile.Resources.Laws.{add_amounts_lem}
use workbenches_operator.HardwareProfile.OldObject.{is_stale_profile_reference, old_object}
use workbenches_operator.HardwareProfile.Webhook.{handle_fetch_error, handle_profile}
use workbenches_operator.HardwareProfile.Webhook.Laws.{
  is_allowed-handle_fetch_error, handle_profile_dry,
}
use workbenches_operator.Tests.Fixtures.{notebook_with, decoder_of, encoding_of}

abbrev profiled : Fields
profiled = notebook_with hardware_profile_name_annotation "small"

-- An API server with no profile, where quantities are read and shown as they stand.
abbrev injector : Injector
injector = record {
  unstructured = reference;
  encoding = encoding_of profiled;
  decoder = some (decoder_of profiled);
  has_event_writer = true;
  get_profile = λ namespace name. err (not_found name);
  get_claim_template = λ namespace name. ok tt;
  dns1123_subdomain_errors = λ s. [];
  label_value_errors = λ s. [];
  parse_quantity = λ s. ok s;
  new_quantity = λ n. "1";
  format_float = λ bits. "0.5";
  show_value = λ v. "?";
  quote = λ s. "\"" <> s <> "\"";
}

abbrev toleration : String → Value
toleration key = obj (field "key" (str key) (field "operator" (str "Exists") end))

abbrev show : Value → String
show v = "60"

merged_tolerations_idem_example :
    merged_tolerations show
      (toleration "gpu" ∷ [])
      (merged_tolerations show (toleration "gpu" ∷ []) (toleration "spot" ∷ toleration "gpu" ∷ []))
    ≡ merged_tolerations show (toleration "gpu" ∷ []) (toleration "spot" ∷ toleration "gpu" ∷ [])
merged_tolerations_idem_example =
    merged_tolerations_idem show (toleration "gpu" ∷ []) (toleration "spot" ∷ toleration "gpu" ∷ [])

foreign : All (Foreign show (toleration_keys show (toleration "gpu" ∷ []))) (toleration "spot" ∷ [])
unfolding toleration_key toleration_keys as_map get as_string
foreign = (refl, tt)

remaining-merged-Foreign_example :
    remaining_tolerations show
      (toleration "gpu" ∷ [])
      (merged_tolerations show (toleration "gpu" ∷ []) (toleration "spot" ∷ []))
    ≡ toleration "spot" ∷ []
remaining-merged-Foreign_example =
    remaining-merged-Foreign show (toleration "gpu" ∷ []) (toleration "spot" ∷ []) foreign

abbrev profile_selector : StringMap
profile_selector = ("zone", "b") ∷ ("gpu", "yes") ∷ []

abbrev own_selector : StringMap
own_selector = ("zone", "a") ∷ ("disk", "ssd") ∷ []

lookup-merge_entries_example :
    lookup "zone" (merge_entries profile_selector own_selector) ≡ some "b"
unfolding lookup
lookup-merge_entries_example =
    lookup-merge_entries "zone" profile_selector own_selector (refl, (refl, tt))

lookup-remove_entries-merge_entries_example :
    lookup "disk" (remove_entries profile_selector (merge_entries profile_selector own_selector))
    ≡ some "ssd"
unfolding lookup
lookup-remove_entries-merge_entries_example =
    lookup-remove_entries-merge_entries "disk" profile_selector own_selector (refl, (refl, tt))

with_claim-without_claim_example :
    claims_set "hwp-dra"
      (field "claims" (slice (claim_entry "mine" ∷ claim_entry "hwp-dra" ∷ [])) end)
    ≡ claim_entry "mine" ∷ claim_entry "hwp-dra" ∷ []
unfolding filter_out_claim get as_slice to_list of_list as_map as_string
with_claim-without_claim_example =
    (with_claim-without_claim "hwp-dra"
      (field "claims" (slice (claim_entry "mine" ∷ claim_entry "hwp-dra" ∷ [])) end)).0

abbrev cpu : Value
cpu = obj (field "identifier" (str "cpu") (field "defaultCount" (str "2") end))

abbrev held : Amounts
held = record { requests = field "memory" (str "1Gi") end; limits = end }

abbrev given : Amounts
given = record {
  requests = field "memory" (str "1Gi") (field "cpu" (str "2") end);
  limits = field "cpu" (str "2") end;
}

added : add_amounts injector (cpu ∷ []) held ≡ ok given
unfolding add_amounts identifier_amount as_map reference get as_string parse_quantity_value
    add_amount put
added = refl

add_amounts_lem_example : get "cpu" given.limits ≡ some (str "2")
unfolding get identifier_amount as_map reference as_string parse_quantity_value
add_amounts_lem_example = (add_amounts_lem injector (cpu ∷ []) "cpu" held given added).1

abbrev dry_update : Request
dry_update = record {
  operation = update;
  kind = "Notebook";
  name = "nb";
  namespace = "ns";
  username = "alice";
  groups = [];
  object = "original";
  old_object = some "old";
  dry_run = some true;
}

is_allowed-handle_fetch_error_example :
    is_allowed (handle_fetch_error injector dry_update (not_found "small") "small" "ns") ≡ true
unfolding is_stale_profile_reference old_object get_annotation reference get as_map as_string lookup
is_allowed-handle_fetch_error_example =
    (is_allowed-handle_fetch_error injector dry_update (not_found "small") "small" "ns").1
      (refl, record { bytes = "old"; old = profiled; raw = refl; read = refl; named = refl })

handle_profile_dry_example : (handle_profile injector dry_update).events ≡ []
handle_profile_dry_example = handle_profile_dry injector dry_update refl
