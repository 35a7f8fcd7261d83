-- ===== src/Reconciler/ImageStreams.antt =====
-- internal/controller/imagestreams.go: the condition on the imports of image streams. Go's slicing of
-- a text by bytes, which may cut a character, is an argument.
pub mod Bounds
use workbenches_operator.Prelude.{
  ℕ, zero, suc, ◌-◌, String, ◌<>◌, ◌==◌, Bool, true, false, not, ◌&&◌, ◌||◌, Option, none, some,
  List, [], ◌∷◌, ◌++◌, length, ltb, nat_eq, if◌then◌else◌,
}
use workbenches_operator.Prelude.Text.{join, byte_length}
use workbenches_operator.Errors.{Error, Result, ok, err, wrap}
use workbenches_operator.Json.{pos}
use workbenches_operator.Format.{Format}
use workbenches_operator.Conditions.{Conditions, type_image_streams_available, reason_available}
use workbenches_operator.Api.{Workbenches, condition_true, condition_false}
use workbenches_operator.Reconciler.Cluster.{
  TagCondition, TagStatus, ImageStream, ImageStreamList, no_api, list_error, listed, Cluster,
}
use workbenches_operator.Reconciler.Status.{set_condition}

abbrev pub max_image_stream_condition_message_len : ℕ
max_image_stream_condition_message_len = 100

abbrev pub max_failed_image_stream_tags : ℕ
max_failed_image_stream_tags = 10

-- The first n.
unfoldable pub take {ℓ} : {A : Type ℓ} → ℕ → List A → List A
take zero xs = []
take (suc n) [] = []
take (suc n) (x ∷ xs) = x ∷ take n xs

-- `text[:n]`
module _ (cut : String → ℕ → String) where
  unfoldable pub shortened : String → String
  shortened text =
      if ltb max_image_stream_condition_message_len (byte_length text)
      then cut text max_image_stream_condition_message_len <> "..."
      else text

  unfoldable pub failed_conditions : String → String → List TagCondition → List String
  unfolding shortened
  failed_conditions stream tag [] = []
  failed_conditions stream tag (c ∷ cs) =
      let rest = failed_conditions stream tag cs in
      if not c.is_import_success || not c.is_false
      then rest
      else (stream <> (":" <> (tag <> (" (" <> (shortened c.message <> ")"))))) ∷ rest

  unfoldable pub failed_tags : String → List TagStatus → List String
  unfolding failed_conditions
  failed_tags stream [] = []
  failed_tags stream (t ∷ ts) =
      let rest = failed_tags stream ts in
      if ltb 0 t.item_count then rest else failed_conditions stream t.tag t.conditions ++ rest

  unfoldable pub failed_image_stream_tags : List ImageStream → List String
  unfolding failed_tags
  failed_image_stream_tags [] = []
  failed_image_stream_tags (s ∷ ss) = failed_tags s.name s.tags ++ failed_image_stream_tags ss

  -- The tags that the message lists, and what is said of the others.
  unfoldable pub reported : Format → List String → List String × String
  unfolding take
  reported format failed =
      if ltb max_failed_image_stream_tags (length failed)
      then (
        take max_failed_image_stream_tags failed,
        "; ... and "
            <> (format.show_int (pos (length failed - max_failed_image_stream_tags)) <> " more"),
      )
      else (failed, "")

  unfoldable pub image_stream_warning : Format → List String → String
  unfolding reported
  image_stream_warning format failed =
      let (tags, suffix) = reported format failed in
      "Warning: "
      <> (format.show_int (pos (length failed))
          <> (" ImageStream tag(s) failed to import: " <> (join "; " tags <> suffix)))

  tags_status : Conditions → Format → List String → Workbenches → Workbenches
  unfolding image_stream_warning
  tags_status meta format [] wb =
      set_condition meta type_image_streams_available condition_true reason_available
        "All ImageStream tags imported successfully" wb
  tags_status meta format (tag ∷ tags) wb =
      set_condition meta type_image_streams_available condition_false "ImageStreamsNotReady"
        (image_stream_warning format (tag ∷ tags)) wb

  streams_status : Conditions → Format → ImageStreamList → Workbenches → Result Workbenches
  unfolding tags_status failed_image_stream_tags
  streams_status meta format no_api wb = ok wb
  streams_status meta format (list_error e) wb = err (wrap "error listing ImageStreams" e)
  streams_status meta format (listed streams) wb =
      ok (tags_status meta format (failed_image_stream_tags streams) wb)

  unfoldable pub sync_image_streams_available :
      {S : Type 0} → Conditions → Format → Cluster S → Workbenches → String → S → Result Workbenches
  unfolding streams_status
  sync_image_streams_available meta format cluster wb namespace s =
      streams_status meta format (cluster.list_image_streams s namespace) wb
