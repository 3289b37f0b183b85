-- ===== src/Pods/Metadata.antt =====
-- The metadata of internal/controller/util.go.
use ronak_agentk_runtime.Base.{String, Option, none, some, [], ◌∷◌, Dict, copy}
use ronak_agentk_runtime.Api.Agent.{EmbeddedMetadata}

abbrev pub labels_of : Option EmbeddedMetadata → Dict String
labels_of none = []
labels_of (some m) = m.labels

abbrev pub annotations_of : Option EmbeddedMetadata → Dict String
annotations_of none = []
annotations_of (some m) = m.annotations

-- The labels and annotations of an ObjectMeta; a nil map is empty.
unfoldable pub apply_common_metadata : EmbeddedMetadata → Option EmbeddedMetadata → EmbeddedMetadata
apply_common_metadata obj none = obj
apply_common_metadata obj (some common) = record {
  labels = copy obj.labels common.labels;
  annotations = copy obj.annotations common.annotations;
}

abbrev or_nil : Dict String → Option (Dict String)
or_nil [] = none
or_nil (b ∷ m) = some (b ∷ m)

unfoldable pub build_pod_template_metadata :
    Dict String
    → Option EmbeddedMetadata
    → Option EmbeddedMetadata
    → Dict String × Option (Dict String)
build_pod_template_metadata selector_labels common_metadata pod_metadata = (
  copy (copy (copy [] (labels_of common_metadata)) (labels_of pod_metadata)) selector_labels,
  or_nil (copy (copy [] (annotations_of common_metadata)) (annotations_of pod_metadata)),
)
