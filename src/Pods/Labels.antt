-- ===== src/Pods/Labels.antt =====
-- Which binding of a label wins in a pod template.
use ronak_agentk_runtime.Base.{
  String, Option, none, some, [], Dict, lookup, lookup-copy, or_else, ◌≡◌, refl, ap, ◌∙◌,
}
use ronak_agentk_runtime.Api.Agent.{EmbeddedMetadata}
use ronak_agentk_runtime.Pods.Metadata.{labels_of, build_pod_template_metadata}

-- A label of the pod template has the selector's value if the selector sets it, else the pod
-- metadata's, else the common metadata's, and else is not set: user metadata cannot override the
-- selector.
pub build_pod_template_metadata-labels :
    (k : String) (selector : Dict String) (common pod : Option EmbeddedMetadata)
    → lookup k (build_pod_template_metadata selector common pod).0
      ≡ or_else
          (lookup k selector)
          (or_else (lookup k (labels_of pod)) (lookup k (labels_of common)))
unfolding build_pod_template_metadata lookup
build_pod_template_metadata-labels k selector common pod =
    lookup-copy k _ selector
    ∙ ap (or_else (lookup k selector)) (
        lookup-copy k _ (labels_of pod)
        ∙ ap (or_else (lookup k (labels_of pod)))
            (lookup-copy k [] (labels_of common) ∙ nothing (lookup k (labels_of common))))
  where
    nothing : (o : Option String) → or_else o (lookup k []) ≡ o
    nothing none = refl
    nothing (some v) = refl
