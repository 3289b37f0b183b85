-- ===== src/Previews/Images.antt =====
-- The image that a preview shows, against the one that the agent controller uses.
use ronak_agentk_runtime.Base.{
  String, Bool, true, false, ◌||◌, none, List, ◌≡◌, ◌↔◌, refl, inl, inr, Bool-cases, eq_iff, ◌==◌,
  is_empty, non_empty,
}
use ronak_agentk_runtime.Kube.{Container, EnvVar}
use ronak_agentk_runtime.Api.Agent.{Agent}
use ronak_agentk_runtime.Refs.Cluster.{Cluster}
use ronak_agentk_runtime.Reconcile.Config.{resolve_effective_framework, get_template_image}
use ronak_agentk_runtime.Deploy.Ensure.{configure_container}
use ronak_agentk_runtime.Deploy.Apply.{Runtime, inputs_of}
use ronak_agentk_runtime.Previews.Build.{preview_image, image_of_framework}

-- No framework, or one with a template.
abbrev pub has_template : String → Bool
has_template framework =
    is_empty framework || ((framework == "google-adk") || (framework == "msaf"))

abbrev adk : String
adk = "ghcr.io/agentic-layer/agent-template-adk:0.8.0"

abbrev fallback : String
fallback = "invalid"

invalid-ne : adk ≡ fallback → ⊥
invalid-ne e = let bad : false ≡ true = (eq_iff adk fallback).1 e in cc

-- Where there is no runtime configuration, a preview shows the image that the agent's container
-- gets exactly when the agent names an image, or no framework, or one of the two that have a
-- template.
pub preview_image-IsDeployed_iff :
    (r : Runtime) (c : Cluster) (a : Agent) (env : List EnvVar) (old : Container)
    → (preview_image a ≡ (configure_container a (inputs_of r c none a env) old).image)
      ↔ ((non_empty a.spec.image || has_template a.spec.framework) ≡ true)
unfolding preview_image image_of_framework configure_container inputs_of resolve_effective_framework
    get_template_image
preview_image-IsDeployed_iff r c a env old = elim (Bool-cases (a.spec.image == "")) [
  | inr e ↦ rw e (λ _. refl, λ _. refl)
  | inl e ↦ rw e (elim (Bool-cases (a.spec.framework == "")) [
    | inl t ↦
        let none_set : a.spec.framework ≡ "" = (eq_iff a.spec.framework "").0 t in
        rw t (rw none_set (λ _. refl, λ _. refl))
    | inr t ↦ rw t (elim (Bool-cases (a.spec.framework == "google-adk")) [
      | inl g ↦ rw g (λ _. refl, λ _. refl)
      | inr g ↦ rw g (elim (Bool-cases (a.spec.framework == "msaf")) [
        | inl m ↦ rw m (λ _. refl, λ _. refl)
        | inr m ↦ rw m (λ h. absurd (invalid-ne h), λ h. absurd (cc))
      ])
    ])
  ])
]
