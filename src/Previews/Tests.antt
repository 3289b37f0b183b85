-- ===== src/Previews/Tests.antt =====
-- Previews of an agent with two policies and no image.
use ronak_agentk_runtime.Base.{
  ◌+◌, ◌*◌, ◌≤◌, ◌≡◌, ◌↔◌, ◌||◌, String, true, none, [], ◌∷◌, ok, non_empty,
}
use ronak_agentk_runtime.Kube.{ObjectReference}
use ronak_agentk_runtime.Api.Agent.{Agent}
use ronak_agentk_runtime.Samples.{plain_agent, plain_spec, empty_cluster}
use ronak_agentk_runtime.Deploy.Ensure.{configure_container, configure_deployment, new_container}
use ronak_agentk_runtime.Deploy.Apply.{Runtime, inputs_of, new_deployment}
use ronak_agentk_runtime.Previews.Build.{preview_image, build_preview_deployment}
use ronak_agentk_runtime.Previews.Counted.{
  deployed_containers, previewed_containers, build_preview_deployment-covers,
}
use ronak_agentk_runtime.Previews.Images.{has_template, preview_image-IsDeployed_iff}

abbrev policy_ref : String → ObjectReference
policy_ref name = record { name = name; namespace = "" }

abbrev governed : Agent
governed = record (plain_agent "a" "" [] []) {
  spec = record (plain_spec [] []) {
    framework = "crewai";
    policy_refs = policy_ref "p1" ∷ policy_ref "p2" ∷ [];
  };
}

abbrev runtime : Runtime
runtime = record {
  sort_slice = λ es. es;
  marshal_programs = λ l. "[]";
  marshal_sub_agents = λ d. ok "{}";
  marshal_tools = λ d. ok "{}";
  room = 0;
  new_room = λ n. 0;
}

build_preview_deployment-covers_example :
    deployed_containers (
        configure_deployment runtime.marshal_programs runtime.new_room 0 governed
          (inputs_of runtime empty_cluster none governed [])
          new_deployment)
      + 2 * 1
    ≤ previewed_containers (build_preview_deployment governed).0
build_preview_deployment-covers_example =
    build_preview_deployment-covers runtime empty_cluster none governed []

preview_image-IsDeployed_iff_example :
    (preview_image governed
      ≡ (configure_container governed
          (inputs_of runtime empty_cluster none governed [])
          (new_container "agent")).image)
    ↔ ((non_empty governed.spec.image || has_template "crewai") ≡ true)
preview_image-IsDeployed_iff_example =
    preview_image-IsDeployed_iff runtime empty_cluster governed [] (new_container "agent")
