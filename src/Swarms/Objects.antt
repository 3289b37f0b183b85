-- ===== src/Swarms/Objects.antt =====
-- The objects that internal/controller/swarm_reconciler.go keeps for a swarm: the config map, the
-- deployment and the service of the coordinator. Each function is the mutation that
-- controllerutil.CreateOrUpdate is given, without the owner reference.
use ronak_agentk_runtime.Base.{
  ℕ, String, Bool, Option, none, some, List, [], ◌∷◌, Dict, copy, if◌then◌else◌, ◌==◌,
}
use ronak_agentk_runtime.Kube.{Container, Volume}
use ronak_agentk_runtime.Api.Agent.{EmbeddedMetadata}
use ronak_agentk_runtime.Api.Resources.{Swarm}
use ronak_agentk_runtime.Pods.Metadata.{apply_common_metadata, build_pod_template_metadata}
use ronak_agentk_runtime.Swarms.Coordinator.{
  CoordinatorConfig, build_coordinator_config, build_coordinator_container, build_config_volume,
  get_coordinator_port, coordinator_name, config_map_name,
}

pub record CoordinatorConfigMap : Type 0 where
  pub metadata : EmbeddedMetadata
  pub data' : Dict String

pub record CoordinatorDeployment : Type 0 where
  pub created : Bool  -- whether CreationTimestamp is set
  pub metadata : EmbeddedMetadata
  pub selector : Option (Dict String)
  pub pod_labels : Dict String
  pub pod_annotations : Option (Dict String)
  pub replicas : Option ℕ
  pub containers : List Container
  pub volumes : List Volume

pub record ServicePort : Type 0 where
  pub name : String
  pub port : ℕ
  pub target_port : ℕ
  pub protocol : String

pub record CoordinatorService : Type 0 where
  pub metadata : EmbeddedMetadata
  pub ports : List ServicePort
  pub selector : Dict String

-- The common metadata, and the managed labels over it.
unfoldable pub managed_metadata : Swarm → EmbeddedMetadata → EmbeddedMetadata
unfolding apply_common_metadata copy coordinator_name
managed_metadata sw obj =
    let m = apply_common_metadata obj sw.spec.common_metadata in
    record {
      labels = copy m.labels (("app", coordinator_name sw.name) ∷ ("swarm", sw.name) ∷ []);
      annotations = m.annotations;
    }

unfoldable pub selector_labels : Swarm → Dict String
unfolding coordinator_name
selector_labels sw = ("app", coordinator_name sw.name) ∷ []

unfoldable pub ensure_config_map :
    (CoordinatorConfig → String) → Swarm → Dict String → CoordinatorConfigMap → CoordinatorConfigMap
unfolding managed_metadata build_coordinator_config
ensure_config_map marshal sw agent_urls cm = record {
  metadata = managed_metadata sw cm.metadata;
  data' = ("config.json", build_coordinator_config marshal sw.spec agent_urls) ∷ [];
}

-- What an existing container takes from the built one.
abbrev refreshed : Container → Container → Container
refreshed old built = record old {
  image = built.image;
  ports = built.ports;
  env = built.env;
  volume_mounts = built.volume_mounts;
  resources = built.resources;
  readiness_probe = built.readiness_probe;
}

-- The first container of the name is refreshed, or else the built one is appended.
unfoldable pub put_container : Container → List Container → List Container
put_container built [] = built ∷ []
put_container built (c ∷ rest) =
    if c.name == built.name then refreshed c built ∷ rest else c ∷ put_container built rest

unfoldable pub put_volume : Volume → List Volume → List Volume
put_volume new [] = new ∷ []
put_volume new (v ∷ rest) = if v.name == new.name then new ∷ rest else v ∷ put_volume new rest

abbrev replicas_of : Option ℕ → ℕ
replicas_of none = 1
replicas_of (some n) = n

unfoldable pub ensure_deployment : Swarm → CoordinatorDeployment → CoordinatorDeployment
unfolding managed_metadata selector_labels build_pod_template_metadata copy put_container put_volume
    build_coordinator_container build_config_volume config_map_name
ensure_deployment sw d =
    let (pod_labels, pod_annotations) =
      build_pod_template_metadata (selector_labels sw) sw.spec.common_metadata none in
    record {
      created = d.created;
      metadata = managed_metadata sw d.metadata;
      selector = if d.created then d.selector else some (selector_labels sw);
      pod_labels = pod_labels;
      pod_annotations = pod_annotations;
      replicas = some (replicas_of sw.spec.replicas);
      containers = put_container (build_coordinator_container sw.spec) d.containers;
      volumes = put_volume (build_config_volume (config_map_name sw.name)) d.volumes;
    }

unfoldable pub ensure_service : Swarm → CoordinatorService → CoordinatorService
unfolding managed_metadata selector_labels get_coordinator_port
ensure_service sw s =
    let port = get_coordinator_port sw.spec in
    record {
      metadata = managed_metadata sw s.metadata;
      ports = record { name = "http"; port = port; target_port = port; protocol = "TCP" } ∷ [];
      selector = selector_labels sw;
    }
