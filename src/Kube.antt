-- ===== src/Kube.antt =====
-- The parts of the Kubernetes API objects that the operator reads and writes: plain data of
-- k8s.io/api, declared here as far as the code touches it.
use ronak_agentk_runtime.Base.{ℕ, String, Bool, Option, List, Dict}

-- k8s.io/apimachinery/pkg/util/intstr
pub data IntOrString : Type 0 where
  int : ℕ → IntOrString
  str : String → IntOrString

-- corev1.ObjectReference: `name` and `namespace`, which may be empty
pub record ObjectReference : Type 0 where
  pub name : String
  pub namespace : String

-- types.NamespacedName, the content of a ctrl.Request
pub record NamespacedName : Type 0 where
  pub name : String
  pub namespace : String

-- Where a variable's value comes from: a key of a secret or a config map, or a field of the pod or
-- of a container's resources.
pub data EnvVarSource : Type 0 where
  secret_key config_map_key : String → String → EnvVarSource
  pod_field : String → EnvVarSource
  resource_field : String → String → EnvVarSource

pub record EnvVar : Type 0 where
  pub name : String
  pub value : String
  pub value_from : Option EnvVarSource

pub record ContainerPort : Type 0 where
  pub name : String
  pub container_port : ℕ
  pub protocol : String

pub record VolumeMount : Type 0 where
  pub name : String
  pub mount_path : String
  pub read_only : Bool

pub data VolumeSource : Type 0 where
  config_map : String → VolumeSource
  empty_dir : VolumeSource
  host_path : String → VolumeSource

pub record Volume : Type 0 where
  pub name : String
  pub source : VolumeSource

pub data ProbeHandler : Type 0 where
  tcp_socket : IntOrString → ProbeHandler
  http_get : String → IntOrString → ProbeHandler

-- A field that the code leaves out is 0.
pub record Probe : Type 0 where
  pub handler : ProbeHandler
  pub initial_delay_seconds : ℕ
  pub period_seconds : ℕ
  pub timeout_seconds : ℕ
  pub success_threshold : ℕ
  pub failure_threshold : ℕ

-- corev1.ResourceRequirements, its quantities as text
pub record ResourceRequirements : Type 0 where
  pub requests : Dict String
  pub limits : Dict String

pub record Container : Type 0 where
  pub name : String
  pub image : String
  pub command : List String
  pub args : List String
  pub ports : List ContainerPort
  pub env : List EnvVar
  pub env_from : List String
  pub volume_mounts : List VolumeMount
  pub resources : ResourceRequirements
  pub readiness_probe : Option Probe
  pub liveness_probe : Option Probe
  pub privileged : Option Bool

pub record PodSpec : Type 0 where
  pub containers : List Container
  pub init_containers : List Container
  pub volumes : List Volume
  pub termination_grace_period_seconds : Option ℕ

-- appsv1.DeploymentStrategy
pub data DeploymentStrategy : Type 0 where
  rolling_update : IntOrString → IntOrString → DeploymentStrategy
  recreate : DeploymentStrategy
