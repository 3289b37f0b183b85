-- ===== src/Deploy/Policies.antt =====
-- internal/ebpf/policy.go; json.Marshal of a list of texts is a parameter.
use ronak_agentk_runtime.Base.{
  String, Bool, true, false, none, some, List, [], ◌∷◌, Dict, insert, is_some, any, join,
}
use Prim.Native.String.{◌++◌}
use ronak_agentk_runtime.Kube.{Container, EnvVar, Volume, config_map, host_path, VolumeMount}
use ronak_agentk_runtime.Api.Resources.{Policy, PolicyRule}

abbrev env : String → String → EnvVar
env name value = record { name = name; value = value; value_from = none }

abbrev mount : String → String → Bool → VolumeMount
mount name path read_only = record { name = name; mount_path = path; read_only = read_only }

unfoldable pub build_opa_sidecar : Policy → Container
build_opa_sidecar p = record {
  name = "opa-policy";
  image = "openpolicyagent/opa:1.4.2-static";
  command = [];
  args =
      "run" ∷ "--server" ∷ "--addr=:8181" ∷ "--log-level=info" ∷ "--watch" ∷ "/etc/opa/policies"
      ∷ [];
  ports = record { name = ""; container_port = 8181; protocol = "TCP" } ∷ [];
  env = env "POLICY_NAME" p.name ∷ env "ENFORCEMENT_MODE" p.enforcement ∷ [];
  env_from = [];
  volume_mounts = mount "opa-policies" "/etc/opa/policies" true ∷ [];
  resources = record {
    limits = ("memory", "128Mi") ∷ ("cpu", "200m") ∷ [];
    requests = ("memory", "64Mi") ∷ ("cpu", "50m") ∷ [];
  };
  readiness_probe = none;
  liveness_probe = none;
  privileged = none;
}

-- BuildOPAPolicyConfigMapData
unfoldable pub config_map_data : Dict String → List PolicyRule → Dict String
config_map_data m [] = m
config_map_data m (r ∷ rest) = elim r.opa [
  | none ↦ config_map_data m rest
  | some rego ↦ config_map_data (insert (r.name ++ ".rego") rego m) rest
]

unfoldable pub build_opa_policy_volume : String → Volume
build_opa_policy_volume policy_name = record {
  name = "opa-policies";
  source = config_map (policy_name ++ "-opa-policies");
}

unfoldable pub programs : List PolicyRule → List String
programs [] = []
programs (r ∷ rest) = elim r.ebpf [ none ↦ programs rest | some p ↦ p ∷ programs rest ]

-- The shell script, with the policy's name and the JSON of its programs put in.
abbrev load_script : String → String → String
load_script policy programs_json = join "\n" (
    "set -e"
    ∷ ("echo \"eBPF loader: policy=" ++ policy ++ " programs=" ++ programs_json ++ "\"")
    ∷ ("mkdir -p /sys/fs/bpf/" ++ policy)
    ∷ ("for prog in $(echo '" ++ programs_json ++ "' | jq -r '.[]'); do")
    ∷ "  obj=\"/etc/ebpf/${prog}.o\""
    ∷ ("  pin=\"/sys/fs/bpf/" ++ policy ++ "/${prog}\"")
    ∷ "  if [ -f \"$obj\" ]; then"
    ∷ "    echo \"Loading eBPF program: $prog from $obj\""
    ∷ "    bpftool prog load \"$obj\" \"$pin\" type xdp 2>/dev/null || \\"
    ∷ "    bpftool prog load \"$obj\" \"$pin\" 2>/dev/null || \\"
    ∷ "    { echo \"WARN: bpftool load failed for $prog, attempting cilium-agent attach\"; \\"
    ∷ "      cilium-agent bpf load \"$obj\" \"$pin\" 2>/dev/null || \\"
    ∷ "      { echo \"ERROR: Failed to load eBPF program $prog\"; exit 1; }; }"
    ∷ "    echo \"Loaded and pinned: $prog -> $pin\""
    ∷ "  else"
    ∷ "    echo \"WARN: eBPF object file not found: $obj (skipping — ensure ConfigMap contains compiled BPF objects)\""
    ∷ "  fi"
    ∷ "done"
    ∷ ("echo \"eBPF programs loaded successfully for policy " ++ policy ++ "\"")
    ∷ ""
    ∷ [])

unfoldable pub build_ebpf_init_container : (List String → String) → Policy → Container
unfolding programs
build_ebpf_init_container marshal p =
    let programs_json = marshal (programs p.rules) in
    record {
      name = "ebpf-probe";
      image = "cilium/cilium:v1.17.3";
      command = "/bin/sh" ∷ "-c" ∷ load_script p.name programs_json ∷ [];
      args = [];
      ports = [];
      env = env "EBPF_PROGRAMS" programs_json ∷ env "POLICY_NAME" p.name ∷ [];
      env_from = [];
      volume_mounts =
          mount "ebpf-programs" "/etc/ebpf" true ∷ mount "bpf-fs" "/sys/fs/bpf" false ∷ [];
      resources = record {
        limits = ("memory", "128Mi") ∷ ("cpu", "200m") ∷ [];
        requests = ("memory", "64Mi") ∷ ("cpu", "100m") ∷ [];
      };
      readiness_probe = none;
      liveness_probe = none;
      privileged = some true;
    }

unfoldable pub build_ebpf_volumes : String → List Volume
build_ebpf_volumes policy_name =
    record { name = "ebpf-programs"; source = config_map (policy_name ++ "-ebpf-programs") }
    ∷ record { name = "bpf-fs"; source = host_path "/sys/fs/bpf" }
    ∷ []

unfoldable pub has_opa_rules : Policy → Bool
has_opa_rules p = any (λ (r : PolicyRule). is_some r.opa) p.rules

unfoldable pub has_ebpf_rules : Policy → Bool
has_ebpf_rules p = any (λ (r : PolicyRule). is_some r.ebpf) p.rules
