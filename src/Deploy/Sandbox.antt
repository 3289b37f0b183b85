-- ===== src/Deploy/Sandbox.antt =====
-- internal/wasm/wasm.go
use ronak_agentk_runtime.Base.{String, false, none, some, List, [], ◌∷◌, ◌++◌, join, itoa}
use Prim.Native.String
use ronak_agentk_runtime.Kube.{Container, EnvVar, Volume, empty_dir, tcp_socket, int}
use ronak_agentk_runtime.Api.Resources.{ToolSandbox}

abbrev env : String → String → EnvVar
env name value = record { name = name; value = value; value_from = none }

abbrev hosts_env : List String → List EnvVar
hosts_env [] = []
hosts_env (h ∷ hs) = env "WASM_ALLOWED_HOSTS" (join "," (h ∷ hs)) ∷ []

abbrev allowed_hosts_flag : List String → String
allowed_hosts_flag [] = ""
allowed_hosts_flag (h ∷ hs) = String.◌++◌ "--allow-dns=" (join "," (h ∷ hs))

unfoldable pub start_script : ToolSandbox → String
unfolding itoa
start_script s = join "\n" (
    "set -e"
    ∷ "MODULE_PATH=\"/wasm/module.wasm\""
    ∷ ""
    ∷ "# If WASM_MODULE_IMAGE is a URL, download it; otherwise expect it at the module path"
    ∷ "if echo \"$WASM_MODULE_IMAGE\" | grep -qE '^https?://'; then"
    ∷ "  echo \"Downloading WASM module from $WASM_MODULE_IMAGE\""
    ∷ "  wget -q -O \"$MODULE_PATH\" \"$WASM_MODULE_IMAGE\" || { echo \"ERROR: Failed to download WASM module\"; exit 1; }"
    ∷ "elif [ -f \"$WASM_MODULE_IMAGE\" ]; then"
    ∷ "  cp \"$WASM_MODULE_IMAGE\" \"$MODULE_PATH\""
    ∷ "elif [ -f \"/wasm/module.wasm\" ]; then"
    ∷ "  echo \"Using pre-mounted WASM module\""
    ∷ "else"
    ∷ "  echo \"ERROR: No WASM module found at $WASM_MODULE_IMAGE or /wasm/module.wasm\""
    ∷ "  exit 1"
    ∷ "fi"
    ∷ ""
    ∷ join "" (
        "echo \"Starting WasmEdge runtime (port="
        ∷ itoa s.port
        ∷ ", timeout="
        ∷ itoa s.timeout_seconds
        ∷ "s, memory="
        ∷ itoa s.memory_limit_mb
        ∷ "MB)\""
        ∷ [])
    ∷ "exec wasmedge \\"
    ∷ "  --dir /tmp:/tmp \\"
    ∷ join "" ("  --env LISTEN_PORT=" ∷ itoa s.port ∷ " \\" ∷ [])
    ∷ join "" ("  --env TIMEOUT_SECONDS=" ∷ itoa s.timeout_seconds ∷ " \\" ∷ [])
    ∷ join "" ("  " ∷ allowed_hosts_flag s.allowed_hosts ∷ " \\" ∷ [])
    ∷ "  \"$MODULE_PATH\""
    ∷ ""
    ∷ [])

unfoldable pub build_sidecar_container : ToolSandbox → Container
unfolding start_script itoa
build_sidecar_container s = record {
  name = "wasm-sandbox";
  image = "wasmedge/wasmedge:0.14.1";
  command = "/bin/sh" ∷ "-c" ∷ start_script s ∷ [];
  args = [];
  ports = record { name = ""; container_port = s.port; protocol = "TCP" } ∷ [];
  env =
      env "WASM_MODULE_IMAGE" s.image
      ∷ env "WASM_TIMEOUT_SECONDS" (itoa s.timeout_seconds)
      ∷ (hosts_env s.allowed_hosts ++ s.env);
  env_from = [];
  volume_mounts = record { name = "wasm-module"; mount_path = "/wasm"; read_only = false } ∷ [];
  resources = record {
    limits = ("memory", String.◌++◌ (itoa s.memory_limit_mb) "Mi") ∷ [];
    requests = ("memory", "32Mi") ∷ ("cpu", "50m") ∷ [];
  };
  readiness_probe = some (record {
    handler = tcp_socket (int s.port);
    initial_delay_seconds = 5;
    period_seconds = 10;
    timeout_seconds = 0;
    success_threshold = 0;
    failure_threshold = 0;
  });
  liveness_probe = none;
  privileged = none;
}

unfoldable pub build_wasm_module_volume : Volume
build_wasm_module_volume = record { name = "wasm-module"; source = empty_dir }
