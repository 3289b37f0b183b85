-- ===== src/Deploy/Routed.antt =====
-- The deployment and the service of an agent fit together.
use ronak_agentk_runtime.Base.{
  ℕ, String, Bool, Option, none, some, List, [], ◌∷◌, map, All, lookup, copy, lookup-insert, ◌≡◌,
  refl, sym, ap, ◌∙◌, arith, inl, inr, Bool-cases,
}
use ronak_agentk_runtime.Kube.{Container, ContainerPort}
use ronak_agentk_runtime.Api.Agent.{Agent, AgentProtocol, LifecycleSpec}
use ronak_agentk_runtime.Lifecycle.{configure_self_healing}
use ronak_agentk_runtime.Pods.Metadata.{build_pod_template_metadata}
use ronak_agentk_runtime.Deploy.Containers.{find_container_by_name}
use ronak_agentk_runtime.Deploy.Ensure.{
  AgentDeployment, Inputs, container_ports, configure_container, injected_slice, first_port,
  configure_deployment,
}
use ronak_agentk_runtime.Deploy.Apply.{AgentService, AgentServicePort, configure_service}
use ronak_agentk_runtime.Deploy.Steps.{or_new, probed, healed}
use ronak_agentk_runtime.Deploy.Served.{ensure_containers-find}

-- A container but for its liveness probe.
abbrev unprobed : Container → Container
unprobed c = record c { liveness_probe = none }

unprobed-configure_self_healing :
    (c : Container) (port : ℕ) → unprobed (configure_self_healing c port) ≡ unprobed c
unfolding configure_self_healing
unprobed-configure_self_healing c port = ground arith

unprobed-probed :
    (port : Option ℕ) (live : Bool) (c : Container) → unprobed (probed port live c) ≡ unprobed c
unprobed-probed none live c = refl
unprobed-probed (some port) live c = elim (Bool-cases live) [
  | inl t ↦ rw t (unprobed-configure_self_healing c port)
  | inr t ↦ rw t refl
]

unprobed-healed :
    (a : Agent) (l : Option LifecycleSpec) (live : Bool) (c : Container)
    → unprobed (healed a l live c) ≡ unprobed c
unprobed-healed a none live c = refl
unprobed-healed a (some l) live c = elim (Bool-cases l.self_healing) [
  | inl t ↦ rw t (unprobed-probed (first_port a.spec.protocols) live c)
  | inr t ↦ rw t refl
]

-- The name and the number of a port.
abbrev pub port_of : ContainerPort → String × ℕ
port_of p = (p.name, p.container_port)

abbrev pub target_of : AgentServicePort → String × ℕ
target_of p = (p.name, p.target_port)

-- The pods have the agent's container, with the merged environment; the service selects the pods,
-- and its target ports are the ports of that container, under the same names and in the same
-- order.
pub record IsServed (i : Inputs) (d : AgentDeployment) (s : AgentService) : Type 0 where
  pub container : Container
  pub found : find_container_by_name "agent" d.containers ≡ some container
  pub configured : container.env ≡ i.env
  pub selects : All (λ (b : String × String). lookup b.0 d.pod_labels ≡ some b.1) s.selector
  pub reaches : map target_of s.ports ≡ map port_of container.ports

same_ports :
    (ps : List AgentProtocol)
    → map target_of (
        map
          (λ (p : AgentProtocol). record {
            name = p.name;
            port = p.port;
            target_port = p.port;
            protocol = "TCP";
          })
          ps)
      ≡ map port_of (
          map
            (λ (p : AgentProtocol). record {
              name = p.name;
              container_port = p.port;
              protocol = "TCP";
            })
            ps)
same_ports [] = refl
same_ports (p ∷ ps) = ap (λ (xs : List (String × ℕ)). (p.name, p.port) ∷ xs) (same_ports ps)

-- Whatever deployment and service existed before, after both are configured for an agent the
-- deployment has a container named agent with the merged environment, the service's selector picks
-- the pods' labels, and the service's target ports are the container's ports, with their names and
-- in order.
pub configure_service-IsServed :
    (marshal : List String → String) (new_room : ℕ → ℕ) (room : ℕ) (a : Agent) (i : Inputs)
    (d : AgentDeployment) (s : AgentService)
    → IsServed i (configure_deployment marshal new_room room a i d) (configure_service a s)
unfolding configure_deployment configure_service build_pod_template_metadata copy
    configure_container container_ports
configure_service-IsServed marshal new_room room a i d s =
    let c = configure_container a i (or_new (find_container_by_name "agent" d.containers)) in
    let live = (injected_slice new_room room a i d.containers).live in
    let same = unprobed-healed a a.spec.lifecycle live c in
    record {
      container = healed a a.spec.lifecycle live c;
      found = ensure_containers-find new_room room a i d.containers;
      configured = ap (λ (x : Container). x.env) same;
      selects = (lookup-insert "app" "app" a.name _, tt);
      reaches =
          same_ports a.spec.protocols ∙ sym (ap (λ (x : Container). map port_of x.ports) same);
    }
