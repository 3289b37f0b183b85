-- ===== src/Lib.antt =====
-- The AgentK runtime: a Kubernetes operator for AI agents, written in Go, and its web dashboard,
-- written in TypeScript. The operator's webhooks admit agents, tool servers and swarms; its
-- controllers resolve what an agent refers to, write its deployment and service, and keep in its
-- status an audit trail, proofs, costs and a lifecycle phase. The dashboard shows these.
--
-- Parts, and the files that model them:
-- - Base, Base/*: shared tests, lists, maps, results, int32 and int64 with their wrap-around, and
--   Go's float64 as an interface. Samples: objects for the tests.
-- - Kube, Api/Agent, Api/Resources: the data of api/v1alpha1/*.go and of k8s.io/api, as far as the
--   code touches it; a nil pointer is `none`, a nil map is empty.
-- - Admission/*: internal/webhook/v1alpha1/{agent,toolserver,swarm}_webhook.go. A validation is the
--   list of its errors. Agents, Mounts, Servers and Swarms define; Sources, Prefixes, Accepted and
--   Defaults prove.
-- - Refs/*: internal/controller/agent_subagent.go, agent_tool.go, agent_aigateway.go. Cluster is the
--   API server, a record of functions from keys to objects; SubAgents, Tools and Gateways have the
--   resolution and the watches; Wakeups, Complete and Resolution prove.
-- - Reconcile/*: internal/controller/agent_reconciler.go and agent_status.go. Step has `reconcile`,
--   which takes the round's surroundings and the agent and gives an outcome with the status that is
--   written; Config and Status have its parts; Objects computes the outcomes of the writes from the
--   objects in the cluster; Gate, Trail and Served prove.
-- - Attest/*: internal/merkle/merkle.go (Checkpoint) and internal/verifiable/zkproofs.go (Proof);
--   Bars, Chain and Engine prove.
-- - Pods/*: internal/controller/agent_config.go, agent_probe.go, util.go: environment, URLs, probes
--   and metadata.
-- - Deploy/*: internal/ebpf/policy.go (Policies), internal/wasm/wasm.go (Sandbox), the template's
--   environment in internal/controller/agent_config.go (Template), and ensureDeployment and
--   ensureService in internal/controller/agent_reconciler.go: Containers has the slice of containers
--   with its spare room and whether the pointer to the agent's container is into it, Ensure the
--   mutation of the deployment, Apply the two functions. Names, Found, Steps, Served, Routed,
--   Sidecars, Healing and Moved prove.
-- - Policies/*: internal/controller/policy_reconciler.go. Validate defines, Enforced proves.
-- - Swarms/*: internal/swarm/coordinator.go (Coordinator) and internal/controller/swarm_reconciler.go
--   (Resolve, Objects, Reconcile); Watch and Routed prove.
-- - Tee/*: internal/tee/attestation_verifier.go. Verifier defines, Attested proves.
-- - Governance, Lifecycle, Cost/*: internal/governance/policyengine.go, internal/lifecycle/manager.go,
--   internal/costpredictor/predictor.go, internal/costintelligence/{realoptimizer,monitor}.go.
-- - ToolServers/*: internal/controller/toolserver_reconciler.go (Objects, Reconcile) and
--   toolserver_toolgateway.go (Gateways); Routed, Watch, Resolved and Failed prove.
-- - Sandboxes/*: internal/controller/toolsandbox_reconciler.go (Objects, Reconcile); Changed proves.
-- - Previews/*: internal/controller/simulationpreview_reconciler.go. Build has the previewed deployment,
--   Reconcile the round; Deployed, Counted and Images compare with the agent controller's.
-- - Workforce/*: internal/controller/agenticworkforce_reconciler.go. Traverse has traverseAgent,
--   Reconcile the rest; Reachable says what is reached; Visits, Collect, Sound, Fuel and Watch prove.
-- - Web/*: web-dashboard/frontend/src. Fetch is api.ts, Routes is App.tsx and Sidebar.tsx, and the
--   other modules are the pages: state and handlers, with the elements that the page returns in a
--   child View, over Html. Markup reads controls, submissions, clicks and tags off the elements;
--   InFlight is a page with a form and its requests as a step relation, Guarded its two instances.
--   Session, Forms, RoundTrips, Tables and Figures prove.
--
-- Names are the source's in snake_case. State is passed explicitly: a handler that changes an object
-- gives the new one. Only the traversal of a workforce takes fuel, as its recursion follows references
-- that may be cyclic; more fuel than there are agents is enough, since every call that goes deeper
-- marks a new one. All other loops recur on their lists.
--
-- Parameters: SHA-256, ECDSA and x509, the network, the gnark provers, JSON and YAML, net/url's Parse
-- and path.Clean, meta.SetStatusCondition, the clock, float arithmetic, the room that Go's append
-- leaves in a new array, the order in which sort.Slice leaves equal items, what react-router makes of a
-- path, toLocaleString and the API server. What a theorem needs of them is a hypothesis of it.
--
-- Not modelled: logs, metrics, owner references and retries of the Kubernetes client; the controller
-- of confidential agents; icons, and the class names that do not depend on the state; the Python
-- backend.
pub mod Base
pub mod Samples
pub mod Kube
pub mod Api
pub mod Governance
pub mod Lifecycle
pub mod Cost
pub mod Refs
pub mod Workforce
pub mod Swarms
pub mod Attest
pub mod Pods
pub mod Deploy
pub mod Policies
pub mod Reconcile
pub mod ToolServers
pub mod Sandboxes
pub mod Previews
pub mod Admission
pub mod Tee
pub mod Web
