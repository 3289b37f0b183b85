-- ===== src/Previews/Reconcile.antt =====
-- Reconcile and the statuses of internal/controller/simulationpreview_reconciler.go. yaml.Marshal,
-- meta.SetStatusCondition and what the API server answers to the status' update are parameters.
use ronak_agentk_runtime.Base.{
  String, Bool, true, false, Option, none, some, List, Result, ok, err, Fetched, found, not_found,
  no_match, failed, length,
}
use ronak_agentk_runtime.Base.Int.{ℤ, pos, add32, to_int32}
use ronak_agentk_runtime.Base.Float.{Float64}
use Prim.Native.String.{◌++◌}
use ronak_agentk_runtime.Kube.{ObjectReference}
use ronak_agentk_runtime.Api.Agent.{Agent, Condition, CostBudgetSpec}
use ronak_agentk_runtime.Refs.Cluster.{Cluster, target, show_key}
use ronak_agentk_runtime.Cost.Predictor.{parse_cost_string}
use ronak_agentk_runtime.Previews.Build.{PreviewDeployment, build_preview_deployment}

pub record PreviewStatus : Type 0 where
  pub conditions : List Condition
  pub preview_deployment : String
  pub estimated_cost : String
  pub warnings : List String
  pub container_count : ℤ

pub record SimulationPreview : Type 0 where
  pub name : String
  pub namespace : String
  pub generation : ℤ
  pub agent_ref : ObjectReference
  pub status : PreviewStatus

-- The status handed to Status().Update, if any, and the error returned.
pub record PreviewOutcome : Type 0 where
  pub written : Option PreviewStatus
  pub error : Option String

abbrev preview_condition : SimulationPreview → Bool → String → String → Condition
preview_condition p status reason message = record {
  kind = "Ready";
  status = status;
  reason = reason;
  message = message;
  observed_generation = p.generation;
}

unfoldable pub count_containers : PreviewDeployment → ℤ
unfolding to_int32 add32
count_containers d = add32 (to_int32 (length d.containers)) (to_int32 (length d.init_containers))

module _ (f : Float64) where
  -- "" where there is no budget or its cost per token cannot be parsed
  unfoldable pub estimated_cost_of : Option CostBudgetSpec → String
  unfolding parse_cost_string
  estimated_cost_of none = ""
  estimated_cost_of (some b) = elim (parse_cost_string f b.cost_per_token_usd) [
    | none ↦ ""
    | some cost_per_token ↦
        "~$" ++ (f.format_2 (f.mul (f.of_int (pos 1000000)) cost_per_token) ++ "/mo (at 1M tokens)")
  ]

abbrev update_error : Option String → Option String
update_error none = none
update_error (some m) = some ("failed to update SimulationPreview status: " ++ m)

module _ (f : Float64) (set_status_condition : List Condition → Condition → List Condition) where
  unfoldable pub preview_ready :
      SimulationPreview → String → String → List String → ℤ → PreviewStatus
  preview_ready p yaml cost warnings count = record {
    conditions =
        set_status_condition p.status.conditions
          (preview_condition p true "PreviewGenerated" "Deployment preview generated successfully");
    preview_deployment = yaml;
    estimated_cost = cost;
    warnings = warnings;
    container_count = count;
  }

  unfoldable pub preview_not_ready : SimulationPreview → String → String → PreviewStatus
  preview_not_ready p reason message = record p.status {
    conditions =
        set_status_condition p.status.conditions (preview_condition p false reason message);
  }

  module _ (marshal : PreviewDeployment → Result String)
      (write_error : PreviewStatus → Option String) (c : Cluster) where
    -- the round from the marshalled deployment on
    abbrev finished : SimulationPreview → Agent → Result String → PreviewOutcome
    finished p a (err m) = record {
      written = none;
      error = some ("failed to marshal preview deployment: " ++ m);
    }
    finished p a (ok yaml) =
        let (d, warnings) = build_preview_deployment a in
        let s =
          preview_ready p yaml (estimated_cost_of f a.spec.cost_budget) warnings
            (count_containers d) in
        record { written = some s; error = update_error (write_error s) }

    abbrev previewed : SimulationPreview → Fetched Agent → PreviewOutcome
    previewed p (found a) = finished p a (marshal (build_preview_deployment a).0)
    -- the error of this update is only logged
    previewed p not_found = record {
      written = some (
          preview_not_ready p "AgentNotFound"
            ("Agent " ++ (show_key (target p.agent_ref p.namespace) ++ " not found")));
      error = none;
    }
    previewed p no_match = record { written = none; error = some "no matches for kind" }
    previewed p (failed m) = record { written = none; error = some m }

    unfoldable pub reconcile_preview : Fetched SimulationPreview → PreviewOutcome
    unfolding build_preview_deployment estimated_cost_of count_containers preview_ready
        preview_not_ready
    reconcile_preview (found p) = previewed p (c.get_agent (target p.agent_ref p.namespace))
    reconcile_preview not_found = record { written = none; error = none }
    reconcile_preview no_match = record { written = none; error = some "no matches for kind" }
    reconcile_preview (failed m) = record { written = none; error = some m }
