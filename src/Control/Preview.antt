-- ===== src/Control/Preview.antt =====
-- The preview of a provider switch (`POST /v1/control/workflows/preview` of
-- apps/platform-control-api/src/server.ts).
use aws_architecture.Base.{String, ◌===◌, if◌then◌else◌, coded, Result, ok, throw}
use aws_architecture.Security.Context.{TenantContext}
use aws_architecture.Config.Workflows.{
  WorkflowKind, redis_off, kafka_off, opensearch_off, eks_to_ecs, ai_off, ai_provider_switch,
  WorkflowContext, SwitchWorkflow, plan_switch,
}
use aws_architecture.Control.Reply.{Reply, sent, refused, thrown}
use aws_architecture.Control.Api.Changes.{require_control_write}

-- The plan that a kind gets: any other text is taken for a change of the AI provider.
abbrev pub kind_of : String → WorkflowKind
kind_of s =
    if s === "redis-off"
    then redis_off
    else if s === "kafka-off"
    then kafka_off
    else if s === "opensearch-off"
    then opensearch_off
    else if s === "eks-to-ecs"
    then eks_to_ecs
    else if s === "ai-off"
    then ai_off
    else ai_provider_switch

abbrev pub planned : (request_id : String) → Result SwitchWorkflow → Reply SwitchWorkflow
planned request_id (ok w) = sent 200 w
planned request_id (throw (coded c m)) = refused 409 c m request_id
planned request_id (throw e) = thrown e

abbrev answer : Result (Unit {0}) → Reply SwitchWorkflow → Reply SwitchWorkflow
answer (ok u) reply = reply
answer (throw e) reply = thrown e

-- The handler, which puts its environment and the operator's roles into the context.
unfoldable pub preview_workflow :
    (environment request_id : String)
    → TenantContext
    → (kind : String) → WorkflowContext
    → Reply SwitchWorkflow
unfolding require_control_write plan_switch
preview_workflow environment request_id operator kind context =
    answer (require_control_write operator) (
      planned request_id (
        plan_switch (kind_of kind)
          (record context { environment = environment; actor_roles = operator.roles })))
