-- ===== src/Config/Workflows.antt =====
-- The plans of provider switches (packages/config-engine/src/workflows.ts). The messages of the errors are
-- left out. A context comes from a request's body: an absent part is `none`.
use aws_architecture.Base.{
  ℕ, String, Bool, true, false, not, ◌&&◌, ◌||◌, Option, none, some, List, [], ◌∷◌, ◌≡◌, ltb, any,
  includes, ◌===◌, if◌then◌else◌, coded, Result, ok, reject_if, ◌>>◌, >>-eq-ok,
}

pub data WorkflowKind : Type 0 where
  redis_off kafka_off opensearch_off eks_to_ecs ai_off ai_provider_switch : WorkflowKind

pub record WorkflowContext : Type 0 where
  pub environment : String
  pub actor_roles : List String
  pub fallbacks_healthy : Option Bool
  pub database_capacity_safe : Option Bool
  pub alternate_event_bus_healthy : Option Bool
  pub kafka_only_consumers : Option ℕ
  pub consumer_lag : Option ℕ
  pub dlq_healthy : Option Bool
  pub schema_compatible : Option Bool
  pub postgres_search_indexes_healthy : Option Bool
  pub shadow_search_correct : Option Bool
  pub shadow_search_latency_acceptable : Option Bool
  pub target_compute_healthy : Option Bool
  pub ai_fallback_healthy : Option Bool

pub record WorkflowStep : Type 0 where
  pub id : String
  pub action : String
  pub gate : Option String
  pub rollback_on_failure : Bool

pub data Risk : Type 0 where
  blue amber red : Risk

pub record SwitchWorkflow : Type 0 where
  pub kind : WorkflowKind
  pub risk : Risk
  pub steps : List WorkflowStep
  pub destructive : Bool

-- `x === false`, and `!x`.
abbrev is_false : Option Bool → Bool
is_false none = false
is_false (some b) = not b

abbrev is_falsy : Option Bool → Bool
is_falsy none = true
is_falsy (some b) = not b

-- `(n ?? 0) > 0`.
abbrev is_positive : Option ℕ → Bool
is_positive none = false
is_positive (some n) = ltb 0 n

abbrev refuse : Bool → (code : String) → Result (Unit {0})
refuse b code = reject_if b (coded code "")

abbrev step : (id action : String) → WorkflowStep
step id action = record { id = id; action = action; gate = none; rollback_on_failure = false }

abbrev gated : (id action gate : String) → WorkflowStep
gated id action gate = record (step id action) { gate = some gate }

abbrev guarded_step : (id action : String) → WorkflowStep
guarded_step id action = record (step id action) { rollback_on_failure = true }

unfoldable pub privileged : WorkflowContext → Result (Unit {0})
privileged ctx =
    refuse (not (any (includes ("platform-admin" ∷ "sre" ∷ "security-admin" ∷ [])) ctx.actor_roles))
      "RBAC_DENIED"

abbrev plan : WorkflowKind → Risk → List WorkflowStep → Result SwitchWorkflow
plan kind risk steps = ok (record { kind = kind; risk = risk; steps = steps; destructive = false })

unfoldable pub plan_redis_off : WorkflowContext → Result SwitchWorkflow
unfolding privileged
plan_redis_off ctx = do
  privileged ctx
  refuse (is_falsy ctx.fallbacks_healthy) "FALLBACK_UNHEALTHY"
  refuse (is_false ctx.database_capacity_safe) "DATABASE_CAPACITY_UNSAFE"
  plan redis_off blue (
      step "1" "validate RBAC and environment policy"
      ∷ step "2" "resolve dependency graph"
      ∷ step "3" "verify memory/no-cache, PostgreSQL lock/idempotency, queue and pub/sub fallbacks"
      ∷ gated "4" "estimate increased PostgreSQL load" "database capacity safe"
      ∷ step "5" "create auditable change request and impact report"
      ∷ gated "6" "obtain approval when production"
          (if ctx.environment === "production" then "approval required" else "not required")
      ∷ guarded_step "7" "roll out provider switch gradually"
      ∷ guarded_step "8" "verify cache bypass, locks, sessions, idempotency and queue behavior"
      ∷ guarded_step "9" "observe latency/errors/database metrics"
      ∷ step "10" "mark Redis disabled only after health passes"
      ∷ step "11" "keep Redis infrastructure intact"
      ∷ guarded_step "12" "rollback on SLO or health failure"
      ∷ [])

unfoldable pub plan_kafka_off : WorkflowContext → Result SwitchWorkflow
unfolding privileged
plan_kafka_off ctx = do
  privileged ctx
  refuse (is_falsy ctx.alternate_event_bus_healthy) "EVENTBUS_FALLBACK_UNHEALTHY"
  refuse (is_positive ctx.kafka_only_consumers) "KAFKA_ONLY_CONSUMERS"
  refuse (is_positive ctx.consumer_lag) "CONSUMER_LAG_PRESENT"
  refuse (is_false ctx.dlq_healthy || is_false ctx.schema_compatible) "EVENTING_HEALTH_FAILED"
  plan kafka_off blue (
      step "1" "verify transactional outbox"
      ∷ step "2" "verify alternate event bus, lag, DLQ, schemas and consumers"
      ∷ step "3" "dual-route only if migration needs it; consumers idempotent"
      ∷ guarded_step "4" "cut EventBusPort to outbox -> SNS/SQS/local dispatcher"
      ∷ guarded_step "5" "verify no event loss via outbox/inbox"
      ∷ step "6" "mark Kafka disabled while MSK infrastructure remains intact"
      ∷ [])

unfoldable pub plan_opensearch_off : WorkflowContext → Result SwitchWorkflow
unfolding privileged
plan_opensearch_off ctx = do
  privileged ctx
  refuse (is_falsy ctx.postgres_search_indexes_healthy) "POSTGRES_SEARCH_UNHEALTHY"
  refuse (is_falsy ctx.shadow_search_correct || is_falsy ctx.shadow_search_latency_acceptable)
      "SHADOW_SEARCH_FAILED"
  plan opensearch_off blue (
      step "1" "verify PostgreSQL full-text indexes"
      ∷ step "2" "run shadow queries and compare correctness/latency"
      ∷ guarded_step "3" "switch SearchPort reads to PostgreSQL"
      ∷ guarded_step "4" "observe search errors and latency"
      ∷ step "5" "disable OpenSearch application usage; destroy remains separate"
      ∷ [])

unfoldable pub plan_eks_to_ecs : WorkflowContext → Result SwitchWorkflow
unfolding privileged
plan_eks_to_ecs ctx = do
  privileged ctx
  refuse (is_false ctx.target_compute_healthy) "TARGET_COMPUTE_UNHEALTHY"
  plan eks_to_ecs red (
      step "1" "provision parallel ECS target"
      ∷ step "2" "deploy exact same immutable images"
      ∷ gated "3" "validate target health" "target healthy"
      ∷ guarded_step "4" "shift traffic 5%"
      ∷ guarded_step "5" "shift traffic 25%"
      ∷ guarded_step "6" "shift traffic 50%"
      ∷ guarded_step "7" "shift traffic 100%"
      ∷ step "8" "drain EKS source"
      ∷ step "9" "disable EKS placement; removal is separate approved IaC action"
      ∷ [])

unfoldable pub plan_ai_change : WorkflowContext → (disable : Bool) → Result SwitchWorkflow
unfolding privileged
plan_ai_change ctx disable = do
  privileged ctx
  refuse (not disable && is_false ctx.ai_fallback_healthy) "AI_TARGET_UNHEALTHY"
  plan (if disable then ai_off else ai_provider_switch) blue (
      step "1" "route through AIModelPort / AI Gateway"
      ∷ step "2" "disable AI UI actions cleanly"
      ∷ step "3" "return CAPABILITY_UNAVAILABLE instead of generic 500s"
      ∷ step "4" "stop/suspend AI workers and scale GPU to zero"
      ∷ guarded_step "5" "verify unrelated modules remain healthy"
      ∷ guarded_step "6" (
          if disable
          then "mark AI disabled"
          else "cut AIModelPort to target provider and verify telemetry")
      ∷ [])

unfoldable pub plan_switch : WorkflowKind → WorkflowContext → Result SwitchWorkflow
unfolding plan_redis_off plan_kafka_off plan_opensearch_off plan_eks_to_ecs plan_ai_change
plan_switch redis_off ctx = plan_redis_off ctx
plan_switch kafka_off ctx = plan_kafka_off ctx
plan_switch opensearch_off ctx = plan_opensearch_off ctx
plan_switch eks_to_ecs ctx = plan_eks_to_ecs ctx
plan_switch ai_off ctx = plan_ai_change ctx true
plan_switch ai_provider_switch ctx = plan_ai_change ctx false

-- Only a privileged actor gets a plan, whatever the switch.
pub plan_switch-privileged :
    (kind : WorkflowKind) (ctx : WorkflowContext) (w : SwitchWorkflow)
    → plan_switch kind ctx ≡ ok w
    → privileged ctx ≡ ok tt
unfolding plan_switch plan_redis_off plan_kafka_off plan_opensearch_off plan_eks_to_ecs
    plan_ai_change
plan_switch-privileged redis_off ctx w h = (>>-eq-ok (privileged ctx) _ h).0
plan_switch-privileged kafka_off ctx w h = (>>-eq-ok (privileged ctx) _ h).0
plan_switch-privileged opensearch_off ctx w h = (>>-eq-ok (privileged ctx) _ h).0
plan_switch-privileged eks_to_ecs ctx w h = (>>-eq-ok (privileged ctx) _ h).0
plan_switch-privileged ai_off ctx w h = (>>-eq-ok (privileged ctx) _ h).0
plan_switch-privileged ai_provider_switch ctx w h = (>>-eq-ok (privileged ctx) _ h).0
