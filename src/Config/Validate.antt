-- ===== src/Config/Validate.antt =====
-- Validation of a desired state (packages/config-engine/src/validate.ts). The messages of the issues
-- are not modelled.
pub mod Spec
pub mod Parts
pub mod Valid
use aws_architecture.Base.{
  String, Bool, true, false, not, ◌&&◌, ◌||◌, Option, none, some, List, [], ◌∷◌, ◌++◌, ◌===◌,
  if◌then◌else◌, truthy, includes,
}
use Prim.Native.String
use aws_architecture.Base.Map.{get}
use aws_architecture.Base.Json.{
  Json, null, bool, num, other_num, str, arr, obj, is_truthy, is_set, is_bool, member, member?,
  entries,
}

pub record CapabilitySelection : Type 0 where
  pub enabled : Bool
  pub provider : String
  pub fallback : Option Json
  pub required : Option Json

pub record ValidationIssue : Type 0 where
  pub path : String
  pub code : String

unfoldable pub providers : List (String × List String)
providers =
    ("database", "postgres" ∷ [])
    ∷ ("cache", "redis" ∷ "memory" ∷ "none" ∷ [])
    ∷ ("distributed_lock", "redis" ∷ "postgres" ∷ [])
    ∷ ("idempotency", "redis" ∷ "postgres" ∷ [])
    ∷ ("queue", "sqs" ∷ "bullmq" ∷ "rabbitmq" ∷ "sync" ∷ [])
    ∷ ("event_bus", "kafka" ∷ "sns-sqs" ∷ "outbox" ∷ [])
    ∷ ("object_storage", "s3" ∷ "minio" ∷ "filesystem" ∷ [])
    ∷ ("vector_store", "pgvector" ∷ "disabled" ∷ [])
    ∷ ("search", "opensearch" ∷ "postgres" ∷ [])
    ∷ ("ai", "local-ai" ∷ "bedrock" ∷ "external" ∷ "disabled" ∷ [])
    ∷ []

unfoldable pub fallback_providers : List (String × List String)
fallback_providers =
    ("cache", "redis" ∷ "memory" ∷ "none" ∷ [])
    ∷ ("distributed_lock", "redis" ∷ "postgres" ∷ [])
    ∷ ("idempotency", "redis" ∷ "postgres" ∷ [])
    ∷ ("queue", "sqs" ∷ "bullmq" ∷ "rabbitmq" ∷ "sync" ∷ [])
    ∷ ("event_bus", "kafka" ∷ "sns-sqs" ∷ "outbox" ∷ [])
    ∷ ("object_storage", "s3" ∷ "minio" ∷ "filesystem" ∷ [])
    ∷ ("search", "opensearch" ∷ "postgres" ∷ [])
    ∷ ("ai", "local-ai" ∷ "bedrock" ∷ "external" ∷ "disabled" ∷ [])
    ∷ []

-- The last test of `sel`: `enabled` is a Boolean and `provider` a text that is not empty.
abbrev selection_of :
    Option Json → Option Json → Option Json → Option Json → Option CapabilitySelection
selection_of (some (bool e)) (some (str p)) fallback required =
    if truthy p
    then some (record { enabled = e; provider = p; fallback = fallback; required = required })
    else none
selection_of _ _ _ _ = none

unfoldable pub sel : Option Json → Option CapabilitySelection
unfolding member?
sel v =
    selection_of (member? "enabled" v) (member? "provider" v) (member? "fallback" v)
      (member? "required" v)

abbrev pub issue : String → String → ValidationIssue
issue path code = record { path = path; code = code }

-- `if (bad) issues.push(...)`.
abbrev pub when {ℓ} : {A : Type ℓ} → Bool → A → List A
when true x = x ∷ []
when false x = []

abbrev join : String → String → String
join a b = String.◌++◌ a b

unfoldable pub feature_issues : List (String × Json) → List ValidationIssue
feature_issues [] = []
feature_issues ((name, value) ∷ rest) =
    when (not (is_bool (some value))) (issue (join "features." name) "INVALID_FEATURE_FLAG")
    ++ feature_issues rest

unfoldable pub observability_issues : Option Json → List String → List ValidationIssue
unfolding member?
observability_issues o [] = []
observability_issues o (key ∷ keys) =
    when (not (is_bool (member? key o)))
      (issue (join "platform.observability." key) "INVALID_OBSERVABILITY_FLAG")
    ++ observability_issues o keys

-- A finite number that is not negative.
abbrev pub is_limit : Json → Bool
is_limit v = elim v [
  | num n ↦ true
  | other_num digits is_finite is_negative ↦ is_finite && not is_negative
  | _ ↦ false
]

unfoldable pub limit_issues : List (String × Json) → List ValidationIssue
limit_issues [] = []
limit_issues ((name, value) ∷ rest) =
    when (not (is_limit value)) (issue (join "limits." name) "INVALID_LIMIT") ++ limit_issues rest

-- `set.has(v)` for a set of texts.
abbrev pub set_has : List String → Option Json → Bool
set_has xs none = false
set_has xs (some v) = elim v [ str s ↦ includes xs s | _ ↦ false ]

abbrev pub no_fallback : Option (List String) → CapabilitySelection → Bool
no_fallback none s = false
no_fallback (some _) s = s.enabled && not (is_set s.fallback)

abbrev pub bad_fallback : Option (List String) → CapabilitySelection → Bool
bad_fallback none s = false
bad_fallback (some allowed) s = is_set s.fallback && not (set_has allowed s.fallback)

unfoldable pub selection_issues :
    String → List String → Option (List String) → Option CapabilitySelection → List ValidationIssue
selection_issues name allowed fallbacks none =
    issue (join "platform." name) "MISSING_CAPABILITY" ∷ []
selection_issues name allowed fallbacks (some s) =
    let path = join "platform." name in
    when (not (includes allowed s.provider)) (issue (join path ".provider") "INVALID_PROVIDER")
    ++ (when (is_set s.required && not s.enabled) (issue (join path ".enabled") "REQUIRED_DISABLED")
        ++ (when (no_fallback fallbacks s) (issue (join path ".fallback") "MISSING_FALLBACK")
            ++ when (bad_fallback fallbacks s) (issue (join path ".fallback") "INVALID_FALLBACK")))

-- The loop over `providers`.
unfoldable pub capability_issues : Json → List (String × List String) → List ValidationIssue
unfolding selection_issues sel member fallback_providers get
capability_issues p [] = []
capability_issues p ((name, allowed) ∷ rest) =
    selection_issues name allowed (get name fallback_providers) (sel (member name p))
    ++ capability_issues p rest

-- `s?.enabled`, and `s?.enabled && s.provider === provider`.
abbrev pub on : Option CapabilitySelection → Bool
on none = false
on (some s) = s.enabled

abbrev pub uses : Option CapabilitySelection → String → Bool
uses none provider = false
uses (some s) provider = s.enabled && s.provider === provider

unfoldable pub cross_issues : Json → Json → List ValidationIssue
unfolding sel member member?
cross_issues p features =
    let redis = uses (sel (member "cache" p)) "redis" in
    let storage = on (sel (member "object_storage" p)) in
    let ai = on (sel (member "ai" p)) in
    let vector = on (sel (member "vector_store" p)) in
    when (not (uses (sel (member "database" p)) "postgres"))
      (issue "platform.database" "LOCKED_DATABASE")
    ++ (when (not storage) (issue "platform.object_storage.enabled" "CORE_CAPABILITY_DISABLED")
        ++ (when (not (is_set (member? "logging" (member "observability" p))))
              (issue "platform.observability.logging" "LOCKED_LOGGING")
            ++ (when (is_set (member "rag" features) && (not ai || not vector || not storage))
                  (issue "features.rag" "RAG_DEPENDENCY")
                ++ (when (uses (sel (member "queue" p)) "bullmq" && not redis)
                      (issue "platform.queue.provider" "BULLMQ_REQUIRES_REDIS")
                    ++ (when (uses (sel (member "distributed_lock" p)) "redis" && not redis)
                          (issue "platform.distributed_lock.provider" "REDIS_LOCK_REQUIRES_REDIS")
                        ++ when (uses (sel (member "idempotency" p)) "redis" && not redis) (
                            issue "platform.idempotency.provider"
                              "REDIS_IDEMPOTENCY_REQUIRES_REDIS"))))))

abbrev pub observability_keys : List String
observability_keys = "metrics" ∷ "tracing" ∷ "logging" ∷ []

-- `if (state.limits)` and its loop.
abbrev pub limits_part : Option Json → List ValidationIssue
limits_part none = []
limits_part (some v) = if is_truthy v then limit_issues (entries v) else []

abbrev pub observability_part : Option Json → List ValidationIssue
observability_part o = if is_set o then observability_issues o observability_keys else []

-- All that is tested once `platform` and `features` are there.
unfoldable pub body_issues :
    (platform features : Json) → (limits : Option Json) → List ValidationIssue
unfolding feature_issues observability_issues limit_issues capability_issues cross_issues providers
    entries member
body_issues p features limits =
    feature_issues (entries features)
    ++ (observability_part (member "observability" p)
        ++ (limits_part limits ++ (capability_issues p providers ++ cross_issues p features)))

abbrev pub invalid_shape : List ValidationIssue
invalid_shape = issue "$" "INVALID_SHAPE" ∷ []

abbrev pub shaped : (platform features limits : Option Json) → List ValidationIssue
shaped (some p) (some f) limits =
    if is_truthy p && is_truthy f then body_issues p f limits else invalid_shape
shaped _ _ limits = invalid_shape

unfoldable pub validate_desired_state : Json → List ValidationIssue
unfolding body_issues member
validate_desired_state state =
    shaped (member "platform" state) (member "features" state) (member "limits" state)
