-- ===== src/Config/Dependency.antt =====
-- The dependency engine (packages/dependency-engine/src/index.ts).
pub mod Sound
use aws_architecture.Base.{
  String, Bool, true, false, not, ◌&&◌, ◌||◌, Option, none, some, List, [], ◌∷◌, ◌++◌, ◌===◌,
  if◌then◌else◌, Result, ok, throw, error, ◌>>=◌,
}
use Prim.Native.String
use aws_architecture.Base.Map.{set}
use aws_architecture.Base.Json.{Json, str, is_set, member, member?}
use aws_architecture.Config.Locked.{read}

pub record DependencyIssue : Type 0 where
  pub code : String
  pub capability : String
  pub dependency : String
  pub message : String
  pub migrations : List String

pub record DependencyRule : Type 0 where
  pub capability : String
  pub when_provider : Option String
  pub requires : List String
  pub migration_options : List String

abbrev pub rule : String → Option String → List String → List String → DependencyRule
rule c w r m = record { capability = c; when_provider = w; requires = r; migration_options = m }

unfoldable pub dependency_rules : List DependencyRule
dependency_rules =
    rule "queue" (some "bullmq") ("redis" ∷ []) ("sqs" ∷ "rabbitmq" ∷ "sync" ∷ [])
    ∷ rule "distributed_lock" (some "redis") ("redis" ∷ []) ("postgres" ∷ [])
    ∷ rule "distributed_lock" (some "postgres") ("postgres" ∷ []) []
    ∷ rule "idempotency" (some "redis") ("redis" ∷ []) ("postgres" ∷ [])
    ∷ rule "idempotency" (some "postgres") ("postgres" ∷ []) []
    ∷ rule "event_bus" (some "outbox") ("postgres" ∷ []) ("sns-sqs" ∷ "kafka" ∷ [])
    ∷ rule "search" (some "postgres") ("postgres" ∷ []) ("opensearch" ∷ [])
    ∷ rule "vector_store" (some "pgvector") ("postgres" ∷ []) ("disable-rag" ∷ [])
    ∷ rule "rag" none ("ai" ∷ "vector_store" ∷ "object_storage" ∷ []) ("disable-rag" ∷ [])
    ∷ []

-- `v === s` for a text `s`.
abbrev pub is_text : Option Json → String → Bool
is_text none s = false
is_text (some v) s = elim v [ str t ↦ t === s | _ ↦ false ]

-- `state.platform[name].enabled && state.platform[name].provider === provider`.
unfoldable pub enabled_provider : Json → (name provider : String) → Result Bool
unfolding read
enabled_provider state name provider = do
  platform ← read "platform" (some state)
  selection ← read name platform
  enabled ← read "enabled" selection
  chosen ← read "provider" selection
  ok (is_set enabled && is_text chosen provider)

-- `Boolean(state.features.rag)`.
unfoldable pub rag_on : Json → Result Bool
unfolding read
rag_on state = do
  features ← read "features" (some state)
  rag ← read "rag" features
  ok (is_set rag)

unfoldable pub active : Json → String → Result Bool
unfolding enabled_provider rag_on member?
active state dependency =
    if dependency === "postgres"
    then enabled_provider state "database" "postgres"
    else if dependency === "redis"
    then enabled_provider state "cache" "redis"
    else if dependency === "rag"
    then rag_on state
    else (do
      platform ← read "platform" (some state)
      value ← read dependency platform
      ok (is_set (member? "enabled" value)))

abbrev matches_provider : Option String → Option Json → Bool
matches_provider none chosen = true
matches_provider (some p) chosen = is_text chosen p

unfoldable pub rule_selected : Json → DependencyRule → Result Bool
unfolding rag_on read member?
rule_selected state r = if r.capability === "rag" then rag_on state else (do
  platform ← read "platform" (some state)
  selection ← read r.capability platform
  ok (
      is_set (member? "enabled" selection)
      && matches_provider r.when_provider (member? "provider" selection)))

abbrev slash : Option String → String
slash none = ""
slash (some p) = String.◌++◌ "/" p

unfoldable pub missing : Json → DependencyRule → List String → Result (List DependencyIssue)
unfolding active
missing state r [] = ok []
missing state r (dependency ∷ rest) = do
  here ← active state dependency
  later ← missing state r rest
  ok (
      if here
      then later
      else record {
        code = "DEPENDENCY_UNAVAILABLE";
        capability = r.capability;
        dependency = dependency;
        message =
            String.◌++◌ r.capability
              (String.◌++◌ (slash r.when_provider) (String.◌++◌ " requires " dependency));
        migrations = r.migration_options;
      }
        ∷ later)

unfoldable pub resolve_rules : Json → List DependencyRule → Result (List DependencyIssue)
unfolding rule_selected missing
resolve_rules state [] = ok []
resolve_rules state (r ∷ rs) = do
  selected ← rule_selected state r
  here ← (if selected then missing state r r.requires else ok [])
  later ← resolve_rules state rs
  ok (here ++ later)

unfoldable pub resolve_dependency_issues : Json → Result (List DependencyIssue)
unfolding resolve_rules dependency_rules
resolve_dependency_issues state = resolve_rules state dependency_rules

abbrev no_issues : List DependencyIssue → Result (Unit {0})
no_issues [] = ok tt
no_issues (x ∷ xs) = throw (error "Dependency validation failed")

-- The list in the message is not modelled.
unfoldable pub assert_dependencies : Json → Result (Unit {0})
unfolding resolve_dependency_issues
assert_dependencies state = do issues ← resolve_dependency_issues state; no_issues issues

abbrev colon : Option String → String
colon none = ""
colon (some p) = String.◌++◌ ":" p

unfoldable pub graph_rules :
    Json → List DependencyRule → List (String × List String) → Result (List (String × List String))
unfolding rule_selected set
graph_rules state [] graph = ok graph
graph_rules state (r ∷ rs) graph = do
  selected ← rule_selected state r
  graph_rules state rs (
      if selected
      then set (String.◌++◌ r.capability (colon r.when_provider)) r.requires graph
      else graph)

unfoldable pub dependency_graph : Json → Result (List (String × List String))
unfolding graph_rules dependency_rules
dependency_graph state = graph_rules state dependency_rules []
