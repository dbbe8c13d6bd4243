-- ===== src/Control/Pages.antt =====
-- The pages of the control center and what they show at first
-- (apps/platform-control-api/src/store.ts).
use aws_architecture.Base.{String, true, false, List, [], ◌∷◌}
use aws_architecture.Base.Json.{Json, null, bool, str, arr, obj, nil, Fields, end, field, texts}

pub data ControlPage : Type 0 where
  overview capabilities features providers environments dependencies infrastructure deployments
        health observability security secrets costs backup_dr drift emergency :
      ControlPage

unfoldable pub page_name : ControlPage → String
page_name overview = "overview"
page_name capabilities = "capabilities"
page_name features = "features"
page_name providers = "providers"
page_name environments = "environments"
page_name dependencies = "dependencies"
page_name infrastructure = "infrastructure"
page_name deployments = "deployments"
page_name health = "health"
page_name observability = "observability"
page_name security = "security"
page_name secrets = "secrets"
page_name costs = "costs"
page_name backup_dr = "backup-dr"
page_name drift = "drift"
page_name emergency = "emergency"

abbrev empty_list : Json
empty_list = arr nil

abbrev empty_object : Json
empty_object = obj end

-- An object whose fields all have one value.
abbrev each : Json → List String → Fields → Fields
each v [] rest = rest
each v (k ∷ ks) rest = field k v (each v ks rest)

unfoldable pub initial_page : ControlPage → Fields
initial_page overview = field "health" (str "UNKNOWN") (
    field "profile" (str "unknown") (
      field "drift" (str "UNKNOWN") (
        field "criticalAlerts" empty_list (
          field "traffic" (obj (each null ("currentRps" ∷ "peakRps" ∷ []) end)) (
            field "latency" (obj (each null ("p50Ms" ∷ "p95Ms" ∷ "p99Ms" ∷ []) end))
              (field "errors" (obj (each null ("rate" ∷ "fourXx" ∷ "fiveXx" ∷ []) end)) end))))))
initial_page capabilities = field "items" empty_list end
initial_page features = field "items" empty_list end
initial_page providers = field "items" empty_list end
initial_page environments =
    field "items" (arr (texts ("development" ∷ "testing" ∷ "staging" ∷ "production" ∷ []))) end
initial_page dependencies = field "graph" empty_object (field "conflicts" empty_list end)
initial_page infrastructure =
    field "resources" empty_list
      (each empty_object ("compute" ∷ "database" ∷ "cache" ∷ "queues" ∷ []) end)
initial_page deployments = field "releases" empty_list (field "activeVersion" null end)
initial_page health =
    each empty_list ("dependencies" ∷ "workers" ∷ "queues" ∷ "dlq" ∷ "integrations" ∷ []) end
initial_page observability = each (bool true) ("metrics" ∷ "tracing" ∷ "logging" ∷ []) (
    field "slos" empty_list
      (each empty_object ("traffic" ∷ "latency" ∷ "errors" ∷ "saturation" ∷ []) end))
initial_page security = field "posture" (str "UNKNOWN") (
    each empty_list ("criticalFindings" ∷ "findings" ∷ []) (
      each empty_object
        ("waf" ∷ "guardDuty" ∷ "securityHub" ∷ "inspector" ∷ "authentication" ∷ "authorization"
          ∷ "tenantIsolation" ∷ [])
        end))
initial_page secrets = field "items" empty_list (
    field "note"
      (str
        "Secret metadata only; plaintext values are never stored or returned by the control plane.")
      end)
initial_page costs =
    field "currency" (str "USD")
      (field "items" empty_list (each null ("today" ∷ "forecast" ∷ []) end))
initial_page backup_dr =
    each null ("rpo" ∷ "rto" ∷ []) (each empty_list ("backups" ∷ "restoreTests" ∷ []) end)
initial_page drift = field "status" (str "UNKNOWN") (field "items" empty_list end)
initial_page emergency =
    field "maintenanceMode" (bool false) (field "killSwitches" empty_object end)

unfoldable pub all_pages : List ControlPage
all_pages =
    overview ∷ capabilities ∷ features ∷ providers ∷ environments ∷ dependencies ∷ infrastructure
    ∷ deployments ∷ health ∷ observability ∷ security ∷ secrets ∷ costs ∷ backup_dr ∷ drift
    ∷ emergency ∷ []
