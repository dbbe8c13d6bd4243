-- ===== src/Control/Overview.antt =====
-- The readers of several pages and of the desired state, and the health endpoints
-- (apps/platform-control-api/src/server.ts). The fields of an answer stand in the order in which they
-- are written.
pub mod Parts
use aws_architecture.Base.{ℕ, String, List, [], ◌∷◌, Result, ok, throw}
use aws_architecture.Base.Json.{Json, str, num, obj, Fields, end, field, set_field, entries}
use aws_architecture.Control.Pages.{
  ControlPage, overview, health, observability, security, infrastructure, costs, backup_dr, drift,
  deployments,
}
use aws_architecture.Control.Store.{Snapshot, Store, get_page}

-- `{ ...o, k1: v1, ... }`.
unfoldable pub write_all : List (String × Json) → Fields → Fields
unfolding set_field
write_all [] fs = fs
write_all ((k, v) ∷ rest) fs = write_all rest (set_field k v fs)

-- The parts of the overview that other pages give.
abbrev pub overview_parts : Store → List (String × Json)
overview_parts s =
    ("health", (get_page health s).contents)
    ∷ ("observability", (get_page observability s).contents)
    ∷ ("security", (get_page security s).contents)
    ∷ ("infrastructure", (get_page infrastructure s).contents)
    ∷ ("costs", (get_page costs s).contents)
    ∷ ("backupDr", (get_page backup_dr s).contents)
    ∷ ("drift", (get_page drift s).contents)
    ∷ ("deployments", (get_page deployments s).contents)
    ∷ ("updatedAt", str (get_page overview s).updated_at)
    ∷ []

-- `GET /v1/control/overview`.
unfoldable pub show_overview : (environment region : String) → Store → Fields
show_overview environment region s = write_all (overview_parts s) (
    write_all (entries (get_page overview s).contents) (
      field "environment" (str environment)
        (field "region" (str region) (field "configVersion" (num s.config_version) end))))

-- A page snapshot as JSON.
abbrev pub snapshot_json : Snapshot → Json
snapshot_json p = obj (field "updatedAt" (str p.updated_at) (field "data" p.contents end))

-- `GET /v1/control/operations/summary`.
unfoldable pub show_summary : (environment region now : String) → Store → Fields
show_summary environment region now s = field "environment" (str environment) (
    field "region" (str region) (
      field "collectedAt" (str now) (
        field "health" (snapshot_json (get_page health s)) (
          field "observability" (snapshot_json (get_page observability s)) (
            field "security" (snapshot_json (get_page security s)) (
              field "infrastructure" (snapshot_json (get_page infrastructure s)) (
                field "costs" (snapshot_json (get_page costs s)) (
                  field "backupDr" (snapshot_json (get_page backup_dr s))
                    (field "drift" (snapshot_json (get_page drift s)) end)))))))))

-- `GET /v1/control/desired-state`.
unfoldable pub show_desired_state : Store → Fields
show_desired_state s =
    field "configVersion" (num s.config_version) (field "desiredState" s.desired_state end)

-- The health endpoints, by what reading the version answers.
unfoldable pub show_health : (unhealthy : String) → Result ℕ → ℕ × String
show_health unhealthy (ok version) = (200, "HEALTHY")
show_health unhealthy (throw e) = (503, unhealthy)
