-- ===== src/Control/Overview/Parts.antt =====
-- What the overview shows (`GET /v1/control/overview` of apps/platform-control-api/src/server.ts).
use aws_architecture.Base.{String, Option, some, List, [], ◌∷◌, ◌≡◌, refl, if◌then◌else◌, ◌===◌}
use aws_architecture.Base.Json.{Json, str, Fields, get_field, set_field, get_field-set_field}
use aws_architecture.Control.Store.{Store, get_page}
use aws_architecture.Control.Pages.{
  overview, health, observability, security, infrastructure, costs, backup_dr, drift, deployments,
}
use aws_architecture.Control.Overview.{write_all, overview_parts, show_overview}

-- What a list of writes leaves at a key that had a value: the last one written.
abbrev pub written : String → Option Json → List (String × Json) → Option Json
written j old [] = old
written j old ((k, v) ∷ rest) = written j (if k === j then some v else old) rest

get_field-write_all :
    (j : String) (es : List (String × Json)) (fs : Fields)
    → get_field j (write_all es fs) ≡ written j (get_field j fs) es
unfolding write_all
get_field-write_all j [] fs = refl
get_field-write_all j ((k, v) ∷ rest) fs =
    rw (get_field-write_all j rest (set_field k v fs), get_field-set_field k j v fs) refl

overview_written :
    (environment region : String) (s : Store) (j : String)
    → (old : Option Json) × (get_field j (show_overview environment region s)
        ≡ written j old (overview_parts s))
unfolding show_overview
overview_written environment region s j = (_, get_field-write_all j (overview_parts s) _)

-- The overview shows under this key what this page holds.
abbrev pub Shows : Fields → String → Json → Type 0
Shows fs key v = get_field key fs ≡ some v

-- Whatever the overview page itself holds, each part that the overview takes from another page is that
-- page's own data, and its time is the overview page's.
pub show_overview-parts :
    (environment region : String) (s : Store)
    → Shows (show_overview environment region s) "health" (get_page health s).contents
      × Shows
          (show_overview environment region s)
          "observability"
          (get_page observability s).contents
      × Shows (show_overview environment region s) "security" (get_page security s).contents
      × Shows
          (show_overview environment region s)
          "infrastructure"
          (get_page infrastructure s).contents
      × Shows (show_overview environment region s) "costs" (get_page costs s).contents
      × Shows (show_overview environment region s) "backupDr" (get_page backup_dr s).contents
      × Shows (show_overview environment region s) "drift" (get_page drift s).contents
      × Shows (show_overview environment region s) "deployments" (get_page deployments s).contents
      × Shows
          (show_overview environment region s)
          "updatedAt"
          (str (get_page overview s).updated_at)
show_overview-parts environment region s = (
  (overview_written environment region s "health").1,
  (overview_written environment region s "observability").1,
  (overview_written environment region s "security").1,
  (overview_written environment region s "infrastructure").1,
  (overview_written environment region s "costs").1,
  (overview_written environment region s "backupDr").1,
  (overview_written environment region s "drift").1,
  (overview_written environment region s "deployments").1,
  (overview_written environment region s "updatedAt").1,
)
