-- ===== src/Control/Tests.antt =====
-- Runs of the control API on small inputs, and its theorems at concrete values.
use aws_architecture.Control.Overview.{show_overview}
use aws_architecture.Control.Overview.Parts.{Shows, show_overview-parts}
use aws_architecture.Base.{
  ◌+◌, ◌≤◌, String, Bool, true, false, none, some, List, [], ◌∷◌, ◌≡◌, ◌⊎◌, ◌↔◌, refl, Result, ok,
  throw, length, map,
}
use aws_architecture.Base.Json.{Json, str, num, obj, arr, nil, cons, end, field}
use aws_architecture.Config.Sample.{sample}
use aws_architecture.Config.Locked.{validate_platform_state}
use aws_architecture.Security.Context.{TenantContext}
use aws_architecture.Control.Machine.{
  ChangeState, draft, validating, impact_analysis, waiting_approval, approved, deploying, verifying,
  stabilizing, completed, failed, rolled_back, ChangeRequest, ChangeInput, change_provider, create,
  transition, forward, ChangeState-discrete,
}
use aws_architecture.Control.Machine.Trail.{IsTrail}
use aws_architecture.Control.Machine.History.{Move, run, run-create}
use aws_architecture.Control.Machine.Completion.{route, run-completed, run-finishes}
use aws_architecture.Base.{includes}
use aws_architecture.Base.Text.{codes}
use aws_architecture.Control.Secrets.Spelling.{Spells}
use aws_architecture.Control.Secrets.{
  forbidden_secret_fields, assert_secret_metadata_only, redact_secret_material, is_forbidden,
}
use aws_architecture.Control.Secrets.Laws.{
  IsClean, IsRedacted, assert_secret_metadata_only_iff, redact-IsRedacted, redact_of_assert,
}
use aws_architecture.Control.Store.{Store, init}
use aws_architecture.Control.Api.Changes.{
  Request, NewChange, create_change, decide, decide_found, commit, require_control_write,
}
use aws_architecture.Base.Map.{set, get}
use aws_architecture.Control.Store.{get_change, save_change, get_page}
use aws_architecture.Control.Pages.{
  overview, health, observability, security, infrastructure, costs, backup_dr, drift, deployments,
}
use aws_architecture.Control.Store.{set_desired_state}
use aws_architecture.Control.Api.States.{licenses, check_desired_state, cleared}
use aws_architecture.Control.Api.Steps.{
  System, sets, notes, Step, creates, reads, saves, checks_state, sets_state, Reach, start, step,
}
use aws_architecture.Control.Api.System.{IsGovernedSystem, Reach-IsGoverned}
use aws_architecture.Control.Api.Production.{KeepsState, SetsState, put_desired_state-production}

abbrev input : ChangeInput
input = record {
  environment = "production";
  actor_id = "alice";
  operation = change_provider;
  capability = "cache";
  desired = obj end;
  impact_report = none;
  approved_by = none;
}

abbrev move : ChangeState → Move
move s = record { now = "t"; next = s; actor = "bob"; note = none }

abbrev whole : List Move
whole = map move (
    validating ∷ impact_analysis ∷ waiting_approval ∷ approved ∷ deploying ∷ verifying ∷ stabilizing
    ∷ completed ∷ [])

abbrev result : Result ChangeRequest → ChangeRequest
result (ok c) = c
result (throw e) = create "c1" "t" input

abbrev last : ChangeRequest
last = result (run (create "c1" "t" input) whole)

run-whole : run (create "c1" "t" input) whole ≡ ok last
unfolding create transition forward ChangeState-discrete
run-whole = refl

last_completed : last.state ≡ completed
unfolding create transition forward ChangeState-discrete
last_completed = refl

run-create_example : IsTrail last × (length last.audit ≡ length whole + 1) × (length whole ≤ 11)
run-create_example = run-create "c1" "t" input whole run-whole

run-completed_example :
    (w : Bool) × (p : Bool) × (map (λ e. e.state) last.audit ≡ draft ∷ route w p draft)
run-completed_example = run-completed "c1" "t" input whole run-whole last_completed

run-finishes_example :
    (ms : List Move) × (c : ChangeRequest) × (run last ms ≡ ok c)
    × ((c.state ≡ completed) ⊎ (c.state ≡ rolled_back))
run-finishes_example = run-finishes last "t" "bob"

abbrev clean : Json
clean = obj (field "name" (str "db") (field "rotation" (num 30) end))

assert_clean : assert_secret_metadata_only clean ≡ ok tt
unfolding assert_secret_metadata_only is_forbidden
assert_clean = refl

redact_of_assert_example : redact_secret_material clean ≡ clean
redact_of_assert_example = redact_of_assert clean assert_clean

abbrev leaking : Json
leaking = obj (field "items" (arr (cons (obj (field "API-Key" (str "k") end)) nil)) end)

leak_redacted :
    redact_secret_material leaking
    ≡ obj (field "items" (arr (cons (obj (field "API-Key" (str "[REDACTED]") end)) nil)) end)
unfolding redact_secret_material is_forbidden
leak_redacted = refl

assert_secret_metadata_only_iff_example :
    ((assert_secret_metadata_only leaking ≡ ok tt) ↔ IsClean leaking)
    × ((key word : String)
        → includes forbidden_secret_fields word ≡ true
        → Spells (codes key) (codes word)
        → is_forbidden key ≡ true)
assert_secret_metadata_only_iff_example = assert_secret_metadata_only_iff leaking

redact-IsRedacted_example :
    IsRedacted (redact_secret_material leaking)
    × (redact_secret_material (redact_secret_material leaking) ≡ redact_secret_material leaking)
redact-IsRedacted_example = redact-IsRedacted leaking

-- Two operators, and the store after a change that one requests and the other moves on.
abbrev operator : String → TenantContext
operator name = record {
  user_id = name;
  tenant_id = "t1";
  workspace_id = none;
  roles = "sre" ∷ [];
  permissions = "platform:write" ∷ [];
  session_id = none;
  mfa = true;
}

abbrev request : String → Request
request name = record { operator = operator name; id = "req"; clock = λ i. "t"; uuid = "c1" }

abbrev body : NewChange
body = record {
  environment = none;
  operation = change_provider;
  capability = "cache";
  desired = obj end;
}

abbrev y1 : System
y1 = record {
  store = (create_change "production" (request "alice") body (init "t")).0;
  pending = [];
}

y1-Reach : Reach "production" y1
unfolding init
y1-Reach =
    step (start (init "t") refl)
      (creates (record { store = init "t"; pending = [] }) (request "alice") body)

abbrev after_move : System → ChangeState → System
after_move y next = record {
  store =
      (commit (request "bob") (decide_found (request "bob") next none (get_change "c1" y.store))
        y.store).0;
  pending = [];
}

-- A transition whose read and write follow one another.
after_move-Reach :
    (s : Store) (next : ChangeState)
    → Reach "production" (record { store = s; pending = [] })
    → Reach "production" (after_move (record { store = s; pending = [] }) next)
unfolding require_control_write
after_move-Reach s next r =
    step (step r (reads (record { store = s; pending = [] }) (request "bob") "c1" next none refl))
      (saves s [] [] (request "bob") (decide_found (request "bob") next none (get_change "c1" s)))

abbrev y5 : System
y5 =
    after_move (after_move (after_move (after_move y1 validating) impact_analysis) waiting_approval)
      approved

y5-Reach : Reach "production" y5
y5-Reach = after_move-Reach _ approved (
    after_move-Reach _ waiting_approval
      (after_move-Reach _ impact_analysis (after_move-Reach _ validating y1-Reach)))

Reach-IsGoverned_example : IsGovernedSystem y5
Reach-IsGoverned_example = Reach-IsGoverned y5-Reach

-- Carol's request to set the state passes its tests, and waits for its write.
sample_cleared :
    check_desired_state "production" (request "carol") (some "c1") sample y5.store
    ≡ cleared (some "c1")
unfolding check_desired_state commit require_control_write get_change validate_platform_state
    create_change save_change set init create decide ChangeState-discrete forward
sample_cleared = refl

abbrev y6 : System
y6 = record { store = y5.store; pending = sets (request "carol") sample (some "c1") ∷ [] }

y6-Reach : Reach "production" y6
y6-Reach =
    step y5-Reach (checks_state y5 (request "carol") (some "c1") sample (some "c1") sample_cleared)

-- Its write may come after the change that it named has failed.
abbrev failed_meanwhile : System
failed_meanwhile = record {
  store =
      (commit (request "bob") (decide_found (request "bob") failed none (get_change "c1" y5.store))
        y5.store).0;
  pending = y6.pending;
}

failed_meanwhile-Reach : Reach "production" failed_meanwhile
unfolding require_control_write
failed_meanwhile-Reach = step (step y6-Reach (reads y6 (request "bob") "c1" failed none refl)) (
    saves y5.store y6.pending [] (request "bob")
      (decide_found (request "bob") failed none (get_change "c1" y5.store)))

abbrev set_late : System
set_late = record {
  store = set_desired_state "t" sample "carol" failed_meanwhile.store;
  pending = notes (request "carol") (some "c1") ∷ [];
}

set_late-Step : Step "production" failed_meanwhile set_late
set_late-Step = sets_state failed_meanwhile.store [] [] (request "carol") sample (some "c1")

put_desired_state-production_example :
    KeepsState failed_meanwhile.store set_late.store ⊎ SetsState failed_meanwhile set_late
put_desired_state-production_example =
    put_desired_state-production failed_meanwhile-Reach set_late-Step

-- The write is really made, and the change has failed by then.
written_late :
    (set_late.store.config_version ≡ failed_meanwhile.store.config_version + 1)
    × (licenses (get_change "c1" set_late.store) ≡ false)
unfolding set_desired_state commit require_control_write get_change create_change save_change set
    init create decide ChangeState-discrete forward get
written_late = (refl, refl)

show_overview-parts_example :
    Shows (show_overview "production" "eu" y5.store) "health" (get_page health y5.store).contents
    × Shows
        (show_overview "production" "eu" y5.store)
        "observability"
        (get_page observability y5.store).contents
    × Shows
        (show_overview "production" "eu" y5.store)
        "security"
        (get_page security y5.store).contents
    × Shows
        (show_overview "production" "eu" y5.store)
        "infrastructure"
        (get_page infrastructure y5.store).contents
    × Shows (show_overview "production" "eu" y5.store) "costs" (get_page costs y5.store).contents
    × Shows
        (show_overview "production" "eu" y5.store)
        "backupDr"
        (get_page backup_dr y5.store).contents
    × Shows (show_overview "production" "eu" y5.store) "drift" (get_page drift y5.store).contents
    × Shows
        (show_overview "production" "eu" y5.store)
        "deployments"
        (get_page deployments y5.store).contents
    × Shows
        (show_overview "production" "eu" y5.store)
        "updatedAt"
        (str (get_page overview y5.store).updated_at)
show_overview-parts_example = show_overview-parts "production" "eu" y5.store
