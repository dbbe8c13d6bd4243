-- ===== src/Operations/Sources.antt =====
-- The sources of security data: GuardDuty, Security Hub, Inspector and CloudTrail
-- (services/operations/src/aws-operations-collector.ts, types.ts).
use aws_architecture.Base.{
  ℕ, ◌+◌, String, Option, none, some, List, [], ◌∷◌, ◌===◌, present, length, if◌then◌else◌,
}
use aws_architecture.Base.Json.{
  Json, null, bool, str, arr, obj, Items, nil, cons, Fields, end, field,
}

pub data SourceState : Type 0 where
  healthy degraded unavailable not_configured : SourceState

pub record SourceSummary : Type 0 where
  pub state : SourceState
  pub count : Option ℕ
  pub critical : Option ℕ
  pub high : Option ℕ
  pub medium : Option ℕ
  pub low : Option ℕ
  pub details : Option Fields

-- What `safe` returns of a command: its value, or the name of the error.
pub data Answer {ℓ} (T : Type ℓ) : Type ℓ where
  answered : T → Answer T
  failed : (code : String) → Answer T

-- `errorCode`, of an error's name.
unfoldable pub error_code : Option String → String
error_code none = "AWS_OPERATION_FAILED"
error_code (some name) = name

abbrev bare : SourceState → Option ℕ → Option Fields → SourceSummary
bare state count details = record {
  state = state;
  count = count;
  critical = none;
  high = none;
  medium = none;
  low = none;
  details = details;
}

abbrev pub unavailable_source : (code : String) → SourceSummary
unavailable_source code = bare unavailable none (some (field "errorCode" (str code) end))

abbrev truncated : Option String → Fields
truncated token = field "truncated" (bool (present token)) end

-- `collectGuardDuty`: the detectors, then the findings of the first.
abbrev pub guard_duty_findings : Answer (List String × Option String) → SourceSummary
guard_duty_findings (failed code) = unavailable_source code
guard_duty_findings (answered (ids, token)) =
    bare healthy (some (length ids)) (some (truncated token))

unfoldable pub collect_guard_duty :
    Answer (List String)
    → (findings : String → Answer (List String × Option String)) → SourceSummary
collect_guard_duty (failed code) findings = unavailable_source code
collect_guard_duty (answered []) findings = bare not_configured (some 0) none
collect_guard_duty (answered (id ∷ ids)) findings =
    if id === "" then bare not_configured (some 0) none else guard_duty_findings (findings id)

pub record Counts : Type 0 where
  pub critical : ℕ
  pub high : ℕ
  pub medium : ℕ
  pub low : ℕ

abbrev pub add_label : Option String → Counts → Counts
add_label none c = c
add_label (some label) c =
    if label === "CRITICAL"
    then record c { critical = c.critical + 1 }
    else if label === "HIGH"
    then record c { high = c.high + 1 }
    else if label === "MEDIUM"
    then record c { medium = c.medium + 1 }
    else if label === "LOW"
    then record c { low = c.low + 1 }
    else c

-- The loop over the findings' severities.
unfoldable pub count_labels : List (Option String) → Counts → Counts
count_labels [] c = c
count_labels (label ∷ labels) c = count_labels labels (add_label label c)

abbrev pub no_counts : Counts
no_counts = record { critical = 0; high = 0; medium = 0; low = 0 }

abbrev counted : List (Option String) → Option String → Counts → SourceSummary
counted labels token c = record {
  state = healthy;
  count = some (length labels);
  critical = some c.critical;
  high = some c.high;
  medium = some c.medium;
  low = some c.low;
  details = some (truncated token);
}

-- `collectSecurityHub`: the labels of the findings and the token of the next page.
unfoldable pub collect_security_hub : Answer (List (Option String) × Option String) → SourceSummary
unfolding count_labels
collect_security_hub (failed code) = unavailable_source code
collect_security_hub (answered (labels, token)) =
    counted labels token (count_labels labels no_counts)

-- `collectInspector`.
unfoldable pub collect_inspector : Answer (List (Option String) × Option String) → SourceSummary
unfolding count_labels
collect_inspector (failed code) = unavailable_source code
collect_inspector (answered (labels, token)) = counted labels token (count_labels labels no_counts)

pub record TrailEvent : Type 0 where
  pub event_name : Option String
  pub event_time : Option String
  pub username : Option String

-- `v ?? null`, and `v ?? d`.
abbrev pub or_null : Option String → Json
or_null none = null
or_null (some s) = str s

abbrev pub or_text : String → Option String → Json
or_text d none = str d
or_text d (some s) = str s

trail_items : List TrailEvent → Items
trail_items [] = nil
trail_items (e ∷ es) =
    cons
      (obj (
        field "eventName" (or_text "unknown" e.event_name)
          (field "eventTime" (or_null e.event_time) (field "username" (or_null e.username) end))))
      (trail_items es)

-- `collectCloudTrail`.
unfoldable pub collect_cloud_trail : Answer (List TrailEvent) → SourceSummary
unfolding trail_items
collect_cloud_trail (failed code) = unavailable_source code
collect_cloud_trail (answered events) =
    bare healthy (some (length events)) (some (field "events" (arr (trail_items events)) end))
