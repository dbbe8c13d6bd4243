-- ===== src/Config/Locked.antt =====
-- Full validation with the locked production policy (packages/config-engine/src/validate-all.ts,
-- `assertLockedState` of packages/policy-engine/src/index.ts).
use aws_architecture.Base.{
  String, Bool, true, false, not, ◌&&◌, Option, none, some, List, [], ◌∷◌, ◌++◌, ◌===◌,
  if◌then◌else◌, Result, ok, throw, error, ◌>>=◌,
}
use aws_architecture.Base.Json.{Json, null, is_set, member}
use aws_architecture.Config.Validate.{ValidationIssue, issue, when, validate_desired_state}

-- `v.k` on a value that may be null or undefined, where it throws a TypeError.
unfoldable pub read : String → Option Json → Result (Option Json)
unfolding member
read k none = throw (error "Cannot read properties of undefined")
read k (some v) = elim v [
  | null ↦ throw (error "Cannot read properties of null")
  | other ↦ ok (member k other)
]

abbrev violation : List String → Result (Unit {0})
violation [] = ok tt
violation (x ∷ xs) = throw (error "Locked production capabilities disabled")

-- The names in the message are not modelled.
unfoldable pub check_locked : Json → Result (Unit {0})
unfolding read
check_locked state = do
  platform ← read "platform" (some state)
  database ← read "database" platform
  enabled ← read "enabled" database
  observability ← read "observability" platform
  logging ← read "logging" observability
  violation (
      when (not (is_set enabled)) "primary_persistent_datastore"
      ++ when (not (is_set logging)) "structured_logging")

unfoldable pub assert_locked_state : Json → (environment : String) → Result (Unit {0})
unfolding check_locked
assert_locked_state state environment =
    if environment === "production" then check_locked state else ok tt

pub record FullValidationResult : Type 0 where
  pub valid : Bool
  pub schema_issues : List ValidationIssue
  pub dependency_issues : List ValidationIssue

abbrev locked_issue : Result (Unit {0}) → List ValidationIssue
locked_issue (ok _) = []
locked_issue (throw _) = issue "platform" "LOCKED_POLICY" ∷ []

abbrev is_empty {ℓ} : {A : Type ℓ} → List A → Bool
is_empty [] = true
is_empty (x ∷ xs) = false

unfoldable pub validate_platform_state : Json → (environment : String) → FullValidationResult
unfolding validate_desired_state assert_locked_state
validate_platform_state state environment =
    let schema_issues =
      validate_desired_state state ++ locked_issue (assert_locked_state state environment) in
    let dependency_issues : List ValidationIssue = [] in
    record {
      valid = is_empty schema_issues && is_empty dependency_issues;
      schema_issues = schema_issues;
      dependency_issues = dependency_issues;
    }
