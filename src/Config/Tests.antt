-- ===== src/Config/Tests.antt =====
-- A desired state that passes, one that fails, and the theorems at them.
use aws_architecture.Base.{[], ◌∷◌, ◌≡◌, ◌↔◌, refl, ok}
use aws_architecture.Base.Json.{obj, end}
use aws_architecture.Config.Sample.{sample}
use aws_architecture.Config.Validate.{issue, validate_desired_state}
use aws_architecture.Config.Validate.Valid.{IsValidState, validate_desired_state-nil}
use aws_architecture.Config.Dependency.{resolve_dependency_issues, assert_dependencies}
use aws_architecture.Config.Dependency.Sound.{resolve_dependency_issues-valid}

sample_valid : validate_desired_state sample ≡ []
unfolding validate_desired_state
sample_valid = refl

empty_invalid : validate_desired_state (obj end) ≡ issue "$" "INVALID_SHAPE" ∷ []
unfolding validate_desired_state
empty_invalid = refl

validate_desired_state-nil_example : (validate_desired_state sample ≡ []) ↔ IsValidState sample
validate_desired_state-nil_example = validate_desired_state-nil sample

resolve_dependency_issues-valid_example :
    (resolve_dependency_issues sample ≡ ok []) × (assert_dependencies sample ≡ ok tt)
resolve_dependency_issues-valid_example = resolve_dependency_issues-valid sample sample_valid
