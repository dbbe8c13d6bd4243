-- ===== src/Policy.antt =====
-- The platform policy engine (packages/policy-engine/src/index.ts). An environment is any string:
-- it is read from the process environment unchecked.
pub mod Laws
mod Tests
use aws_architecture.Base.{
  ℕ, String, Bool, true, false, not, ◌&&◌, ◌||◌, Option, none, some, List, [], ◌∷◌, ◌++◌, ◌===◌,
  ◌==◌, if◌then◌else◌, any, includes,
}
use aws_architecture.Base.Text.{codes, trim, lower, is_space, same_codes, includes_codes}

pub data SwitchClass : Type 0 where
  runtime application_provider infrastructure compute_migration locked : SwitchClass

pub data PolicyOperation : Type 0 where
  enable disable change_provider stop destroy : PolicyOperation

unfoldable pub locked_production_capabilities : List String
locked_production_capabilities =
    "authentication" ∷ "authorization" ∷ "tenant_isolation" ∷ "primary_persistent_datastore"
    ∷ "tls_encryption" ∷ "secure_secret_handling" ∷ "sensitive_operation_audit"
    ∷ "structured_logging" ∷ "input_validation" ∷ "backup_policy" ∷ "database_migration_system"
    ∷ "configuration_validation" ∷ []

unfoldable pub aliases : List (String × String)
aliases =
    ("auth", "authentication")
    ∷ ("database", "primary_persistent_datastore")
    ∷ ("postgres", "primary_persistent_datastore")
    ∷ ("postgresql", "primary_persistent_datastore")
    ∷ ("tls", "tls_encryption")
    ∷ ("encryption", "tls_encryption")
    ∷ ("secrets", "secure_secret_handling")
    ∷ ("audit", "sensitive_operation_audit")
    ∷ ("logging", "structured_logging")
    ∷ ("validation", "input_validation")
    ∷ ("backup", "backup_policy")
    ∷ ("migrations", "database_migration_system")
    ∷ ("config_validation", "configuration_validation")
    ∷ []

-- The characters of `[\s.-]`.
is_separator : ℕ → Bool
unfolding is_space
is_separator c = is_space c || c == b'.' || c == b'-'

-- `replace(/[\s.-]+/g, '_')`: each run of separators becomes one `_`. The flag says that the last
-- character was in a run.
join_words : Bool → List ℕ → List ℕ
unfolding is_separator
join_words inside [] = []
join_words inside (c ∷ cs) =
    (if is_separator c then (if inside then [] else b'_' ∷ []) else c ∷ [])
    ++ join_words (is_separator c) cs

-- The canonical name of a capability, by its code points.
unfoldable pub canonical_capability_name : String → List ℕ
unfolding join_words trim lower
canonical_capability_name v = join_words false (lower (trim (codes v)))

-- `aliases[c] ?? c`.
resolve_alias : List (String × String) → List ℕ → List ℕ
unfolding same_codes
resolve_alias [] c = c
resolve_alias ((short, long) ∷ rest) c =
    if same_codes (codes short) c then codes long else resolve_alias rest c

unfoldable pub is_locked_production_capability : String → Bool
unfolding canonical_capability_name resolve_alias includes_codes aliases
    locked_production_capabilities
is_locked_production_capability v =
    includes_codes locked_production_capabilities
      (resolve_alias aliases (canonical_capability_name v))

-- The canonical name, if it is that of a locked capability.
unfoldable pub locked_production_capability : String → Option (List ℕ)
unfolding is_locked_production_capability
locked_production_capability v =
    let canonical = resolve_alias aliases (canonical_capability_name v) in
    if includes_codes locked_production_capabilities canonical then some canonical else none

pub record PolicyContext : Type 0 where
  pub environment : String
  pub actor_roles : List String
  pub switch_class : SwitchClass
  pub operation : PolicyOperation
  pub capability : String
  pub approved : Bool

pub data Reason : Type 0 where
  platform_admin_role_required locked_capability production_approval_required
        runtime_switch_cannot_destroy_infrastructure :
      Reason

pub record Verdict : Type 0 where
  pub allowed : Bool
  pub reasons : List Reason
  pub approval_required : Bool

abbrev pub privileged_roles : List String
privileged_roles = "platform-admin" ∷ "sre" ∷ "security-admin" ∷ "devops" ∷ []

abbrev pub is_removal : PolicyOperation → Bool
is_removal disable = true
is_removal stop = true
is_removal destroy = true
is_removal _ = false

abbrev pub needs_approval : SwitchClass → Bool
needs_approval application_provider = true
needs_approval infrastructure = true
needs_approval compute_migration = true
needs_approval _ = false

abbrev is_destroy : PolicyOperation → Bool
is_destroy destroy = true
is_destroy _ = false

abbrev is_runtime : SwitchClass → Bool
is_runtime runtime = true
is_runtime _ = false

-- `if (bad) reasons.push(reason)`.
abbrev pub when_bad {ℓ} : {A : Type ℓ} → Bool → A → List A
when_bad true reason = reason ∷ []
when_bad false reason = []

abbrev is_empty {ℓ} : {A : Type ℓ} → List A → Bool
is_empty [] = true
is_empty (x ∷ xs) = false

unfoldable pub evaluate_platform_policy : PolicyContext → Verdict
evaluate_platform_policy c =
    let production = c.environment === "production" in
    let privileged = any (includes privileged_roles) c.actor_roles in
    let approval_required = production && needs_approval c.switch_class in
    let reasons =
      when_bad (not privileged) platform_admin_role_required
      ++ (when_bad
            (production && is_removal c.operation && is_locked_production_capability c.capability)
            locked_capability
          ++ (when_bad (approval_required && not c.approved) production_approval_required
              ++ when_bad (is_destroy c.operation && is_runtime c.switch_class)
                  runtime_switch_cannot_destroy_infrastructure)) in
    record { allowed = is_empty reasons; reasons = reasons; approval_required = approval_required }
