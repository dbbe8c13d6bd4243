-- ===== src/Policy/Laws.antt =====
-- When the platform policy allows a switch (packages/policy-engine/src/index.ts).
use aws_architecture.Base.{
  true, false, ◌≡◌, ◌≢◌, ◌↔◌, ◌⊎◌, inl, inr, refl, any, includes, arith, eq_iff,
}
use aws_architecture.Policy.{
  SwitchClass, runtime, application_provider, infrastructure, compute_migration, locked,
  PolicyOperation, enable, disable, change_provider, stop, destroy, PolicyContext,
  evaluate_platform_policy, is_locked_production_capability, privileged_roles, is_removal,
  needs_approval,
}

-- The operations that take something away, and the classes of switches that need approval.
abbrev pub Removes : PolicyOperation → Type 0
Removes o = (o ≡ disable) ⊎ (o ≡ stop) ⊎ (o ≡ destroy)

abbrev pub Weighs : SwitchClass → Type 0
Weighs k = (k ≡ application_provider) ⊎ (k ≡ infrastructure) ⊎ (k ≡ compute_migration)

-- What the policy asks for, rule by rule.
pub record IsPermitted (c : PolicyContext) : Type 0 where
  pub privileged : any (includes privileged_roles) c.actor_roles ≡ true
  pub keeps_locked :
      c.environment ≡ "production"
      → Removes c.operation
      → is_locked_production_capability c.capability ≡ false
  pub approval : c.environment ≡ "production" → Weighs c.switch_class → c.approved ≡ true
  pub runtime_kept : c.operation ≡ destroy → c.switch_class ≢ runtime

is_removal-Removes : (o : PolicyOperation) → is_removal o ≡ true → Removes o
is_removal-Removes disable h = inl refl
is_removal-Removes stop h = inr (inl refl)
is_removal-Removes destroy h = inr (inr refl)
is_removal-Removes enable h = cc
is_removal-Removes change_provider h = cc

removal : (o : PolicyOperation) → Removes o → is_removal o ≡ true
removal o (inl e) = rw e refl
removal o (inr (inl e)) = rw e refl
removal o (inr (inr e)) = rw e refl

needs_approval-Weighs : (k : SwitchClass) → needs_approval k ≡ true → Weighs k
needs_approval-Weighs application_provider h = inl refl
needs_approval-Weighs infrastructure h = inr (inl refl)
needs_approval-Weighs compute_migration h = inr (inr refl)
needs_approval-Weighs runtime h = cc
needs_approval-Weighs locked h = cc

approval_needed : (k : SwitchClass) → Weighs k → needs_approval k ≡ true
approval_needed k (inl e) = rw e refl
approval_needed k (inr (inl e)) = rw e refl
approval_needed k (inr (inr e)) = rw e refl

permitted : (c : PolicyContext) → (evaluate_platform_policy c).allowed ≡ true → IsPermitted c
unfolding evaluate_platform_policy
permitted c h = record {
  privileged = ground arith;
  keeps_locked = λ p r.
      let removes = removal c.operation r in ground (arith, eq_iff c.environment "production");
  approval = λ p r.
      let needs = approval_needed c.switch_class r in
      ground (arith, eq_iff c.environment "production");
  runtime_kept = λ d r. ground arith;
}

allowed : (c : PolicyContext) → IsPermitted c → (evaluate_platform_policy c).allowed ≡ true
unfolding evaluate_platform_policy
allowed c h =
    let keeps : c.environment ≡ "production"
        → is_removal c.operation ≡ true
        → is_locked_production_capability c.capability ≡ false =
      λ p r. h.keeps_locked p (is_removal-Removes c.operation r) in
    let approval : c.environment ≡ "production"
        → needs_approval c.switch_class ≡ true
        → c.approved ≡ true =
      λ p r. h.approval p (needs_approval-Weighs c.switch_class r) in
    grind (arith, eq_iff c.environment "production", h.privileged, keeps, approval, h.runtime_kept)

-- The policy allows a switch exactly when the actor holds a privileged role, no capability that counts
-- as locked is disabled, stopped or destroyed in production, a production switch of an application
-- provider, of the infrastructure or of a compute migration is approved, and no runtime switch destroys
-- anything.
pub evaluate_platform_policy-allowed :
    (c : PolicyContext) → ((evaluate_platform_policy c).allowed ≡ true) ↔ IsPermitted c
evaluate_platform_policy-allowed c = (permitted c, allowed c)
