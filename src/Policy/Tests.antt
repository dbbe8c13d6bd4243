-- ===== src/Policy/Tests.antt =====
-- The policy on a switch that it allows and on one that it refuses.
use aws_architecture.Base.{true, false, [], ◌∷◌, ◌≡◌, ◌↔◌, refl}
use aws_architecture.Policy.{
  infrastructure, disable, PolicyContext, evaluate_platform_policy, is_locked_production_capability,
}
use aws_architecture.Policy.Laws.{IsPermitted, evaluate_platform_policy-allowed}

abbrev switch : PolicyContext
switch = record {
  environment = "production";
  actor_roles = "sre" ∷ [];
  switch_class = infrastructure;
  operation = disable;
  capability = "cache";
  approved = true;
}

switch_allowed : (evaluate_platform_policy switch).allowed ≡ true
unfolding evaluate_platform_policy is_locked_production_capability
switch_allowed = refl

-- An alias in another spelling does not get past the policy.
locked_refused :
    (evaluate_platform_policy (record switch { capability = " PostgreSQL " })).allowed ≡ false
unfolding evaluate_platform_policy is_locked_production_capability
locked_refused = refl

evaluate_platform_policy-allowed_example :
    ((evaluate_platform_policy switch).allowed ≡ true) ↔ IsPermitted switch
evaluate_platform_policy-allowed_example = evaluate_platform_policy-allowed switch
