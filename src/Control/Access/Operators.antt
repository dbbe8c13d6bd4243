-- ===== src/Control/Access/Operators.antt =====
-- Who the operators of the control API are (apps/platform-control-api/src/auth.ts).
use aws_architecture.Base.{
  not-false, String, true, false, not, Option, none, some, ◌≡◌, refl, subst, arith, Bool-cases, inl,
  inr, includes, any, error, coded, http, Result, ok, throw, reject_if, reject_if-ok, ok-injective,
  ◌>>=◌, >>=-eq-ok, >>-eq-ok,
}
use aws_architecture.Security.Context.{TenantContext}
use aws_architecture.Api.Requests.{path_of}
use aws_architecture.Control.Access.{
  control_public_paths, privileged_roles, as_invalid, privileged_context,
  authenticate_control_operator, control_on_request,
}

as_invalid-ok :
    (r : Result TenantContext) (ctx : TenantContext) → as_invalid r ≡ ok ctx → r ≡ ok ctx
as_invalid-ok (ok x) ctx h = h
as_invalid-ok (throw (error m)) ctx h = cc
as_invalid-ok (throw (coded c m)) ctx h = cc
as_invalid-ok (throw (http s c m)) ctx h = cc

public_none :
    {ctx : TenantContext} → ¬ Path (Result (Option TenantContext)) (ok none) (ok (some ctx))
public_none h = cc

operator_of :
    (r : Result TenantContext) (ctx : TenantContext)
    → Path (Result (Option TenantContext)) (do operator ← r; ok (some operator)) (ok (some ctx))
    → r ≡ ok ctx
operator_of (ok x) ctx h = cc
operator_of (throw e) ctx h = cc

module _ (verify : String → Result TenantContext) where
  -- A verified token of a user with a privileged role and a second factor.
  pub record IsOperator (token : Option String) (ctx : TenantContext) : Type 0 where
    pub bearer : String
    pub given : token ≡ some bearer
    pub verified : verify bearer ≡ ok ctx
    pub privileged : any (includes privileged_roles) ctx.roles ≡ true
    pub second_factor : ctx.mfa ≡ true

  authenticate_control_operator-IsOperator :
      (token : Option String) (ctx : TenantContext)
      → authenticate_control_operator verify token ≡ ok ctx
      → IsOperator token ctx
  unfolding authenticate_control_operator privileged_context
  authenticate_control_operator-IsOperator none ctx h = cc
  authenticate_control_operator-IsOperator (some bearer) ctx h =
      let (c, verified, rest) = >>=-eq-ok (verify bearer) _ (as_invalid-ok _ ctx h) in
      let (role, rest') =
        >>-eq-ok (reject_if (not (any (includes privileged_roles) c.roles)) _) _ rest in
      let (factor, last) = >>-eq-ok (reject_if (not c.mfa) _) _ rest' in
      subst (IsOperator (some bearer)) (ok-injective last) (record {
        bearer = bearer;
        given = refl;
        verified = verified;
        privileged = not-false _ (reject_if-ok _ _ role);
        second_factor = not-false _ (reject_if-ok _ _ factor);
      })

  -- A request gets an operator only by a verified token of a privileged user with a second factor, and
  -- never on a public path.
  pub control_on_request-IsOperator :
      (url : String) (token : Option String) (ctx : TenantContext)
      → control_on_request verify url token ≡ ok (some ctx)
      → IsOperator token ctx × (includes control_public_paths (path_of url) ≡ false)
  unfolding control_on_request
  control_on_request-IsOperator url token ctx h =
      elim (Bool-cases (includes control_public_paths (path_of url))) [
        | inl e ↦ absurd (public_none {ctx = ctx} (ground arith))
        | inr e ↦ (
          authenticate_control_operator-IsOperator token ctx
              (operator_of (authenticate_control_operator verify token) ctx (ground arith)),
          e,
        )
      ]
