-- ===== src/Api/Requests/Admission.antt =====
-- Which requests the hook lets through, and what they use up (apps/api/src/server.ts).
use aws_architecture.Base.{
  Option-cases, ap, Failure, ℕ, String, true, false, Option, none, some, ◌≡◌, refl, Result, ok,
  throw, ok-injective, http, sym, subst, arith, Bool-cases, inl, inr, includes, >>-eq-ok,
  if◌then◌else◌, ◌↔◌,
}
use Prim.Native.String
use aws_architecture.Security.Context.{TenantContext}
use aws_architecture.Api.RateLimit.{Limiter, RateLimitResult, consume, enforce_rate_limit}
use aws_architecture.Api.Requests.{
  public_paths, path_of, route_of, limit_key, Limits, Incoming, use_quota, authenticated,
  on_request,
}

-- The daily quota, where there is one, has room.
abbrev pub HasQuota : ℕ → TenantContext → Option Limiter → Type 0
HasQuota now tenant none = Unit
HasQuota now tenant (some q) = (consume now tenant.tenant_id q).1.allowed ≡ true

some_injective {ℓ} : {A : Type ℓ} {x y : A} → some x ≡ some y → x ≡ y
some_injective h = cc

use_quota_iff :
    (now : ℕ) (tenant : TenantContext) (l : Limiter) (q : Option Limiter)
    → ((use_quota now tenant l q).1 ≡ ok (some tenant)) ↔ HasQuota now tenant q
unfolding enforce_rate_limit
use_quota_iff now tenant l none = ((λ h. tt), λ h. refl)
use_quota_iff now tenant l (some q) = elim (Bool-cases (consume now tenant.tenant_id q).1.allowed) [
  | inl e ↦ rw e ((λ h. refl), λ h. refl)
  | inr e ↦ rw e ((λ h. cc), λ h. cc)
]

use_quota-tenant :
    (now : ℕ) (tenant other : TenantContext) (l : Limiter) (q : Option Limiter)
    → (use_quota now tenant l q).1 ≡ ok (some other)
    → tenant ≡ other
use_quota-tenant now tenant other l none h = some_injective (ok-injective h)
use_quota-tenant now tenant other l (some q) h = some_injective (ok-injective (>>-eq-ok _ _ h).1)

-- The limiter's answer to a request of a tenant.
abbrev pub rate_answer : Incoming → TenantContext → Limits → RateLimitResult
rate_answer request tenant limits =
    (consume request.now (limit_key tenant (route_of request.route_url (path_of request.url)))
      limits.requests).1

-- The key of a tenant's requests to a route: the tenant, the workspace or `_root`, and the route.
abbrev pub own_key : TenantContext → String → String
own_key tenant route = elim tenant.workspace_id [
  | none ↦
      String.◌++◌ tenant.tenant_id (String.◌++◌ ":" (String.◌++◌ "_root" (String.◌++◌ ":" route)))
  | some w ↦ String.◌++◌ tenant.tenant_id (String.◌++◌ ":" (String.◌++◌ w (String.◌++◌ ":" route)))
]

limit_key-own :
    (tenant : TenantContext) (route : String) → limit_key tenant route ≡ own_key tenant route
unfolding limit_key
limit_key-own tenant route = elim (Option-cases tenant.workspace_id) [
  | inl e ↦ rw e refl
  | inr (w, e) ↦ rw e refl
]

abbrev pub own_answer : Incoming → TenantContext → Limits → RateLimitResult
own_answer request tenant limits =
    (consume request.now (own_key tenant (route_of request.route_url (path_of request.url)))
      limits.requests).1

rate_answer-own :
    (request : Incoming) (tenant : TenantContext) (limits : Limits)
    → rate_answer request tenant limits ≡ own_answer request tenant limits
rate_answer-own request tenant limits =
    ap (λ k. (consume request.now k limits.requests).1)
      (limit_key-own tenant (route_of request.route_url (path_of request.url)))

-- A request that needs a tenant, has one, and is within its rate and quota.
pub record IsAdmitted (authenticate : Option String → Result TenantContext) (request : Incoming)
    (limits : Limits) (tenant : TenantContext) : Type 0 where
  pub is_private : includes public_paths (path_of request.url) ≡ false
  pub known : authenticate request.authorization ≡ ok tenant
  pub within_rate : (own_answer request tenant limits).allowed ≡ true
  pub within_quota : HasQuota request.now tenant limits.quota

module _ (request : Incoming) (limits : Limits) where
  admitted :
      (who : Result TenantContext) (tenant : TenantContext)
      → (authenticated request limits who).1 ≡ ok (some tenant)
      → (who ≡ ok tenant)
        × ((rate_answer request tenant limits).allowed ≡ true)
        × HasQuota request.now tenant limits.quota
  admitted (throw e) tenant h = cc
  admitted (ok t) tenant h = elim (Bool-cases (rate_answer request t limits).allowed) [
    | inr e ↦
        let stopped =
          subst
            (λ b.
              (if b
                then use_quota request.now t after limits.quota
                else (record limits { requests = after }, rejected)).1
              ≡ ok (some tenant))
            e h in
        cc
    | inl e ↦
        let passed : (use_quota request.now t after limits.quota).1 ≡ ok (some tenant) =
          subst
            (λ b.
              (if b
                then use_quota request.now t after limits.quota
                else (record limits { requests = after }, rejected)).1
              ≡ ok (some tenant))
            e h in
        let same = use_quota-tenant request.now t tenant after limits.quota passed in
        let own =
          subst (λ x. (use_quota request.now t after limits.quota).1 ≡ ok (some x)) (sym same)
            passed in
        subst
          (λ x.
            (ok t ≡ ok x)
            × ((rate_answer request x limits).allowed ≡ true)
            × HasQuota request.now x limits.quota)
          same (refl, e, (use_quota_iff request.now t after limits.quota).0 own)
  ]
    where
      after : Limiter
      after =
          (consume request.now (limit_key t (route_of request.route_url (path_of request.url)))
            limits.requests).0

      rejected : Result (Option TenantContext)
      rejected = throw (http 429 "RATE_LIMITED" "Request rate limit exceeded")

  admits :
      (tenant : TenantContext)
      → (rate_answer request tenant limits).allowed ≡ true
      → HasQuota request.now tenant limits.quota
      → (authenticated request limits (ok tenant)).1 ≡ ok (some tenant)
  admits tenant rate quota = rw rate ((use_quota_iff request.now tenant _ limits.quota).1 quota)

with_tenant :
    (authenticate : Option String → Result TenantContext) (request : Incoming) (limits : Limits)
    (tenant : TenantContext)
    → ((on_request authenticate request limits).1 ≡ ok (some tenant))
      ↔ IsAdmitted authenticate request limits tenant
unfolding on_request
with_tenant authenticate request limits tenant =
    elim (Bool-cases (includes public_paths (path_of request.url))) [
      | inl e ↦ rw e ((λ h. cc), λ h. ground (arith, h.is_private))
      | inr e ↦ rw e (
        λ h.
            let (known, rate, quota) =
              admitted request limits (authenticate request.authorization) tenant h in
            record {
              is_private = e;
              known = known;
              within_rate =
                  subst (λ a. a.allowed ≡ true) (rate_answer-own request tenant limits) rate;
              within_quota = quota;
            },
        λ h.
            let rate =
              subst (λ a. a.allowed ≡ true) (sym (rate_answer-own request tenant limits))
                h.within_rate in
            rw h.known (admits request limits tenant rate h.within_quota),
      )
    ]

-- A request with a tenant never goes on without one.
quota_named :
    (now : ℕ) (tenant : TenantContext) (l : Limiter) (q : Option Limiter)
    → (use_quota now tenant l q).1 ≡ ok none
    → ⊥
quota_named now tenant l none h = cc
quota_named now tenant l (some q) h = not_named (>>-eq-ok _ _ h).1
  where
    not_named : ok (some tenant) ≡ ok none → ⊥
    not_named e = cc

named :
    (request : Incoming) (limits : Limits) (who : Result TenantContext)
    → (authenticated request limits who).1 ≡ ok none
    → ⊥
named request limits (throw e) h = cc
named request limits (ok t) h = elim (Bool-cases (rate_answer request t limits).allowed) [
  | inl e ↦ quota_named request.now t _ limits.quota (rw e at h)
  | inr e ↦ stopped (rw e at h)
]
  where
    stopped : {e : Failure} {o : Option TenantContext} → throw e ≡ ok o → ⊥
    stopped k = cc

without_tenant :
    (authenticate : Option String → Result TenantContext) (request : Incoming) (limits : Limits)
    → ((on_request authenticate request limits).1 ≡ ok none)
      ↔ (includes public_paths (path_of request.url) ≡ true)
unfolding on_request
without_tenant authenticate request limits =
    elim (Bool-cases (includes public_paths (path_of request.url))) [
      | inl e ↦ rw e ((λ h. refl), λ h. refl)
      | inr e ↦
          rw e
            ((λ h. absurd (named request limits (authenticate request.authorization) h)), λ h. cc)
    ]

-- A request goes on with a tenant exactly if its path is not public, it authenticates as that tenant,
-- the limiter lets the key of its tenant, workspace and route through, and so does the tenant's daily
-- quota where there is one; it goes on without a tenant exactly if its path is public.
pub on_request-IsAdmitted :
    (authenticate : Option String → Result TenantContext) (request : Incoming) (limits : Limits)
    (tenant : TenantContext)
    → (((on_request authenticate request limits).1 ≡ ok (some tenant))
        ↔ IsAdmitted authenticate request limits tenant)
      × (((on_request authenticate request limits).1 ≡ ok none)
          ↔ (includes public_paths (path_of request.url) ≡ true))
on_request-IsAdmitted authenticate request limits tenant =
    (with_tenant authenticate request limits tenant, without_tenant authenticate request limits)
