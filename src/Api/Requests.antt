-- ===== src/Api/Requests.antt =====
-- The request hook and the error handler (apps/api/src/server.ts). Authentication is a library's and a
-- parameter; the path of the route is the framework's. Response headers are not modelled.
pub mod Admission
use aws_architecture.Base.{
  ℕ, String, Bool, true, false, not, Option, none, some, List, [], ◌∷◌, ◌==◌, if◌then◌else◌, truthy,
  includes, Failure, error, coded, http, Result, ok, throw, ◌>>◌,
}
use Prim.Native.Char.{code}
use Prim.Native.String
use aws_architecture.Security.Context.{TenantContext}
use aws_architecture.Api.RateLimit.{Limiter, RateLimitResult, consume, enforce_rate_limit}

unfoldable pub public_paths : List String
public_paths = "/health" ∷ "/health/live" ∷ "/health/ready" ∷ "/health/startup" ∷ []

-- `request.url.split('?')[0]`.
unfoldable pub path_of : String → String
path_of String.[] = String.[]
path_of (String.◌∷◌ c s) =
    let rest = path_of s in if code c == b'?' then String.[] else String.◌∷◌ c rest

-- `request.routeOptions.url || path`.
abbrev route_of : Option String → String → String
route_of none path = path
route_of (some url) path = if truthy url then url else path

unfoldable pub limit_key : TenantContext → (route : String) → String
limit_key tenant route =
    let workspace : String = elim tenant.workspace_id [ none ↦ "_root" | some w ↦ w ] in
    String.◌++◌ tenant.tenant_id (String.◌++◌ ":" (String.◌++◌ workspace (String.◌++◌ ":" route)))

-- The limiter of requests and, where one is configured, the daily quota.
pub record Limits : Type 0 where
  pub requests : Limiter
  pub quota : Option Limiter

pub record Incoming : Type 0 where
  pub now : ℕ
  pub url : String
  pub route_url : Option String
  pub authorization : Option String

-- What follows once the request is within its rate.
abbrev pub use_quota :
    ℕ → TenantContext → Limiter → Option Limiter → Limits × Result (Option TenantContext)
use_quota now tenant requests none =
    (record { requests = requests; quota = none }, ok (some tenant))
use_quota now tenant requests (some q) =
    let (after, answer) = consume now tenant.tenant_id q in
    let enforced =
      enforce_rate_limit answer "QUOTA_EXCEEDED" "Tenant daily request quota exceeded" in
    (record { requests = requests; quota = some after }, enforced >> ok (some tenant))

-- What follows for an authenticated tenant.
abbrev pub use_limits :
    ℕ → TenantContext → (key : String) → Limits → Limits × Result (Option TenantContext)
use_limits now tenant key limits =
    let (after, answer) = consume now key limits.requests in
    let admitted = use_quota now tenant after limits.quota in
    if answer.allowed then admitted else (
      record limits { requests = after },
      throw (http 429 "RATE_LIMITED" "Request rate limit exceeded"),
    )

abbrev pub authenticated :
    Incoming → Limits → Result TenantContext → Limits × Result (Option TenantContext)
authenticated request limits (throw e) = (limits, throw e)
authenticated request limits (ok tenant) =
    use_limits request.now tenant
      (limit_key tenant (route_of request.route_url (path_of request.url))) limits

-- The `onRequest` hook: the tenant of the request, if it needs one.
unfoldable pub on_request :
    (authenticate : Option String → Result TenantContext)
    → Incoming
    → Limits
    → Limits × Result (Option TenantContext)
unfolding public_paths
on_request authenticate request limits =
    if includes public_paths (path_of request.url)
    then (limits, ok none)
    else authenticated request limits (authenticate request.authorization)

pub record ErrorReply : Type 0 where
  pub status : ℕ
  pub code : String
  pub message : String

-- The error handler, for an error that the framework's validation made or another.
unfoldable pub on_error : (validation : Bool) → Failure → ErrorReply
on_error validation (http status code message) = record {
  status = status;
  code = code;
  message = message;
}
on_error true _ = record {
  status = 400;
  code = "VALIDATION_ERROR";
  message = "Request validation failed";
}
on_error false _ = record {
  status = 500;
  code = "INTERNAL_ERROR";
  message = "An internal error occurred";
}
