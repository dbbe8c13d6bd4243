-- ===== src/Api/Tests.antt =====
-- The rate limiter, the idempotent responses and the request hook on a few requests.
use aws_architecture.Base.{
  none, false, ◌↔◌, ◌≡◌, ◌-◌, min, some, [], ◌∷◌, List, All, arith, refl, ok,
}
use aws_architecture.Api.RateLimit.{enforce_rate_limit, Limiter, consume, tidy, limiter}
use aws_architecture.Security.Context.{TenantContext}
use aws_architecture.Api.Requests.{Limits, Incoming, on_request, path_of}
use aws_architecture.Api.Requests.{public_paths}
use aws_architecture.Base.{includes, true}
use aws_architecture.Api.Requests.Admission.{IsAdmitted, on_request-IsAdmitted}
use aws_architecture.Base.Map.{get, set}
use aws_architecture.Api.RateLimit.Bounds.{
  IsBounded, IsAccounted, consume-IsBounded, limiter-IsBounded,
}
use aws_architecture.Api.Idempotency.{IdempotentResponse, Event, looks, commits, serve, serve_all}
use aws_architecture.Api.Idempotency.Replay.{Repeats, serve_all-first}
use aws_architecture.Api.RateLimit.Burst.{IsLive, allowed_count, allowed_count-eq}

abbrev fresh : Limiter
fresh = record { max = 2; window_ms = 100; max_tracked_keys = 2; windows = []; operations = 0 }

fresh-IsBounded : IsBounded fresh
unfolding limiter
fresh-IsBounded = limiter-IsBounded 2 100 2 refl

abbrev one : Limiter
one = (consume 5 "k" fresh).0

consume-IsBounded_example :
    IsBounded (consume 5 "k" fresh).0
    × IsAccounted "k" (consume 5 "k" fresh).0 (consume 5 "k" fresh).1
consume-IsBounded_example = consume-IsBounded 5 "k" fresh refl fresh-IsBounded

one-IsLive : IsLive "k" 2 2 1 105 one
unfolding consume get tidy set
one-IsLive = record { limit = refl; most = refl; found = refl; fits = omega arith }

allowed_count-eq_example : allowed_count "k" (10 ∷ 20 ∷ 104 ∷ []) one ≡ min 3 (2 - 1)
allowed_count-eq_example =
    allowed_count-eq "k" 2 2 1 105 (10 ∷ 20 ∷ 104 ∷ []) one one-IsLive (omega arith)
      (omega arith, (omega arith, (omega arith, tt)))

abbrev first : IdempotentResponse
first = record { body = "{}"; status = 201 }

-- A second request looks the key up, and a third commits its own response too late; a request with
-- another key comes between.
abbrev others : List Event
others =
    looks 10 "k"
    ∷ commits 11 12 "j" (record { body = "[]"; status = 201 })
    ∷ commits 20 30 "k" (record { body = "0"; status = 201 })
    ∷ []

serve_all-first_example :
    ((serve (λ r. r) some (commits 5 6 "k" first) []).1.answer ≡ ok (some first))
    × All
        (Repeats (λ r. r) some (λ r. refl) "k" first)
        (serve_all (λ r. r) some others (serve (λ r. r) some (commits 5 6 "k" first) []).0)
unfolding get
serve_all-first_example =
    serve_all-first (λ r. r) some (λ r. refl) 5 6 "k" first others [] refl
      (omega arith, ((omega arith, omega arith), ((omega arith, omega arith), tt)))

abbrev tenant : TenantContext
tenant = record {
  user_id = "alice";
  tenant_id = "t1";
  workspace_id = none;
  roles = [];
  permissions = [];
  session_id = none;
  mfa = false;
}

abbrev incoming : Incoming
incoming = record {
  now = 5;
  url = "/v1/items?limit=5";
  route_url = some "/v1/items";
  authorization = some "Bearer x";
}

abbrev limits : Limits
limits = record { requests = fresh; quota = some fresh }

on_request-IsAdmitted_example :
    (((on_request (λ h. ok tenant) incoming limits).1 ≡ ok (some tenant))
      ↔ IsAdmitted (λ h. ok tenant) incoming limits tenant)
    × (((on_request (λ h. ok tenant) incoming limits).1 ≡ ok none)
        ↔ (includes public_paths (path_of incoming.url) ≡ true))
on_request-IsAdmitted_example = on_request-IsAdmitted (λ h. ok tenant) incoming limits tenant

admitted : (on_request (λ h. ok tenant) incoming limits).1 ≡ ok (some tenant)
unfolding on_request path_of consume get tidy enforce_rate_limit
admitted = refl
