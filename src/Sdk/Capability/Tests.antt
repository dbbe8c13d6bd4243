-- ===== src/Sdk/Capability/Tests.antt =====
-- The choice of a provider on concrete registries.
use aws_architecture.Base.{
  ℕ, String, true, some, List, [], ◌∷◌, ◌≡◌, ◌↔◌, refl, Result, ok, ◌==◌, if◌then◌else◌,
}
use aws_architecture.Base.Map.{get}
use aws_architecture.Sdk.Capability.{Selection, Resolved, resolve}
use aws_architecture.Sdk.Capability.Choice.{Chosen, resolve_iff}

-- Ports are numbers here; port 1 is unhealthy.
abbrev answers : ℕ → Result String
answers port = if port == 1 then ok "UNHEALTHY" else ok "HEALTHY"

abbrev providers : List (String × List (String × ℕ))
providers = ("cache", ("redis", 1) ∷ ("memory", 2) ∷ []) ∷ []

abbrev makes : ℕ → Result ℕ
makes n = ok n

abbrev redis : Selection
redis = record { enabled = true; provider = "redis"; fallback = some "memory" }

abbrev memory : Resolved ℕ
memory = record { provider = "memory"; value = 2; degraded = true }

falls_back : resolve makes providers answers "cache" redis ≡ ok memory
unfolding resolve get
falls_back = refl

resolve_iff_example :
    (resolve makes providers answers "cache" redis ≡ ok memory)
    ↔ Chosen makes providers answers "cache" redis memory
resolve_iff_example = resolve_iff makes providers answers "cache" redis memory
