-- ===== src/Sdk/Registry/Tests.antt =====
-- A registry of two providers.
use aws_architecture.Base.{
  Result, throw, error, if◌then◌else◌, ◌==◌, ℕ, String, List, [], ◌∷◌, ◌≡◌, ◌≢◌, ◌⊎◌, false, refl,
  ok,
}
use aws_architecture.Base.Map.{get, set}
use aws_architecture.Sdk.Registry.{
  has, register, resolve, assert_catalog, required_provider_catalog,
}
use aws_architecture.Sdk.Registry.Laws.{register-resolve}

abbrev before : List (String × List (String × ℕ))
before = ("cache", ("redis", 1) ∷ []) ∷ []

abbrev after : List (String × List (String × ℕ))
after = ("cache", ("redis", 1) ∷ ("memory", 2) ∷ []) ∷ []

registered : register "cache" "memory" 2 before ≡ ok after
unfolding register get set
registered = refl

catalog_met : assert_catalog required_provider_catalog after ("cache" ∷ "billing" ∷ []) ≡ ok tt
unfolding assert_catalog required_provider_catalog get has
catalog_met = refl

-- A factory whose call throws, and others that give their number.
abbrev fails_on_one : ℕ → Result ℕ
fails_on_one n = if n == 1 then throw (error "ECONNREFUSED") else ok n

register-resolve_example :
    (has "cache" "memory" before ≡ false)
    × (resolve fails_on_one "cache" "memory" after ≡ fails_on_one 2)
    × ((c p : String)
        → (c ≢ "cache") ⊎ (p ≢ "memory")
        → resolve fails_on_one c p after ≡ resolve fails_on_one c p before)
register-resolve_example = register-resolve fails_on_one "cache" "memory" 2 before registered
