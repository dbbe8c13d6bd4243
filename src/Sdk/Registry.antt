-- ===== src/Sdk/Registry.antt =====
-- The registry of providers (packages/platform-sdk/src/provider-registry.ts). A factory is
-- called each time that its provider is resolved; what the call answers is a parameter.
pub mod Laws
mod Tests
use aws_architecture.Base.{
  String, Bool, true, false, not, Option, none, some, List, [], ◌∷◌, any, present, if◌then◌else◌,
  Result, ok, throw, error, map, ◌===◌, ltb,
}
use aws_architecture.Base.Map.{get, set}

-- `has` of a map.
abbrev pub is_some {ℓ} : {A : Type ℓ} → Option A → Bool
is_some none = false
is_some (some x) = true

-- `catalog ?? new Map()`.
abbrev pub or_empty {ℓ} : {A : Type ℓ} → Option (List A) → List A
or_empty none = []
or_empty (some xs) = xs

module _ {Factory : Type 0} where
  unfoldable pub has : String → String → List (String × List (String × Factory)) → Bool
  unfolding get
  has capability provider registry = is_some (get provider (or_empty (get capability registry)))

  unfoldable pub register :
      (capability provider : String)
      → Factory
      → List (String × List (String × Factory))
      → Result (List (String × List (String × Factory)))
  register capability provider factory registry =
      let catalog = or_empty (get capability registry) in
      if is_some (get provider catalog)
      then throw (error "Provider already registered")
      else ok (set capability (set provider factory catalog) registry)

  abbrev pub made : {Port : Type 0} → (Factory → Result Port) → Option Factory → Result Port
  made run none = throw (error "Unknown provider")
  made run (some factory) = run factory

  unfoldable pub resolve :
      {Port : Type 0}
      → (Factory → Result Port)
      → (capability provider : String) → List (String × List (String × Factory))
      → Result Port
  resolve run capability provider registry =
      made run (get provider (or_empty (get capability registry)))

  -- `assertProviderCatalog`, for the catalogue that is required.
  unfoldable pub assert_catalog :
      List (String × List String)
      → List (String × List (String × Factory))
      → (enabled : List String) → Result (Unit {0})
  assert_catalog required registry [] = ok tt
  assert_catalog required registry (capability ∷ rest) =
      let later = assert_catalog required registry rest in
      if met (get capability required) then later else throw (error "No registered provider")
    where
      met : Option (List String) → Bool
      met none = true
      met (some expected) = any (λ p. has capability p registry) expected

unfoldable pub required_provider_catalog : List (String × List String)
required_provider_catalog =
    ("cache", "redis" ∷ "memory" ∷ "none" ∷ [])
    ∷ ("queue", "sqs" ∷ "bullmq" ∷ "rabbitmq" ∷ "sync" ∷ [])
    ∷ ("event_bus", "kafka" ∷ "sns-sqs" ∷ "outbox" ∷ [])
    ∷ ("search", "opensearch" ∷ "postgres" ∷ [])
    ∷ ("object_storage", "s3" ∷ "minio" ∷ "filesystem" ∷ [])
    ∷ ("compute", "eks" ∷ "ecs" ∷ "docker" ∷ [])
    ∷ ("ai", "local-ai" ∷ "bedrock" ∷ "external" ∷ "disabled" ∷ [])
    ∷ ("secrets", "aws-secrets-manager" ∷ "vault" ∷ "env" ∷ [])
    ∷ []
