-- ===== src/Sdk/Capability.antt =====
-- The choice of a capability's provider (`CapabilityContainer.resolve` of
-- packages/platform-sdk/src/capability-container.ts). The registry is that of Sdk/Registry; what the
-- call of a factory and a port's `health` answer are parameters.
pub mod Choice
mod Tests
use aws_architecture.Base.{
  String, Bool, true, false, not, ◌||◌, Option, none, some, List, ◌===◌, ◌!==◌, present, same,
  if◌then◌else◌, Result, ok, throw, error, ◌>>=◌,
}
use Prim.Native.String
use aws_architecture.Sdk.Registry

pub record Selection : Type 0 where
  pub enabled : Bool
  pub provider : String
  pub fallback : Option String

-- `ResolvedCapability`.
pub record Resolved (Port : Type 0) : Type 0 where
  pub provider : String
  pub value : Port
  pub degraded : Bool

-- `!selection.fallback || selection.fallback === selection.provider`.
abbrev pub lacks_fallback : Selection → Bool
lacks_fallback s = not (present s.fallback) || same s.fallback (some s.provider)

module _ {Factory Port : Type 0} (run : Factory → Result Port)
    (registry : List (String × List (String × Factory))) where
  unfoldable pub resolve_provider :
      (capability provider : String) → (degraded : Bool) → Result (Resolved Port)
  unfolding Registry.resolve
  resolve_provider capability provider degraded = do
    value ← Registry.resolve run capability provider registry
    ok (record { provider = provider; value = value; degraded = degraded })

  -- The last line: the fallback provider.
  abbrev pub use_fallback : String → Option String → Result (Resolved Port)
  use_fallback capability none = throw (error (String.◌++◌ "CAPABILITY_UNAVAILABLE:" capability))
  use_fallback capability (some f) = resolve_provider capability f true

  -- `catch`: without another provider to fall back on the error is thrown again.
  abbrev pub recovered : String → Selection → Result (Resolved Port) → Result (Resolved Port)
  recovered capability s (ok r) = ok r
  recovered capability s (throw e) =
      if lacks_fallback s then throw e else use_fallback capability s.fallback

  module _ (health : Port → Result String) where
    -- The primary provider, where it is registered and not unhealthy.
    unfoldable pub try_primary : String → Selection → Result (Resolved Port)
    unfolding resolve_provider
    try_primary capability s = do
      primary ← resolve_provider capability s.provider false
      status ← health primary.value
      if status !== "UNHEALTHY"
          then ok primary
          else throw (
              error (
                String.◌++◌ "CAPABILITY_UNHEALTHY:"
                  (String.◌++◌ capability (String.◌++◌ "/" s.provider))))

    unfoldable pub resolve : String → Selection → Result (Resolved Port)
    unfolding try_primary
    resolve capability s =
        if s.enabled
        then recovered capability s (try_primary capability s)
        else if present s.fallback
        then use_fallback capability s.fallback
        else throw (error (String.◌++◌ "CAPABILITY_UNAVAILABLE:" capability))
