-- ===== src/Sdk/Capability/Choice.antt =====
-- Which provider a capability gets (packages/platform-sdk/src/capability-container.ts).
use aws_architecture.Base.{
  String, Bool, true, false, not, ◌||◌, if◌then◌else◌, Option, none, some, List, ◌===◌, ◌≡◌, ◌≢◌,
  ◌⊎◌, ◌↔◌, inl, inr, refl, sym, ◌∙◌, ap, subst, arith, eq_iff, present, same, Bool-cases, Result,
  ok, throw, error, Failure, Result-cases, ok-injective, >>=-eq-ok,
}
use Prim.Native.String
use aws_architecture.Sdk.Registry
use aws_architecture.Sdk.Capability.{
  Selection, Resolved, resolve_provider, use_fallback, try_primary, recovered, resolve,
}

module _ {Factory Port : Type 0} (run : Factory → Result Port)
    (registry : List (String × List (String × Factory))) (health : Port → Result String) where
  -- A registered port that answers to `health`, and not with UNHEALTHY.
  pub record IsUsable (capability provider : String) (value : Port) : Type 0 where
    pub registered : Registry.resolve run capability provider registry ≡ ok value
    pub status : String
    pub answer : health value ≡ ok status
    pub fine : status ≢ "UNHEALTHY"

  -- The provider that a selection should give.
  pub data Chosen (capability : String) (s : Selection) : Resolved Port → Type 0 where
    primary :
        (value : Port)
        → s.enabled ≡ true
        → IsUsable capability s.provider value
        → Chosen capability s (record { provider = s.provider; value = value; degraded = false })
    fallback :
        (name : String) (value : Port)
        → s.fallback ≡ some name
        → name ≢ ""
        → (s.enabled ≡ false)
          ⊎ ((name ≢ s.provider) × ((v : Port) → ¬ IsUsable capability s.provider v))
        → Registry.resolve run capability name registry ≡ ok value
        → Chosen capability s (record { provider = name; value = value; degraded = true })

  abbrev chosen_by : String → Port → Bool → Resolved Port
  chosen_by name value degraded = record { provider = name; value = value; degraded = degraded }

  resolve_provider-registered :
      (capability name : String) (degraded : Bool) (r : Resolved Port)
      → resolve_provider run registry capability name degraded ≡ ok r
      → (v : Port) × (Registry.resolve run capability name registry ≡ ok v)
        × (chosen_by name v degraded ≡ r)
  unfolding resolve_provider
  resolve_provider-registered capability name degraded r h =
      let (v, found, made) = >>=-eq-ok (Registry.resolve run capability name registry) _ h in
      (v, found, ok-injective made)

  try_primary-IsUsable :
      (capability : String) (s : Selection) (r : Resolved Port)
      → try_primary run registry health capability s ≡ ok r
      → (v : Port) × IsUsable capability s.provider v × (chosen_by s.provider v false ≡ r)
  unfolding try_primary resolve_provider
  try_primary-IsUsable capability s r h =
      let (p, resolved, later) =
        >>=-eq-ok (resolve_provider run registry capability s.provider false) _ h in
      let (v, found, same_port) =
        resolve_provider-registered capability s.provider false p resolved in
      let (status, answer, last) = >>=-eq-ok (health p.value) _ later in
      elim (Bool-cases (status === "UNHEALTHY")) [
        | inl e ↦ cc
        | inr e ↦ (
          v,
          record {
            registered = found;
            status = status;
            answer = ap (λ (q : Resolved Port). health q.value) same_port ∙ answer;
            fine = ground (arith, eq_iff status "UNHEALTHY");
          },
          same_port ∙ ok-injective (ground arith),
        )
      ]

  IsUsable-try_primary :
      (capability : String) (s : Selection) (v : Port)
      → IsUsable capability s.provider v
      → try_primary run registry health capability s ≡ ok (chosen_by s.provider v false)
  unfolding try_primary resolve_provider
  IsUsable-try_primary capability s v u =
      rw (u.registered, u.answer) (ground (arith, eq_iff u.status "UNHEALTHY", u.fine))

  fallback-resolve_provider :
      (capability name : String) (v : Port)
      → Registry.resolve run capability name registry ≡ ok v
      → resolve_provider run registry capability name true ≡ ok (chosen_by name v true)
  unfolding resolve_provider
  fallback-resolve_provider capability name v h = rw h refl

  -- Where the primary fails, nothing is usable as the primary.
  failed-unusable :
      (capability : String) (s : Selection) {e : Failure}
      → try_primary run registry health capability s ≡ throw e
      → (v : Port) → ¬ IsUsable capability s.provider v
  failed-unusable capability s h v u =
      let both = sym h ∙ IsUsable-try_primary capability s v u in cc

  unusable-failed :
      (capability : String) (s : Selection)
      → ((v : Port) → ¬ IsUsable capability s.provider v)
      → (e : Failure) × (try_primary run registry health capability s ≡ throw e)
  unusable-failed capability s unusable =
      elim (Result-cases (try_primary run registry health capability s)) [
        | inl failed ↦ failed
        | inr (p, tried) ↦
            let (v, usable, made) = try_primary-IsUsable capability s p tried in
            absurd (unusable v usable)
      ]

  use_fallback-Chosen :
      (capability : String) (s : Selection) (r : Resolved Port) (name : String)
      → s.fallback ≡ some name
      → name ≢ ""
      → (s.enabled ≡ false)
        ⊎ ((name ≢ s.provider) × ((v : Port) → ¬ IsUsable capability s.provider v))
      → resolve_provider run registry capability name true ≡ ok r
      → Chosen capability s r
  use_fallback-Chosen capability s r name given full why h =
      let (v, found, made) = resolve_provider-registered capability name true r h in
      subst (Chosen capability s) made (fallback name v given full why found)

  -- What a fallback that was used after an error is.
  recovered-fallback :
      (capability : String) (s : Selection) (r : Resolved Port) (e : Failure) (o : Option String)
      → (if not (present o) || same o (some s.provider)
          then throw e
          else use_fallback run registry capability o)
        ≡ ok r
      → (name : String) × (o ≡ some name)
        × (name ≢ "")
        × (name ≢ s.provider)
        × (resolve_provider run registry capability name true ≡ ok r)
  recovered-fallback capability s r e none h = cc
  recovered-fallback capability s r e (some name) h = elim (Bool-cases (name === "")) [
    | inl blank ↦ cc
    | inr full ↦ elim (Bool-cases (name === s.provider)) [
      | inl itself ↦ cc
      | inr other ↦ (
        name,
        refl,
        ground (arith, eq_iff name ""),
        ground (arith, eq_iff name s.provider),
        ground (arith),
      )
    ]
  ]

  enabled-Chosen :
      (capability : String) (s : Selection) (r : Resolved Port) (x : Result (Resolved Port))
      → s.enabled ≡ true
      → try_primary run registry health capability s ≡ x
      → recovered run registry capability s x ≡ ok r
      → Chosen capability s r
  enabled-Chosen capability s r (throw e) on failed h =
      let (name, given, full, other, found) = recovered-fallback capability s r e s.fallback h in
      use_fallback-Chosen capability s r name given full
        (inr (other, failed-unusable capability s failed)) found
  enabled-Chosen capability s r (ok p) on tried h =
      let (v, usable, made) = try_primary-IsUsable capability s p tried in
      subst (Chosen capability s) (made ∙ ok-injective h) (primary v on usable)

  disabled-fallback :
      (capability : String) (r : Resolved Port) (o : Option String) (e : Failure)
      → (if present o then use_fallback run registry capability o else throw e) ≡ ok r
      → (name : String) × (o ≡ some name)
        × (name ≢ "")
        × (resolve_provider run registry capability name true ≡ ok r)
  disabled-fallback capability r none e h = cc
  disabled-fallback capability r (some name) e h = elim (Bool-cases (name === "")) [
    | inl blank ↦ cc
    | inr full ↦ (name, refl, ground (arith, eq_iff name ""), ground (arith))
  ]

  resolve-Chosen :
      (capability : String) (s : Selection) (r : Resolved Port)
      → resolve run registry health capability s ≡ ok r
      → Chosen capability s r
  unfolding resolve
  resolve-Chosen capability s r h = elim (Bool-cases s.enabled) [
    | inl on ↦
        enabled-Chosen capability s r (try_primary run registry health capability s) on refl
          (ground arith)
    | inr off ↦
        let (name, given, full, found) =
          disabled-fallback capability r s.fallback
            (error (String.◌++◌ "CAPABILITY_UNAVAILABLE:" capability)) (ground arith) in
        use_fallback-Chosen capability s r name given full (inl off) found
  ]

  Chosen-resolve :
      (capability : String) (s : Selection) (r : Resolved Port)
      → Chosen capability s r
      → resolve run registry health capability s ≡ ok r
  unfolding resolve
  Chosen-resolve capability s r (primary v on usable) =
      rw (on, IsUsable-try_primary capability s v usable) refl
  Chosen-resolve capability s r (fallback name v given full (inl off) found) =
      rw (off, given, fallback-resolve_provider capability name v found)
        (ground (arith, eq_iff name ""))
  Chosen-resolve capability s r (fallback name v given full (inr (other, unusable)) found) =
      elim (Bool-cases s.enabled) [
        | inl on ↦
            let (e, failed) = unusable-failed capability s unusable in
            rw (on, failed, given, fallback-resolve_provider capability name v found)
              (ground (arith, eq_iff name "", eq_iff name s.provider))
        | inr off ↦
            rw (off, given, fallback-resolve_provider capability name v found)
              (ground (arith, eq_iff name ""))
      ]

  -- The container gives exactly what the selection says: the primary provider where the capability is
  -- enabled and that is registered and healthy enough; the fallback, marked as degraded, where the
  -- capability is disabled or the primary is not usable and another one; and else an error. (A primary
  -- that answers any other status than UNHEALTHY is used.)
  pub resolve_iff :
      (capability : String) (s : Selection) (r : Resolved Port)
      → (resolve run registry health capability s ≡ ok r) ↔ Chosen capability s r
  resolve_iff capability s r = (resolve-Chosen capability s r, Chosen-resolve capability s r)
