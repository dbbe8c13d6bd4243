-- ===== src/Sdk/Registry/Laws.antt =====
-- What the registry promises (packages/platform-sdk/src/provider-registry.ts).
use aws_architecture.Base.{
  Result, String, true, false, List, ◌≡◌, ◌≢◌, refl, ok, arith, eq_iff, Bool-cases, inl, inr,
  if◌then◌else◌, ◌===◌, ◌⊎◌, ap, subst,
}
use aws_architecture.Base.Map.{get, set, get-set, get-set_self}
use aws_architecture.Sdk.Registry.{is_some, or_empty, has, register, resolve, made}

same_self : (k : String) → (k === k) ≡ true
same_self k = ground (arith, eq_iff k k)

module _ {Factory : Type 0} where
  -- What a registration leaves at a capability.
  catalog_of :
      (c p : String) (f : Factory) (d : String) (r : List (String × List (String × Factory)))
      → or_empty (get d (set c (set p f (or_empty (get c r))) r))
        ≡ (if c === d then set p f (or_empty (get c r)) else or_empty (get d r))
  catalog_of c p f d r = elim (Bool-cases (c === d)) [
    | inl e ↦ rw (get-set c d (set p f (or_empty (get c r))) r, e) refl
    | inr e ↦ rw (get-set c d (set p f (or_empty (get c r))) r, e) refl
  ]

  module _ {Port : Type 0} (run : Factory → Result Port) (capability provider : String)
      (factory : Factory) (registry : List (String × List (String × Factory)))
      {after : List (String × List (String × Factory))}
      (registered : register capability provider factory registry ≡ ok after) where
    free : is_some (get provider (or_empty (get capability registry))) ≡ false
    unfolding register
    free = ground arith

    result :
        set capability (set provider factory (or_empty (get capability registry))) registry ≡ after
    unfolding register
    result = ground arith

    resolves : resolve run capability provider after ≡ run factory
    unfolding resolve
    resolves =
        subst (λ r. made run (get provider (or_empty (get capability r))) ≡ run factory) result
          (rw
            (
              catalog_of capability provider factory capability registry,
              same_self capability,
              get-set_self provider factory (or_empty (get capability registry)),
            )
            refl)

    keeps :
        (c p : String)
        → (c ≢ capability) ⊎ (p ≢ provider)
        → resolve run c p after ≡ resolve run c p registry
    unfolding resolve
    keeps c p other =
        let old = or_empty (get capability registry) in
        subst
          (λ r.
            made run (get p (or_empty (get c r))) ≡ made run (get p (or_empty (get c registry))))
          result
          (elim (Bool-cases (capability === c)) [
            | inr e ↦ rw (catalog_of capability provider factory c registry, e) refl
            | inl e ↦
                let here : capability ≡ c = ground (arith, eq_iff capability c) in
                let apart : (provider === p) ≡ false =
                  ground (arith, eq_iff provider p, eq_iff capability c) in
                rw
                  (
                    catalog_of capability provider factory c registry,
                    e,
                    get-set provider p factory old,
                    apart,
                  )
                  (ap (λ d. made run (get p (or_empty (get d registry)))) here)
          ])

  -- A provider can be registered only where none of that name is for the capability; it then resolves
  -- to what the factory that was given makes, and every other provider to what it did before.
  pub register-resolve :
      {Port : Type 0} (run : Factory → Result Port) (capability provider : String)
      (factory : Factory) (registry : List (String × List (String × Factory)))
      {after : List (String × List (String × Factory))}
      → register capability provider factory registry ≡ ok after
      → (has capability provider registry ≡ false)
        × (resolve run capability provider after ≡ run factory)
        × ((c p : String)
            → (c ≢ capability) ⊎ (p ≢ provider)
            → resolve run c p after ≡ resolve run c p registry)
  unfolding has
  register-resolve run capability provider factory registry h = (
    free run capability provider factory registry h,
    resolves run capability provider factory registry h,
    keeps run capability provider factory registry h,
  )
