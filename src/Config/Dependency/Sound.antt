-- ===== src/Config/Dependency/Sound.antt =====
-- A valid desired state has every dependency that it needs (packages/dependency-engine/src/index.ts
-- against packages/config-engine/src/validate.ts).
use aws_architecture.Base.{
  String, Bool, true, false, Option, none, some, List, [], ◌∷◌, ◌===◌, ◌≡◌, arith, refl, ok,
}
use aws_architecture.Base.Json.{Json, null, obj, is_set, is_truthy, member, member?}
use aws_architecture.Config.Locked.{read}
use aws_architecture.Config.Validate.{
  CapabilitySelection, sel, on, uses, providers, validate_desired_state,
}
use aws_architecture.Config.Validate.Spec.{IsSelected}
use aws_architecture.Config.Validate.Parts.{IsOn-iff, Uses-iff, implied}
use aws_architecture.Config.Validate.Valid.{IsValidBody, Shaped, validate_desired_state-nil}
use aws_architecture.Config.Dependency.{
  DependencyRule, dependency_rules, rule, is_text, enabled_provider, rag_on, active, rule_selected,
  missing, resolve_rules, resolve_dependency_issues, assert_dependencies,
}

read_truthy : (k : String) (p : Json) → is_truthy p ≡ true → read k (some p) ≡ ok (member k p)
unfolding read
read_truthy k null h = cc
read_truthy k _ h = refl

read-member :
    (k : String) (v : Json) {w : Json} → member k v ≡ some w → read k (some v) ≡ ok (some w)
unfolding read member
read-member k null h = cc
read-member k (obj fs) h = rw h
read-member k _ h = cc

-- A selection is an object, and its parts are what the raw fields say.
record Parts (v : Option Json) (s : CapabilitySelection) : Type 0 where
  reads : (k : String) → read k v ≡ ok (member? k v)
  enabled : is_set (member? "enabled" v) ≡ s.enabled
  provider : (q : String) → is_text (member? "provider" v) q ≡ (s.provider === q)

sel-Parts : (v : Option Json) {s : CapabilitySelection} → sel v ≡ some s → Parts v s
unfolding sel read member
sel-Parts none h = cc
sel-Parts (some null) h = cc
sel-Parts (some (obj fs)) h = record {
  reads = λ k. refl;
  enabled = ground arith;
  provider = λ q. ground arith;
}
sel-Parts (some _) h = cc

-- What the engine reads of a state with this platform and these features.
module _ (state p f : Json) (has_p : member "platform" state ≡ some p)
    (has_f : member "features" state ≡ some f) (real_p : is_truthy p ≡ true)
    (real_f : is_truthy f ≡ true) where
  enabled_provider_lem :
      (name q : String) {s : CapabilitySelection}
      → sel (member name p) ≡ some s
      → enabled_provider state name q ≡ ok (uses (sel (member name p)) q)
  unfolding enabled_provider
  enabled_provider_lem name q {s} e =
      let parts = sel-Parts (member name p) e in
      rw
        (
          read-member "platform" state has_p,
          read_truthy name p real_p,
          parts.reads "enabled",
          parts.reads "provider",
          parts.enabled,
          parts.provider q,
          e,
        )
        refl

  rag_on_lem : rag_on state ≡ ok (is_set (member "rag" f))
  unfolding rag_on
  rag_on_lem = rw (read-member "features" state has_f, read_truthy "rag" f real_f) refl

  selected_lem :
      (name q : String) (requires migrations : List String) {s : CapabilitySelection}
      → (name === "rag") ≡ false
      → sel (member name p) ≡ some s
      → rule_selected state (record {
        capability = name;
        when_provider = some q;
        requires = requires;
        migration_options = migrations;
      })
        ≡ ok (uses (sel (member name p)) q)
  unfolding rule_selected
  selected_lem name q requires migrations {s} other e =
      let parts = sel-Parts (member name p) e in
      rw
        (
          other,
          read-member "platform" state has_p,
          read_truthy name p real_p,
          parts.enabled,
          parts.provider q,
          e,
        )
        refl

  on_lem :
      (name : String) {s : CapabilitySelection}
      → ((name === "postgres") ≡ false) × ((name === "redis") ≡ false) × ((name === "rag") ≡ false)
      → sel (member name p) ≡ some s
      → active state name ≡ ok (on (sel (member name p)))
  unfolding active
  on_lem name {s} (a, b, c) e =
      let parts = sel-Parts (member name p) e in
      rw (a, b, c, read-member "platform" state has_p, read_truthy name p real_p, parts.enabled, e)
        refl

rule_met :
    (state : Json) (r : DependencyRule) (rs : List DependencyRule) (b : Bool)
    → rule_selected state r ≡ ok b
    → (b ≡ true → missing state r r.requires ≡ ok [])
    → resolve_rules state rs ≡ ok []
    → resolve_rules state (r ∷ rs) ≡ ok []
unfolding resolve_rules
rule_met state r rs true e h rest = rw (e, h refl, rest) refl
rule_met state r rs false e h rest = rw (e, rest) refl

missing-nil :
    (state : Json) (r : DependencyRule) (d : String) (ds : List String)
    → active state d ≡ ok true
    → missing state r ds ≡ ok []
    → missing state r (d ∷ ds) ≡ ok []
unfolding missing
missing-nil state r d ds e rest = rw (e, rest) refl

IsSelected-some :
    (allowed : List String) (fallbacks : Option (List String)) (o : Option CapabilitySelection)
    → IsSelected allowed fallbacks o
    → (s : CapabilitySelection) × (o ≡ some s)
IsSelected-some allowed fallbacks none h = absurd h
IsSelected-some allowed fallbacks (some s) h = (s, refl)

missing_end : (state : Json) (r : DependencyRule) → missing state r [] ≡ ok []
unfolding missing
missing_end state r = refl

resolve_end : (state : Json) → resolve_rules state [] ≡ ok []
unfolding resolve_rules
resolve_end state = refl

abbrev rag_dependency : DependencyRule
rag_dependency =
    rule "rag" none ("ai" ∷ "vector_store" ∷ "object_storage" ∷ []) ("disable-rag" ∷ [])

module _ (state p f : Json) (limits : Option Json) (has_p : member "platform" state ≡ some p)
    (has_f : member "features" state ≡ some f) (real_p : is_truthy p ≡ true)
    (real_f : is_truthy f ≡ true) (valid : IsValidBody p f limits) where
  postgres_active : active state "postgres" ≡ ok true
  unfolding active providers
  postgres_active =
      let (s, e) = IsSelected-some _ _ (sel (member "database" p)) valid.selected.0 in
      rw
        (
          enabled_provider_lem state p f has_p has_f real_p real_f "database" "postgres" e,
          (Uses-iff (sel (member "database" p)) "postgres").1 valid.consistent.database,
        )
        refl

  redis_active : uses (sel (member "cache" p)) "redis" ≡ true → active state "redis" ≡ ok true
  unfolding active providers
  redis_active h =
      let (s, e) = IsSelected-some _ _ (sel (member "cache" p)) valid.selected.1.0 in
      rw (enabled_provider_lem state p f has_p has_f real_p real_f "cache" "redis" e, h) refl

  -- A rule for a provider that is on in this state is met if what it requires is active.
  provider_rule :
      (name q d : String) (migrations : List String) (rs : List DependencyRule)
      {s : CapabilitySelection}
      → (name === "rag") ≡ false
      → sel (member name p) ≡ some s
      → (uses (sel (member name p)) q ≡ true → active state d ≡ ok true)
      → resolve_rules state rs ≡ ok []
      → resolve_rules state (rule name (some q) (d ∷ []) migrations ∷ rs) ≡ ok []
  unfolding missing
  provider_rule name q d migrations rs other e need rest =
      rule_met state _ rs _
        (selected_lem state p f has_p has_f real_p real_f name q (d ∷ []) migrations other e)
        (λ h. missing-nil state (rule name (some q) (d ∷ []) migrations) d [] (need h) refl) rest

  selection_at :
      (allowed : List String) (fallbacks : Option (List String)) (name : String)
      → IsSelected allowed fallbacks (sel (member name p))
      → (s : CapabilitySelection) × (sel (member name p) ≡ some s)
  selection_at allowed fallbacks name h = IsSelected-some allowed fallbacks (sel (member name p)) h

  rag_parts :
      is_set (member "rag" f) ≡ true
      → (on (sel (member "ai" p)) ≡ true)
        × (on (sel (member "vector_store" p)) ≡ true)
        × (on (sel (member "object_storage" p)) ≡ true)
  rag_parts h =
      let (ai, vector, storage) = valid.consistent.rag h in
      (
        (IsOn-iff (sel (member "ai" p))).1 ai,
        (IsOn-iff (sel (member "vector_store" p))).1 vector,
        (IsOn-iff (sel (member "object_storage" p))).1 storage,
      )

  on_active :
      (name : String) {s : CapabilitySelection}
      → ((name === "postgres") ≡ false) × ((name === "redis") ≡ false) × ((name === "rag") ≡ false)
      → sel (member name p) ≡ some s
      → on (sel (member name p)) ≡ true
      → active state name ≡ ok true
  on_active name other e h = rw (on_lem state p f has_p has_f real_p real_f name other e, h) refl

  rag_selected : rule_selected state rag_dependency ≡ ok (is_set (member "rag" f))
  unfolding rule_selected
  rag_selected = rag_on_lem state p f has_p has_f real_p real_f

  rag_rule : resolve_rules state (rag_dependency ∷ []) ≡ ok []
  unfolding providers
  rag_rule =
      let (_, ai) = selection_at _ _ "ai" valid.selected.1.1.1.1.1.1.1.1.1.0 in
      let (_, vector) = selection_at _ _ "vector_store" valid.selected.1.1.1.1.1.1.1.0 in
      let (_, storage) = selection_at _ _ "object_storage" valid.selected.1.1.1.1.1.1.0 in
      rule_met state rag_dependency [] (is_set (member "rag" f)) rag_selected
        (λ h.
          let (a, v, s) = rag_parts h in
          missing-nil state rag_dependency "ai" ("vector_store" ∷ "object_storage" ∷ [])
            (on_active "ai" (refl, refl, refl) ai a)
            (missing-nil state rag_dependency "vector_store" ("object_storage" ∷ [])
              (on_active "vector_store" (refl, refl, refl) vector v)
              (missing-nil state rag_dependency "object_storage" []
                (on_active "object_storage" (refl, refl, refl) storage s)
                (missing_end state rag_dependency))))
        (resolve_end state)

  all_rules : resolve_rules state dependency_rules ≡ ok []
  unfolding dependency_rules providers
  all_rules =
      let c = valid.consistent in
      let (_, queue) = selection_at _ _ "queue" valid.selected.1.1.1.1.0 in
      let (_, lock) = selection_at _ _ "distributed_lock" valid.selected.1.1.0 in
      let (_, idem) = selection_at _ _ "idempotency" valid.selected.1.1.1.0 in
      let (_, bus) = selection_at _ _ "event_bus" valid.selected.1.1.1.1.1.0 in
      let (_, search_s) = selection_at _ _ "search" valid.selected.1.1.1.1.1.1.1.1.0 in
      let (_, vector) = selection_at _ _ "vector_store" valid.selected.1.1.1.1.1.1.1.0 in
      provider_rule "queue" "bullmq" "redis" _ _ refl queue
        (λ h.
          redis_active
            (implied (sel (member "queue" p)) (sel (member "cache" p)) "bullmq" "redis" c.queue h))
        (provider_rule "distributed_lock" "redis" "redis" _ _ refl lock
          (λ h. redis_active (
            implied (sel (member "distributed_lock" p)) (sel (member "cache" p)) "redis" "redis"
              c.lock h))
          (provider_rule "distributed_lock" "postgres" "postgres" _ _ refl lock
            (λ h. postgres_active)
            (provider_rule "idempotency" "redis" "redis" _ _ refl idem
              (λ h. redis_active (
                implied (sel (member "idempotency" p)) (sel (member "cache" p)) "redis" "redis"
                  c.idempotency h))
              (provider_rule "idempotency" "postgres" "postgres" _ _ refl idem
                (λ h. postgres_active)
                (provider_rule "event_bus" "outbox" "postgres" _ _ refl bus (λ h. postgres_active)
                  (provider_rule "search" "postgres" "postgres" _ _ refl search_s
                    (λ h. postgres_active)
                    (provider_rule "vector_store" "pgvector" "postgres" _ _ refl vector
                      (λ h. postgres_active) rag_rule)))))))

  all_met : resolve_dependency_issues state ≡ ok []
  unfolding resolve_dependency_issues
  all_met = all_rules

-- The two engines agree: in a desired state that validation passes, the dependency engine finds every
-- rule met, and so its assertion passes.
pub resolve_dependency_issues-valid :
    (state : Json)
    → validate_desired_state state ≡ []
    → (resolve_dependency_issues state ≡ ok []) × (assert_dependencies state ≡ ok tt)
unfolding assert_dependencies
resolve_dependency_issues-valid state h =
    let none_missing =
      met (member "platform" state) (member "features" state) refl refl
        ((validate_desired_state-nil state).0 h) in
    (none_missing, rw none_missing refl)
  where
    met :
        (p f : Option Json)
        → member "platform" state ≡ p
        → member "features" state ≡ f
        → Shaped p f (member "limits" state)
        → resolve_dependency_issues state ≡ ok []
    met none f hp hf v = absurd v
    met (some p) none hp hf v = absurd v
    met (some p) (some f) hp hf v = all_met state p f (member "limits" state) hp hf v.0 v.1 v.2
