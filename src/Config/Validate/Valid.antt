-- ===== src/Config/Validate/Valid.antt =====
-- A desired state without issues, rule by rule (packages/config-engine/src/validate.ts).
use aws_architecture.Base.{
  String, true, ◌&&◌, Option, none, some, List, [], ◌∷◌, ◌≡◌, ◌↔◌, if◌then◌else◌, arith, refl, All,
  Bool-cases, inl, inr,
}
use aws_architecture.Base.Json.{Json, is_set, is_truthy, is_bool, member, member?, entries}
use aws_architecture.Config.Validate.{
  sel, providers, feature_issues, observability_issues, observability_keys, observability_part,
  limit_issues, limits_part, capability_issues, cross_issues, body_issues, validate_desired_state,
  shaped,
}
use aws_architecture.Config.Validate.Spec.{
  nil-append_iff, when-append_iff, when-nil_iff, not-false, Selected, capability_issues-Selected,
  no_capability_issues,
}
use aws_architecture.Config.Validate.Parts.{
  IsOn, Uses, IsOn-iff, Uses-iff, needs_iff, rag_iff, IsLimit, IsLimit-iff,
}

abbrev pub limit_entries : Option Json → List (String × Json)
limit_entries none = []
limit_entries (some v) = if is_truthy v then entries v else []

-- The rules between capabilities.
pub record IsConsistent (p features : Json) : Type 0 where
  pub database : Uses (sel (member "database" p)) "postgres"
  pub storage : IsOn (sel (member "object_storage" p))
  pub logging : is_set (member? "logging" (member "observability" p)) ≡ true
  pub rag :
      is_set (member "rag" features) ≡ true
      → IsOn (sel (member "ai" p))
        × IsOn (sel (member "vector_store" p))
        × IsOn (sel (member "object_storage" p))
  pub queue : Uses (sel (member "queue" p)) "bullmq" → Uses (sel (member "cache" p)) "redis"
  pub lock :
      Uses (sel (member "distributed_lock" p)) "redis" → Uses (sel (member "cache" p)) "redis"
  pub idempotency :
      Uses (sel (member "idempotency" p)) "redis" → Uses (sel (member "cache" p)) "redis"

-- Flags are Booleans, limits are finite and not negative, every capability is selected well, and the
-- capabilities fit one another.
pub record IsValidBody (p features : Json) (limits : Option Json) : Type 0 where
  pub flags : All (λ e. is_bool (some e.1) ≡ true) (entries features)
  pub observed : All (λ k. is_bool (member? k (member "observability" p)) ≡ true) observability_keys
  pub limited : All (λ e. IsLimit e.1) (limit_entries limits)
  pub selected : Selected p providers
  pub consistent : IsConsistent p features

abbrev pub Shaped : (platform features limits : Option Json) → Type 0
Shaped (some p) (some f) limits =
    (is_truthy p ≡ true) × (is_truthy f ≡ true) × IsValidBody p f limits
Shaped _ _ limits = ⊥

-- A desired state that is well-formed and whose parts fit.
abbrev pub IsValidState : Json → Type 0
IsValidState state =
    Shaped (member "platform" state) (member "features" state) (member "limits" state)

features_iff :
    (es : List (String × Json)) → (feature_issues es ≡ []) ↔ All (λ e. is_bool (some e.1) ≡ true) es
unfolding feature_issues
features_iff [] = ((λ h. tt), λ h. refl)
features_iff ((k, v) ∷ es) = (
  (λ h. let (a, b) = (when-append_iff _ _ _).0 h in (not-false _ a, (features_iff es).0 b)),
  λ h. rw h.0 ((features_iff es).1 h.1),
)

limits_iff : (es : List (String × Json)) → (limit_issues es ≡ []) ↔ All (λ e. IsLimit e.1) es
unfolding limit_issues
limits_iff [] = ((λ h. tt), λ h. refl)
limits_iff ((k, v) ∷ es) = (
  (λ h.
      let (a, b) = (when-append_iff _ _ _).0 h in
      ((IsLimit-iff v).0 (not-false _ a), (limits_iff es).0 b)),
  λ h. rw ((IsLimit-iff v).1 h.0) ((limits_iff es).1 h.1),
)

observed_iff :
    (o : Option Json) (ks : List String)
    → (observability_issues o ks ≡ []) ↔ All (λ k. is_bool (member? k o) ≡ true) ks
unfolding observability_issues
observed_iff o [] = ((λ h. tt), λ h. refl)
observed_iff o (k ∷ ks) = (
  (λ h. let (a, b) = (when-append_iff _ _ _).0 h in (not-false _ a, (observed_iff o ks).0 b)),
  λ h. rw h.0 ((observed_iff o ks).1 h.1),
)

limits_part_iff :
    (limits : Option Json)
    → (limits_part limits ≡ []) ↔ All (λ e. IsLimit e.1) (limit_entries limits)
limits_part_iff none = ((λ h. tt), λ h. refl)
limits_part_iff (some v) = elim (Bool-cases (is_truthy v)) [
  | inl t ↦ rw t (limits_iff (entries v))
  | inr f ↦ rw f ((λ h. tt), λ h. refl)
]

-- A log setting that is set stands in an observability section that is.
is_set_of_member : (k : String) (o : Option Json) → is_set (member? k o) ≡ true → is_set o ≡ true
unfolding member?
is_set_of_member k none h = h
is_set_of_member k (some v) h = ground arith

IsConsistent-iff : (p f : Json) → (cross_issues p f ≡ []) ↔ IsConsistent p f
unfolding cross_issues
IsConsistent-iff p f = (to, back)
  where
    to : cross_issues p f ≡ [] → IsConsistent p f
    to h =
        let (a, h1) = (when-append_iff _ _ _).0 h in
        let (b, h2) = (when-append_iff _ _ _).0 h1 in
        let (c, h3) = (when-append_iff _ _ _).0 h2 in
        let (d, h4) = (when-append_iff _ _ _).0 h3 in
        let (e, h5) = (when-append_iff _ _ _).0 h4 in
        let (g, h6) = (when-append_iff _ _ _).0 h5 in
        record {
          database = (Uses-iff _ _).0 (not-false _ a);
          storage = (IsOn-iff _).0 (not-false _ b);
          logging = not-false _ c;
          rag = (rag_iff _ _ _ _).0 d;
          queue = (needs_iff _ _ _ _).0 e;
          lock = (needs_iff _ _ _ _).0 g;
          idempotency = (needs_iff _ _ _ _).0 ((when-nil_iff _ _).0 h6);
        }

    back : IsConsistent p f → cross_issues p f ≡ []
    back h =
        let database = (Uses-iff (sel (member "database" p)) "postgres").1 h.database in
        let storage = (IsOn-iff (sel (member "object_storage" p))).1 h.storage in
        let rag = (rag_iff (is_set (member "rag" f)) _ _ _).1 h.rag in
        let queue = (needs_iff (sel (member "queue" p)) _ "bullmq" "redis").1 h.queue in
        let lock = (needs_iff (sel (member "distributed_lock" p)) _ "redis" "redis").1 h.lock in
        let idempotency =
          (needs_iff (sel (member "idempotency" p)) _ "redis" "redis").1 h.idempotency in
        rw (rag, queue, lock, idempotency, database, storage, h.logging) refl

observability_part_nil :
    (o : Option Json)
    → is_set o ≡ true
    → (observability_part o ≡ []) ↔ All (λ k. is_bool (member? k o) ≡ true) observability_keys
observability_part_nil o h = rw h (observed_iff o observability_keys)

body_iff :
    (p f : Json) (limits : Option Json) → (body_issues p f limits ≡ []) ↔ IsValidBody p f limits
unfolding body_issues
body_iff p f limits = (to, back)
  where
    o : Option Json
    o = member "observability" p

    to : body_issues p f limits ≡ [] → IsValidBody p f limits
    to h =
        let (a, h1) = (nil-append_iff (feature_issues (entries f)) _).0 h in
        let (b, h2) = (nil-append_iff (observability_part o) _).0 h1 in
        let (c, h3) = (nil-append_iff (limits_part limits) _).0 h2 in
        let (d, e) = (nil-append_iff (capability_issues p providers) _).0 h3 in
        let fits = (IsConsistent-iff p f).0 e in
        record {
          flags = (features_iff (entries f)).0 a;
          observed = (observability_part_nil o (is_set_of_member "logging" o fits.logging)).0 b;
          limited = (limits_part_iff limits).0 c;
          selected = capability_issues-Selected p providers d;
          consistent = fits;
        }

    back : IsValidBody p f limits → body_issues p f limits ≡ []
    back h = (nil-append_iff (feature_issues (entries f)) _).1 (
      (features_iff (entries f)).1 h.flags,
      (nil-append_iff (observability_part o) _).1 (
        (observability_part_nil o (is_set_of_member "logging" o h.consistent.logging)).1 h.observed,
        (nil-append_iff (limits_part limits) _).1 (
          (limits_part_iff limits).1 h.limited,
          (nil-append_iff (capability_issues p providers) _).1
              (no_capability_issues p providers h.selected, (IsConsistent-iff p f).1 h.consistent),
        ),
      ),
    )

shaped_iff : (p f limits : Option Json) → (shaped p f limits ≡ []) ↔ Shaped p f limits
shaped_iff none f limits = ((λ h. cc), λ h. absurd h)
shaped_iff (some p) none limits = ((λ h. cc), λ h. absurd h)
shaped_iff (some p) (some f) limits = elim (Bool-cases (is_truthy p && is_truthy f)) [
  | inl e ↦ rw e (
    (λ h. (ground arith, ground arith, (body_iff p f limits).0 h)),
    λ h. (body_iff p f limits).1 h.2,
  )
  | inr e ↦ rw e ((λ h. cc), λ h. absurd (ground (arith, h.0, h.1)))
]

-- Validation finds no issue exactly in the desired states that are well-formed (platform and features
-- are there, all flags are Booleans, all limits finite and not negative), that select for each of the
-- ten capabilities a known provider, with a known fallback where one is needed or named, and whose
-- parts fit: PostgreSQL on, object storage on, logging on, RAG only with AI, vector store and storage,
-- and Redis-backed queues, locks and idempotency only with the Redis cache.
pub validate_desired_state-nil :
    (state : Json) → (validate_desired_state state ≡ []) ↔ IsValidState state
unfolding validate_desired_state
validate_desired_state-nil state =
    shaped_iff (member "platform" state) (member "features" state) (member "limits" state)
