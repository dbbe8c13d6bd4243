-- ===== src/Services/Redaction.antt =====
-- What the audit trail may hold (services/audit/src/index.ts).
use aws_architecture.Base.{
  true, ◌≡◌, inl, inr, refl, Bool-cases, Result, ok, throw, String, not, ◌||◌, truthy, All, ◌≤◌,
  length, List, arith,
}
use aws_architecture.Base.Json.{Json, Items, Fields, str, arr, obj, null, nil, cons, end, field}
use aws_architecture.Security.Context.{TenantContext}
use aws_architecture.Services.Sensitive.{is_sensitive}
use aws_architecture.Services.Ports.{Call, appends, Ports, Stamp, call, unless, returns}
use aws_architecture.Services.Audit.{
  redact, redact_entries, redact_nested, AuditInput, new_record, given, record_action,
}

-- A value in which only the mark stands under a sensitive key, at any depth.
abbrev mutual
  pub IsSafe : Json → Type 0
  IsSafe (arr xs) = AreSafe xs
  IsSafe (obj fs) = HasSafeFields fs
  IsSafe _ = Unit

  pub AreSafe : Items → Type 0
  AreSafe nil = Unit
  AreSafe (cons x xs) = IsSafe x × AreSafe xs

  pub HasSafeFields : Fields → Type 0
  HasSafeFields end = Unit
  HasSafeFields (field k v fs) =
      (is_sensitive k ≡ true → v ≡ str "[REDACTED]") × IsSafe v × HasSafeFields fs

mutual
  unfolding redact

  redact-IsSafe : (v : Json) → IsSafe (redact v)
  redact-IsSafe (arr xs) = redact_entries-AreSafe xs
  redact-IsSafe (obj fs) = redact_nested-HasSafeFields fs
  redact-IsSafe null = tt
  redact-IsSafe _ = tt

  redact_entries-AreSafe : (xs : Items) → AreSafe (redact_entries xs)
  redact_entries-AreSafe nil = tt
  redact_entries-AreSafe (cons x xs) = (redact-IsSafe x, redact_entries-AreSafe xs)

  redact_nested-HasSafeFields : (fs : Fields) → HasSafeFields (redact_nested fs)
  redact_nested-HasSafeFields end = tt
  redact_nested-HasSafeFields (field k v fs) = elim (Bool-cases (is_sensitive k)) [
    | inl bad ↦ rw bad ((λ _. refl), tt, redact_nested-HasSafeFields fs)
    | inr good ↦ rw good ((λ e. cc), redact-IsSafe v, redact_nested-HasSafeFields fs)
  ]

-- A call that appends to the trail only what may stand there, in the caller's name.
abbrev pub Attributed : TenantContext → Call → Type 0
Attributed context (appends r) =
    (r.actor_id ≡ context.user_id) × (r.tenant_id ≡ context.tenant_id) × IsSafe r.details
Attributed context _ = ⊥

-- Whatever is recorded, at most one record is appended to the audit trail, in the name of the caller
-- and the caller's tenant, and under the sensitive keys of its details, at any depth, stands only the
-- mark.
pub record_action-Attributed :
    (ports : Ports) (context : TenantContext) (stamp : Stamp) (input : AuditInput)
    → (length (record_action ports context stamp input).calls ≤ 1)
      × All (Attributed context) (record_action ports context stamp input).calls
unfolding record_action unless call new_record
record_action-Attributed ports context stamp input =
    elim (Bool-cases (
      not (truthy input.action)
      || not (truthy input.resource)
      || not (truthy input.correlation_id))) [
        | inl bad ↦ rw bad (omega arith, tt)
        | inr good ↦ rw good (answered (ports.answer (appends (new_record context stamp input))))
      ]
  where
    saving : Result String → List Call
    saving r =
        (call (appends (new_record context stamp input)) r
          (λ saved. returns (ok (new_record context stamp input)))).calls

    answered : (r : Result String) → (length (saving r) ≤ 1) × All (Attributed context) (saving r)
    answered (throw e) = (omega arith, ((refl, refl, redact-IsSafe (given input.details)), tt))
    answered (ok x) = (omega arith, ((refl, refl, redact-IsSafe (given input.details)), tt))
