-- ===== src/Security/Scoped/Separation.antt =====
-- Calls for different tenants differ (packages/security/src/tenant-scoped-ports.ts).
use aws_architecture.Base.{
  String, some, [], ◌∷◌, ◌≡◌, refl, subst, arith, eq_iff, Result, ok, ok-injective, >>=-eq-ok,
  >>-eq-ok, reject_if, reject_if-ok, truthy, present, same, not, ◌&&◌, ◌!==◌,
}
use Prim.Native.String
use aws_architecture.Security.Context.{conflict}
use text.Mathlib.TextLemmas.{append_assoc}
use aws_architecture.Security.Scoped.Ports.{
  CacheCall, gets, sets, deletes, IdempotencyCall, looks_up, puts_if_absent, LockCall, locks,
  StorageCall, puts, reads, erases, signs, JobOptions, SearchQuery, ModelRequest, DomainEvent,
}
use aws_architecture.Security.Scoped.{
  Scope, join, or_root, tenant_key, storage_prefix, tenant_credential_prefix, relative_storage_key,
  relative_credential_name, Sent, to_cache, to_idempotency, to_lock, to_storage, to_search,
  to_queue, to_bus, to_model, to_secrets, scoped_cache, scoped_idempotency, scoped_lock,
  scoped_search, scoped_storage, scoped_queue, scoped_bus, scoped_model, scoped_secrets,
  storage_key,
}

-- A request to a scoped port.
pub data Request (V : Type 0) : Type 0 where
  of_cache : CacheCall V → Request V
  of_idempotency : IdempotencyCall V → Request V
  of_lock : LockCall → Request V
  of_search : SearchQuery → Request V
  of_storage : StorageCall V → Request V
  of_queue : (queue : String) → V → JobOptions → Request V
  of_bus : DomainEvent → Request V
  of_model : ModelRequest → Request V
  of_secrets : (name : String) → Request V

-- A key that starts with the tenant.
abbrev pub IsKeyOf : Scope → String → Type 0
IsKeyOf s key =
    (rest : String) × (key
      ≡ String.◌++◌ "tenant" (String.◌++◌ ":" (String.◌++◌ s.tenant_id (String.◌++◌ ":" rest))))

tenant_key-IsKeyOf : (s : Scope) (kind key : String) → IsKeyOf s (tenant_key s (kind ∷ key ∷ []))
unfolding tenant_key join
tenant_key-IsKeyOf s kind key = (_, refl)

module _ (encode : String → String) where
  abbrev pub IsPathOf : Scope → String → Type 0
  IsPathOf s key =
      (rest : String) × (key
        ≡ String.◌++◌ "tenants/" (String.◌++◌ (encode s.tenant_id) (String.◌++◌ "/" rest)))

  storage_prefix-IsPathOf :
      (s : Scope) (key : String) → IsPathOf s (String.◌++◌ (storage_prefix encode s) key)
  unfolding storage_prefix
  storage_prefix-IsPathOf s key = (
    String.◌++◌ "workspaces/" (String.◌++◌ (encode (or_root s.workspace_id)) (String.◌++◌ "/" key)),
    simp append_assoc refl,
  )

  tenant_credential_prefix-IsPathOf :
      (s : Scope) (key : String) → IsPathOf s (String.◌++◌ (tenant_credential_prefix encode s) key)
  unfolding tenant_credential_prefix
  tenant_credential_prefix-IsPathOf s key = (
    String.◌++◌ "workspaces/"
        (String.◌++◌ (encode (or_root s.workspace_id)) (String.◌++◌ "/integrations/" key)),
    simp append_assoc refl,
  )

module _ {V : Type 0} (encode : String → String) where
  unfoldable pub scoped : {A : Type 0} → (Sent V → Result A) → Scope → Request V → Result A
  scoped port s (of_cache c) = scoped_cache encode port s c
  scoped port s (of_idempotency c) = scoped_idempotency encode port s c
  scoped port s (of_lock c) = scoped_lock encode port s c
  scoped port s (of_search q) = scoped_search encode port s q
  scoped port s (of_storage c) = scoped_storage encode port s c
  scoped port s (of_queue queue payload options) = scoped_queue encode port s queue payload options
  scoped port s (of_bus event) = scoped_bus encode port s event
  scoped port s (of_model r) = scoped_model encode port s r
  scoped port s (of_secrets name) = scoped_secrets encode port s name

  -- A call that names the tenant of the scope.
  abbrev pub IsOwn : Scope → Sent V → Type 0
  IsOwn s (to_cache (gets key)) = IsKeyOf s key
  IsOwn s (to_cache (sets key v ttl)) = IsKeyOf s key
  IsOwn s (to_cache (deletes key)) = IsKeyOf s key
  IsOwn s (to_idempotency (looks_up key)) = IsKeyOf s key
  IsOwn s (to_idempotency (puts_if_absent key v ttl)) = IsKeyOf s key
  IsOwn s (to_lock (locks key ttl)) = IsKeyOf s key
  IsOwn s (to_storage (puts key body metadata)) = IsPathOf encode s key
  IsOwn s (to_storage (reads key)) = IsPathOf encode s key
  IsOwn s (to_storage (erases key)) = IsPathOf encode s key
  IsOwn s (to_storage (signs key expires)) = IsPathOf encode s key
  IsOwn s (to_search q) = q.tenant_id ≡ some s.tenant_id
  IsOwn s (to_queue queue envelope options) = envelope.tenant_id ≡ s.tenant_id
  IsOwn s (to_bus event) = event.tenant_id ≡ s.tenant_id
  IsOwn s (to_model r) = r.tenant_id ≡ s.tenant_id
  IsOwn s (to_secrets name) = IsPathOf encode s name

  storage_key-IsPathOf :
      {A : Type 0} (port : Sent V → Result A) (s : Scope) (key full : String)
      → storage_key encode port s key ≡ ok full
      → IsPathOf encode s full
  storage_key-IsPathOf port s key full h =
      let (relative, _, made) = >>=-eq-ok (relative_storage_key key) _ h in
      subst (IsPathOf encode s) (ok-injective made) (storage_prefix-IsPathOf encode s relative)

  scoped_storage-IsOwn :
      {A : Type 0} (port : Sent V → Result A) (s : Scope) (c : StorageCall V) (a : A)
      → scoped_storage encode port s c ≡ ok a
      → (x : Sent V) × IsOwn s x × (port x ≡ ok a)
  unfolding scoped_storage
  scoped_storage-IsOwn port s (puts key body metadata) a h =
      let (full, made, sent) = >>=-eq-ok (storage_key encode port s key) _ h in
      (to_storage (puts full body _), storage_key-IsPathOf port s key full made, sent)
  scoped_storage-IsOwn port s (reads key) a h =
      let (full, made, sent) = >>=-eq-ok (storage_key encode port s key) _ h in
      (to_storage (reads full), storage_key-IsPathOf port s key full made, sent)
  scoped_storage-IsOwn port s (erases key) a h =
      let (full, made, sent) = >>=-eq-ok (storage_key encode port s key) _ h in
      (to_storage (erases full), storage_key-IsPathOf port s key full made, sent)
  scoped_storage-IsOwn port s (signs key expires) a h =
      let (full, made, sent) = >>=-eq-ok (storage_key encode port s key) _ h in
      (to_storage (signs full expires), storage_key-IsPathOf port s key full made, sent)

  scoped_bus-IsOwn :
      {A : Type 0} (port : Sent V → Result A) (s : Scope) (event : DomainEvent) (a : A)
      → scoped_bus encode port s event ≡ ok a
      → (x : Sent V) × IsOwn s x × (port x ≡ ok a)
  unfolding scoped_bus
  scoped_bus-IsOwn port s event a h =
      let (passed, rest) = >>-eq-ok (reject_if (event.tenant_id !== s.tenant_id) _) _ h in
      let (passed', sent) =
        >>-eq-ok
          (reject_if (present s.workspace_id && not (same event.workspace_id s.workspace_id)) _) _
          rest in
      let no = reject_if-ok (event.tenant_id !== s.tenant_id) _ passed in
      (to_bus event, ground (arith, eq_iff event.tenant_id s.tenant_id), sent)

  scoped_search-IsOwn :
      {A : Type 0} (port : Sent V → Result A) (s : Scope) (q : SearchQuery) (a : A)
      → scoped_search encode port s q ≡ ok a
      → (x : Sent V) × IsOwn s x × (port x ≡ ok a)
  unfolding scoped_search
  scoped_search-IsOwn port s q a h =
      let (_, rest) =
        >>-eq-ok (reject_if (present q.tenant_id && not (same q.tenant_id (some s.tenant_id))) _) _
          h in
      let (_, sent) = >>-eq-ok (reject_if (conflict q.workspace_id s.workspace_id) _) _ rest in
      (
        to_search (record q { tenant_id = some s.tenant_id; workspace_id = s.workspace_id }),
        refl,
        sent,
      )

  scoped_model-IsOwn :
      {A : Type 0} (port : Sent V → Result A) (s : Scope) (r : ModelRequest) (a : A)
      → scoped_model encode port s r ≡ ok a
      → (x : Sent V) × IsOwn s x × (port x ≡ ok a)
  unfolding scoped_model
  scoped_model-IsOwn port s r a h =
      let (_, rest) =
        >>-eq-ok (reject_if (truthy r.tenant_id && (r.tenant_id !== s.tenant_id)) _) _ h in
      let (_, sent) = >>-eq-ok (reject_if (conflict r.workspace_id s.workspace_id) _) _ rest in
      (to_model (record r { tenant_id = s.tenant_id; workspace_id = s.workspace_id }), refl, sent)

  scoped_secrets-IsOwn :
      {A : Type 0} (port : Sent V → Result A) (s : Scope) (name : String) (a : A)
      → scoped_secrets encode port s name ≡ ok a
      → (x : Sent V) × IsOwn s x × (port x ≡ ok a)
  unfolding scoped_secrets
  scoped_secrets-IsOwn port s name a h =
      let (relative, _, sent) = >>=-eq-ok (relative_credential_name name) _ h in
      (
        to_secrets (String.◌++◌ (tenant_credential_prefix encode s) relative),
        tenant_credential_prefix-IsPathOf encode s relative,
        sent,
      )

  -- A request that a scoped port answers is a call of the wrapped port that names the tenant.
  pub scoped-IsOwn :
      {A : Type 0} (port : Sent V → Result A) (s : Scope) (r : Request V) (a : A)
      → scoped port s r ≡ ok a
      → (x : Sent V) × IsOwn s x × (port x ≡ ok a)
  unfolding scoped scoped_cache scoped_idempotency scoped_lock scoped_queue
  scoped-IsOwn port s (of_cache (gets key)) a h = (_, tenant_key-IsKeyOf s "cache" key, h)
  scoped-IsOwn port s (of_cache (sets key v ttl)) a h = (_, tenant_key-IsKeyOf s "cache" key, h)
  scoped-IsOwn port s (of_cache (deletes key)) a h = (_, tenant_key-IsKeyOf s "cache" key, h)
  scoped-IsOwn port s (of_idempotency (looks_up key)) a h =
      (_, tenant_key-IsKeyOf s "idempotency" key, h)
  scoped-IsOwn port s (of_idempotency (puts_if_absent key v ttl)) a h =
      (_, tenant_key-IsKeyOf s "idempotency" key, h)
  scoped-IsOwn port s (of_lock (locks key ttl)) a h = (_, tenant_key-IsKeyOf s "lock" key, h)
  scoped-IsOwn port s (of_search q) a h = scoped_search-IsOwn port s q a h
  scoped-IsOwn port s (of_storage c) a h = scoped_storage-IsOwn port s c a h
  scoped-IsOwn port s (of_queue queue payload options) a h = (_, refl, h)
  scoped-IsOwn port s (of_bus event) a h = scoped_bus-IsOwn port s event a h
  scoped-IsOwn port s (of_model r) a h = scoped_model-IsOwn port s r a h
  scoped-IsOwn port s (of_secrets name) a h = scoped_secrets-IsOwn port s name a h
