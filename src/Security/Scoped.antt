-- ===== src/Security/Scoped.antt =====
-- The tenant-scoped ports (packages/security/src/tenant-scoped-ports.ts) and the keys, prefixes and
-- envelopes of packages/security/src/tenant-context.ts. A wrapped port is what it answers to a call; the
-- runtime's `encodeURIComponent` is a parameter.
pub mod Ports
pub mod Texts
pub mod Separation
pub mod Tenants
mod Tests
use aws_architecture.Base.{
  ℕ, String, Bool, true, false, not, ◌&&◌, ◌||◌, Option, none, some, List, [], ◌∷◌, ◌++◌, ◌==◌,
  ◌===◌, ◌!==◌, any, present, same, truthy, map, if◌then◌else◌, Result, ok, throw, error, reject_if,
  ◌>>=◌, ◌>>◌,
}
use aws_architecture.Base.Map.{set}
use aws_architecture.Security.Context.{conflict}
use Prim.Native.String
use Prim.Native.Char.{Char, code}
use aws_architecture.Security.Scoped.Ports.{
  CacheCall, gets, sets, deletes, IdempotencyCall, looks_up, puts_if_absent, LockCall, locks,
  StorageCall, puts, reads, erases, signs, JobOptions, SearchQuery, ModelRequest, DomainEvent,
}

-- `Pick<TenantContext, 'tenantId' | 'workspaceId'>`.
pub record Scope : Type 0 where
  pub tenant_id : String
  pub workspace_id : Option String

-- `parts.join(':')`.
unfoldable pub join : List String → String
join [] = ""
join (x ∷ []) = x
join (x ∷ y ∷ rest) = String.◌++◌ x (String.◌++◌ ":" (join (y ∷ rest)))

-- `ctx.workspaceId ?? '_root'`.
abbrev pub or_root : Option String → String
or_root none = "_root"
or_root (some w) = w

unfoldable pub tenant_key : Scope → List String → String
unfolding join
tenant_key s parts = join ("tenant" ∷ s.tenant_id ∷ "workspace" ∷ or_root s.workspace_id ∷ parts)

-- The prefixes of stored objects and of credentials.
module _ (encode : String → String) where
  unfoldable pub storage_prefix : Scope → String
  storage_prefix s = String.◌++◌ "tenants/" (
      String.◌++◌ (encode s.tenant_id) (
        String.◌++◌ "/"
          (String.◌++◌ "workspaces/" (String.◌++◌ (encode (or_root s.workspace_id)) "/"))))

  unfoldable pub tenant_credential_prefix : Scope → String
  tenant_credential_prefix s = String.◌++◌ "tenants/" (
      String.◌++◌ (encode s.tenant_id) (
        String.◌++◌ "/" (
          String.◌++◌ "workspaces/"
            (String.◌++◌ (encode (or_root s.workspace_id)) "/integrations/"))))

-- `key.replace(/^\/+/, '')`.
unfoldable pub strip_slashes : String → String
strip_slashes String.[] = ""
strip_slashes (String.◌∷◌ c s) =
    let rest = strip_slashes s in if code c == b'/' then rest else String.◌∷◌ c s

-- `s.split('/')`.
abbrev pub longer : Char → List String → List String
longer c [] = String.◌∷◌ c "" ∷ []
longer c (x ∷ xs) = String.◌∷◌ c x ∷ xs

unfoldable pub split_slashes : String → List String
split_slashes String.[] = "" ∷ []
split_slashes (String.◌∷◌ c s) =
    let rest = split_slashes s in if code c == b'/' then "" ∷ rest else longer c rest

unfoldable pub relative_storage_key : String → Result String
unfolding strip_slashes split_slashes
relative_storage_key key =
    let normalized = strip_slashes key in
    if not (truthy normalized) || any (λ part. part === "..") (split_slashes normalized)
    then throw (error "INVALID_TENANT_STORAGE_KEY")
    else ok normalized

unfoldable pub relative_credential_name : String → Result String
unfolding strip_slashes split_slashes
relative_credential_name name =
    let normalized = strip_slashes name in
    if not (truthy normalized)
      || any (λ part. not (truthy part) || part === "." || part === "..") (split_slashes normalized)
    then throw (error "INVALID_TENANT_CREDENTIAL_NAME")
    else ok normalized

-- `tenantQueueEnvelope`.
pub record Envelope (V : Type 0) : Type 0 where
  pub tenant_id : String
  pub workspace_id : Option String
  pub payload : V

-- What the wrapped port is asked.
pub data Sent (V : Type 0) : Type 0 where
  to_cache : CacheCall V → Sent V
  to_idempotency : IdempotencyCall V → Sent V
  to_lock : LockCall → Sent V
  to_storage : StorageCall V → Sent V
  to_search : SearchQuery → Sent V
  to_queue : (queue : String) → Envelope V → JobOptions → Sent V
  to_bus : DomainEvent → Sent V
  to_model : ModelRequest → Sent V
  to_secrets : (name : String) → Sent V

module _ {V A : Type 0} (encode : String → String) (port : Sent V → Result A) (s : Scope) where
  abbrev key_of : String → String → String
  key_of kind key = tenant_key s (kind ∷ key ∷ [])

  -- `TenantScopedCache`, `TenantScopedIdempotency` and `TenantScopedLock`.
  unfoldable pub scoped_cache : CacheCall V → Result A
  scoped_cache (gets key) = port (to_cache (gets (key_of "cache" key)))
  scoped_cache (sets key v ttl) = port (to_cache (sets (key_of "cache" key) v ttl))
  scoped_cache (deletes key) = port (to_cache (deletes (key_of "cache" key)))

  unfoldable pub scoped_idempotency : IdempotencyCall V → Result A
  scoped_idempotency (looks_up key) = port (to_idempotency (looks_up (key_of "idempotency" key)))
  scoped_idempotency (puts_if_absent key v ttl) =
      port (to_idempotency (puts_if_absent (key_of "idempotency" key) v ttl))

  unfoldable pub scoped_lock : LockCall → Result A
  scoped_lock (locks key ttl) = port (to_lock (locks (key_of "lock" key) ttl))

  -- `TenantScopedSearch.search`.
  unfoldable pub scoped_search : SearchQuery → Result A
  scoped_search q = do
    reject_if (present q.tenant_id && not (same q.tenant_id (some s.tenant_id)))
        (error "CROSS_TENANT_SEARCH_DENIED")
    reject_if (conflict q.workspace_id s.workspace_id) (error "CROSS_WORKSPACE_SEARCH_DENIED")
    port (to_search (record q { tenant_id = some s.tenant_id; workspace_id = s.workspace_id }))

  -- `TenantScopedObjectStorage`.
  abbrev storage_key : String → Result String
  storage_key key = do
    relative ← relative_storage_key key
    ok (String.◌++◌ (storage_prefix encode s) relative)

  abbrev or_blank : Option String → String
  or_blank none = ""
  or_blank (some w) = w

  unfoldable pub scoped_storage : StorageCall V → Result A
  scoped_storage (puts key body metadata) = do
    full ← storage_key key
    port (
        to_storage (
          puts full body
            (set "workspaceId" (or_blank s.workspace_id) (set "tenantId" s.tenant_id metadata))))
  scoped_storage (reads key) = do full ← storage_key key; port (to_storage (reads full))
  scoped_storage (erases key) = do full ← storage_key key; port (to_storage (erases full))
  scoped_storage (signs key expires) = do
    full ← storage_key key
    port (to_storage (signs full expires))

  -- `options.idempotencyKey ? tenantKey(...) : undefined`.
  abbrev job_key : Option String → Option String
  job_key none = none
  job_key (some key) = if truthy key then some (key_of "job-idempotency" key) else none

  -- `TenantScopedJobQueue.enqueue`.
  unfoldable pub scoped_queue : (queue : String) → V → JobOptions → Result A
  scoped_queue queue payload options = port (
      to_queue queue
        (record { tenant_id = s.tenant_id; workspace_id = s.workspace_id; payload = payload })
        (record options { idempotency_key = job_key options.idempotency_key }))

  -- `TenantScopedEventBus.publish`.
  unfoldable pub scoped_bus : DomainEvent → Result A
  scoped_bus event = do
    reject_if (event.tenant_id !== s.tenant_id) (error "CROSS_TENANT_EVENT_DENIED")
    reject_if (present s.workspace_id && not (same event.workspace_id s.workspace_id))
        (error "CROSS_WORKSPACE_EVENT_DENIED")
    port (to_bus event)

  -- `TenantScopedAI.generate`.
  unfoldable pub scoped_model : ModelRequest → Result A
  scoped_model r = do
    reject_if (truthy r.tenant_id && (r.tenant_id !== s.tenant_id)) (error "CROSS_TENANT_AI_DENIED")
    reject_if (conflict r.workspace_id s.workspace_id) (error "CROSS_WORKSPACE_AI_DENIED")
    port (to_model (record r { tenant_id = s.tenant_id; workspace_id = s.workspace_id }))

  -- `TenantScopedSecretProvider.get`.
  unfoldable pub scoped_secrets : (name : String) → Result A
  scoped_secrets name = do
    relative ← relative_credential_name name
    port (to_secrets (String.◌++◌ (tenant_credential_prefix encode s) relative))
