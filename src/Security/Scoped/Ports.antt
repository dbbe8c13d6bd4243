-- ===== src/Security/Scoped/Ports.antt =====
-- The calls of the ports of packages/capability-contracts/src/index.ts, and the data they carry
-- (packages/domain/src/index.ts). A value, body or payload is of any type; a temperature is left out.
use aws_architecture.Base.{ℕ, String, Option, List}
use aws_architecture.Base.Json.{Json, Fields}

pub data CacheCall (V : Type 0) : Type 0 where
  gets : (key : String) → CacheCall V
  sets : (key : String) → V → (ttl_seconds : Option ℕ) → CacheCall V
  deletes : (key : String) → CacheCall V

pub data IdempotencyCall (V : Type 0) : Type 0 where
  looks_up : (key : String) → IdempotencyCall V
  puts_if_absent : (key : String) → V → (ttl_seconds : ℕ) → IdempotencyCall V

pub data LockCall : Type 0 where
  locks : (key : String) → (ttl_ms : ℕ) → LockCall

pub data StorageCall (V : Type 0) : Type 0 where
  puts : (key : String) → V → (metadata : List (String × String)) → StorageCall V
  reads : (key : String) → StorageCall V
  erases : (key : String) → StorageCall V
  signs : (key : String) → (expires_seconds : ℕ) → StorageCall V

pub record JobOptions : Type 0 where
  pub idempotency_key : Option String
  pub delay_ms : Option ℕ
  pub max_attempts : Option ℕ
  pub correlation_id : Option String

pub record SearchQuery : Type 0 where
  pub text : String
  pub tenant_id : Option String
  pub workspace_id : Option String
  pub limit : Option ℕ
  pub cursor : Option String
  pub filters : Option Fields

pub record ModelRequest : Type 0 where
  pub tenant_id : String
  pub workspace_id : Option String
  pub model : Option String
  pub input : String
  pub max_tokens : Option ℕ
  pub correlation_id : String

pub record DomainEvent : Type 0 where
  pub event_id : String
  pub event_type : String
  pub event_version : ℕ
  pub timestamp : String
  pub tenant_id : String
  pub workspace_id : Option String
  pub correlation_id : String
  pub causation_id : Option String
  pub source : String
  pub data_of : Json
