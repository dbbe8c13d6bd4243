-- ===== src/Api/Idempotency.antt =====
-- Idempotent responses (apps/api/src/idempotency.ts) and the handler that uses them (`POST
-- /v1/resources` of apps/api/src/server.ts). The time is an argument, read once in a synchronous body.
-- The bytes of a stored response are made and read by the runtime's JSON and text encoders, which are
-- parameters; a response body is its JSON text.
pub mod Replay
use aws_architecture.Base.{
  ℕ, ◌+◌, ◌*◌, String, Bool, true, false, Option, none, some, List, [], ◌∷◌, leb, if◌then◌else◌,
  Result, ok, throw, http,
}
use Prim.Native.String
use aws_architecture.Base.Map.{get, set, delete}
use aws_architecture.Security.Context.{TenantContext}

pub record IdempotentResponse : Type 0 where
  pub body : String
  pub status : ℕ

pub record Entry (Bytes : Type 0) : Type 0 where
  pub value : Bytes
  pub expires_at : ℕ

-- `MemoryIdempotencyPort.get`, where the key is not there, or is.
abbrev pub get_entry :
    {Bytes : Type 0}
    → ℕ
    → String
    → List (String × Entry Bytes)
    → Option (Entry Bytes)
    → List (String × Entry Bytes) × Option Bytes
get_entry now key m none = (m, none)
get_entry now key m (some e) =
    if leb e.expires_at now then (delete key m, none) else (m, some e.value)

unfoldable pub port_get :
    {Bytes : Type 0}
    → (now : ℕ) → (key : String) → List (String × Entry Bytes)
    → List (String × Entry Bytes) × Option Bytes
unfolding get delete
port_get now key m = get_entry now key m (get key m)

-- `MemoryIdempotencyPort.putIfAbsent`; a lifetime is never negative here.
abbrev pub put_entry :
    {Bytes : Type 0}
    → ℕ
    → String
    → Bytes
    → (ttl_seconds : ℕ) → List (String × Entry Bytes)
    → Option (Entry Bytes)
    → List (String × Entry Bytes) × Bool
put_entry now key value ttl m none =
    (set key (record { value = value; expires_at = now + ttl * 1000 }) m, true)
put_entry now key value ttl m (some current) =
    if leb current.expires_at now
    then (set key (record { value = value; expires_at = now + ttl * 1000 }) (delete key m), true)
    else (m, false)

unfoldable pub put_if_absent :
    {Bytes : Type 0}
    → (now : ℕ) → (key : String) → Bytes
    → (ttl_seconds : ℕ) → List (String × Entry Bytes)
    → List (String × Entry Bytes) × Bool
unfolding get set delete
put_if_absent now key value ttl m = put_entry now key value ttl m (get key m)

-- The lifetime where none is given.
abbrev pub day : ℕ
day = 86400

-- The key of `POST /v1/resources`.
unfoldable pub resource_key : TenantContext → (header : String) → String
resource_key tenant header =
    let workspace : String = elim tenant.workspace_id [ none ↦ "_root" | some w ↦ w ] in
    String.◌++◌ tenant.tenant_id (String.◌++◌ ":" (String.◌++◌ workspace (String.◌++◌ ":" header)))

-- `decode`, which throws where the bytes are not those of a response.
abbrev pub decoded : Option IdempotentResponse → Result (Option IdempotentResponse)
decoded none =
    throw (http 500 "IDEMPOTENCY_RECORD_CORRUPT" "Stored idempotency response is invalid")
decoded (some r) = ok (some r)

-- What the requests that share the store do, one asynchronous step after the other: a request of
-- `POST /v1/resources` looks its key up and, where it finds nothing, commits its own response later.
pub data Event : Type 0 where
  looks : (now : ℕ) → (key : String) → Event
  commits : (now later : ℕ) → (key : String) → (response : IdempotentResponse) → Event

pub record Reply : Type 0 where
  pub to : String
  pub answer : Result (Option IdempotentResponse)

-- `ApiIdempotencyStore` over the memory port; `decode` gives nothing where it throws.
module _ {Bytes : Type 0} (encode : IdempotentResponse → Bytes)
    (decode : Bytes → Option IdempotentResponse) where
  abbrev pub found : Option Bytes → Result (Option IdempotentResponse)
  found none = ok none
  found (some b) = decoded (decode b)

  unfoldable pub store_get :
      (now : ℕ)
      → String
      → List (String × Entry Bytes)
      → List (String × Entry Bytes) × Result (Option IdempotentResponse)
  store_get now key m = let (after, value) = port_get now key m in (after, found value)

  abbrev pub winner : Result (Option IdempotentResponse) → Result IdempotentResponse
  winner (throw e) = throw e
  winner (ok none) = throw (
      http 409 "IDEMPOTENCY_CONFLICT"
        "Idempotency key was concurrently committed but its response is unavailable")
  winner (ok (some r)) = ok r

  -- `commitOrRead`: it writes at one time and, where it comes too late, reads at a later one.
  unfoldable pub commit_or_read :
      (now later : ℕ)
      → String
      → IdempotentResponse
      → List (String × Entry Bytes)
      → List (String × Entry Bytes) × Result IdempotentResponse
  commit_or_read now later key response m =
      let (written, won) = put_if_absent now key (encode response) day m in
      let (after, read) = store_get later key written in
      if won then (written, ok response) else (after, winner read)

  abbrev pub replied : Result IdempotentResponse → Result (Option IdempotentResponse)
  replied (throw e) = throw e
  replied (ok r) = ok (some r)

  unfoldable pub serve : Event → List (String × Entry Bytes) → List (String × Entry Bytes) × Reply
  serve (looks now key) m =
      let (after, answer) = store_get now key m in (after, record { to = key; answer = answer })
  serve (commits now later key response) m =
      let (after, answer) = commit_or_read now later key response m in
      (after, record { to = key; answer = replied answer })

  -- The answers to a sequence of such steps.
  unfoldable pub serve_all : List Event → List (String × Entry Bytes) → List Reply
  serve_all [] m = []
  serve_all (e ∷ es) m = (serve e m).1 ∷ serve_all es (serve e m).0
