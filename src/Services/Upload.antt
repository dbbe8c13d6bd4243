-- ===== src/Services/Upload.antt =====
-- The checks of an uploaded document (services/document/src/upload-security.ts). The stored bytes, the
-- answers of the authorisation, the malware scanner and the content policy, and the hash are parameters.
-- A ratio is exact here, and a text is looked at by its code points.
pub mod Zip
pub mod Checks
pub mod Approval
mod Tests
use aws_architecture.Base.{
  ℕ, zero, suc, ◌+◌, ◌-◌, ◌*◌, min, max, String, Bool, true, false, not, ◌&&◌, ◌||◌, Option, none,
  some, List, [], ◌∷◌, ◌++◌, ◌==◌, ◌===◌, leb, ltb, any, includes, present, truthy, length,
  if◌then◌else◌, Result, ok, throw, error, reject_if, ◌>>=◌, ◌>>◌,
}
use aws_architecture.Base.Map.{get}
use aws_architecture.Base.Text.{codes, lower, includes_codes}
use Prim.Native.String
use aws_architecture.Services.Upload.Zip.{
  ZipInspection, Ratio, exceeds, inspect_zip_archive, has_prefix,
}

pub record UploadPolicy : Type 0 where
  pub max_bytes : ℕ
  pub allowed_extensions : List String
  pub allowed_mime_types : List String
  pub max_archive_expansion_ratio : ℕ
  pub max_archive_entries : Option ℕ
  pub max_archive_uncompressed_bytes : Option ℕ

pub record UploadDescriptor : Type 0 where
  pub tenant_id : String
  pub workspace_id : Option String
  pub filename : String
  pub mime_type : String
  pub size_bytes : ℕ
  pub archive_uncompressed_bytes : Option ℕ

abbrev docx : String
docx = "application/vnd.openxmlformats-officedocument.wordprocessingml.document"

abbrev zip_magic : List (List ℕ)
zip_magic =
    (0x50 ∷ 0x4b ∷ 0x03 ∷ 0x04 ∷ [])
    ∷ (0x50 ∷ 0x4b ∷ 0x05 ∷ 0x06 ∷ [])
    ∷ (0x50 ∷ 0x4b ∷ 0x07 ∷ 0x08 ∷ [])
    ∷ []

unfoldable pub magic : List (String × List (List ℕ))
magic =
    ("application/pdf", (0x25 ∷ 0x50 ∷ 0x44 ∷ 0x46 ∷ []) ∷ [])
    ∷ ("image/png", (0x89 ∷ 0x50 ∷ 0x4e ∷ 0x47 ∷ []) ∷ [])
    ∷ ("image/jpeg", (0xff ∷ 0xd8 ∷ 0xff ∷ []) ∷ [])
    ∷ ("application/zip", zip_magic)
    ∷ (docx, zip_magic)
    ∷ []

abbrev pub is_archive : String → Bool
is_archive mime = includes ("application/zip" ∷ docx ∷ []) mime

abbrev pub matches_any : Option (List (List ℕ)) → List ℕ → Bool
matches_any none bytes = true
matches_any (some signatures) bytes = any (λ signature. has_prefix signature bytes) signatures

-- `matchesMagic`.
unfoldable pub matches_magic : List ℕ → (mime : String) → Bool
unfolding magic get has_prefix
matches_magic bytes mime = matches_any (get mime magic) bytes

-- `ext`: the last dot and what follows it, in lower case.
last_part : List ℕ → Option (List ℕ)
last_part [] = none
last_part (c ∷ cs) = elim (last_part cs) [
  | none ↦ if c == b'.' then some (c ∷ cs) else none
  | some rest ↦ some rest
]

unfoldable pub ext : String → List ℕ
unfolding last_part lower
ext name = elim (last_part (codes name)) [ none ↦ [] | some part ↦ lower part ]

-- A character of `[A-Za-z0-9._-]`.
abbrev pub is_segment_code : ℕ → Bool
is_segment_code c =
    (leb b'A' c && leb c b'Z')
    || (leb b'a' c && leb c b'z')
    || (leb b'0' c && leb c b'9')
    || c == b'.'
    || c == b'_'
    || c == b'-'

-- `safeSegment`.
unfoldable pub safe_segment : String → Result String
safe_segment value =
    if not (truthy value)
      || value === "."
      || value === ".."
      || ltb 200 (length (codes value))
      || any (λ c. not (is_segment_code c)) (codes value)
    then throw (error "INVALID_STORAGE_SEGMENT")
    else ok value

-- `if (d.workspaceId) safeSegment(d.workspaceId)`.
abbrev pub safe_workspace : Option String → Result String
safe_workspace none = ok ""
safe_workspace (some w) = if truthy w then safe_segment w else ok ""

unfoldable pub validate_descriptor : UploadPolicy → UploadDescriptor → Result (Unit {0})
unfolding safe_segment ext includes_codes
validate_descriptor policy d = do
  t ← safe_segment d.tenant_id
  w ← safe_workspace d.workspace_id
  reject_if (d.size_bytes == 0 || ltb policy.max_bytes d.size_bytes) (error "UPLOAD_SIZE_REJECTED")
  reject_if (not (includes_codes policy.allowed_extensions (ext d.filename)))
      (error "UPLOAD_EXTENSION_REJECTED")
  reject_if (not (includes policy.allowed_mime_types d.mime_type)) (error "UPLOAD_MIME_REJECTED")

-- `v ?? d`.
abbrev or_limit : ℕ → Option ℕ → ℕ
or_limit d none = d
or_limit d (some n) = n

abbrev pub max_entries : UploadPolicy → ℕ
max_entries policy = or_limit 10000 policy.max_archive_entries

abbrev pub max_uncompressed : UploadPolicy → ℕ
max_uncompressed policy =
    or_limit (min (250 * 1024 * 1024) (policy.max_bytes * policy.max_archive_expansion_ratio))
      policy.max_archive_uncompressed_bytes

abbrev pub total_ratio : ZipInspection → Ratio
total_ratio z = record { over = z.total_uncompressed_bytes; under = max 1 z.total_compressed_bytes }

abbrev pub is_bomb : UploadPolicy → ZipInspection → Bool
is_bomb policy z =
    ltb (max_entries policy) z.entries
    || ltb (max_uncompressed policy) z.total_uncompressed_bytes
    || exceeds (total_ratio z) policy.max_archive_expansion_ratio
    || exceeds z.max_entry_expansion_ratio policy.max_archive_expansion_ratio

abbrev pub mismatches : Option ℕ → ZipInspection → Bool
mismatches none z = false
mismatches (some n) z = not (n == z.total_uncompressed_bytes)

unfoldable pub check_archive : UploadPolicy → UploadDescriptor → List ℕ → Result (Unit {0})
unfolding inspect_zip_archive
check_archive policy d bytes = do
  archive ← inspect_zip_archive bytes
  reject_if (is_bomb policy archive) (error "ARCHIVE_BOMB_REJECTED")
  reject_if (mismatches d.archive_uncompressed_bytes archive)
      (error "ARCHIVE_SIZE_METADATA_MISMATCH")

-- What the pipeline asks of the storage and the queue, in this order.
pub data UploadCall : Type 0 where
  puts : (key : String) → (bytes : List ℕ) → (metadata : List (String × String)) → UploadCall
  deletes : (key : String) → UploadCall
  enqueues :
      (queue : String)
      → (payload : List (String × String)) → (idempotency_key correlation_id : String)
      → (max_attempts : ℕ) → UploadCall

pub record Approved : Type 0 where
  pub approved_key : String
  pub sha256 : String
  pub calls : List UploadCall

abbrev workspace_part : Option String → Result String
workspace_part none = ok ""
workspace_part (some w) =
    if truthy w
    then (do part ← safe_segment w; ok (String.◌++◌ "workspaces/" (String.◌++◌ part "/")))
    else ok ""

-- The key of an upload below `quarantine/` or `approved/`.
unfoldable pub upload_key :
    (area : String) → UploadDescriptor → (upload_id : String) → Result String
unfolding safe_segment
upload_key area d upload_id = do
  t ← safe_segment d.tenant_id
  w ← workspace_part d.workspace_id
  u ← safe_segment upload_id
  ok (
      String.◌++◌ area
        (String.◌++◌ "/tenants/" (String.◌++◌ t (String.◌++◌ "/" (String.◌++◌ w u)))))

abbrev or_blank : Option String → String
or_blank none = ""
or_blank (some w) = w

abbrev signature_part : Option String → String
signature_part none = ""
signature_part (some s) = if truthy s then String.◌++◌ ":" s else ""

-- `workspaceId: d.workspaceId`, which an absent one leaves out of the message.
abbrev workspace_field : Option String → List (String × String)
workspace_field none = []
workspace_field (some w) = ("workspaceId", w) ∷ []

abbrev pub approval :
    UploadDescriptor → (upload_id quarantine_key approved_key sha256 : String) → List ℕ → Approved
approval d upload_id quarantine_key approved_key sha256 bytes = record {
  approved_key = approved_key;
  sha256 = sha256;
  calls =
      puts approved_key bytes (
        ("tenantId", d.tenant_id)
        ∷ ("workspaceId", or_blank d.workspace_id)
        ∷ ("sha256", sha256)
        ∷ ("originalFilename", d.filename)
        ∷ ("mimeType", d.mime_type)
        ∷ [])
      ∷ deletes quarantine_key
      ∷ enqueues "document-processing"
          (("uploadId", upload_id) ∷ ("tenantId", d.tenant_id) ∷ workspace_field d.workspace_id
            ++ (("approvedKey", approved_key)
                ∷ ("filename", d.filename)
                ∷ ("mimeType", d.mime_type)
                ∷ ("sha256", sha256)
                ∷ []))
          (String.◌++◌ "document:" (String.◌++◌ d.tenant_id (String.◌++◌ ":" upload_id))) upload_id
          5
      ∷ [];
}

module _ (authorize : String → Option String → Bool) (stored : String → Result (List ℕ))
    (scan : List ℕ → Bool × Option String)
    (content_policy : List ℕ → UploadDescriptor → Result (Unit {0})) (hash : List ℕ → String) where
  -- `inspectAndApprove`.
  unfoldable pub inspect_and_approve :
      UploadPolicy → UploadDescriptor → (upload_id : String) → Result Approved
  unfolding validate_descriptor upload_key matches_magic check_archive
  inspect_and_approve policy d upload_id = do
    validate_descriptor policy d
    reject_if (not (authorize d.tenant_id d.workspace_id)) (error "UPLOAD_ACCESS_DENIED")
    quarantine_key ← upload_key "quarantine" d upload_id
    bytes ← stored quarantine_key
    reject_if (not (length bytes == d.size_bytes)) (error "UPLOAD_SIZE_MISMATCH")
    reject_if (not (matches_magic bytes d.mime_type)) (error "UPLOAD_MAGIC_BYTES_REJECTED")
    if is_archive d.mime_type then check_archive policy d bytes else ok tt
    reject_if (not (scan bytes).0)
        (error (String.◌++◌ "MALWARE_DETECTED" (signature_part (scan bytes).1)))
    content_policy bytes d
    approved_key ← upload_key "approved" d upload_id
    ok (approval d upload_id quarantine_key approved_key (hash bytes) bytes)
