-- ===== src/Services/Upload/Approval.antt =====
-- What an approved document has passed (services/document/src/upload-security.ts).
use aws_architecture.Base.{
  ℕ, some, [], ◌∷◌, ◌≤◌, String, Bool, true, Option, List, ◌≡◌, length, Result, ok,
}
use Prim.Native.String
use aws_architecture.Base.Map.{get}
use aws_architecture.Services.Upload.{
  UploadPolicy, UploadDescriptor, matches_magic, is_archive, upload_key, Approved, UploadCall, puts,
  deletes, enqueues,
}
use aws_architecture.Services.Upload.Checks.{IsSmall, IsAccepted}

-- The three calls that follow the checks, in their order: the bytes are put under the approved key, the
-- quarantined ones deleted, and one job enqueued under a key that a second attempt repeats.
pub record IsStored (d : UploadDescriptor) (upload_id quarantine_key approved_key sha256 : String)
    (bytes : List ℕ) (calls : List UploadCall) : Type 0 where
  pub metadata : List (String × String)
  pub payload : List (String × String)
  pub order :
      calls
      ≡ puts approved_key bytes metadata
        ∷ deletes quarantine_key
        ∷ enqueues "document-processing" payload
            (String.◌++◌ "document:" (String.◌++◌ d.tenant_id (String.◌++◌ ":" upload_id)))
            upload_id
            5
        ∷ []
  pub owned : get "tenantId" metadata ≡ some d.tenant_id
  pub sealed : get "sha256" metadata ≡ some sha256
  pub typed : get "mimeType" metadata ≡ some d.mime_type
  pub named : get "originalFilename" metadata ≡ some d.filename
  pub job_owned : get "tenantId" payload ≡ some d.tenant_id
  pub job_upload : get "uploadId" payload ≡ some upload_id
  pub job_key : get "approvedKey" payload ≡ some approved_key

module _ (authorize : String → Option String → Bool) (stored : String → Result (List ℕ))
    (scan : List ℕ → Bool × Option String)
    (content_policy : List ℕ → UploadDescriptor → Result (Unit {0})) (hash : List ℕ → String) where
  pub record IsScreened (policy : UploadPolicy) (d : UploadDescriptor) (upload_id : String)
      (a : Approved) : Type 0 where
    pub accepted : IsAccepted policy d
    pub authorized : authorize d.tenant_id d.workspace_id ≡ true
    pub quarantine_key : String
    pub quarantined : upload_key "quarantine" d upload_id ≡ ok quarantine_key
    pub bytes : List ℕ
    pub found : stored quarantine_key ≡ ok bytes
    pub size :
        (length bytes ≡ d.size_bytes) × (1 ≤ length bytes) × (length bytes ≤ policy.max_bytes)
    pub typed : matches_magic bytes d.mime_type ≡ true
    pub clean : (scan bytes).0 ≡ true
    pub archive : is_archive d.mime_type ≡ true → IsSmall policy d bytes
    pub content : content_policy bytes d ≡ ok tt
    pub approved_key : String
    pub approved_at : upload_key "approved" d upload_id ≡ ok approved_key
    pub answer : (a.approved_key ≡ approved_key) × (a.sha256 ≡ hash bytes)
    pub stores : IsStored d upload_id quarantine_key approved_key (hash bytes) bytes a.calls
