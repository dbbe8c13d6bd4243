-- ===== src/Services/Upload/Checks.antt =====
-- What the descriptor and the bytes of an upload have passed (services/document/src/upload-security.ts).
use aws_architecture.Base.{
  not-false, ℕ, ◌*◌, ◌≢◌, ◌===◌, any, includes, truthy, some, none, eq_iff, Bool-cases, inl, inr,
  Failure, throw, ◌≤◌, String, Bool, true, false, not, Option, List, ◌≡◌, refl, arith, ◌==◌, ◌||◌,
  max, if◌then◌else◌, ltb, length, ok, reject_if, reject_if-ok, >>=-eq-ok, >>-eq-ok,
}
use aws_architecture.Base.Text.{codes, includes_codes}
use aws_architecture.Services.Upload.Zip.{ZipInspection, exceeds, inspect_zip_archive}
use aws_architecture.Services.Upload.{
  UploadPolicy, UploadDescriptor, safe_segment, safe_workspace, validate_descriptor, is_archive,
  check_archive, is_bomb, total_ratio, max_entries, max_uncompressed, mismatches, ext,
  is_segment_code,
}

-- An archive whose central records stay within the policy.
pub record IsSmall (policy : UploadPolicy) (d : UploadDescriptor) (bytes : List ℕ) : Type 0 where
  pub seen : ZipInspection
  pub inspected : inspect_zip_archive bytes ≡ ok seen
  pub few : seen.entries ≤ max_entries policy
  pub bounded : seen.total_uncompressed_bytes ≤ max_uncompressed policy
  pub ratio :
      seen.total_uncompressed_bytes
      ≤ policy.max_archive_expansion_ratio * max 1 seen.total_compressed_bytes
  pub entry_ratio :
      seen.max_entry_expansion_ratio.over
      ≤ policy.max_archive_expansion_ratio * seen.max_entry_expansion_ratio.under
  pub declared : (n : ℕ) → d.archive_uncompressed_bytes ≡ some n → seen.total_uncompressed_bytes ≡ n

pub some_injective {ℓ} : {A : Type ℓ} {x y : A} → some x ≡ some y → x ≡ y
some_injective h = cc

or_false : (a b : Bool) → (a || b) ≡ false → (a ≡ false) × (b ≡ false)
or_false true b h = cc
or_false false b h = (refl, h)

all_false :
    (a b c d : Bool)
    → (a || b || c || d) ≡ false
    → (a ≡ false) × (b ≡ false) × (c ≡ false) × (d ≡ false)
all_false a b c d h = (ground arith, ground arith, ground arith, ground arith)

mismatches-declared :
    (declared : Option ℕ) (z : ZipInspection) (n : ℕ)
    → mismatches declared z ≡ false
    → declared ≡ some n
    → z.total_uncompressed_bytes ≡ n
mismatches-declared none z n h e = cc
mismatches-declared (some m) z n h e = let same : m ≡ n = some_injective e in ground arith

pub not_more : (a b : ℕ) → ltb a b ≡ false → b ≤ a
not_more a b h = ground arith

check_archive-IsSmall :
    (policy : UploadPolicy) (d : UploadDescriptor) (bytes : List ℕ)
    → check_archive policy d bytes ≡ ok tt
    → IsSmall policy d bytes
unfolding check_archive
check_archive-IsSmall policy d bytes h =
    let (z, inspected, rest) = >>=-eq-ok (inspect_zip_archive bytes) _ h in
    let (first, second) = >>-eq-ok (reject_if (is_bomb policy z) _) _ rest in
    let calm = reject_if-ok (is_bomb policy z) _ first in
    let (few, bounded, ratio, entry_ratio) =
      all_false (ltb (max_entries policy) z.entries)
        (ltb (max_uncompressed policy) z.total_uncompressed_bytes)
        (exceeds (total_ratio z) policy.max_archive_expansion_ratio)
        (exceeds z.max_entry_expansion_ratio policy.max_archive_expansion_ratio) calm in
    record {
      seen = z;
      inspected = inspected;
      few = not_more _ _ few;
      bounded = not_more _ _ bounded;
      ratio = not_more _ _ ratio;
      entry_ratio = not_more _ _ entry_ratio;
      declared = λ n e.
          mismatches-declared d.archive_uncompressed_bytes z n
            (reject_if-ok (mismatches d.archive_uncompressed_bytes z) _ second) e;
    }

pub archive_checked :
    (policy : UploadPolicy) (d : UploadDescriptor) (bytes : List ℕ)
    → (if is_archive d.mime_type then check_archive policy d bytes else ok tt) ≡ ok tt
    → is_archive d.mime_type ≡ true
    → IsSmall policy d bytes
archive_checked policy d bytes h archive = check_archive-IsSmall policy d bytes (ground arith)

pub not_zero : (n : ℕ) → (n == 0) ≡ false → 1 ≤ n
not_zero n h = ground arith

pub equal_sizes : (a b : ℕ) → not (a == b) ≡ false → a ≡ b
equal_sizes a b h = ground arith

-- A text that may stand in a key: not empty, not `.` or `..`, of at most 200 of the characters.
pub record IsSegment (t : String) : Type 0 where
  pub some_text : truthy t ≡ true
  pub no_step : (t ≢ ".") × (t ≢ "..")
  pub short : length (codes t) ≤ 200
  pub plain : any (λ c. not (is_segment_code c)) (codes t) ≡ false

safe_segment-IsSegment : (t : String) {u : String} → safe_segment t ≡ ok u → IsSegment t
unfolding safe_segment
safe_segment-IsSegment t h =
    elim (Bool-cases (
      not (truthy t)
      || t === "."
      || t === ".."
      || ltb 200 (length (codes t))
      || any (λ c. not (is_segment_code c)) (codes t))) [
        | inl bad ↦ absurd (refused (rw bad at h))
        | inr e ↦ record {
          some_text = ground arith;
          no_step = (λ k. ground (arith, eq_iff t "."), λ k. ground (arith, eq_iff t ".."));
          short = ground arith;
          plain = ground arith;
        }
      ]
  where
    refused : {e : Failure} {u : String} → throw e ≡ ok u → ⊥
    refused k = cc

abbrev pub HasSegment : Option String → Type 0
HasSegment none = Unit
HasSegment (some w) = truthy w ≡ true → IsSegment w

safe_workspace-HasSegment :
    (w : Option String) {u : String} → safe_workspace w ≡ ok u → HasSegment w
safe_workspace-HasSegment none h = tt
safe_workspace-HasSegment (some w) h = λ t. safe_segment-IsSegment w (rw t at h)

-- An announcement that the policy accepts.
pub record IsAccepted (policy : UploadPolicy) (d : UploadDescriptor) : Type 0 where
  pub tenant : IsSegment d.tenant_id
  pub workspace : HasSegment d.workspace_id
  pub size : (1 ≤ d.size_bytes) × (d.size_bytes ≤ policy.max_bytes)
  pub extension : includes_codes policy.allowed_extensions (ext d.filename) ≡ true
  pub mime : includes policy.allowed_mime_types d.mime_type ≡ true

pub validate_descriptor-IsAccepted :
    (policy : UploadPolicy) (d : UploadDescriptor)
    → validate_descriptor policy d ≡ ok tt
    → IsAccepted policy d
unfolding validate_descriptor
validate_descriptor-IsAccepted policy d h =
    let (t, tenant, h₁) = >>=-eq-ok (safe_segment d.tenant_id) _ h in
    let (w, workspace, h₂) = >>=-eq-ok (safe_workspace d.workspace_id) _ h₁ in
    let (sized, h₃) =
      >>-eq-ok (reject_if (d.size_bytes == 0 || ltb policy.max_bytes d.size_bytes) _) _ h₂ in
    let (extension, mime) =
      >>-eq-ok (reject_if (not (includes_codes policy.allowed_extensions (ext d.filename))) _) _
        h₃ in
    let (some_bytes, few) =
      or_false _ _
        (reject_if-ok (d.size_bytes == 0 || ltb policy.max_bytes d.size_bytes) _ sized) in
    record {
      tenant = safe_segment-IsSegment d.tenant_id tenant;
      workspace = safe_workspace-HasSegment d.workspace_id workspace;
      size = (not_zero d.size_bytes some_bytes, not_more _ _ few);
      extension = not-false _ (reject_if-ok _ _ extension);
      mime = not-false _ (reject_if-ok _ _ mime);
    }
