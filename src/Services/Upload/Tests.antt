-- ===== src/Services/Upload/Tests.antt =====
-- Concrete documents and archives.
use aws_architecture.Base.{
  ℕ, zero, suc, String, Bool, true, Option, none, List, [], ◌∷◌, ◌++◌, ◌≡◌, refl, Result, ok,
}
use aws_architecture.Services.Upload.Zip.{inspect_zip_archive, nothing_seen, count_entry}
use aws_architecture.Services.Upload.{UploadPolicy, UploadDescriptor, Approved, approval}

abbrev policy : UploadPolicy
policy = record {
  max_bytes = 1000;
  allowed_extensions = ".png" ∷ ".zip" ∷ [];
  allowed_mime_types = "image/png" ∷ "application/zip" ∷ [];
  max_archive_expansion_ratio = 100;
  max_archive_entries = none;
  max_archive_uncompressed_bytes = none;
}

abbrev picture : UploadDescriptor
picture = record {
  tenant_id = "t";
  workspace_id = none;
  filename = "a.PNG";
  mime_type = "image/png";
  size_bytes = 5;
  archive_uncompressed_bytes = none;
}

abbrev everyone : String → Option String → Bool
everyone t w = true

abbrev stored_bytes : List ℕ
stored_bytes = 0x89 ∷ 0x50 ∷ 0x4e ∷ 0x47 ∷ 1 ∷ []

abbrev stored : String → Result (List ℕ)
stored key = ok stored_bytes

abbrev finds_nothing : List ℕ → Bool × Option String
finds_nothing bytes = (true, none)

abbrev no_policy : List ℕ → UploadDescriptor → Result (Unit {0})
no_policy bytes d = ok tt

abbrev some_hash : List ℕ → String
some_hash bytes = "hash"

abbrev outcome : Approved
outcome =
    approval picture "u1" "quarantine/tenants/t/u1" "approved/tenants/t/u1" "hash" stored_bytes

zeros : ℕ → List ℕ
zeros zero = []
zeros (suc n) = 0 ∷ zeros n

-- A central record with one compressed byte, these low bytes of its size, and this length of its comment.
central : (low high comment : ℕ) → List ℕ
unfolding zeros
central low high comment =
    (0x50 ∷ 0x4b ∷ 0x01 ∷ 0x02 ∷ [])
    ++ (zeros 16
        ++ ((1 ∷ 0 ∷ 0 ∷ 0 ∷ low ∷ high ∷ 0 ∷ 0 ∷ []) ++ (zeros 4 ++ (comment ∷ 0 ∷ zeros 12))))

-- A record of 1000 bytes is seen; one that stands in the comment of another is passed over.
sees_size : inspect_zip_archive (central 0xe8 3 0) ≡ ok (count_entry 1 1000 nothing_seen)
unfolding inspect_zip_archive central
sees_size = refl

passes_over :
    inspect_zip_archive (central 1 0 46 ++ central 0xe8 3 0) ≡ ok (count_entry 1 1 nothing_seen)
unfolding inspect_zip_archive central
passes_over = refl
