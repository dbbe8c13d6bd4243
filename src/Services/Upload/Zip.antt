-- ===== src/Services/Upload/Zip.antt =====
-- The inspection of a ZIP archive (`inspectZipArchive` of services/document/src/upload-security.ts). Bytes
-- are natural numbers; `|` of shifted bytes is their sum.
use aws_architecture.Base.{
  ℕ, zero, suc, ◌+◌, ◌-◌, ◌*◌, max, Bool, true, false, not, ◌&&◌, ◌||◌, List, [], ◌∷◌, ◌==◌, ltb,
  length, drop, if◌then◌else◌, Result, ok, throw, error, reject_if, ◌>>=◌, ◌>>◌,
}

-- Whether the bytes start with these.
unfoldable pub has_prefix : List ℕ → List ℕ → Bool
has_prefix [] bytes = true
has_prefix (x ∷ xs) [] = false
has_prefix (x ∷ xs) (b ∷ bytes) = b == x && has_prefix xs bytes

abbrev byte_of : List ℕ → ℕ
byte_of [] = 0
byte_of (b ∷ bs) = b

-- `bytes[offset]`, where there is one.
abbrev byte_at : List ℕ → ℕ → ℕ
byte_at bytes offset = byte_of (drop offset bytes)

unfoldable pub u16 : List ℕ → (offset : ℕ) → Result ℕ
u16 bytes offset =
    if ltb (length bytes) (offset + 2)
    then throw (error "MALFORMED_ZIP")
    else ok (byte_at bytes offset + 256 * byte_at bytes (offset + 1))

unfoldable pub u32 : List ℕ → (offset : ℕ) → Result ℕ
u32 bytes offset =
    if ltb (length bytes) (offset + 4)
    then throw (error "MALFORMED_ZIP")
    else ok (
        byte_at bytes offset
        + 256
          * (byte_at bytes (offset + 1)
              + 256 * (byte_at bytes (offset + 2) + 256 * byte_at bytes (offset + 3))))

-- Uncompressed bytes, to at least one compressed byte.
pub record Ratio : Type 0 where
  pub over : ℕ
  pub under : ℕ

-- `ratio > limit`.
abbrev pub exceeds : Ratio → ℕ → Bool
exceeds r limit = ltb (limit * r.under) r.over

-- `Math.max` of two ratios.
abbrev pub larger : Ratio → Ratio → Ratio
larger r s = if ltb (r.over * s.under) (s.over * r.under) then s else r

pub record ZipInspection : Type 0 where
  pub entries : ℕ
  pub total_compressed_bytes : ℕ
  pub total_uncompressed_bytes : ℕ
  pub max_entry_expansion_ratio : Ratio

abbrev pub nothing_seen : ZipInspection
nothing_seen = record {
  entries = 0;
  total_compressed_bytes = 0;
  total_uncompressed_bytes = 0;
  max_entry_expansion_ratio = record { over = 0; under = 1 };
}

abbrev pub count_entry : (compressed uncompressed : ℕ) → ZipInspection → ZipInspection
count_entry compressed uncompressed z = record {
  entries = z.entries + 1;
  total_compressed_bytes = z.total_compressed_bytes + compressed;
  total_uncompressed_bytes = z.total_uncompressed_bytes + uncompressed;
  max_entry_expansion_ratio =
      larger z.max_entry_expansion_ratio (record { over = uncompressed; under = max 1 compressed });
}

-- A central record at the start of these bytes: its length, and the inspection with it.
unfoldable pub read_record : List ℕ → ZipInspection → Result (ℕ × ZipInspection)
unfolding u16 u32
read_record bytes z = do
  reject_if (ltb (length bytes) 46) (error "MALFORMED_ZIP")
  compressed ← u32 bytes 20
  uncompressed ← u32 bytes 24
  reject_if (compressed == 0xffffffff || uncompressed == 0xffffffff)
      (error "ZIP64_ARCHIVE_REJECTED")
  filename ← u16 bytes 28
  extra ← u16 bytes 30
  comment ← u16 bytes 32
  reject_if (ltb (length bytes) (46 + filename + extra + comment)) (error "MALFORMED_ZIP")
  ok (46 + filename + extra + comment, count_entry compressed uncompressed z)

-- One round of the loop, at these bytes: how many bytes to go on, and the inspection.
unfoldable pub read_round : List ℕ → ZipInspection → Result (ℕ × ZipInspection)
unfolding u32 read_record
read_round bytes z = do
  signature ← u32 bytes 0
  if signature == 0x02014b50 then read_record bytes z else ok (1, z)

-- The loop over the offsets, which ends where less than 4 bytes are left; `skip` bytes are passed over
-- before the next round.
unfoldable pub walk : List ℕ → (skip : ℕ) → ZipInspection → Result ZipInspection
unfolding read_round
walk [] skip z = ok z
walk (b ∷ bytes) (suc skip) z = walk bytes skip z
walk (b ∷ bytes) zero z = do
  (step, next) ← if ltb (length (b ∷ bytes)) 4 then ok (1, z) else read_round (b ∷ bytes) z
  walk bytes (step - 1) next

-- `isEmptyZip`: the record that ends an archive stands at the end.
abbrev is_empty_zip : List ℕ → Result Bool
is_empty_zip bytes =
    if ltb (length bytes) 22
    then ok false
    else (do signature ← u32 bytes (length bytes - 22); ok (signature == 0x06054b50))

unfoldable pub inspect_zip_archive : List ℕ → Result ZipInspection
unfolding walk u32
inspect_zip_archive bytes = do
  z ← walk bytes 0 nothing_seen
  empty ← if z.entries == 0 then is_empty_zip bytes else ok true
  reject_if (not empty) (error "MALFORMED_ZIP")
  ok z
