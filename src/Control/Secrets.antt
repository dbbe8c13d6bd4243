-- ===== src/Control/Secrets.antt =====
-- Secret metadata (apps/platform-control-api/src/secret-metadata.ts). The path in an error message
-- is not modelled.
pub mod Spelling
pub mod Laws
use aws_architecture.Base.{
  ℕ, String, Bool, true, false, ◌&&◌, ◌||◌, Option, none, some, List, [], ◌∷◌, ◌++◌, leb,
  if◌then◌else◌, Result, ok, throw, http, Failure, ◌>>◌, ◌>>=◌, reject_if,
}
use aws_architecture.Base.Text.{codes, lower, includes_codes}
use aws_architecture.Base.Json.{
  Json, Items, Fields, null, bool, num, other_num, str, arr, obj, nil, cons, end, field,
}

unfoldable pub forbidden_secret_fields : List String
forbidden_secret_fields =
    "secret" ∷ "secretvalue" ∷ "value" ∷ "plaintext" ∷ "password" ∷ "passphrase" ∷ "token"
    ∷ "accesstoken" ∷ "refreshtoken" ∷ "authorization" ∷ "credential" ∷ "credentials" ∷ "apikey"
    ∷ "clientsecret" ∷ "privatekey" ∷ "privatekeypem" ∷ []

unfoldable pub is_alphanumeric : ℕ → Bool
is_alphanumeric c = (leb b'a' c && leb c b'z') || (leb b'0' c && leb c b'9')

unfoldable pub alphanumeric : List ℕ → List ℕ
unfolding is_alphanumeric
alphanumeric [] = []
alphanumeric (c ∷ cs) = (if is_alphanumeric c then c ∷ [] else []) ++ alphanumeric cs

unfoldable pub normalized_key : String → List ℕ
unfolding alphanumeric lower
normalized_key key = alphanumeric (lower (codes key))

-- `forbiddenSecretFields.has(normalizedKey(key))`.
unfoldable pub is_forbidden : String → Bool
unfolding normalized_key forbidden_secret_fields includes_codes
is_forbidden key = includes_codes forbidden_secret_fields (normalized_key key)

abbrev pub forbidden : Failure
forbidden = http 400 "PLAINTEXT_SECRET_FORBIDDEN" "Plaintext secret material is forbidden"

unfoldable mutual
  pub assert_secret_metadata_only : Json → Result (Unit {0})
  assert_secret_metadata_only (arr xs) = assert_items xs
  assert_secret_metadata_only (obj fs) = assert_fields fs
  assert_secret_metadata_only null = ok tt
  assert_secret_metadata_only (bool b) = ok tt
  assert_secret_metadata_only (num n) = ok tt
  assert_secret_metadata_only (other_num n f g) = ok tt
  assert_secret_metadata_only (str s) = ok tt

  pub assert_items : Items → Result (Unit {0})
  assert_items nil = ok tt
  assert_items (cons x xs) = do assert_secret_metadata_only x; assert_items xs

  pub assert_fields : Fields → Result (Unit {0})
  assert_fields end = ok tt
  assert_fields (field key nested fs) = do
    reject_if (is_forbidden key) forbidden
    assert_secret_metadata_only nested
    assert_fields fs

-- `redactSecretMaterial(value)`; the test of the key stands where the key is met.
unfoldable mutual
  pub redact_secret_material : Json → Json
  redact_secret_material (arr xs) = arr (redact_items xs)
  redact_secret_material (obj fs) = obj (redact_fields fs)
  redact_secret_material null = null
  redact_secret_material (bool b) = bool b
  redact_secret_material (num n) = num n
  redact_secret_material (other_num n f g) = other_num n f g
  redact_secret_material (str s) = str s

  pub redact_items : Items → Items
  redact_items nil = nil
  redact_items (cons x xs) = cons (redact_secret_material x) (redact_items xs)

  pub redact_fields : Fields → Fields
  redact_fields end = end
  redact_fields (field key nested fs) =
      field key (if is_forbidden key then str "[REDACTED]" else redact_secret_material nested)
        (redact_fields fs)
