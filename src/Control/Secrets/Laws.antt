-- ===== src/Control/Secrets/Laws.antt =====
-- What the secrets page may hold and show (apps/platform-control-api/src/secret-metadata.ts).
use aws_architecture.Base.{
  true, false, ◌≡◌, ◌↔◌, inl, inr, refl, ok, reject_if, Bool-cases, ap, >>-eq-ok, reject_if-ok,
}
use aws_architecture.Base.Json.{Json, Items, Fields, null, str, arr, obj, nil, cons, end, field}
use aws_architecture.Base.{String, includes}
use aws_architecture.Base.Text.{codes}
use aws_architecture.Control.Secrets.Spelling.{Spells, is_forbidden-Spells}
use aws_architecture.Control.Secrets.{
  forbidden_secret_fields, is_forbidden, forbidden, assert_secret_metadata_only, assert_items,
  assert_fields, redact_secret_material, redact_items, redact_fields,
}

-- A value without a forbidden key anywhere; and one where what stands under a forbidden key is the
-- mark.
abbrev mutual
  pub IsClean : Json → Type 0
  IsClean (arr xs) = AreClean xs
  IsClean (obj fs) = HasCleanFields fs
  IsClean _ = Unit

  pub AreClean : Items → Type 0
  AreClean nil = Unit
  AreClean (cons x xs) = IsClean x × AreClean xs

  pub HasCleanFields : Fields → Type 0
  HasCleanFields end = Unit
  HasCleanFields (field k v fs) = (is_forbidden k ≡ false) × IsClean v × HasCleanFields fs

mutual
  unfolding assert_secret_metadata_only

  IsClean-of_assert : (v : Json) → assert_secret_metadata_only v ≡ ok tt → IsClean v
  IsClean-of_assert (arr xs) h = AreClean-of_assert xs h
  IsClean-of_assert (obj fs) h = HasCleanFields-of_assert fs h
  IsClean-of_assert null h = tt
  IsClean-of_assert _ h = tt

  AreClean-of_assert : (xs : Items) → assert_items xs ≡ ok tt → AreClean xs
  AreClean-of_assert nil h = tt
  AreClean-of_assert (cons x xs) h =
      let (here, others) = >>-eq-ok (assert_secret_metadata_only x) (assert_items xs) h in
      (IsClean-of_assert x here, AreClean-of_assert xs others)

  HasCleanFields-of_assert : (fs : Fields) → assert_fields fs ≡ ok tt → HasCleanFields fs
  HasCleanFields-of_assert end h = tt
  HasCleanFields-of_assert (field k v fs) h =
      let (good, rest) = >>-eq-ok (reject_if (is_forbidden k) forbidden) _ h in
      let (nested, others) = >>-eq-ok (assert_secret_metadata_only v) (assert_fields fs) rest in
      (
        reject_if-ok (is_forbidden k) forbidden good,
        IsClean-of_assert v nested,
        HasCleanFields-of_assert fs others,
      )

mutual
  unfolding assert_secret_metadata_only

  assert_of_clean : (v : Json) → IsClean v → assert_secret_metadata_only v ≡ ok tt
  assert_of_clean (arr xs) h = assert_of_clean_items xs h
  assert_of_clean (obj fs) h = assert_of_clean_fields fs h
  assert_of_clean null h = refl
  assert_of_clean _ h = refl

  assert_of_clean_items : (xs : Items) → AreClean xs → assert_items xs ≡ ok tt
  assert_of_clean_items nil h = refl
  assert_of_clean_items (cons x xs) (p, h) = rw (assert_of_clean x p) (assert_of_clean_items xs h)

  assert_of_clean_fields : (fs : Fields) → HasCleanFields fs → assert_fields fs ≡ ok tt
  assert_of_clean_fields end h = refl
  assert_of_clean_fields (field k v fs) (q, p, h) =
      rw (q, assert_of_clean v p) (assert_of_clean_fields fs h)

mutual
  unfolding redact_secret_material

  redact_clean : (v : Json) → IsClean v → redact_secret_material v ≡ v
  redact_clean (arr xs) h = ap arr (redact_clean_items xs h)
  redact_clean (obj fs) h = ap obj (redact_clean_fields fs h)
  redact_clean null h = refl
  redact_clean _ h = refl

  redact_clean_items : (xs : Items) → AreClean xs → redact_items xs ≡ xs
  redact_clean_items nil h = refl
  redact_clean_items (cons x xs) (p, h) = rw (redact_clean x p, redact_clean_items xs h)

  redact_clean_fields : (fs : Fields) → HasCleanFields fs → redact_fields fs ≡ fs
  redact_clean_fields end h = refl
  redact_clean_fields (field k v fs) (q, p, h) = rw (q, redact_clean v p, redact_clean_fields fs h)

-- Whatever stands under a forbidden key is the mark, at every depth.
abbrev mutual
  pub IsRedacted : Json → Type 0
  IsRedacted (arr xs) = AreRedacted xs
  IsRedacted (obj fs) = HasRedactedFields fs
  IsRedacted _ = Unit

  pub AreRedacted : Items → Type 0
  AreRedacted nil = Unit
  AreRedacted (cons x xs) = IsRedacted x × AreRedacted xs

  pub HasRedactedFields : Fields → Type 0
  HasRedactedFields end = Unit
  HasRedactedFields (field k v fs) =
      (is_forbidden k ≡ true → v ≡ str "[REDACTED]") × IsRedacted v × HasRedactedFields fs

mutual
  unfolding redact_secret_material

  redacted : (v : Json) → IsRedacted (redact_secret_material v)
  redacted (arr xs) = redacted_items xs
  redacted (obj fs) = redacted_fields fs
  redacted null = tt
  redacted _ = tt

  redacted_items : (xs : Items) → AreRedacted (redact_items xs)
  redacted_items nil = tt
  redacted_items (cons x xs) = (redacted x, redacted_items xs)

  redacted_fields : (fs : Fields) → HasRedactedFields (redact_fields fs)
  redacted_fields end = tt
  redacted_fields (field k v fs) = elim (Bool-cases (is_forbidden k)) [
    | inl bad ↦ rw bad ((λ _. refl), tt, redacted_fields fs)
    | inr good ↦ rw good ((λ e. cc), redacted v, redacted_fields fs)
  ]

mutual
  unfolding redact_secret_material

  redact_redacted : (v : Json) → IsRedacted v → redact_secret_material v ≡ v
  redact_redacted (arr xs) h = ap arr (redact_redacted_items xs h)
  redact_redacted (obj fs) h = ap obj (redact_redacted_fields fs h)
  redact_redacted null h = refl
  redact_redacted _ h = refl

  redact_redacted_items : (xs : Items) → AreRedacted xs → redact_items xs ≡ xs
  redact_redacted_items nil h = refl
  redact_redacted_items (cons x xs) (p, h) = rw (redact_redacted x p, redact_redacted_items xs h)

  redact_redacted_fields : (fs : Fields) → HasRedactedFields fs → redact_fields fs ≡ fs
  redact_redacted_fields end h = refl
  redact_redacted_fields (field k v fs) (q, p, h) = elim (Bool-cases (is_forbidden k)) [
    | inl bad ↦ rw (bad, q bad, redact_redacted_fields fs h)
    | inr good ↦ rw (good, redact_redacted v p, redact_redacted_fields fs h)
  ]

-- The guard of the secrets page passes exactly the values in which no key, at any depth, is a
-- forbidden one; and every key that spells a forbidden word is one, whatever the case of its letters
-- and whatever other ASCII characters stand between them.
pub assert_secret_metadata_only_iff :
    (v : Json)
    → ((assert_secret_metadata_only v ≡ ok tt) ↔ IsClean v)
      × ((key word : String)
          → includes forbidden_secret_fields word ≡ true
          → Spells (codes key) (codes word)
          → is_forbidden key ≡ true)
assert_secret_metadata_only_iff v =
    ((IsClean-of_assert v, assert_of_clean v), λ key word h s. is_forbidden-Spells key word h s)

-- What is redacted has nothing but the mark under a forbidden key, at any depth, and a second
-- redaction changes nothing.
pub redact-IsRedacted :
    (v : Json)
    → IsRedacted (redact_secret_material v)
      × (redact_secret_material (redact_secret_material v) ≡ redact_secret_material v)
redact-IsRedacted v = (redacted v, redact_redacted _ (redacted v))

-- What the guard lets onto the secrets page is shown unchanged.
pub redact_of_assert :
    (v : Json) → assert_secret_metadata_only v ≡ ok tt → redact_secret_material v ≡ v
redact_of_assert v h = redact_clean v (IsClean-of_assert v h)
