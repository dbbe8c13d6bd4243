-- ===== src/Base/Results.antt =====
-- Thrown errors as values.
use Prim.Native.Nat.{ℕ}
use Prim.Native.String.{String}
use mathlib.Core.Bool.{Bool, true, false}
use mathlib.Core.Path.{◌≡◌, refl}
use mathlib.Core.Logic.{◌⊎◌, inl, inr}

-- `new Error(message)`; an error with a `code`; an error with a `statusCode` and a `code`, as
-- `ApiError` is.
pub data Failure : Type 0 where
  error : String → Failure
  coded : String → String → Failure
  http : ℕ → String → String → Failure

pub data Result {ℓ} (T : Type ℓ) : Type ℓ where
  throw : Failure → Result T
  ok : T → Result T

infixl 5 ◌>>=◌ ◌>>◌
abbrev pub ◌>>=◌ {ℓ κ} : {S : Type ℓ} {T : Type κ} → Result S → (S → Result T) → Result T
throw problem >>= next = throw problem
ok value >>= next = next value

abbrev pub ◌>>◌ {ℓ} : {T : Type ℓ} → Result (Unit {0}) → Result T → Result T
throw problem >> next = throw problem
ok _ >> next = next

-- `if (bad) throw e`.
abbrev pub reject_if : Bool → Failure → Result (Unit {0})
reject_if true e = throw e
reject_if false e = ok tt

module _ {ℓ} {T : Type ℓ} where
  pub Result-cases : (r : Result T) → ((e : Failure) × (r ≡ throw e)) ⊎ ((x : T) × (r ≡ ok x))
  Result-cases (throw e) = inl (e, refl)
  Result-cases (ok x) = inr (x, refl)

  pub ok-injective : {x y : T} → ok x ≡ ok y → x ≡ y
  ok-injective h = cc

  -- A chain that returns has a first step that returns, and goes on from its value.
  pub >>=-eq-ok {κ} :
      {S : Type κ} (first : Result S) (next : S → Result T) {y : T}
      → (first >>= next) ≡ ok y
      → (x : S) × (first ≡ ok x) × (next x ≡ ok y)
  >>=-eq-ok (throw problem) next returns = cc
  >>=-eq-ok (ok value) next returns = (value, refl, returns)

  pub >>-eq-ok :
      (first : Result (Unit {0})) (rest : Result T) {y : T}
      → (first >> rest) ≡ ok y
      → (first ≡ ok tt) × (rest ≡ ok y)
  >>-eq-ok (throw problem) rest returns = cc
  >>-eq-ok (ok _) rest returns = (refl, returns)

pub reject_if-ok : (b : Bool) (e : Failure) {u : Unit {0}} → reject_if b e ≡ ok u → b ≡ false
reject_if-ok true e h = cc
reject_if-ok false e h = refl
