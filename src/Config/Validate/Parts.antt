-- ===== src/Config/Validate/Parts.antt =====
-- Capabilities that are on, their providers, and limits (packages/config-engine/src/validate.ts).
use aws_architecture.Base.{
  String, true, false, not, ◌&&◌, ◌||◌, Option, none, some, ◌≡◌, ◌↔◌, Bool, arith, eq_iff, refl,
}
use aws_architecture.Base.Json.{Json, null, bool, num, other_num, str, arr, obj}
use aws_architecture.Config.Validate.{CapabilitySelection, is_limit, on, uses}
use aws_architecture.Config.Validate.Spec.{implies_iff}

-- A capability that is on, and one that is on with this provider.
abbrev pub IsOn : Option CapabilitySelection → Type 0
IsOn none = ⊥
IsOn (some s) = s.enabled ≡ true

abbrev pub Uses : Option CapabilitySelection → String → Type 0
Uses none provider = ⊥
Uses (some s) provider = (s.enabled ≡ true) × (s.provider ≡ provider)

pub IsOn-iff : (s : Option CapabilitySelection) → (on s ≡ true) ↔ IsOn s
IsOn-iff none = ((λ h. cc), λ h. absurd h)
IsOn-iff (some s) = ((λ h. h), λ h. h)

pub Uses-iff :
    (s : Option CapabilitySelection) (provider : String)
    → (uses s provider ≡ true) ↔ Uses s provider
Uses-iff none provider = ((λ h. cc), λ h. absurd h)
Uses-iff (some s) provider = (
  (λ h. (ground (arith, eq_iff s.provider provider), ground (arith, eq_iff s.provider provider))),
  λ h. ground (arith, eq_iff s.provider provider, h.0, h.1),
)

-- One provider needs another.
pub needs_iff :
    (s t : Option CapabilitySelection) (a b : String)
    → ((uses s a && not (uses t b)) ≡ false) ↔ (Uses s a → Uses t b)
needs_iff s t a b = (
  (λ h e. (Uses-iff t b).0 ((implies_iff _ _).0 h ((Uses-iff s a).1 e))),
  λ h. (implies_iff _ _).1 (λ e. (Uses-iff t b).1 (h ((Uses-iff s a).0 e))),
)

pub implied :
    (s t : Option CapabilitySelection) (a b : String)
    → (Uses s a → Uses t b)
    → uses s a ≡ true
    → uses t b ≡ true
implied s t a b h e = (Uses-iff t b).1 (h ((Uses-iff s a).0 e))

all_on :
    (a b c : Option CapabilitySelection)
    → (not (on a) || not (on b) || not (on c)) ≡ false
    → IsOn a × IsOn b × IsOn c
all_on a b c h =
    ((IsOn-iff a).0 (ground arith), (IsOn-iff b).0 (ground arith), (IsOn-iff c).0 (ground arith))

none_off :
    (a b c : Option CapabilitySelection)
    → IsOn a × IsOn b × IsOn c
    → (not (on a) || not (on b) || not (on c)) ≡ false
none_off a b c (h, k, l) = rw ((IsOn-iff a).1 h, (IsOn-iff b).1 k, (IsOn-iff c).1 l) refl

pub rag_iff :
    (rag : Bool) (a b c : Option CapabilitySelection)
    → ((rag && (not (on a) || not (on b) || not (on c))) ≡ false)
      ↔ (rag ≡ true → IsOn a × IsOn b × IsOn c)
rag_iff true a b c = ((λ h e. all_on a b c h), λ h. none_off a b c (h refl))
rag_iff false a b c = ((λ h e. cc), λ h. refl)

-- A limit: a number, and where it is no natural number, finite and not negative.
abbrev pub IsLimit : Json → Type 0
IsLimit (num n) = Unit
IsLimit (other_num digits is_finite is_negative) = (is_finite ≡ true) × (is_negative ≡ false)
IsLimit _ = ⊥

pub IsLimit-iff : (v : Json) → (is_limit v ≡ true) ↔ IsLimit v
IsLimit-iff (num n) = ((λ h. tt), λ h. refl)
IsLimit-iff (other_num d true true) = ((λ h. cc), λ h. cc)
IsLimit-iff (other_num d true false) = ((λ h. (refl, refl)), λ h. refl)
IsLimit-iff (other_num d false n) = ((λ h. cc), λ h. cc)
IsLimit-iff null = ((λ h. cc), λ h. absurd h)
IsLimit-iff (bool b) = ((λ h. cc), λ h. absurd h)
IsLimit-iff (str t) = ((λ h. cc), λ h. absurd h)
IsLimit-iff (arr xs) = ((λ h. cc), λ h. absurd h)
IsLimit-iff (obj ks) = ((λ h. cc), λ h. absurd h)
