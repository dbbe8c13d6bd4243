-- ===== src/Config/Validate/Spec.antt =====
-- Which desired states are valid (packages/config-engine/src/validate.ts).
use aws_architecture.Base.{
  String, Bool, true, false, not, ◌&&◌, Option, none, some, List, [], ◌∷◌, ◌++◌, ◌≡◌, ◌↔◌, includes,
  refl,
}
use mathlib.Core.Bool.{false≢true}
use aws_architecture.Base.Map.{get}
use aws_architecture.Base.Json.{Json, null, bool, num, other_num, str, arr, obj, is_set, member}
use aws_architecture.Config.Validate.{
  CapabilitySelection, set_has, when, sel, fallback_providers, no_fallback, bad_fallback,
  selection_issues, capability_issues,
}

pub nil-append_iff {ℓ} : {A : Type ℓ} (xs ys : List A) → (xs ++ ys ≡ []) ↔ ((xs ≡ []) × (ys ≡ []))
nil-append_iff [] ys = ((λ h. (refl, h)), λ h. h.1)
nil-append_iff (x ∷ xs) ys = ((λ h. cc), λ h. cc)

pub when-append_iff {ℓ} :
    {A : Type ℓ} (b : Bool) (x : A) (ys : List A)
    → (when b x ++ ys ≡ []) ↔ ((b ≡ false) × (ys ≡ []))
when-append_iff true x ys = ((λ h. cc), λ h. cc)
when-append_iff false x ys = ((λ h. (refl, h)), λ h. h.1)

pub when-nil_iff {ℓ} : {A : Type ℓ} (b : Bool) (x : A) → (when b x ≡ []) ↔ (b ≡ false)
when-nil_iff true x = ((λ h. cc), λ h. cc)
when-nil_iff false x = ((λ h. refl), λ h. refl)

pub not-false : (b : Bool) → not b ≡ false → b ≡ true
not-false true h = refl
not-false false h = cc

-- Where a capability has fallbacks, one is named if the capability is on, and what is named is one of
-- them.
abbrev pub HasFallback : Option (List String) → CapabilitySelection → Type 0
HasFallback none s = Unit
HasFallback (some allowed) s =
    (s.enabled ≡ true → is_set s.fallback ≡ true)
    × (is_set s.fallback ≡ true
        → (t : String) × (s.fallback ≡ some (str t)) × (includes allowed t ≡ true))

-- A selection that its capability allows: a known provider, on if it is required, and a fallback as
-- the capability has them.
pub record IsUsable (allowed : List String) (fallbacks : Option (List String))
    (s : CapabilitySelection) : Type 0 where
  pub known : includes allowed s.provider ≡ true
  pub required : is_set s.required ≡ true → s.enabled ≡ true
  pub fallback : HasFallback fallbacks s

pub implies_iff : (a b : Bool) → ((a && not b) ≡ false) ↔ (a ≡ true → b ≡ true)
implies_iff true true = ((λ h e. refl), λ h. refl)
implies_iff true false = ((λ h e. cc), λ h. absurd (false≢true (h refl)))
implies_iff false b = ((λ h e. cc), λ h. refl)

set_has-str :
    (allowed : List String) (v : Option Json)
    → set_has allowed v ≡ true
    → (t : String) × (v ≡ some (str t)) × (includes allowed t ≡ true)
set_has-str allowed none h = cc
set_has-str allowed (some (str t)) h = (t, refl, h)
set_has-str allowed (some null) h = cc
set_has-str allowed (some (bool b)) h = cc
set_has-str allowed (some (num n)) h = cc
set_has-str allowed (some (other_num d i n)) h = cc
set_has-str allowed (some (arr xs)) h = cc
set_has-str allowed (some (obj ks)) h = cc

set_has_of_str :
    (allowed : List String) (v : Option Json)
    → ((t : String) × (v ≡ some (str t)) × (includes allowed t ≡ true))
    → set_has allowed v ≡ true
set_has_of_str allowed v (t, e, h) = rw e h

HasFallback-iff :
    (fallbacks : Option (List String)) (s : CapabilitySelection)
    → ((no_fallback fallbacks s ≡ false) × (bad_fallback fallbacks s ≡ false))
      ↔ HasFallback fallbacks s
HasFallback-iff none s = ((λ h. tt), λ h. (refl, refl))
HasFallback-iff (some allowed) s = (
  (λ h. (
    (implies_iff s.enabled (is_set s.fallback)).0 h.0,
    λ e.
        set_has-str allowed s.fallback
          ((implies_iff (is_set s.fallback) (set_has allowed s.fallback)).0 h.1 e),
  )),
  λ h. (
    (implies_iff s.enabled (is_set s.fallback)).1 h.0,
    (implies_iff (is_set s.fallback) (set_has allowed s.fallback)).1
        (λ e. set_has_of_str allowed s.fallback (h.1 e)),
  ),
)

abbrev pub IsSelected : List String → Option (List String) → Option CapabilitySelection → Type 0
IsSelected allowed fallbacks none = ⊥
IsSelected allowed fallbacks (some s) = IsUsable allowed fallbacks s

selection_usable :
    (name : String) (allowed : List String) (fallbacks : Option (List String))
    (s : Option CapabilitySelection)
    → selection_issues name allowed fallbacks s ≡ []
    → IsSelected allowed fallbacks s
unfolding selection_issues
selection_usable name allowed fallbacks none h = cc
selection_usable name allowed fallbacks (some s) h =
    let (a, h1) = (when-append_iff _ _ _).0 h in
    let (b, h2) = (when-append_iff _ _ _).0 h1 in
    let (c, h3) = (when-append_iff _ _ _).0 h2 in
    record {
      known = not-false _ a;
      required = (implies_iff _ _).0 b;
      fallback = (HasFallback-iff fallbacks s).0 (c, (when-nil_iff _ _).0 h3);
    }

usable_selection :
    (name : String) (allowed : List String) (fallbacks : Option (List String))
    (s : Option CapabilitySelection)
    → IsSelected allowed fallbacks s
    → selection_issues name allowed fallbacks s ≡ []
unfolding selection_issues
usable_selection name allowed fallbacks none h = absurd h
usable_selection name allowed fallbacks (some s) h =
    let required = (implies_iff (is_set s.required) s.enabled).1 h.required in
    let (named, good) = (HasFallback-iff fallbacks s).1 h.fallback in
    rw (h.known, required, named, good) refl

-- Every capability of the list is selected well.
abbrev pub Selected : Json → List (String × List String) → Type 0
Selected p [] = Unit
Selected p ((name, allowed) ∷ rest) =
    IsSelected allowed (get name fallback_providers) (sel (member name p)) × Selected p rest

pub capability_issues-Selected :
    (p : Json) (cs : List (String × List String)) → capability_issues p cs ≡ [] → Selected p cs
unfolding capability_issues
capability_issues-Selected p [] h = tt
capability_issues-Selected p ((name, allowed) ∷ rest) h =
    let (here, others) = (nil-append_iff _ _).0 h in
    (selection_usable name allowed _ _ here, capability_issues-Selected p rest others)

pub no_capability_issues :
    (p : Json) (cs : List (String × List String)) → Selected p cs → capability_issues p cs ≡ []
unfolding capability_issues
no_capability_issues p [] h = refl
no_capability_issues p ((name, allowed) ∷ rest) (here, others) =
    (nil-append_iff _ _).1
      (usable_selection name allowed _ _ here, no_capability_issues p rest others)
