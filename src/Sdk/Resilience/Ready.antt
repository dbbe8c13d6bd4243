-- ===== src/Sdk/Resilience/Ready.antt =====
-- What readiness says of the dependencies (packages/platform-sdk/src/resilience.ts).
use aws_architecture.Base.{
  true, false, not, ◌&&◌, ◌||◌, String, List, [], ◌∷◌, ◌≡◌, ◌↔◌, refl, arith, eq_iff, length,
  filter, any, All, ◌==◌, Bool-cases, inl, inr, if◌then◌else◌,
}
use aws_architecture.Sdk.Resilience.{DependencyHealth, readiness}

-- A dependency that may not stop the program: it is healthy or not required.
abbrev pub IsServed : DependencyHealth → Type 0
IsServed d = (d.required && not d.healthy) ≡ false

abbrev pub IsWell : DependencyHealth → Type 0
IsWell d = (d.healthy ≡ true) × (d.degraded ≡ false)

failed_none :
    (deps : List DependencyHealth)
    → (length (filter (λ d. d.required && not d.healthy) deps) ≡ 0) ↔ All IsServed deps
failed_none [] = ((λ h. tt), λ h. refl)
failed_none (d ∷ ds) = elim (Bool-cases (d.required && not d.healthy)) [
  | inl e ↦ rw e ((λ h. absurd (omega arith)), λ (h, hs). cc)
  | inr e ↦ rw e ((λ h. (refl, (failed_none ds).0 h)), λ (h, hs). (failed_none ds).1 hs)
]

ailing_none :
    (deps : List DependencyHealth)
    → (any (λ d. not d.healthy || d.degraded) deps ≡ false) ↔ All IsWell deps
ailing_none [] = ((λ h. tt), λ h. refl)
ailing_none (d ∷ ds) = (
  λ h. ((ground arith, ground arith), (ailing_none ds).0 (ground arith)),
  λ ((h, g), hs). let rest = (ailing_none ds).1 hs in rw (h, g, rest) refl,
)

served : (deps : List DependencyHealth) → All IsWell deps → All IsServed deps
served [] h = tt
served (d ∷ ds) ((h, g), hs) = (ground arith, served ds hs)

-- Readiness holds exactly if every required dependency is healthy, and the state is HEALTHY exactly if
-- every dependency, required or not, is healthy and not degraded.
pub readiness_iff :
    (deps : List DependencyHealth)
    → (((readiness deps).ready ≡ true) ↔ All IsServed deps)
      × (((readiness deps).state ≡ "HEALTHY") ↔ All IsWell deps)
unfolding readiness
readiness_iff deps =
    let f = failed_none deps in
    let a = ailing_none deps in
    (
      ((λ h. f.0 (ground arith)), λ h. let e = f.1 h in rw e refl),
      ((λ h. a.0 (healthy h)), λ h. let e = f.1 (served deps h) in let g = a.1 h in rw (e, g) refl),
    )
  where
    healthy :
        Path String
          (if not (length (filter (λ d. d.required && not d.healthy) deps) == 0)
            then "UNAVAILABLE"
            else if any (λ d. not d.healthy || d.degraded) deps
            then "DEGRADED"
            else "HEALTHY")
          "HEALTHY"
        → any (λ d. not d.healthy || d.degraded) deps ≡ false
    healthy h =
        elim (Bool-cases (not (length (filter (λ d. d.required && not d.healthy) deps) == 0))) [
          | inl e ↦ absurd (ground (arith, eq_iff "UNAVAILABLE" "HEALTHY"))
          | inr e ↦ elim (Bool-cases (any (λ d. not d.healthy || d.degraded) deps)) [
            | inl g ↦ absurd (ground (arith, eq_iff "DEGRADED" "HEALTHY"))
            | inr g ↦ g
          ]
        ]
