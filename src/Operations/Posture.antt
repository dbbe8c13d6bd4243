-- ===== src/Operations/Posture.antt =====
-- What the collected security summary says (services/operations/src/aws-operations-collector.ts).
use aws_architecture.Base.{
  ℕ, ◌+◌, String, Bool, true, false, Option, none, some, List, [], ◌∷◌, ◌≡◌, ◌≢◌, ◌↔◌, refl, arith,
  eq_iff, ◌===◌, length, filter, Bool-cases, inl, inr,
}
use aws_architecture.Operations.{Answers, collect_security, posture_of, same_state, or_zero}
use aws_architecture.Operations.Sources.{
  healthy, unavailable, Answer, answered, failed, Counts, add_label, count_labels, no_counts,
  collect_guard_duty, guard_duty_findings, collect_security_hub, collect_inspector,
}

abbrev is_label : String → Option String → Bool
is_label name none = false
is_label name (some s) = s === name

-- How many findings of an answer have this severity.
abbrev pub with_label : String → Answer (List (Option String) × Option String) → ℕ
with_label name (failed code) = 0
with_label name (answered (labels, token)) = length (filter (is_label name) labels)

critical_count :
    (labels : List (Option String)) (c : Counts)
    → (count_labels labels c).critical ≡ length (filter (is_label "CRITICAL") labels) + c.critical
unfolding count_labels
critical_count [] c = omega arith
critical_count (none ∷ ls) c = critical_count ls c
critical_count (some s ∷ ls) c =
    rw (critical_count ls (add_label (some s) c))
      (ground (arith, eq_iff s "CRITICAL", eq_iff s "HIGH", eq_iff s "MEDIUM", eq_iff s "LOW"))

critical-high : (s : String) → (s === "CRITICAL") ≡ true → (s === "HIGH") ≡ false
critical-high s h = let same : s ≡ "CRITICAL" = ground (arith, eq_iff s "CRITICAL") in rw same refl

high_count :
    (labels : List (Option String)) (c : Counts)
    → (count_labels labels c).high ≡ length (filter (is_label "HIGH") labels) + c.high
unfolding count_labels
high_count [] c = omega arith
high_count (none ∷ ls) c = high_count ls c
high_count (some s ∷ ls) c =
    rw (high_count ls (add_label (some s) c)) (ground (arith, critical-high s))

hub_counts :
    (a : Answer (List (Option String) × Option String))
    → (or_zero (collect_security_hub a).critical ≡ with_label "CRITICAL" a)
      × (or_zero (collect_security_hub a).high ≡ with_label "HIGH" a)
unfolding collect_security_hub
hub_counts (failed code) = (refl, refl)
hub_counts (answered (ls, token)) =
    (omega (arith, critical_count ls no_counts), omega (arith, high_count ls no_counts))

inspector_counts :
    (a : Answer (List (Option String) × Option String))
    → (or_zero (collect_inspector a).critical ≡ with_label "CRITICAL" a)
      × (or_zero (collect_inspector a).high ≡ with_label "HIGH" a)
unfolding collect_inspector
inspector_counts (failed code) = (refl, refl)
inspector_counts (answered (ls, token)) =
    (omega (arith, critical_count ls no_counts), omega (arith, high_count ls no_counts))

guard_duty_counts :
    (d : Answer (List String)) (f : String → Answer (List String × Option String))
    → (or_zero (collect_guard_duty d f).critical ≡ 0) × (or_zero (collect_guard_duty d f).high ≡ 0)
unfolding collect_guard_duty
guard_duty_counts (failed code) f = (refl, refl)
guard_duty_counts (answered []) f = (refl, refl)
guard_duty_counts (answered (id ∷ ids)) f = elim (Bool-cases (id === "")) [
  | inl e ↦ rw e (refl, refl)
  | inr e ↦ rw e (read (f id))
]
  where
    read :
        (x : Answer (List String × Option String))
        → (or_zero (guard_duty_findings x).critical ≡ 0)
          × (or_zero (guard_duty_findings x).high ≡ 0)
    read (failed code) = (refl, refl)
    read (answered (is, token)) = (refl, refl)

-- The totals of critical and high findings are those of Security Hub and Inspector, by their labels; a
-- source that did not answer adds nothing, and the findings of GuardDuty are never among them.
pub collect_security-totals :
    (a : Answers)
    → ((collect_security a).critical_findings
        ≡ with_label "CRITICAL" a.hub_findings + with_label "CRITICAL" a.inspector_findings)
      × ((collect_security a).high_findings
          ≡ with_label "HIGH" a.hub_findings + with_label "HIGH" a.inspector_findings)
unfolding collect_security
collect_security-totals a =
    let g = guard_duty_counts a.detectors a.detector_findings in
    let h = hub_counts a.hub_findings in
    let i = inspector_counts a.inspector_findings in
    (omega (arith, g.0, h.0, i.0), omega (arith, g.1, h.1, i.1))

abbrev pub IsAnswered {ℓ} : {T : Type ℓ} → Answer T → Type 0
IsAnswered (answered x) = Unit
IsAnswered (failed code) = ⊥

-- Which answers of GuardDuty leave its source available: no detector, or one whose findings were read.
abbrev pub IsRead : Answer (List String) → (String → Answer (List String × Option String)) → Type 0
IsRead (failed code) f = ⊥
IsRead (answered []) f = Unit
IsRead (answered (id ∷ ids)) f = (id ≢ "") → IsAnswered (f id)

hub_available :
    (a : Answer (List (Option String) × Option String))
    → (same_state unavailable (collect_security_hub a).state ≡ false) ↔ IsAnswered a
unfolding collect_security_hub
hub_available (failed code) = ((λ h. cc), λ h. absurd h)
hub_available (answered x) = ((λ h. tt), λ h. refl)

inspector_available :
    (a : Answer (List (Option String) × Option String))
    → (same_state unavailable (collect_inspector a).state ≡ false) ↔ IsAnswered a
unfolding collect_inspector
inspector_available (failed code) = ((λ h. cc), λ h. absurd h)
inspector_available (answered x) = ((λ h. tt), λ h. refl)

guard_duty_available :
    (d : Answer (List String)) (f : String → Answer (List String × Option String))
    → (same_state unavailable (collect_guard_duty d f).state ≡ false) ↔ IsRead d f
unfolding collect_guard_duty
guard_duty_available (failed code) f = ((λ h. cc), λ h. absurd h)
guard_duty_available (answered []) f = ((λ h. tt), λ h. refl)
guard_duty_available (answered (id ∷ ids)) f = elim (Bool-cases (id === "")) [
  | inl e ↦ rw e ((λ h n. absurd (n (ground (arith, eq_iff id "")))), λ h. refl)
  | inr e ↦
      rw e ((λ h n. (read (f id)).0 h), λ h. (read (f id)).1 (h (ground (arith, eq_iff id ""))))
]
  where
    read :
        (x : Answer (List String × Option String))
        → (same_state unavailable (guard_duty_findings x).state ≡ false) ↔ IsAnswered x
    read (failed code) = ((λ h. cc), λ h. absurd h)
    read (answered x) = ((λ h. tt), λ h. refl)

-- The security posture is healthy exactly if Security Hub, Inspector and GuardDuty all answered, where
-- GuardDuty counts as answering when it has no detector; CloudTrail does not count.
pub collect_security-posture :
    (a : Answers)
    → ((collect_security a).posture ≡ healthy) ↔ (
        IsRead a.detectors a.detector_findings
        × IsAnswered a.hub_findings
        × IsAnswered a.inspector_findings)
unfolding collect_security posture_of
collect_security-posture a =
    let g = guard_duty_available a.detectors a.detector_findings in
    let h = hub_available a.hub_findings in
    let i = inspector_available a.inspector_findings in
    (
      λ p. (g.0 (ground arith), h.0 (ground arith), i.0 (ground arith)),
      λ (x, y, z). rw (g.1 x, h.1 y, i.1 z) refl,
    )
