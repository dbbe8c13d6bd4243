-- ===== src/Operations/Tests.antt =====
-- A collection in which Inspector did not answer.
use aws_architecture.Base.{◌+◌, some, none, [], ◌∷◌, ◌≡◌, ◌↔◌, refl}
use aws_architecture.Operations.{Answers, collect_security, posture_of}
use aws_architecture.Operations.Sources.{
  healthy, degraded, answered, failed, collect_guard_duty, collect_security_hub, collect_inspector,
  count_labels,
}
use aws_architecture.Operations.Posture.{
  with_label, IsAnswered, IsRead, collect_security-totals, collect_security-posture,
}

abbrev answers : Answers
answers = record {
  metrics = failed "Throttling";
  detectors = answered ("d1" ∷ []);
  detector_findings = λ d. answered ("f1" ∷ "f2" ∷ [], none);
  hub_findings =
      answered (some "CRITICAL" ∷ some "HIGH" ∷ some "CRITICAL" ∷ none ∷ [], some "next");
  inspector_findings = failed "AccessDenied";
  events = answered [];
  jobs = answered [];
}

two_critical : (collect_security answers).critical_findings ≡ 2
unfolding collect_security collect_guard_duty collect_security_hub collect_inspector count_labels
two_critical = refl

is_degraded : (collect_security answers).posture ≡ degraded
unfolding collect_security collect_guard_duty collect_security_hub collect_inspector posture_of
is_degraded = refl

collect_security-totals_example :
    ((collect_security answers).critical_findings
      ≡ with_label "CRITICAL" answers.hub_findings
        + with_label "CRITICAL" answers.inspector_findings)
    × ((collect_security answers).high_findings
        ≡ with_label "HIGH" answers.hub_findings + with_label "HIGH" answers.inspector_findings)
collect_security-totals_example = collect_security-totals answers

collect_security-posture_example : ((collect_security answers).posture ≡ healthy) ↔ (
    IsRead answers.detectors answers.detector_findings
    × IsAnswered answers.hub_findings
    × IsAnswered answers.inspector_findings)
collect_security-posture_example = collect_security-posture answers
