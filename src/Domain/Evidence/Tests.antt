-- ===== src/Domain/Evidence/Tests.antt =====
-- The gate on a concrete review and head, and the theorems at those inputs.
use workflowd.Base.{ℕ, ◌+◌, ◌≤◌, ◌≡◌, refl, false, none, [], ◌∷◌, Text, units, length, arith}
use workflowd.Domain.Evidence.Records.{
  Severity, ReviewFinding, ReviewResult, pass, changes_requested, CheckState, CheckEvidence,
  CiState, analysed, mergeable, HeadEvidence, waits, ready,
}
use workflowd.Domain.Evidence.{
  gate_review_with_head_evidence, strip_head_evidence_findings, gate_summary_prefix,
}
use workflowd.Domain.Evidence.Gate.{IsClean, IsSized, gate_passes, gate_clean}
use workflowd.Domain.Evidence.Bounds.{IsReview, Fits, gate_bounded}
use workflowd.Domain.Evidence.Strip.{IsAgentReview, strip-gate}

abbrev show : ℕ → Text
show n = units "1"

abbrev lower : Text → Text
lower t = t

abbrev approval : ReviewResult
approval = record { verdict = pass; summary = units "Fine."; findings = [] }

abbrev finding : ReviewFinding
finding = record {
  severity = Severity.low;
  title = units "Typo";
  body = units "A typo.";
  path = none;
  line = none;
  provenance = none;
}

abbrev objection : ReviewResult
objection = record {
  verdict = changes_requested;
  summary = units "Fix it.";
  findings = finding ∷ [];
}

abbrev check : CheckState → CheckEvidence
check state = record {
  name = units "CI";
  state = state;
  conclusion = none;
  details_url = none;
  summary = none;
  log = none;
}

abbrev head : CheckState → HeadEvidence
head state = record {
  head_sha = units "h1";
  ci = record { state = CiState.available; reason = none; checks = check state ∷ [] };
  sonar = analysed (record {
    head_sha = units "h1";
    unresolved_issue_count = 0;
    duplicated_new_lines_percent = record { printed = units "0"; over_one = false };
    findings = [];
  });
  mergeability = mergeable;
}

head-IsClean : IsClean (head CheckState.success)
head-IsClean = record {
  current = refl;
  succeeded = (refl, tt);
  analysis = refl;
  mergeability = refl;
}

approval-gated :
    gate_review_with_head_evidence show lower approval (head CheckState.success) ≡ ready approval
approval-gated = gate_clean show lower approval (head CheckState.success) head-IsClean

gate_passes_example : (approval ≡ approval) × IsClean (head CheckState.success)
gate_passes_example =
    gate_passes show lower approval approval (head CheckState.success) approval-gated refl

objection-IsSized : IsSized objection
objection-IsSized = record { summary = omega arith; at_most = omega arith; at_least = refl }

objection-IsReview : IsReview objection
objection-IsReview = record {
  sized = objection-IsSized;
  summary = omega arith;
  findings = (((omega arith, omega arith), (omega arith, omega arith), tt, tt), tt);
}

failed-Fits : Fits (head CheckState.failure)
failed-Fits = record { ci = tt; sonar = omega arith; mergeability = tt }

abbrev gated : ReviewResult → ReviewResult
gated r = elim (gate_review_with_head_evidence show lower r (head CheckState.failure)) [
  | waits t ↦ r
  | ready r' ↦ r'
]

objection-gated :
    gate_review_with_head_evidence show lower objection (head CheckState.failure)
    ≡ ready (gated objection)
unfolding gate_review_with_head_evidence
objection-gated = refl

gate_bounded_example : IsReview (gated objection)
gate_bounded_example =
    gate_bounded show lower objection (gated objection) (head CheckState.failure) objection-IsReview
      failed-Fits objection-gated

objection-IsAgentReview : IsAgentReview objection
unfolding gate_summary_prefix
objection-IsAgentReview = record {
  review = objection-IsSized;
  unmarked = (refl, tt);
  unprefixed = refl;
}

objection_fits : length gate_summary_prefix + length objection.summary ≤ 4000
unfolding gate_summary_prefix
objection_fits = omega arith

strip-gate_example : strip_head_evidence_findings (gated objection) ≡ objection
strip-gate_example =
    strip-gate show lower objection (gated objection) (head CheckState.failure)
      objection-IsAgentReview objection_fits objection-gated
