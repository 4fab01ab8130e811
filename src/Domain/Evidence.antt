-- ===== src/Domain/Evidence.antt =====
-- src/domain/head-evidence.ts: the gate that joins an agent's review with the evidence of the
-- head commit, and what takes the gate's findings out again. `String(n)` is the parameter `show`
-- and `toLowerCase` the parameter `lower`.
pub mod Records
pub mod Gate
pub mod Bounds
pub mod Strip
mod Tests
use workflowd.Base.{
  ℕ, ◌-◌, String, Bool, true, false, not, ◌&&◌, ◌||◌, Option, none, some, List, [], ◌∷◌, ◌++◌, map,
  if◌then◌else◌, ltb, Text, units, text_eq, starts_with, length, take, drop, select, find?,
}
use workflowd.Domain.Evidence.Records.{
  Severity, critical, high, medium, low, Provenance, head_evidence, ReviewFinding, Verdict, pass,
  changes_requested, ReviewResult, CheckState, success, failure, pending, CheckEvidence, CiState,
  available, unavailable, stale, CiEvidence, SonarFinding, Percent, SonarAnalysis, SonarAbsence,
  pending, missing, stale, unavailable, failed, SonarEvidence, analysed, absent,
  MergeabilityEvidence, mergeable, conflicting, pending, unavailable, HeadEvidence, GatedReview,
  waits, ready,
}

abbrev pub bounded : ℕ → Text → Text
bounded max_length value = take max_length value

abbrev evidence_path : Option Text
evidence_path = some (units ".workflowd/evidence.json")

pub gate_summary_prefix : Text
gate_summary_prefix = units "Automated gates did not pass. Reviewer summary: "

abbrev pub or_else : Option Text → Text → Text
or_else none default = default
or_else (some t) default = t

-- A finding of the gate, before its provenance is set.
abbrev gate_finding : Severity → Text → Text → ReviewFinding
gate_finding severity title body = record {
  severity = severity;
  title = title;
  body = body;
  path = evidence_path;
  line = none;
  provenance = none;
}

abbrev pub check_pending : CheckEvidence → Bool
check_pending c = elim c.state [ success ↦ false | failure ↦ false | pending ↦ true ]

abbrev pub check_failed : CheckEvidence → Bool
check_failed c = elim c.state [ success ↦ false | failure ↦ true | pending ↦ false ]

pending_check : CiEvidence → Option CheckEvidence
pending_check ci = elim ci.state [
  | available ↦ find? check_pending ci.checks
  | unavailable ↦ none
  | stale ↦ none
]

abbrev pub sonar_pending : SonarEvidence → Bool
sonar_pending (absent SonarAbsence.pending reason) = true
sonar_pending _ = false

abbrev pub mergeability_pending : MergeabilityEvidence → Bool
mergeability_pending MergeabilityEvidence.pending = true
mergeability_pending _ = false

pub pending_reason : HeadEvidence → Option Text
unfolding pending_check
pending_reason e = elim (pending_check e.ci) [
  | some c ↦ some (units "Required check is pending: " ++ c.name)
  | none ↦
      if sonar_pending e.sonar
      then some (units "Sonar Automatic Analysis is pending")
      else (if mergeability_pending e.mergeability
          then some (units "Pull request mergeability is pending")
          else none)
]

-- The details that are present and not empty, and `join`.
abbrev detail : Text → Option Text → List Text
detail label none = []
detail label (some t) = (label ++ t) ∷ []

abbrev not_empty : Text → Bool
not_empty [] = false
not_empty (c ∷ t) = true

abbrev join : Text → List Text → Text
join separator [] = []
join separator (t ∷ []) = t
join separator (t ∷ u ∷ us) = t ++ (separator ++ join separator (u ∷ us))

check_details : CheckEvidence → List Text
check_details c = select not_empty (
    (units "Conclusion: " ++ (or_else c.conclusion (units "non-success") ++ units "."))
    ∷ (detail (units "Details: ") c.details_url
        ++ (detail [] c.summary ++ detail (units "Untrusted log excerpt:\n") c.log)))

check_finding : CheckEvidence → ReviewFinding
unfolding check_details
check_finding c =
    gate_finding high (bounded 200 (units "Required check did not succeed: " ++ c.name))
      (bounded 10000 (join (units "\n\n") (check_details c)))

not_current : CiEvidence → Text → List ReviewFinding
not_current ci name =
    gate_finding high (units "Required CI evidence is not current")
      (or_else ci.reason (units "CI evidence is " ++ (name ++ units ".")))
    ∷ []

abbrev stale_ci : CiEvidence → List ReviewFinding
stale_ci ci = elim ci.state [
  | available ↦ []
  | unavailable ↦ not_current ci (units "unavailable")
  | stale ↦ not_current ci (units "stale")
]

ci_findings : CiEvidence → List ReviewFinding
unfolding check_finding not_current
ci_findings ci = stale_ci ci ++ map check_finding (select check_failed ci.checks)

sonar_unavailable : Text → ReviewFinding
sonar_unavailable body =
    gate_finding high (units "Sonar Automatic Analysis did not authorize approval")
      (bounded 10000 body)

abbrev absence_name : SonarAbsence → Text
absence_name SonarAbsence.pending = units "pending"
absence_name missing = units "missing"
absence_name SonarAbsence.stale = units "stale"
absence_name SonarAbsence.unavailable = units "unavailable"
absence_name failed = units "failed"

abbrev sonar_severity : Text → Severity
sonar_severity s =
    if text_eq s (units "blocker")
    then critical
    else (if text_eq s (units "critical") || text_eq s (units "high") || text_eq s (units "major")
        then high
        else (if text_eq s (units "minor") || text_eq s (units "medium") then medium else low))

mergeability_findings : MergeabilityEvidence → List ReviewFinding
mergeability_findings mergeable = []
mergeability_findings MergeabilityEvidence.pending = []
mergeability_findings conflicting =
    gate_finding high (units "Pull request has merge conflicts") (
      units
        "GitHub confirms that the exact review target conflicts with its base. Resolve the conflicts before approval.")
    ∷ []
mergeability_findings (MergeabilityEvidence.unavailable reason) =
    gate_finding high (units "Pull request mergeability is unavailable") reason ∷ []

abbrev pub agent_findings : ReviewResult → List ReviewFinding
agent_findings r = elim r.verdict [ pass ↦ [] | changes_requested ↦ r.findings ]

abbrev pub mark : ReviewFinding → ReviewFinding
mark f = record f { provenance = some head_evidence }

-- The review with the gate's findings, of which there is at least one.
pub with_findings : ReviewResult → List ReviewFinding → ReviewResult
with_findings r findings = record {
  verdict = changes_requested;
  summary = bounded 4000 (gate_summary_prefix ++ r.summary);
  findings = take (50 - length (agent_findings r)) findings ++ agent_findings r;
}

abbrev with_gate : ReviewResult → List ReviewFinding → ReviewResult
with_gate r [] = r
with_gate r (f ∷ fs) = with_findings r (f ∷ fs)

module _ (show : ℕ → Text) (lower : Text → Text) where
  sonar_location : SonarFinding → Text
  sonar_location f = elim f.path [
    | none ↦ []
    | some p ↦
        units "\nLocation: " ++ (p ++ elim f.line [ none ↦ [] | some n ↦ units ":" ++ show n ])
  ]

  sonar_finding : SonarFinding → ReviewFinding
  unfolding sonar_location
  sonar_finding f =
      gate_finding (sonar_severity (lower f.severity))
        (bounded 200 (units "Sonar issue: " ++ f.message))
        (bounded 10000 (
          units "Sonar Automatic Analysis reports an unresolved new issue ("
          ++ (f.severity ++ (units "): " ++ (f.message ++ sonar_location f)))))

  analysis_findings : SonarAnalysis → List ReviewFinding
  unfolding sonar_finding sonar_unavailable
  analysis_findings s =
      map sonar_finding (take 20 s.findings)
      ++ ((if ltb (length s.findings) s.unresolved_issue_count
            then sonar_unavailable (
                units "Sonar Automatic Analysis reports "
                ++ (show s.unresolved_issue_count ++ units " unresolved new issues."))
              ∷ []
            else [])
          ++ (if s.duplicated_new_lines_percent.over_one
              then gate_finding high (units "Sonar duplicated new lines exceed one percent") (
                  units "Sonar reports "
                  ++ (s.duplicated_new_lines_percent.printed
                      ++ units "% duplicated new lines; the maximum is 1%."))
                ∷ []
              else []))

  sonar_findings : Text → SonarEvidence → List ReviewFinding
  unfolding analysis_findings sonar_unavailable
  sonar_findings head_sha (absent a reason) =
      sonar_unavailable (
        or_else reason
          (units "Sonar Automatic Analysis evidence is " ++ (absence_name a ++ units ".")))
      ∷ []
  sonar_findings head_sha (analysed s) =
      if text_eq s.head_sha head_sha
      then analysis_findings s
      else sonar_unavailable (units "Sonar evidence belongs to a different head SHA.") ∷ []

  pub gate_findings : HeadEvidence → List ReviewFinding
  unfolding ci_findings sonar_findings mergeability_findings
  gate_findings e = map mark (
      ci_findings e.ci
      ++ (sonar_findings e.head_sha e.sonar ++ mergeability_findings e.mergeability))

  unfoldable pub gate_review_with_head_evidence : ReviewResult → HeadEvidence → GatedReview
  unfolding pending_reason gate_findings with_findings
  gate_review_with_head_evidence r e = elim (pending_reason e) [
    | some reason ↦ waits reason
    | none ↦ ready (with_gate r (gate_findings e))
  ]

abbrev pub from_agent : ReviewFinding → Bool
from_agent f = elim f.provenance [ none ↦ true | some p ↦ false ]

abbrev strip_prefix : Text → Text
strip_prefix summary =
    if starts_with summary gate_summary_prefix
    then drop (length gate_summary_prefix) summary
    else summary

-- The `return` of `stripHeadEvidenceFindings`, on the findings that are left.
abbrev stripped : ReviewResult → List ReviewFinding → ReviewResult
stripped r [] = record { verdict = pass; summary = strip_prefix r.summary; findings = [] }
stripped r (f ∷ fs) = record r { summary = strip_prefix r.summary; findings = f ∷ fs }

unfoldable pub strip_head_evidence_findings : ReviewResult → ReviewResult
strip_head_evidence_findings r = elim r.verdict [
  | pass ↦ r
  | changes_requested ↦ stripped r (select from_agent r.findings)
]
