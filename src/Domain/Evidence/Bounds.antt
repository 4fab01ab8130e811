-- ===== src/Domain/Evidence/Bounds.antt =====
-- The schema `ReviewResult` of src/domain/review-result.ts, under the gate of
-- src/domain/head-evidence.ts.
use workflowd.Base.{
  ℕ, zero, suc, if◌then◌else◌, ◌≤◌, ◌<◌, ◌≡◌, sym, subst, Bool, true, false, Option, none, some,
  List, [], ◌∷◌, ◌++◌, map, arith, Text, units, length, take, ◌-◌, text_eq, length-append, select,
  All, All-append, length-take-le, inl, inr, Bool-cases, ltb,
}
use workflowd.Domain.Evidence.Records.{
  ReviewFinding, ReviewResult, Verdict, pass, changes_requested, CheckEvidence, CiState, CiEvidence,
  SonarFinding, SonarAnalysis, SonarEvidence, analysed, absent, MergeabilityEvidence, mergeable,
  conflicting, HeadEvidence, ready,
}
use workflowd.Domain.Evidence.{
  gate_summary_prefix, check_finding, check_details, join, not_empty, check_failed, not_current,
  stale_ci, ci_findings, sonar_findings, sonar_unavailable, analysis_findings,
  mergeability_findings, gate_findings, with_gate, with_findings, gate_review_with_head_evidence,
  agent_findings, mark, sonar_finding, or_else, detail, sonar_location, absence_name,
}
use workflowd.Domain.Evidence.Gate.{IsSized, with_gate-IsSized, gate_cases}

-- A text that is not empty, of at most `bound` code units.
abbrev pub Within : ℕ → Text → Type 0
Within bound t = (0 < length t) × (length t ≤ bound)

abbrev pub WithinIfAny : ℕ → Option Text → Type 0
WithinIfAny bound none = Unit {0}
WithinIfAny bound (some t) = Within bound t

abbrev PositiveIfAny : Option ℕ → Type 0
PositiveIfAny none = Unit {0}
PositiveIfAny (some n) = 0 < n

-- The schema `ReviewFinding`.
abbrev pub IsFinding : ReviewFinding → Type 0
IsFinding f =
    Within 200 f.title × Within 10000 f.body × WithinIfAny 1024 f.path × PositiveIfAny f.line

-- The schema `ReviewResult`.
pub record IsReview (r : ReviewResult) : Type 0 where
  pub sized : IsSized r
  pub summary : 0 < length r.summary
  pub findings : All IsFinding r.findings

-- What the gate copies into a finding without cutting it, or without a text of its own beside it.
abbrev SonarFits : SonarEvidence → Type 0
SonarFits (absent a none) = Unit {0}
SonarFits (absent a (some reason)) = 0 < length reason
SonarFits (analysed s) = length s.duplicated_new_lines_percent.printed ≤ 100

abbrev MergeabilityFits : MergeabilityEvidence → Type 0
MergeabilityFits (MergeabilityEvidence.unavailable reason) = Within 10000 reason
MergeabilityFits _ = Unit {0}

pub record Fits (e : HeadEvidence) : Type 0 where
  pub ci : WithinIfAny 10000 e.ci.reason
  pub sonar : SonarFits e.sonar
  pub mergeability : MergeabilityFits e.mergeability

All-take :
    (P : ReviewFinding → Type 0) (n : ℕ) (fs : List ReviewFinding) → All P fs → All P (take n fs)
All-take P zero fs h = tt
All-take P (suc n) [] h = tt
All-take P (suc n) (f ∷ fs) h = (h.0, All-take P n fs h.1)

All-mapped :
    {A : Type 0}
    → (f : A → ReviewFinding) → ((a : A) → IsFinding (f a))
    → (xs : List A) → All IsFinding (map f xs)
All-mapped f h [] = tt
All-mapped f h (x ∷ xs) = (h x, All-mapped f h xs)

All-marked : (fs : List ReviewFinding) → All IsFinding fs → All IsFinding (map mark fs)
All-marked [] h = tt
All-marked (f ∷ fs) (h, hs) = (h, All-marked fs hs)

-- A text with something in front, cut to a bound.
cut : (bound : ℕ) (t : Text) → 0 < length t → Within (suc bound) (take (suc bound) t)
cut bound [] h = absurd (omega (arith, h))
cut bound (c ∷ t) h = (omega arith, length-take-le (suc bound) (c ∷ t))

join_pos :
    (separator t : Text) (ts : List Text) → 0 < length t → 0 < length (join separator (t ∷ ts))
join_pos separator t [] h = h
join_pos separator [] (u ∷ us) h = absurd (omega (arith, h))
join_pos separator (c ∷ t) (u ∷ us) h = omega arith

check_finding-IsFinding : (c : CheckEvidence) → IsFinding (check_finding c)
unfolding check_finding check_details
check_finding-IsFinding c = (
  cut 199 (units "Required check did not succeed: " ++ c.name) (omega arith),
  cut 9999 (join (units "\n\n") (check_details c)) (
      join_pos (units "\n\n")
        (units "Conclusion: " ++ (or_else c.conclusion (units "non-success") ++ units "."))
        (select not_empty (
          detail (units "Details: ") c.details_url
          ++ (detail [] c.summary ++ detail (units "Untrusted log excerpt:\n") c.log)))
        (omega arith)),
  (omega arith, omega arith),
  tt,
)

not_current-bounds :
    (ci : CiEvidence) (name : Text)
    → WithinIfAny 10000 ci.reason
    → length name ≤ 100
    → All IsFinding (not_current ci name)
unfolding not_current
not_current-bounds ci name h n =
    (((omega arith, omega arith), reason_or_name ci.reason h, (omega arith, omega arith), tt), tt)
  where
    reason_or_name :
        (reason : Option Text)
        → WithinIfAny 10000 reason
        → Within 10000 (or_else reason (units "CI evidence is " ++ (name ++ units ".")))
    reason_or_name none h = (omega arith, omega (arith, length-append name (units "."), n))
    reason_or_name (some t) h = h

ci_findings-bounds :
    (ci : CiEvidence) → WithinIfAny 10000 ci.reason → All IsFinding (ci_findings ci)
unfolding ci_findings
ci_findings-bounds ci h =
    All-append IsFinding (stale_ci ci) (map check_finding (select check_failed ci.checks))
      (stale ci.state)
      (All-mapped check_finding check_finding-IsFinding (select check_failed ci.checks))
  where
    stale :
        (state : CiState)
        → All IsFinding (elim state [
          | CiState.available ↦ []
          | CiState.unavailable ↦ not_current ci (units "unavailable")
          | CiState.stale ↦ not_current ci (units "stale")
        ])
    stale CiState.available = tt
    stale CiState.unavailable = not_current-bounds ci (units "unavailable") h (omega arith)
    stale CiState.stale = not_current-bounds ci (units "stale") h (omega arith)

sonar_unavailable-IsFinding : (body : Text) → 0 < length body → IsFinding (sonar_unavailable body)
unfolding sonar_unavailable
sonar_unavailable-IsFinding body h =
    ((omega arith, omega arith), cut 9999 body h, (omega arith, omega arith), tt)

mergeability_findings-bounds :
    (m : MergeabilityEvidence) → MergeabilityFits m → All IsFinding (mergeability_findings m)
unfolding mergeability_findings
mergeability_findings-bounds mergeable h = tt
mergeability_findings-bounds MergeabilityEvidence.pending h = tt
mergeability_findings-bounds conflicting h =
    (((omega arith, omega arith), (omega arith, omega arith), (omega arith, omega arith), tt), tt)
mergeability_findings-bounds (MergeabilityEvidence.unavailable reason) h =
    (((omega arith, omega arith), h, (omega arith, omega arith), tt), tt)

All-if :
    (b : Bool) (fs : List ReviewFinding) → All IsFinding fs → All IsFinding (if b then fs else [])
All-if true fs h = h
All-if false fs h = tt

module _ (show : ℕ → Text) (lower : Text → Text) where
  sonar_finding-IsFinding : (f : SonarFinding) → IsFinding (sonar_finding show lower f)
  unfolding sonar_finding
  sonar_finding-IsFinding f = (
    cut 199 (units "Sonar issue: " ++ f.message) (omega arith),
    cut 9999
        (units "Sonar Automatic Analysis reports an unresolved new issue ("
          ++ (f.severity ++ (units "): " ++ (f.message ++ sonar_location show lower f))))
        (omega arith),
    (omega arith, omega arith),
    tt,
  )

  analysis_findings-bounds :
      (s : SonarAnalysis)
      → length s.duplicated_new_lines_percent.printed ≤ 100
      → All IsFinding (analysis_findings show lower s)
  unfolding analysis_findings
  analysis_findings-bounds s h =
      All-append IsFinding (map (sonar_finding show lower) (take 20 s.findings)) _
        (All-mapped (sonar_finding show lower) sonar_finding-IsFinding (take 20 s.findings))
        (All-append IsFinding _ _
          (All-if (ltb (length s.findings) s.unresolved_issue_count) _ (
            sonar_unavailable-IsFinding
                (units "Sonar Automatic Analysis reports "
                  ++ (show s.unresolved_issue_count ++ units " unresolved new issues."))
                (omega arith),
            tt,
          ))
          (All-if s.duplicated_new_lines_percent.over_one _ (
            (
              (omega arith, omega arith),
              (
                omega arith,
                omega (
                  arith,
                  length-append s.duplicated_new_lines_percent.printed
                      (units "% duplicated new lines; the maximum is 1%."),
                  h,
                ),
              ),
              (omega arith, omega arith),
              tt,
            ),
            tt,
          )))

  sonar_findings-bounds :
      (head_sha : Text) (s : SonarEvidence)
      → SonarFits s
      → All IsFinding (sonar_findings show lower head_sha s)
  unfolding sonar_findings
  sonar_findings-bounds head_sha (absent a none) h = (
    sonar_unavailable-IsFinding
        (units "Sonar Automatic Analysis evidence is " ++ (absence_name a ++ units "."))
        (omega arith),
    tt,
  )
  sonar_findings-bounds head_sha (absent a (some reason)) h =
      (sonar_unavailable-IsFinding reason h, tt)
  sonar_findings-bounds head_sha (analysed s) h = elim (Bool-cases (text_eq s.head_sha head_sha)) [
    | inl same ↦ rw same (analysis_findings-bounds s h)
    | inr other ↦ rw other (
      sonar_unavailable-IsFinding (units "Sonar evidence belongs to a different head SHA.")
          (omega arith),
      tt,
    )
  ]

  gate_findings-bounds : (e : HeadEvidence) → Fits e → All IsFinding (gate_findings show lower e)
  unfolding gate_findings
  gate_findings-bounds e h = All-marked _ (
      All-append IsFinding (ci_findings e.ci) _ (ci_findings-bounds e.ci h.ci) (
        All-append IsFinding (sonar_findings show lower e.head_sha e.sonar)
          (mergeability_findings e.mergeability) (sonar_findings-bounds e.head_sha e.sonar h.sonar)
          (mergeability_findings-bounds e.mergeability h.mergeability)))

agent_findings-bounds : (r : ReviewResult) → IsReview r → All IsFinding (agent_findings r)
agent_findings-bounds r v = by_verdict r.verdict
  where
    by_verdict :
        (verdict : Verdict)
        → All IsFinding (elim verdict [ pass ↦ [] | changes_requested ↦ r.findings ])
    by_verdict pass = tt
    by_verdict changes_requested = v.findings

with_gate-IsReview :
    (r : ReviewResult) (fs : List ReviewFinding)
    → All IsFinding fs
    → IsReview r
    → IsReview (with_gate r fs)
unfolding with_findings gate_summary_prefix
with_gate-IsReview r [] h v = v
with_gate-IsReview r (f ∷ fs) h v = record {
  sized = with_gate-IsSized r (f ∷ fs) v.sized;
  summary = (cut 3999 (gate_summary_prefix ++ r.summary) (omega arith)).0;
  findings =
      All-append IsFinding (take (50 - length (agent_findings r)) (f ∷ fs)) (agent_findings r)
        (All-take IsFinding (50 - length (agent_findings r)) (f ∷ fs) h)
        (agent_findings-bounds r v);
}

-- The gate gives out what the schema of a review admits: where the agent's review is one, with the
-- bounds on its summary and on each finding, and where a reason for CI or for the mergeability is
-- neither empty nor above 10000 code units, a reason for Sonar is not empty, and a percentage prints
-- in at most 100.
pub gate_bounded :
    (show : ℕ → Text) (lower : Text → Text) (r r' : ReviewResult) (e : HeadEvidence)
    → IsReview r
    → Fits e
    → gate_review_with_head_evidence show lower r e ≡ ready r'
    → IsReview r'
gate_bounded show lower r r' e v h g =
    subst IsReview (sym (gate_cases show lower r r' e g).1)
      (with_gate-IsReview r (gate_findings show lower e) (gate_findings-bounds show lower e h) v)
