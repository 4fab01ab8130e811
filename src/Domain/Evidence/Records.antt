-- ===== src/Domain/Evidence/Records.antt =====
-- src/domain/review-result.ts and src/domain/head-evidence.ts: reviews, and the evidence of a head commit.
use workflowd.Base.{ℕ, Bool, Option, List, Text}

pub data Severity : Type 0 where
  critical high medium low : Severity

pub data Provenance : Type 0 where
  head_evidence : Provenance

pub record ReviewFinding : Type 0 where
  pub severity : Severity
  pub title : Text
  pub body : Text
  pub path : Option Text
  pub line : Option ℕ
  pub provenance : Option Provenance

pub data Verdict : Type 0 where
  pass changes_requested : Verdict

pub record ReviewResult : Type 0 where
  pub verdict : Verdict
  pub summary : Text
  pub findings : List ReviewFinding

pub data CheckState : Type 0 where
  success failure pending : CheckState

pub record CheckEvidence : Type 0 where
  pub name : Text
  pub state : CheckState
  pub conclusion : Option Text
  pub details_url : Option Text
  pub summary : Option Text
  pub log : Option Text

pub data CiState : Type 0 where
  available unavailable stale : CiState

pub record CiEvidence : Type 0 where
  pub state : CiState
  pub reason : Option Text
  pub checks : List CheckEvidence

pub record SonarFinding : Type 0 where
  pub severity : Text
  pub message : Text
  pub path : Option Text
  pub line : Option ℕ

-- A JavaScript number that the code prints and compares with 1.
pub record Percent : Type 0 where
  pub printed : Text
  pub over_one : Bool

-- An analysis that passed or failed, which the gate treats alike.
pub record SonarAnalysis : Type 0 where
  pub head_sha : Text
  pub unresolved_issue_count : ℕ
  pub duplicated_new_lines_percent : Percent
  pub findings : List SonarFinding

pub data SonarAbsence : Type 0 where
  pending missing stale unavailable failed : SonarAbsence

pub data SonarEvidence : Type 0 where
  analysed : SonarAnalysis → SonarEvidence
  absent : SonarAbsence → Option Text → SonarEvidence

pub data MergeabilityEvidence : Type 0 where
  mergeable conflicting pending : MergeabilityEvidence
  unavailable : Text → MergeabilityEvidence

pub record HeadEvidence : Type 0 where
  pub head_sha : Text
  pub ci : CiEvidence
  pub sonar : SonarEvidence
  pub mergeability : MergeabilityEvidence

pub data GatedReview : Type 0 where
  waits : Text → GatedReview
  ready : ReviewResult → GatedReview
