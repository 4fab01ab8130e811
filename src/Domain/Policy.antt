-- ===== src/Domain/Policy.antt =====
-- src/domain/transaction-policy.ts: which reviews an automatic fix may follow. `toLowerCase` is
-- the parameter `lower`.
use workflowd.Base.{
  Bool, true, false, not, ◌||◌, Option, none, some, List, [], ◌∷◌, if◌then◌else◌, Text, text_eq,
  starts_with, exists,
}
use workflowd.Domain.Evidence.Records.{
  ReviewFinding, ReviewResult, Verdict, pass, changes_requested,
}

pub data Reason : Type 0 where
  branch_not_eligible different_repository review_not_actionable untrusted_author : Reason

pub data FixEligibility : Type 0 where
  eligible : FixEligibility
  ineligible : Reason → FixEligibility

pub record FixCandidateInput : Type 0 where
  pub agent_branch_prefixes : Option (List Text)
  pub head_ref : Option Text
  pub repository_full_name : Text
  pub head_repository_full_name : Text
  pub review : ReviewResult

abbrev pub has_prefix : Option Text → Text → Bool
has_prefix none prefix = false
has_prefix (some ref) prefix = starts_with ref prefix

abbrev pub branch_admitted : Option (List Text) → Option Text → Bool
branch_admitted none ref = true
branch_admitted (some prefixes) ref = exists (has_prefix ref) prefixes

abbrev pub no_findings : List ReviewFinding → Bool
no_findings [] = true
no_findings (f ∷ fs) = false

abbrev pub is_pass : Verdict → Bool
is_pass pass = true
is_pass changes_requested = false

module _ (lower : Text → Text) where
  pub decide_fix_candidate : FixCandidateInput → FixEligibility
  decide_fix_candidate i =
      if not (text_eq (lower i.repository_full_name) (lower i.head_repository_full_name))
      then ineligible different_repository
      else (if is_pass i.review.verdict || no_findings i.review.findings
          then ineligible review_not_actionable
          else (if branch_admitted i.agent_branch_prefixes i.head_ref
              then eligible
              else ineligible branch_not_eligible))

  pub decide_fix_eligibility : FixCandidateInput → List Text → Text → FixEligibility
  decide_fix_eligibility i trusted author = elim (decide_fix_candidate i) [
    | ineligible reason ↦ ineligible reason
    | eligible ↦
        if exists (text_eq (lower author)) trusted then eligible else ineligible untrusted_author
  ]
