-- ===== src/Domain/Evidence/Gate.antt =====
-- What the gate of src/domain/head-evidence.ts lets pass.
use workflowd.Base.{
  ℕ, zero, suc, min, ◌-◌, ◌+◌, ◌≤◌, ◌≡◌, refl, sym, ap, ◌∙◌, Bool, true, false, not, ◌&&◌, none,
  List, [], ◌∷◌, ◌++◌, map, arith, ◌==◌, Text, text_eq, length, take, select, find?, All,
  length-append, length-take-le,
}
use workflowd.Domain.Evidence.Records.{
  ReviewFinding, ReviewResult, Verdict, pass, CheckState, CheckEvidence, CiState, CiEvidence,
  SonarEvidence, analysed, absent, MergeabilityEvidence, mergeable, conflicting, HeadEvidence,
  ready, changes_requested,
}
use workflowd.Domain.Evidence.{
  gate_summary_prefix, check_pending, check_failed, check_finding, pending_check, pending_reason,
  ci_findings, sonar_findings, analysis_findings, mergeability_findings, gate_findings, with_gate,
  with_findings, gate_review_with_head_evidence, agent_findings, mark, sonar_finding, sonar_pending,
  mergeability_pending,
}

-- The analysis is of this head and found nothing.
abbrev pub sonar_clean : Text → SonarEvidence → Bool
sonar_clean head_sha (absent a reason) = false
sonar_clean head_sha (analysed s) =
    text_eq s.head_sha head_sha
    && length s.findings == 0
    && s.unresolved_issue_count == 0
    && not s.duplicated_new_lines_percent.over_one

-- Everything that the gate wants of a head before it lets an approval pass.
pub record IsClean (e : HeadEvidence) : Type 0 where
  pub current : e.ci.state ≡ CiState.available
  pub succeeded : All (λ c. c.state ≡ CheckState.success) e.ci.checks
  pub analysis : sonar_clean e.head_sha e.sonar ≡ true
  pub mergeability : e.mergeability ≡ mergeable

abbrev pub is_pass : Verdict → Bool
is_pass pass = true
is_pass changes_requested = false

-- The sizes that the schema `ReviewResult` bounds, and that a pass has no findings.
pub record IsSized (r : ReviewResult) : Type 0 where
  pub summary : length r.summary ≤ 4000
  pub at_most : length r.findings ≤ 50
  pub at_least : is_pass r.verdict ≡ (length r.findings == 0)

map_nothing : {A B : Type 0} → (f : A → B) (xs : List A) → map f xs ≡ [] → xs ≡ []
map_nothing f [] h = refl
map_nothing f (x ∷ xs) h = ground arith

append_nothing : {A : Type 0} → (xs ys : List A) → xs ++ ys ≡ [] → (xs ≡ []) × (ys ≡ [])
append_nothing [] ys h = (refl, h)
append_nothing (x ∷ xs) ys h = ground arith

length_zero : {A : Type 0} → (xs : List A) → (length xs == 0) ≡ true → xs ≡ []
length_zero [] h = refl
length_zero (x ∷ xs) h = ground arith

length-take : {A : Type 0} → (n : ℕ) (xs : List A) → length (take n xs) ≡ min n (length xs)
length-take zero xs = omega arith
length-take (suc n) [] = omega arith
length-take (suc n) (x ∷ xs) = omega (arith, length-take n xs)

All-succeeded :
    (cs : List CheckEvidence)
    → find? check_pending cs ≡ none
    → select check_failed cs ≡ []
    → All (λ c. c.state ≡ CheckState.success) cs
All-succeeded [] p f = tt
All-succeeded (c ∷ cs) p f = ground (arith, All-succeeded cs)

none_failed :
    (cs : List CheckEvidence)
    → All (λ c. c.state ≡ CheckState.success) cs
    → (find? check_pending cs ≡ none) × (select check_failed cs ≡ [])
none_failed [] a = (refl, refl)
none_failed (c ∷ cs) (h, a) = rw h (none_failed cs a)

clean_ci :
    (ci : CiEvidence)
    → ci.state ≡ CiState.available
    → All (λ c. c.state ≡ CheckState.success) ci.checks
    → (pending_check ci ≡ none) × (ci_findings ci ≡ [])
unfolding pending_check ci_findings
clean_ci ci a h = rw a (ground (arith, none_failed ci.checks h))

with_gate_pass :
    (r : ReviewResult) (fs : List ReviewFinding) → (with_gate r fs).verdict ≡ Verdict.pass → fs ≡ []
unfolding with_findings
with_gate_pass r [] h = refl
with_gate_pass r (f ∷ fs) h = ground arith

mergeability_clean :
    (m : MergeabilityEvidence)
    → mergeability_pending m ≡ false
    → mergeability_findings m ≡ []
    → m ≡ mergeable
unfolding mergeability_findings
mergeability_clean mergeable p h = refl
mergeability_clean conflicting p h = ground arith
mergeability_clean MergeabilityEvidence.pending p h = ground arith
mergeability_clean (MergeabilityEvidence.unavailable reason) p h = ground arith

nothing_pending :
    (e : HeadEvidence)
    → pending_reason e ≡ none
    → (pending_check e.ci ≡ none) × (mergeability_pending e.mergeability ≡ false)
unfolding pending_reason
nothing_pending e h = ground arith

agent_findings_bounded :
    (r : ReviewResult)
    → IsSized r
    → (length (agent_findings r) ≤ 50) × (is_pass r.verdict ≡ (length (agent_findings r) == 0))
agent_findings_bounded r v = ground (arith, v.at_most, v.at_least)

pub with_gate-IsSized :
    (r : ReviewResult) (fs : List ReviewFinding) → IsSized r → IsSized (with_gate r fs)
unfolding with_findings
with_gate-IsSized r [] v = v
with_gate-IsSized r (f ∷ fs) v =
    let a = agent_findings r in
    let kept = take (50 - length a) (f ∷ fs) in
    let size : length (kept ++ a) ≡ min (50 - length a) (suc (length fs)) + length a =
      length-append kept a ∙ ap (λ n. n + length a) (length-take (50 - length a) (f ∷ fs)) in
    record {
      summary = length-take-le 4000 (gate_summary_prefix ++ r.summary);
      at_most = ground (arith, size, agent_findings_bounded r v);
      at_least = ground (arith, size, agent_findings_bounded r v);
    }

ci_clean :
    (ci : CiEvidence)
    → pending_check ci ≡ none
    → ci_findings ci ≡ []
    → (ci.state ≡ CiState.available) × All (λ c. c.state ≡ CheckState.success) ci.checks
unfolding pending_check ci_findings
ci_clean ci p f =
    let failed = select check_failed ci.checks in
    (
      ground arith,
      All-succeeded ci.checks (ground arith) (map_nothing check_finding failed (ground arith)),
    )

module _ (show : ℕ → Text) (lower : Text → Text) where
  sonar_found :
      (head_sha : Text) (s : SonarEvidence)
      → sonar_findings show lower head_sha s ≡ []
      → sonar_clean head_sha s ≡ true
  unfolding sonar_findings analysis_findings
  sonar_found head_sha (absent a reason) h = ground arith
  sonar_found head_sha (analysed s) h =
      ground (arith, map_nothing (sonar_finding show lower) (take 20 s.findings))

  found_nothing :
      (e : HeadEvidence)
      → gate_findings show lower e ≡ []
      → (ci_findings e.ci ≡ [])
        × (sonar_findings show lower e.head_sha e.sonar ≡ [])
        × (mergeability_findings e.mergeability ≡ [])
  unfolding gate_findings
  found_nothing e h =
      let sonar = sonar_findings show lower e.head_sha e.sonar in
      let merge = mergeability_findings e.mergeability in
      ground (
        arith,
        append_nothing (ci_findings e.ci) (sonar ++ merge)
            (map_nothing mark (ci_findings e.ci ++ (sonar ++ merge)) h),
        append_nothing sonar merge,
      )

  pub gate_cases :
      (r r' : ReviewResult) (e : HeadEvidence)
      → gate_review_with_head_evidence show lower r e ≡ ready r'
      → (pending_reason e ≡ none) × (r' ≡ with_gate r (gate_findings show lower e))
  unfolding gate_review_with_head_evidence
  gate_cases r r' e h = ground arith

  clean_sonar :
      (head_sha : Text) (s : SonarEvidence)
      → sonar_clean head_sha s ≡ true
      → (sonar_findings show lower head_sha s ≡ []) × (sonar_pending s ≡ false)
  unfolding sonar_findings analysis_findings
  clean_sonar head_sha (absent a reason) h = ground arith
  clean_sonar head_sha (analysed s) h = ground (arith, length_zero s.findings)

  -- An approval passes the gate only on a clean head, and then as the agent gave it.
  pub gate_passes :
      (r r' : ReviewResult) (e : HeadEvidence)
      → gate_review_with_head_evidence show lower r e ≡ ready r'
      → r'.verdict ≡ Verdict.pass
      → (r' ≡ r) × IsClean e
  gate_passes r r' e h p =
      let (q, same) = gate_cases r r' e h in
      let none_found =
        with_gate_pass r (gate_findings show lower e) (sym (ap (λ x. x.verdict) same) ∙ p) in
      let (ci, sonar, merge) = found_nothing e none_found in
      let (check, settled) = nothing_pending e q in
      let (current, succeeded) = ci_clean e.ci check ci in
      (
        same ∙ ap (with_gate r) none_found,
        record {
          current = current;
          succeeded = succeeded;
          analysis = sonar_found e.head_sha e.sonar sonar;
          mergeability = mergeability_clean e.mergeability settled merge;
        },
      )

  -- On a clean head the gate returns the review unchanged.
  pub gate_clean :
      (r : ReviewResult) (e : HeadEvidence)
      → IsClean e
      → gate_review_with_head_evidence show lower r e ≡ ready r
  unfolding gate_review_with_head_evidence pending_reason gate_findings mergeability_findings
  gate_clean r e c = rw c.mergeability (
      ground
        (arith, clean_ci e.ci c.current c.succeeded, clean_sonar e.head_sha e.sonar c.analysis))
