-- ===== src/Domain/Evidence/Strip.antt =====
-- `stripHeadEvidenceFindings` of src/domain/head-evidence.ts takes the gate's part out again.
use workflowd.Base.{
  ℕ, zero, suc, ◌-◌, ◌+◌, ◌≤◌, ◌≡◌, refl, sym, ap, ◌∙◌, ◌⊎◌, inl, inr, Bool, true, false, List, [],
  ◌∷◌, ◌++◌, map, arith, ◌==◌, Text, starts_with, length, take, select, All, starts_with-append,
  drop-append, length-append,
}
use workflowd.Domain.Evidence.Records.{
  ReviewFinding, ReviewResult, Verdict, pass, changes_requested, HeadEvidence, ready,
}
use workflowd.Domain.Evidence.{
  gate_summary_prefix, bounded, agent_findings, mark, with_findings, with_gate, gate_findings,
  gate_review_with_head_evidence, from_agent, strip_prefix, stripped, strip_head_evidence_findings,
}
use workflowd.Domain.Evidence.Gate.{IsSized, is_pass, gate_cases}

-- A review as an agent gives it: no finding is marked, and the summary is not the gate's.
pub record IsAgentReview (r : ReviewResult) : Type 0 where
  pub review : IsSized r
  pub unmarked : All (λ f. from_agent f ≡ true) r.findings
  pub unprefixed : starts_with r.summary gate_summary_prefix ≡ false

take_all : {A : Type 0} → (n : ℕ) (xs : List A) → length xs ≤ n → take n xs ≡ xs
take_all zero [] h = refl
take_all zero (x ∷ xs) h = absurd (omega (arith, h))
take_all (suc n) [] h = refl
take_all (suc n) (x ∷ xs) h = ap (λ t. x ∷ t) (take_all n xs (omega arith))

select-append :
    {A : Type 0}
    → (p : A → Bool) (xs ys : List A) → select p (xs ++ ys) ≡ select p xs ++ select p ys
select-append p [] ys = refl
select-append p (x ∷ xs) ys = ground (arith, select-append p xs ys)

select-All :
    {A : Type 0} → (p : A → Bool) (xs : List A) → All (λ x. p x ≡ true) xs → select p xs ≡ xs
select-All p [] a = refl
select-All p (x ∷ xs) (h, a) = rw h (ap (λ t. x ∷ t) (select-All p xs a))

select-mark : (n : ℕ) (fs : List ReviewFinding) → select from_agent (take n (map mark fs)) ≡ []
select-mark zero fs = refl
select-mark (suc n) [] = refl
select-mark (suc n) (f ∷ fs) = select-mark n fs

rebuild :
    (r : ReviewResult) (v : Verdict) (t : Text)
    → v ≡ r.verdict
    → t ≡ r.summary
    → record { verdict = v; summary = t; findings = r.findings } ≡ r
rebuild r v t e s = λ i. record { verdict = e i; summary = s i; findings = r.findings }

-- What `stripped` makes of the agent's findings of a review with this verdict.
restored :
    (v : Verdict) (x : ReviewResult) (fs : List ReviewFinding)
    → is_pass v ≡ (length fs == 0)
    → x.verdict ≡ changes_requested
    → stripped x (agent_findings (record { verdict = v; summary = x.summary; findings = fs }))
      ≡ record { verdict = v; summary = strip_prefix x.summary; findings = fs }
restored pass x [] c h = refl
restored pass x (f ∷ fs) c h = ground arith
restored changes_requested x [] c h = ground arith
restored changes_requested x (f ∷ fs) c h =
    ap (λ v. record { verdict = v; summary = strip_prefix x.summary; findings = f ∷ fs }) h

verdict_cases : (v : Verdict) → (v ≡ pass) ⊎ (v ≡ changes_requested)
verdict_cases pass = inl refl
verdict_cases changes_requested = inr refl

agent_findings_unmarked :
    (r : ReviewResult)
    → All (λ f. from_agent f ≡ true) r.findings
    → select from_agent (agent_findings r) ≡ agent_findings r
agent_findings_unmarked r a = elim (verdict_cases r.verdict) [
  | inl e ↦ rw e refl
  | inr e ↦ rw e (select-All from_agent r.findings a)
]

prefix_taken :
    (s : Text)
    → length gate_summary_prefix + length s ≤ 4000
    → strip_prefix (bounded 4000 (gate_summary_prefix ++ s)) ≡ s
prefix_taken s fits =
    ap strip_prefix (
      take_all 4000 (gate_summary_prefix ++ s) (omega (arith, length-append gate_summary_prefix s)))
    ∙ ground (arith, starts_with-append gate_summary_prefix s, drop-append gate_summary_prefix s)

-- What is left of the joined review are the agent's findings, and its summary.
strip-with_findings :
    (r : ReviewResult) (fs : List ReviewFinding)
    → IsAgentReview r
    → length gate_summary_prefix + length r.summary ≤ 4000
    → strip_head_evidence_findings (with_findings r (map mark fs)) ≡ r
unfolding strip_head_evidence_findings with_findings
strip-with_findings r fs v fits =
    let x = with_findings r (map mark fs) in
    let n = 50 - length (agent_findings r) in
    let left : select from_agent x.findings ≡ agent_findings r =
      select-append from_agent (take n (map mark fs)) (agent_findings r)
      ∙ (ap (λ t. t ++ select from_agent (agent_findings r)) (select-mark n fs)
          ∙ agent_findings_unmarked r v.unmarked) in
    ap (stripped x) left
    ∙ (restored r.verdict x r.findings v.review.at_least refl
        ∙ rebuild r r.verdict (strip_prefix x.summary) refl (prefix_taken r.summary fits))

strip-with_gate :
    (r : ReviewResult) (fs : List ReviewFinding)
    → IsAgentReview r
    → length gate_summary_prefix + length r.summary ≤ 4000
    → strip_head_evidence_findings (with_gate r (map mark fs)) ≡ r
unfolding strip_head_evidence_findings
strip-with_gate r [] v fits =
    let choose : Verdict → ReviewResult =
      λ v. elim v [ pass ↦ r | changes_requested ↦ stripped r (select from_agent r.findings) ] in
    elim (verdict_cases r.verdict) [
      | inl e ↦ ap choose e
      | inr e ↦
          ap choose e
          ∙ (ap (stripped r) (select-All from_agent r.findings v.unmarked)
              ∙ (restored changes_requested r r.findings (ap is_pass (sym e) ∙ v.review.at_least) e
                  ∙ rebuild r changes_requested (strip_prefix r.summary) (sym e)
                      (ground (arith, v.unprefixed))))
    ]
strip-with_gate r (f ∷ fs) v fits = strip-with_findings r (f ∷ fs) v fits

-- Stripping undoes the gate: an agent's review whose summary leaves room for the gate's prefix
-- comes back as it was, whatever the evidence added to it.
pub strip-gate :
    (show : ℕ → Text) (lower : Text → Text) (r r' : ReviewResult) (e : HeadEvidence)
    → IsAgentReview r
    → length gate_summary_prefix + length r.summary ≤ 4000
    → gate_review_with_head_evidence show lower r e ≡ ready r'
    → strip_head_evidence_findings r' ≡ r
unfolding gate_findings
strip-gate show lower r r' e v fits h =
    ap strip_head_evidence_findings (gate_cases show lower r r' e h).1 ∙ strip-with_gate r _ v fits
