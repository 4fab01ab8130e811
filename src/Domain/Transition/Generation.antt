-- ===== src/Domain/Transition/Generation.antt =====
-- The generation of a pull request under src/domain/pull-request-transition.ts.
use workflowd.Base.{
  ◌+◌, ◌≡◌, ◌≢◌, String, not, ◌&&◌, ◌||◌, [], ◌∷◌, Text, text_lt, text_eq, str_eq, Bool, true,
  false, suc, ◌⊎◌, inl, inr, sym, subst, eq_iff, Bool-cases, Option, none, some, if◌then◌else◌,
  arith,
}
use workflowd.Domain.Transition.{
  TrackedPullRequestState, Snapshot, data_of, same_target, apply, decide_pull_request_transition,
  generation_of, is_applied, older, same_time, missing, is_open, is_ambiguous, PullRequestData,
  observation_disposition, observation, Decision, PullRequestRef, authoritative,
}

apply-generation :
    (lower : String → String) (c : TrackedPullRequestState) (s : Snapshot)
    → (is_applied (apply lower (some c) s) ≡ true)
      × (generation_of (apply lower (some c) s)
          ≡ c.generation
            + (if same_target c.tracked.pull_request (data_of s).pull_request then 0 else 1))
unfolding apply
apply-generation lower c s = ground arith

-- The base and the head of two pull requests, field by field.
abbrev pub SameReview : PullRequestRef → PullRequestRef → Type 0
SameReview a b =
    (a.base_sha ≡ b.base_sha)
    × (a.base_ref ≡ b.base_ref)
    × (a.head_sha ≡ b.head_sha)
    × (a.head_ref ≡ b.head_ref)
    × (a.head_repository_full_name ≡ b.head_repository_full_name)

abbrev SameReviewIf : PullRequestRef → PullRequestRef → Bool → Type 0
SameReviewIf a b true = SameReview a b
SameReviewIf a b false = ¬ SameReview a b

same_target_lem : (a b : PullRequestRef) → SameReviewIf a b (same_target a b)
same_target_lem a b = elim (Bool-cases (same_target a b)) [
  | inl e ↦ subst (SameReviewIf a b) (sym e) (
    ground (arith, eq_iff a.base_sha b.base_sha),
    ground (arith, eq_iff a.base_ref b.base_ref),
    ground (arith, eq_iff a.head_sha b.head_sha),
    ground (arith, eq_iff a.head_ref b.head_ref),
    ground (arith, eq_iff a.head_repository_full_name b.head_repository_full_name),
  )
  | inr e ↦ subst (SameReviewIf a b) (sym e) (λ (p, q, r, s, t). ground (
    arith,
    eq_iff a.base_sha b.base_sha,
    eq_iff a.base_ref b.base_ref,
    eq_iff a.head_sha b.head_sha,
    eq_iff a.head_ref b.head_ref,
    eq_iff a.head_repository_full_name b.head_repository_full_name,
  ))
]

decide_generation_by_target :
    (lower : String → String) (c : TrackedPullRequestState) (s : Snapshot)
    → let d = decide_pull_request_transition lower (some c) s in
      generation_of d ≡ (
        if is_applied d
        then c.generation
          + (if same_target c.tracked.pull_request (data_of s).pull_request then 0 else 1)
        else c.generation)
unfolding decide_pull_request_transition
decide_generation_by_target lower c (authoritative d) =
    ground (arith, apply-generation lower c (authoritative d))
decide_generation_by_target lower c (observation action d) =
    ground (arith, apply-generation lower c (observation action d))

-- What becomes of the generation of the tracked state `c` with the snapshot `s`.
abbrev pub Advances : TrackedPullRequestState → Snapshot → Decision → Type 0
Advances c s d =
    ((generation_of d ≡ c.generation)
      × ((is_applied d ≡ false) ⊎ SameReview c.tracked.pull_request (data_of s).pull_request))
    ⊎ ((generation_of d ≡ suc c.generation)
        × (is_applied d ≡ true)
        × ¬ SameReview c.tracked.pull_request (data_of s).pull_request)

-- The generation that a decision for a tracked pull request carries is the tracked one, where the
-- snapshot is not applied or has the same base and head: base sha and ref, head sha, ref and
-- repository. Otherwise it is the next one.
pub decide-generation :
    (lower : String → String) (c : TrackedPullRequestState) (s : Snapshot)
    → Advances c s (decide_pull_request_transition lower (some c) s)
decide-generation lower c s =
    let d = decide_pull_request_transition lower (some c) s in
    let a = c.tracked.pull_request in
    let b = (data_of s).pull_request in
    let g = decide_generation_by_target lower c s in
    elim (Bool-cases (is_applied d)) [
      | inr kept ↦ inl (ground arith, inl kept)
      | inl applied ↦ elim (Bool-cases (same_target a b)) [
        | inl same ↦ inl (ground arith, inr (subst (SameReviewIf a b) same (same_target_lem a b)))
        | inr other ↦
            inr (ground arith, applied, subst (SameReviewIf a b) other (same_target_lem a b))
      ]
    ]

lt-or-eq : (a b : Text) → text_lt b a ≡ false → text_eq a b ≡ false → text_lt a b ≡ true
lt-or-eq [] [] l e = ground arith
lt-or-eq [] (y ∷ b) l e = ground arith
lt-or-eq (x ∷ a) [] l e = ground arith
lt-or-eq (x ∷ a) (y ∷ b) l e = ground (arith, lt-or-eq a b)

abbrev pub newer : Option Text → Option Text → Bool
newer (some previous) (some observed) = text_lt previous observed
newer _ _ = false

newer_lem :
    (a b : Option Text)
    → older a b ≡ false
    → same_time a b ≡ false
    → missing a b ≡ false
    → newer a b ≡ true
newer_lem none b o e m = ground arith
newer_lem (some a) none o e m = ground arith
newer_lem (some a) (some b) o e m = lt-or-eq a b o e

-- An observation advances the generation of a tracked pull request only where both carry a
-- timestamp and the observation's is strictly the later one.
pub advance_newer :
    (lower : String → String) (c : TrackedPullRequestState) (action : String) (d : PullRequestData)
    → generation_of (decide_pull_request_transition lower (some c) (observation action d))
      ≢ c.generation
    → newer c.tracked.pull_request.updated_at d.pull_request.updated_at ≡ true
unfolding decide_pull_request_transition observation_disposition is_ambiguous
advance_newer lower c action d h =
    let p = c.tracked.pull_request in
    ground (
      arith,
      apply-generation lower c (observation action d),
      newer_lem p.updated_at d.pull_request.updated_at,
    )

abbrev pub reopens : TrackedPullRequestState → PullRequestData → Bool
reopens c d = not (is_open c.tracked.pull_request.state) && is_open d.pull_request.state

abbrev pub clears_draft : TrackedPullRequestState → PullRequestData → Bool
clears_draft c d = c.tracked.pull_request.draft && not d.pull_request.draft

-- An applied observation does not reopen a tracked, closed pull request under an action other than
-- `reopened`, nor clear its draft flag under one other than `ready_for_review`; and it does neither
-- without both timestamps, or where it is older than the tracked state.
pub applied_resumes :
    (lower : String → String) (c : TrackedPullRequestState) (action : String) (d : PullRequestData)
    → is_applied (decide_pull_request_transition lower (some c) (observation action d)) ≡ true
    → ((reopens c d && not (str_eq action "reopened")) ≡ false)
      × ((clears_draft c d && not (str_eq action "ready_for_review")) ≡ false)
      × (((reopens c d || clears_draft c d)
            && (missing c.tracked.pull_request.updated_at d.pull_request.updated_at
                || older c.tracked.pull_request.updated_at d.pull_request.updated_at))
          ≡ false)
unfolding decide_pull_request_transition observation_disposition is_ambiguous
applied_resumes lower c action d h = ground arith
