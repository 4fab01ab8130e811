-- ===== src/Domain/Transition/Requests.antt =====
-- Which review requests src/domain/pull-request-transition.ts queues.
use workflowd.Base.{
  ℕ, suc, ◌≡◌, refl, sym, ap, ◌∙◌, String, Bool, true, false, not, ◌&&◌, Option, none, some, List,
  [], ◌∷◌, if◌then◌else◌, arith, ◌==◌, exists,
}
use workflowd.Domain.Transition.{
  TrackedPullRequestState, Snapshot, data_of, apply, decide_pull_request_transition, generation_of,
  is_applied, observation, authoritative, is_open, or_zero, Intent, skip_automatic_review,
  queue_review, supersede_generation, supersede_review_requests, intents_of, is_reviewable,
  automatic_review_trusted, next_review_request_number, next_in_generation, next_for_current,
  action_reviewable, current_generation,
}

-- The request that the first `QueueReview` intent carries.
abbrev pub queued : List Intent → Option ℕ
queued [] = none
queued (queue_review n ∷ is) = some n
queued (skip_automatic_review ∷ is) = queued is
queued (supersede_generation g ∷ is) = queued is
queued (supersede_review_requests g s ∷ is) = queued is

abbrev pub is_skip : Intent → Bool
is_skip skip_automatic_review = true
is_skip _ = false

abbrev pub closes_generation : ℕ → Intent → Bool
closes_generation g (supersede_review_requests h current_generation) = g == h
closes_generation g _ = false

apply-queued :
    (lower : String → String) (current : Option TrackedPullRequestState) (s : Snapshot)
    → let d = apply lower current s in
      queued (intents_of d) ≡ next_review_request_number lower current s (generation_of d)
unfolding apply
apply-queued lower none s = ground arith
apply-queued lower (some c) s = ground arith

decide-queued :
    (lower : String → String) (current : Option TrackedPullRequestState) (s : Snapshot) (n : ℕ)
    → let d = decide_pull_request_transition lower current s in
      queued (intents_of d) ≡ some n → d ≡ apply lower current s
unfolding decide_pull_request_transition
decide-queued lower none s n h = refl
decide-queued lower (some c) (authoritative d) n h = refl
decide-queued lower (some c) (observation action d) n h = ground arith

next_eligible :
    (lower : String → String) (current : Option TrackedPullRequestState) (s : Snapshot) (g n : ℕ)
    → next_review_request_number lower current s g ≡ some n
    → (is_open (data_of s).pull_request.state ≡ true)
      × ((data_of s).pull_request.draft ≡ false)
      × (action_reviewable s ≡ true)
      × (automatic_review_trusted lower s ≡ true)
unfolding next_review_request_number is_reviewable
next_eligible lower current s g n h = ground arith

apply-trusted :
    (lower : String → String) (current : Option TrackedPullRequestState) (s : Snapshot)
    → automatic_review_trusted lower s ≡ true
    → exists is_skip (intents_of (apply lower current s)) ≡ false
unfolding apply
apply-trusted lower none s t = ground arith
apply-trusted lower (some c) s t = ground arith

-- A review is queued only for an open, non-draft pull request, on a reviewable action or an
-- authoritative snapshot, that the automatic-review trust rule admits; and then no skip of the
-- automatic review is among the intents.
pub queued_eligible :
    (lower : String → String) (current : Option TrackedPullRequestState) (s : Snapshot) (n : ℕ)
    → queued (intents_of (decide_pull_request_transition lower current s)) ≡ some n
    → (is_open (data_of s).pull_request.state ≡ true)
      × ((data_of s).pull_request.draft ≡ false)
      × (action_reviewable s ≡ true)
      × (automatic_review_trusted lower s ≡ true)
      × (exists is_skip (intents_of (decide_pull_request_transition lower current s)) ≡ false)
queued_eligible lower current s n h =
    let applied = decide-queued lower current s n h in
    let number =
      sym (apply-queued lower current s) ∙ ap (λ d. queued (intents_of d)) (sym applied) ∙ h in
    let (o, f, a, t) = next_eligible lower current s _ n number in
    (o, f, a, t, ap (λ d. exists is_skip (intents_of d)) applied ∙ apply-trusted lower current s t)

abbrev pub has_request : Option ℕ → Bool
has_request none = false
has_request (some n) = true

-- The number of a queued review request is 1 where the decision opens a new generation; in the
-- tracked generation it follows the latest request, or is 1 where there is none, and no request
-- of that generation is active: a number is never used twice in a generation.
pub queued_fresh :
    (lower : String → String) (c : TrackedPullRequestState) (s : Snapshot) (n : ℕ)
    → queued (intents_of (decide_pull_request_transition lower (some c) s)) ≡ some n
    → let kept = c.generation == generation_of (decide_pull_request_transition lower (some c) s) in
      (n ≡ (if kept then suc (or_zero c.latest_review_request_number) else 1))
      × ((kept && has_request c.latest_review_request_number && c.review_request_active) ≡ false)
unfolding apply next_review_request_number next_for_current next_in_generation
queued_fresh lower c s n h = ground (arith, decide-queued lower (some c) s n h)

-- Applying a snapshot of a closed or draft pull request queues no review and supersedes the
-- requests of the resulting generation.
pub ineligible_superseded :
    (lower : String → String) (current : Option TrackedPullRequestState) (s : Snapshot)
    → (is_open (data_of s).pull_request.state && not (data_of s).pull_request.draft) ≡ false
    → is_applied (decide_pull_request_transition lower current s) ≡ true
    → let d = decide_pull_request_transition lower current s in
      (queued (intents_of d) ≡ none)
      × (exists (closes_generation (generation_of d)) (intents_of d) ≡ true)
unfolding decide_pull_request_transition apply next_review_request_number is_reviewable
ineligible_superseded lower none s h a = ground arith
ineligible_superseded lower (some c) (authoritative d) h a = ground arith
ineligible_superseded lower (some c) (observation action d) h a = ground arith
