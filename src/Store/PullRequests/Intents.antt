-- ===== src/Store/PullRequests/Intents.antt =====
-- The intents of a decision of src/domain/pull-request-transition.ts, as src/store/pull-requests.ts
-- reads them.
use workflowd.Base.{
  ℕ, ◌≡◌, refl, ◌∙◌, inl, inr, String, Bool, true, false, not, ◌&&◌, ◌||◌, Option, none, some, List,
  ◌++◌, arith, All, if◌then◌else◌, ◌==◌, exists, exists-append, All-append, Bool-cases,
  Option-cases,
}
use workflowd.Domain.Transition.{
  Snapshot, data_of, TrackedPullRequestState, current_generation, Intent, supersede_generation,
  supersede_review_requests, intents_for, next_review_request_number, generation_intents,
  skip_intents, review_intents, has_earlier_request, next_in_generation, next_for_current, is_open,
  is_reviewable, automatic_review_trusted,
}
use workflowd.Store.PullRequests.Write.{queued, is_skip}
use workflowd.Store.PullRequests.Reviews.{exceeds}

-- The generation that an intent names, if it names one.
abbrev pub At : ℕ → Intent → Type 0
At g (supersede_generation h) = h ≡ g
At g (supersede_review_requests h scope) = h ≡ g
At g _ = Unit

abbrev pub withdraws : Intent → Bool
withdraws (supersede_review_requests g current_generation) = true
withdraws _ = false

abbrev pub supersedes : Intent → Bool
supersedes (supersede_generation g) = true
supersedes _ = false

-- The latest request of the generation, as the tracked state tells it.
abbrev pub known_latest : Option TrackedPullRequestState → ℕ → Option ℕ
known_latest none g = none
known_latest (some c) g = if c.generation == g then c.latest_review_request_number else none

abbrev pub advances : Option TrackedPullRequestState → ℕ → Bool
advances none g = false
advances (some c) g = not (c.generation == g)

generation-At :
    (cur : Option TrackedPullRequestState) (g : ℕ) → All (At g) (generation_intents cur g)
generation-At none g = tt
generation-At (some c) g = elim (Bool-cases (c.generation == g)) [
  | inl e ↦ rw e tt
  | inr e ↦ rw e (refl, tt)
]

skip-At : (lower : String → String) (s : Snapshot) (g : ℕ) → All (At g) (skip_intents lower s)
skip-At lower s g = elim (Bool-cases (is_reviewable s && not (automatic_review_trusted lower s))) [
  | inl e ↦ rw e (tt, tt)
  | inr e ↦ rw e tt
]

review-At :
    (cur : Option TrackedPullRequestState) (s : Snapshot) (g : ℕ) (next : Option ℕ)
    → All (At g) (review_intents cur s g next)
review-At cur s g none =
    elim (Bool-cases
      ((data_of s).pull_request.draft || not (is_open (data_of s).pull_request.state))) [
        | inl e ↦ rw e (refl, tt)
        | inr e ↦ rw e tt
      ]
review-At cur s g (some n) = elim (Bool-cases (has_earlier_request cur g)) [
  | inl e ↦ rw e (tt, (refl, tt))
  | inr e ↦ rw e (tt, tt)
]

queued-generation :
    (cur : Option TrackedPullRequestState) (g : ℕ) (is : List Intent)
    → queued (generation_intents cur g ++ is) ≡ queued is
queued-generation none g is = refl
queued-generation (some c) g is = ground arith

queued-skip :
    (lower : String → String) (s : Snapshot) (is : List Intent)
    → queued (skip_intents lower s ++ is) ≡ queued is
queued-skip lower s is = ground arith

queued-review :
    (cur : Option TrackedPullRequestState) (s : Snapshot) (g : ℕ) (next : Option ℕ)
    → queued (review_intents cur s g next) ≡ next
queued-review cur s g none = ground arith
queued-review cur s g (some n) = refl

supersedes-generation :
    (cur : Option TrackedPullRequestState) (g : ℕ)
    → exists supersedes (generation_intents cur g) ≡ advances cur g
supersedes-generation none g = refl
supersedes-generation (some c) g = ground arith

supersedes-review :
    (cur : Option TrackedPullRequestState) (s : Snapshot) (g : ℕ) (next : Option ℕ)
    → exists supersedes (review_intents cur s g next) ≡ false
supersedes-review cur s g none = ground arith
supersedes-review cur s g (some n) = ground arith

skip-generation :
    (cur : Option TrackedPullRequestState) (g : ℕ)
    → exists is_skip (generation_intents cur g) ≡ false
skip-generation none g = refl
skip-generation (some c) g = ground arith

skip-review :
    (cur : Option TrackedPullRequestState) (s : Snapshot) (g : ℕ) (next : Option ℕ)
    → exists is_skip (review_intents cur s g next) ≡ false
skip-review cur s g none = ground arith
skip-review cur s g (some n) = ground arith

in_generation-exceeds :
    (c : TrackedPullRequestState) (s : Snapshot) (n : ℕ)
    → next_in_generation c s ≡ some n
    → exceeds n c.latest_review_request_number ≡ true
unfolding next_in_generation
in_generation-exceeds c s n h = elim (Option-cases c.latest_review_request_number) [
  | inl e ↦ rw e refl
  | inr (m, e) ↦ rw e (ground (arith, e))
]

current-exceeds :
    (cur : Option TrackedPullRequestState) (s : Snapshot) (g n : ℕ)
    → next_for_current cur s g ≡ some n
    → exceeds n (known_latest cur g) ≡ true
unfolding next_for_current
current-exceeds none s g n h = refl
current-exceeds (some c) s g n h = ground (arith, in_generation-exceeds c s n)

module _ (lower : String → String) (s : Snapshot) (g : ℕ) where
  pub intents-At : (cur : Option TrackedPullRequestState) → All (At g) (intents_for lower cur s g)
  intents-At cur = All-append (At g) (generation_intents cur g) _ (generation-At cur g) (
      All-append (At g) (skip_intents lower s) _ (skip-At lower s g)
        (review-At cur s g (next_review_request_number lower cur s g)))

  pub queued-intents :
      (cur : Option TrackedPullRequestState)
      → queued (intents_for lower cur s g) ≡ next_review_request_number lower cur s g
  queued-intents cur =
      queued-generation cur g _
      ∙ queued-skip lower s _
      ∙ queued-review cur s g (next_review_request_number lower cur s g)

  pub supersedes-intents :
      (cur : Option TrackedPullRequestState)
      → exists supersedes (intents_for lower cur s g) ≡ advances cur g
  supersedes-intents cur =
      let next = next_review_request_number lower cur s g in
      exists-append supersedes (generation_intents cur g)
        (skip_intents lower s ++ review_intents cur s g next)
      ∙ ground (
        arith,
        exists-append supersedes (skip_intents lower s) (review_intents cur s g next),
        supersedes-generation cur g,
        supersedes-review cur s g next,
      )

  pub skips_queue_nothing :
      (cur : Option TrackedPullRequestState)
      → exists is_skip (intents_for lower cur s g) ≡ true
      → next_review_request_number lower cur s g ≡ none
  unfolding next_review_request_number
  skips_queue_nothing cur h =
      let next = next_review_request_number lower cur s g in
      let shut : (is_reviewable s && not (automatic_review_trusted lower s)) ≡ true = ground (
        arith,
        exists-append is_skip (generation_intents cur g)
            (skip_intents lower s ++ review_intents cur s g next),
        exists-append is_skip (skip_intents lower s) (review_intents cur s g next),
        skip-generation cur g,
        skip-review cur s g next,
      ) in
      ground arith

  pub next-exceeds :
      (cur : Option TrackedPullRequestState) (n : ℕ)
      → next_review_request_number lower cur s g ≡ some n
      → exceeds n (known_latest cur g) ≡ true
  unfolding next_review_request_number
  next-exceeds cur n h = ground (arith, current-exceeds cur s g n)
