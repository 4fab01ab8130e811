-- ===== src/Domain/Transition.antt =====
-- src/domain/pull-request-transition.ts: what a webhook observation or an authoritative snapshot
-- does to the tracked state of a pull request. `toLowerCase` is the parameter `lower`.
-- `updatedAt` is compared by JavaScript's `<` on strings, so it is a list of code units.
pub mod Requests
pub mod Generation
use workflowd.Base.{
  ℕ, ◌+◌, String, Bool, true, false, not, ◌&&◌, ◌||◌, Option, none, some, List, [], ◌∷◌, ◌++◌,
  if◌then◌else◌, ◌==◌, str_eq, Text, text_lt, text_eq,
}

pub record RepositoryRef : Type 0 where
  pub id : ℕ
  pub full_name : String
  pub name : String
  pub owner : String

pub data PullState : Type 0 where
  opened closed : PullState

pub record PullRequestRef : Type 0 where
  pub number : ℕ
  pub author : String
  pub author_association : Option String
  pub base_sha : String
  pub base_ref : String
  pub head_sha : String
  pub head_ref : String
  pub head_repository_full_name : String
  pub draft : Bool
  pub state : PullState
  pub updated_at : Option Text

pub record PullRequestData : Type 0 where
  pub installation_id : ℕ
  pub repository : RepositoryRef
  pub pull_request : PullRequestRef

-- A webhook observation carries its action; an authoritative snapshot has none.
pub data Snapshot : Type 0 where
  observation : String → PullRequestData → Snapshot
  authoritative : PullRequestData → Snapshot

abbrev pub data_of : Snapshot → PullRequestData
data_of (observation action d) = d
data_of (authoritative d) = d

pub record TrackedPullRequestState : Type 0 where
  pub tracked : PullRequestData
  pub generation : ℕ
  pub latest_review_request_number : Option ℕ
  pub review_request_active : Bool

pub data Scope : Type 0 where
  current_generation earlier_review_requests : Scope

pub data Intent : Type 0 where
  skip_automatic_review : Intent
  queue_review : ℕ → Intent
  supersede_generation : ℕ → Intent
  supersede_review_requests : ℕ → Scope → Intent

pub data Decision : Type 0 where
  ignore_observation : ℕ → Decision
  request_reconciliation : ℕ → Decision
  apply_snapshot : Snapshot → ℕ → List Intent → Decision

abbrev pub reviewable_action : String → Bool
reviewable_action a =
    str_eq a "opened"
    || str_eq a "ready_for_review"
    || str_eq a "reopened"
    || str_eq a "synchronize"
    || str_eq a "edited"

abbrev pub same_target : PullRequestRef → PullRequestRef → Bool
same_target a b =
    str_eq a.base_sha b.base_sha
    && str_eq a.base_ref b.base_ref
    && str_eq a.head_sha b.head_sha
    && str_eq a.head_ref b.head_ref
    && str_eq a.head_repository_full_name b.head_repository_full_name

abbrev pub is_open : PullState → Bool
is_open opened = true
is_open closed = false

abbrev pub same_bool : Bool → Bool → Bool
same_bool true b = b
same_bool false b = not b

abbrev pub same_observed_state : PullRequestRef → PullRequestRef → Bool
same_observed_state a b =
    same_target a b && same_bool a.draft b.draft && same_bool (is_open a.state) (is_open b.state)

abbrev pub generation_for : Option TrackedPullRequestState → PullRequestRef → ℕ
generation_for none pr = 1
generation_for (some c) pr = c.generation + (if same_target c.tracked.pull_request pr then 0 else 1)

pub data Disposition : Type 0 where
  stale ambiguous ordered : Disposition

abbrev pub older : Option Text → Option Text → Bool
older (some previous) (some observed) = text_lt observed previous
older _ _ = false

abbrev pub same_time : Option Text → Option Text → Bool
same_time (some previous) (some observed) = text_eq previous observed
same_time _ _ = false

abbrev pub missing : Option Text → Option Text → Bool
missing (some previous) (some observed) = false
missing _ _ = true

-- The test of the last `return` of `observationDisposition`.
is_ambiguous : PullRequestRef → PullRequestRef → String → Bool
is_ambiguous p o action =
    (same_time p.updated_at o.updated_at && not (same_observed_state p o))
    || (missing p.updated_at o.updated_at && not (same_target p o))
    || (closed_reopens && not (str_eq action "reopened"))
    || (draft_clears && not (str_eq action "ready_for_review"))
    || (missing p.updated_at o.updated_at && (closed_reopens || draft_clears))
  where
    closed_reopens : Bool
    closed_reopens = not (is_open p.state) && is_open o.state

    draft_clears : Bool
    draft_clears = p.draft && not o.draft

unfoldable pub observation_disposition :
    TrackedPullRequestState → String → PullRequestRef → Disposition
unfolding is_ambiguous
observation_disposition c action o =
    if older c.tracked.pull_request.updated_at o.updated_at
    then stale
    else (if is_ambiguous c.tracked.pull_request o action then ambiguous else ordered)

abbrev pub action_reviewable : Snapshot → Bool
action_reviewable (observation action d) = reviewable_action action
action_reviewable (authoritative d) = true

unfoldable pub is_reviewable : Snapshot → Bool
is_reviewable s =
    is_open (data_of s).pull_request.state
    && not (data_of s).pull_request.draft
    && action_reviewable s

abbrev pub trusted_association : Option String → Bool
trusted_association none = false
trusted_association (some a) = str_eq a "OWNER" || str_eq a "MEMBER" || str_eq a "COLLABORATOR"

unfoldable pub automatic_review_trusted : (String → String) → Snapshot → Bool
automatic_review_trusted lower s =
    str_eq (lower (data_of s).pull_request.head_repository_full_name)
      (lower (data_of s).repository.full_name)
    || trusted_association (data_of s).pull_request.author_association

abbrev pub is_edited : Snapshot → Bool
is_edited (observation action d) = str_eq action "edited"
is_edited (authoritative d) = false

abbrev pub resumed : TrackedPullRequestState → Snapshot → Bool
resumed c (observation action d) = str_eq action "reopened" || str_eq action "ready_for_review"
resumed c (authoritative d) =
    (not (is_open c.tracked.pull_request.state) && is_open d.pull_request.state)
    || (c.tracked.pull_request.draft && not d.pull_request.draft)

abbrev pub or_zero : Option ℕ → ℕ
or_zero none = 0
or_zero (some n) = n

abbrev pub first_request : Option ℕ → Option ℕ
first_request none = some 1
first_request (some n) = none

-- The part of `nextReviewRequestNumber` after the generation test.
unfoldable pub next_in_generation : TrackedPullRequestState → Snapshot → Option ℕ
next_in_generation c s =
    if is_edited s
    then none
    else (if resumed c s && not c.review_request_active
        then some (or_zero c.latest_review_request_number + 1)
        else first_request c.latest_review_request_number)

unfoldable pub next_for_current : Option TrackedPullRequestState → Snapshot → ℕ → Option ℕ
unfolding next_in_generation
next_for_current none s generation = some 1
next_for_current (some c) s generation =
    if c.generation == generation then next_in_generation c s else some 1

unfoldable pub next_review_request_number :
    (String → String) → Option TrackedPullRequestState → Snapshot → ℕ → Option ℕ
unfolding next_for_current
next_review_request_number lower current s generation =
    if is_reviewable s && automatic_review_trusted lower s
    then next_for_current current s generation
    else none

abbrev pub generation_intents : Option TrackedPullRequestState → ℕ → List Intent
generation_intents none g = []
generation_intents (some c) g = if c.generation == g then [] else supersede_generation g ∷ []

abbrev pub skip_intents : (String → String) → Snapshot → List Intent
skip_intents lower s =
    if is_reviewable s && not (automatic_review_trusted lower s)
    then skip_automatic_review ∷ []
    else []

abbrev pub has_earlier_request : Option TrackedPullRequestState → ℕ → Bool
has_earlier_request none g = false
has_earlier_request (some c) g = elim c.latest_review_request_number [
  | none ↦ false
  | some n ↦ c.generation == g
]

abbrev pub review_intents : Option TrackedPullRequestState → Snapshot → ℕ → Option ℕ → List Intent
review_intents current s g (some n) =
    queue_review n
    ∷ (if has_earlier_request current g
        then supersede_review_requests g earlier_review_requests ∷ []
        else [])
review_intents current s g none =
    if (data_of s).pull_request.draft || not (is_open (data_of s).pull_request.state)
    then supersede_review_requests g current_generation ∷ []
    else []

-- The intents of an applied snapshot, in their order.
abbrev pub intents_for :
    (String → String) → Option TrackedPullRequestState → Snapshot → ℕ → List Intent
intents_for lower current s g =
    generation_intents current g
    ++ (skip_intents lower s
        ++ review_intents current s g (next_review_request_number lower current s g))

unfoldable pub apply : (String → String) → Option TrackedPullRequestState → Snapshot → Decision
apply lower current s =
    let g = generation_for current (data_of s).pull_request in
    apply_snapshot s g (intents_for lower current s g)

unfoldable pub decide_pull_request_transition :
    (String → String) → Option TrackedPullRequestState → Snapshot → Decision
unfolding apply
decide_pull_request_transition lower none s = apply lower none s
decide_pull_request_transition lower (some c) (authoritative d) =
    apply lower (some c) (authoritative d)
decide_pull_request_transition lower (some c) (observation action d) =
    elim (observation_disposition c action d.pull_request) [
      | stale ↦ ignore_observation c.generation
      | ambiguous ↦ request_reconciliation c.generation
      | ordered ↦ apply lower (some c) (observation action d)
    ]

-- Views of a decision, for statements about it.
abbrev pub generation_of : Decision → ℕ
generation_of (ignore_observation g) = g
generation_of (request_reconciliation g) = g
generation_of (apply_snapshot s g is) = g

abbrev pub is_applied : Decision → Bool
is_applied (apply_snapshot s g is) = true
is_applied _ = false

abbrev pub intents_of : Decision → List Intent
intents_of (apply_snapshot s g is) = is
intents_of _ = []
