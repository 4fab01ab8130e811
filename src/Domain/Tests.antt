-- ===== src/Domain/Tests.antt =====
-- Decisions on concrete pull requests, and the theorems at those inputs.
use workflowd.Base.{
  suc, String, Bool, true, false, not, ◌&&◌, ◌||◌, ◌==◌, none, some, ◌≡◌, ◌≢◌, refl, str_eq,
  if◌then◌else◌, exists, units, arith,
}
use workflowd.Domain.Transition.{
  RepositoryRef, PullState, PullRequestRef, PullRequestData, TrackedPullRequestState, observation,
  is_open, action_reviewable, automatic_review_trusted, decide_pull_request_transition,
  generation_of, is_applied, intents_of, or_zero, missing, older, observation_disposition, apply,
  is_reviewable, next_review_request_number,
}
use workflowd.Domain.Transition.Requests.{
  queued, is_skip, closes_generation, has_request, queued_eligible, queued_fresh,
  ineligible_superseded,
}
use workflowd.Domain.Transition.Generation.{
  decide-generation, Advances, reopens, clears_draft, advance_newer, newer, applied_resumes,
}

abbrev lower : String → String
lower s = s

abbrev repository : RepositoryRef
repository = record { id = 7; full_name = "acme/api"; name = "api"; owner = "acme" }

abbrev pull : String → PullState → Bool → String → PullRequestRef
pull head state draft updated = record {
  number = 3;
  author = "ada";
  author_association = some "MEMBER";
  base_sha = "b0";
  base_ref = "main";
  head_sha = head;
  head_ref = "fix";
  head_repository_full_name = "ada/api";
  draft = draft;
  state = state;
  updated_at = some (units updated);
}

abbrev data_at : String → PullState → Bool → String → PullRequestData
data_at head state draft updated = record {
  installation_id = 1;
  repository = repository;
  pull_request = pull head state draft updated;
}

abbrev tracked : PullState → TrackedPullRequestState
tracked state = record {
  tracked = data_at "h1" state false "2026-01-01";
  generation = 4;
  latest_review_request_number = some 2;
  review_request_active = false;
}

abbrev pushed : PullRequestData
pushed = data_at "h2" PullState.opened false "2026-01-02"

abbrev reopened : PullRequestData
reopened = data_at "h1" PullState.opened false "2026-01-02"

abbrev drafted : PullRequestData
drafted = data_at "h1" PullState.opened true "2026-01-02"

decide-generation_example : Advances (tracked PullState.opened) (observation "synchronize" pushed) (
    decide_pull_request_transition lower
      (some (tracked PullState.opened))
      (observation "synchronize" pushed))
decide-generation_example =
    decide-generation lower (tracked PullState.opened) (observation "synchronize" pushed)

pushed_advances :
    generation_of (
      decide_pull_request_transition lower
        (some (tracked PullState.opened))
        (observation "synchronize" pushed))
    ≢ 4
unfolding decide_pull_request_transition observation_disposition apply is_reviewable
    automatic_review_trusted next_review_request_number
pushed_advances e = ground arith

advance_newer_example : newer (some (units "2026-01-01")) (some (units "2026-01-02")) ≡ true
advance_newer_example =
    advance_newer lower (tracked PullState.opened) "synchronize" pushed pushed_advances

reopened_applied :
    is_applied (
      decide_pull_request_transition lower
        (some (tracked PullState.closed))
        (observation "reopened" reopened))
    ≡ true
unfolding decide_pull_request_transition observation_disposition apply is_reviewable
    automatic_review_trusted next_review_request_number
reopened_applied = refl

applied_resumes_example :
    ((reopens (tracked PullState.closed) reopened && not (str_eq "reopened" "reopened")) ≡ false)
    × ((clears_draft (tracked PullState.closed) reopened
          && not (str_eq "reopened" "ready_for_review"))
        ≡ false)
    × (((reopens (tracked PullState.closed) reopened
            || clears_draft (tracked PullState.closed) reopened)
          && (missing (some (units "2026-01-01")) (some (units "2026-01-02"))
              || older (some (units "2026-01-01")) (some (units "2026-01-02"))))
        ≡ false)
applied_resumes_example =
    applied_resumes lower (tracked PullState.closed) "reopened" reopened reopened_applied

reopened-queued :
    queued (
      intents_of (
        decide_pull_request_transition lower
          (some (tracked PullState.closed))
          (observation "reopened" reopened)))
    ≡ some 3
unfolding decide_pull_request_transition observation_disposition apply is_reviewable
    automatic_review_trusted next_review_request_number
reopened-queued = refl

queued_eligible_example :
    (is_open PullState.opened ≡ true)
    × (false ≡ false)
    × (action_reviewable (observation "reopened" reopened) ≡ true)
    × (automatic_review_trusted lower (observation "reopened" reopened) ≡ true)
    × (exists is_skip (
          intents_of (
            decide_pull_request_transition lower
              (some (tracked PullState.closed))
              (observation "reopened" reopened)))
        ≡ false)
queued_eligible_example =
    queued_eligible lower (some (tracked PullState.closed)) (observation "reopened" reopened) 3
      reopened-queued

queued_fresh_example :
    (3 ≡ (
      if 4
        == generation_of (
            decide_pull_request_transition lower
              (some (tracked PullState.closed))
              (observation "reopened" reopened))
      then suc (or_zero (some 2))
      else 1))
    × ((4
            == generation_of (
                decide_pull_request_transition lower
                  (some (tracked PullState.closed))
                  (observation "reopened" reopened))
          && has_request (some 2)
          && false)
        ≡ false)
queued_fresh_example =
    queued_fresh lower (tracked PullState.closed) (observation "reopened" reopened) 3
      reopened-queued

drafted_applied :
    is_applied (
      decide_pull_request_transition lower
        (some (tracked PullState.opened))
        (observation "converted_to_draft" drafted))
    ≡ true
unfolding decide_pull_request_transition observation_disposition apply is_reviewable
    automatic_review_trusted next_review_request_number
drafted_applied = refl

ineligible_superseded_example :
    (queued (
        intents_of (
          decide_pull_request_transition lower
            (some (tracked PullState.opened))
            (observation "converted_to_draft" drafted)))
      ≡ none)
    × (exists
          (closes_generation (
            generation_of (
              decide_pull_request_transition lower
                (some (tracked PullState.opened))
                (observation "converted_to_draft" drafted))))
          (intents_of (
            decide_pull_request_transition lower
              (some (tracked PullState.opened))
              (observation "converted_to_draft" drafted)))
        ≡ true)
ineligible_superseded_example =
    ineligible_superseded lower (some (tracked PullState.opened))
      (observation "converted_to_draft" drafted) refl drafted_applied
