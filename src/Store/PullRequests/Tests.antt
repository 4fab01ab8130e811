-- ===== src/Store/PullRequests/Tests.antt =====
-- A transition of src/store/pull-requests.ts on concrete tables, and the theorems at those inputs.
use workflowd.Base.{false, Option, none, some, ◌≡◌, refl}
use workflowd.Domain.Transition.{
  observation, decide_pull_request_transition, is_reviewable, observation_disposition,
  automatic_review_trusted, next_review_request_number,
}
use workflowd.Store.Work.{WorkDb}
use workflowd.Store.Supersede.{supersede_pull_request_work}
use workflowd.Store.PullRequests.Tracked.{TransitionInput, Status, tracked_state}
use workflowd.Store.PullRequests.{transition}
use workflowd.Store.PullRequests.Placed.{Placed}
use workflowd.Store.PullRequests.Refine.{Follows, transition_refines}
use workflowd.Store.PullRequests.Frame.{transition_frame}
use workflowd.Base.{◌∷◌, []}
use workflowd.Store.PullRequests.History.{run, run-Placed}
use workflowd.Store.PullRequests.Watermark.{ignores, behind, transition_watermark}
use workflowd.Store.Fixtures.{lower, pull, tables}

abbrev push : TransitionInput
push = record {
  applied_at = 20;
  observation_sequence = some 2;
  snapshot = observation "synchronize" (pull "h2" "2026-01-02");
}

abbrev or_tables : Option (WorkDb × Status) → WorkDb × Status
or_tables none = (tables, Status.ignored 0)
or_tables (some o) = o

abbrev pushed : WorkDb × Status
pushed = or_tables (transition lower push tables)

push-carried : transition lower push tables ≡ some pushed
unfolding transition decide_pull_request_transition observation_disposition is_reviewable
    automatic_review_trusted next_review_request_number supersede_pull_request_work
push-carried = refl

-- The push opens generation 5 with a review, and ends the work of generation 4.
push-enqueued : pushed.1 ≡ Status.enqueued 5
unfolding transition decide_pull_request_transition observation_disposition is_reviewable
    automatic_review_trusted next_review_request_number supersede_pull_request_work
push-enqueued = refl

transition_refines_example : (o : WorkDb × Status) × Follows lower push tables o
transition_refines_example = transition_refines lower push tables refl (refl, refl)

transition_frame_example :
    (tracked_state 8 3 pushed.0 ≡ tracked_state 8 3 tables)
    × (Placed 8 3 tables → Placed 8 3 pushed.0)
transition_frame_example = transition_frame lower push tables pushed 8 3 push-carried refl

push-heard :
    ignores (
      decide_pull_request_transition lower
        (tracked_state 7 3 tables)
        (observation "synchronize" (pull "h2" "2026-01-02")))
    ≡ false
unfolding tracked_state decide_pull_request_transition observation_disposition
push-heard = refl

transition_watermark_example : behind (pull "h2" "2026-01-02") 20 2 pushed.0.reconciliations ≡ false
transition_watermark_example =
    transition_watermark lower 20 2 "synchronize" (pull "h2" "2026-01-02") tables pushed
      push-carried push-heard

abbrev second_push : TransitionInput
second_push = record {
  applied_at = 30;
  observation_sequence = some 3;
  snapshot = observation "synchronize" (pull "h3" "2026-01-03");
}

run-Placed_example : Placed 7 3 (run lower (push ∷ second_push ∷ []) tables)
run-Placed_example = run-Placed lower (push ∷ second_push ∷ []) tables 7 3 (refl, refl)
