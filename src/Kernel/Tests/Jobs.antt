-- ===== src/Kernel/Tests/Jobs.antt =====
-- Claims and completions of the kernel jobs on concrete tables, and the theorems at those inputs.
use workflowd.Base.{
  String, true, false, none, some, List, [], ◌∷◌, ◌++◌, ◌≡◌, ◌≢◌, refl, ap, str_eq, arith,
  if◌then◌else◌, find?,
}
use mathlib.Core.Bool.{false≢true}
use workflowd.Kernel.Db.{
  JobRow, Db, ok, err, after, bounded_text, bounded_payload, lease_error, conflict,
}
use workflowd.Kernel.Deliveries.{fresh, duplicate}
use workflowd.Kernel.Claims.Rounds.{Claims}
use workflowd.Kernel.Claims.Fencing.{Keyed, Held, claim_fences, claim_matching-Held}
use workflowd.Kernel.Results.Once.{IsClaimed, complete_needs_lease, complete_again}
use workflowd.Kernel.Handoff.{enqueue_from_delivery}
use workflowd.Kernel.Jobs.{ClaimAuthority, FailureInput, valid_failure, heartbeat, fail, retry}
use workflowd.Kernel.Claims.{JobClaim, claim_matching}
use workflowd.Kernel.Results.{
  CompleteInput, valid_complete, result_of, new_result, same_result, complete,
}
use workflowd.Kernel.History.{Call, claims, fails, run}
use workflowd.Kernel.History.Completed.{complete_once}
use workflowd.Kernel.Tests.{codec, claim_input, uuid, message, ready_db, queued_db}

abbrev leased_db : Db
leased_db = after queued_db (claim_matching codec uuid message false claim_input queued_db)

abbrev claim : JobClaim
claim = record {
  job_id = "handoff:resume-parent";
  instance_id = "handoff";
  input_version = 1;
  input = "{}";
  worker_id = "worker-1";
  attempt = 1;
  max_attempts = 2;
  claim_token = "token-1";
  lease_until = 150;
}

job_claimed :
    claim_matching codec uuid message false claim_input queued_db ≡ ok leased_db (some claim)
unfolding ready_db enqueue_from_delivery claim_matching bounded_text bounded_payload
job_claimed = refl

queued_db-Keyed : Keyed queued_db
unfolding ready_db enqueue_from_delivery bounded_text bounded_payload
queued_db-Keyed = (refl, tt)

claim_matching-Held_example :
    Claims Keyed Held queued_db (claim_matching codec uuid message false claim_input queued_db)
claim_matching-Held_example =
    claim_matching-Held codec uuid message false claim_input queued_db queued_db-Keyed

abbrev authority : String → ClaimAuthority
authority token = record {
  job_id = "handoff:resume-parent";
  worker_id = "worker-1";
  attempt = 1;
  claim_token = token;
  expected_lease_until = 150;
  now = 100;
}

abbrev stale_failure : FailureInput
stale_failure = record {
  authority = authority "token-0";
  version = 1;
  failure = "{}";
  category = none;
}

other_token : (authority "token-0").claim_token ≢ claim.claim_token
other_token e = false≢true (ap (λ s. str_eq s "token-1") e)

stale_failure_valid : valid_failure stale_failure ≡ true
unfolding valid_failure bounded_payload
stale_failure_valid = refl

claim_fences_example :
    (heartbeat (authority "token-0") 100 leased_db ≡ err lease_error)
    × (fail stale_failure leased_db ≡ err lease_error)
    × (retry stale_failure 200 leased_db ≡ err lease_error)
claim_fences_example =
    claim_fences codec uuid message false claim_input queued_db leased_db claim stale_failure 100
      200 queued_db-Keyed job_claimed refl other_token (omega arith) stale_failure_valid

abbrev completing : String → CompleteInput
completing result = record {
  authority = authority "token-1";
  result_id = "result-1";
  result_version = 1;
  result = result;
}

abbrev done_db : Db
done_db = after leased_db (complete codec (completing "{}") leased_db)

job_completed : complete codec (completing "{}") leased_db ≡ ok done_db fresh
unfolding ready_db enqueue_from_delivery claim_matching complete bounded_text bounded_payload
job_completed = refl

complete_needs_lease_example :
    (j : JobRow) × (before : List JobRow) × (later : List JobRow) × (leased_db.jobs
      ≡ before ++ j ∷ later)
    × IsClaimed (authority "token-1") j
    × (find? (result_of "handoff:resume-parent") leased_db.results ≡ none)
    × (find? (result_of "handoff:resume-parent") done_db.results
        ≡ some (new_result (completing "{}")))
complete_needs_lease_example =
    complete_needs_lease codec (completing "{}") leased_db done_db job_completed

-- The lease ran until 150.
abbrev late_repeat : CompleteInput
late_repeat = record (completing "{}") { authority = record (authority "token-1") { now = 500 } }

repeat_valid : valid_complete late_repeat ≡ true
unfolding valid_complete bounded_text bounded_payload
repeat_valid = refl

complete_again_example : complete codec late_repeat done_db ≡ (
    if same_result late_repeat (new_result (completing "{}"))
    then ok done_db duplicate
    else err (conflict "result"))
complete_again_example =
    complete_again codec (completing "{}") late_repeat 500 leased_db done_db job_completed refl refl
      repeat_valid

-- The job is claimed and failed again before another claim's completion.
abbrev afterwards : List Call
afterwards = claims false uuid message claim_input ∷ fails stale_failure ∷ []

complete_once_example :
    (after
        (run codec done_db afterwards)
        (complete codec late_repeat (run codec done_db afterwards))
      ≡ run codec done_db afterwards)
    × (complete codec late_repeat (run codec done_db afterwards) ≢ ok done_db fresh)
complete_once_example =
    complete_once codec (completing "{}") late_repeat leased_db done_db done_db afterwards
      job_completed refl
