-- ===== src/Store/Lease/Tests.antt =====
-- A claim on a concrete table, and the theorems at it.
use workflowd.Base.{
  inr, ℕ, ◌==◌, ◌≡◌, refl, String, Bool, true, false, Option, none, some, List, [], ◌∷◌, exists,
  if◌then◌else◌, arith,
}
use workflowd.Store.Lease.{
  Row, WorkState, LeaseClaim, RescheduleInput, stale, Decoded, decoded, undecodable, take, holds,
  claimable, claim, reschedule,
}
use workflowd.Store.Lease.Held.{Settled, claim_settles, retakable, claim_exclusive}
use workflowd.Store.Lease.Reschedule.{reschedule_displaced, reschedule_again}

abbrev any : ℕ → Row String → Bool
any now r = true

abbrev no_hook : ℕ → List (Row String) → List (Row String)
no_hook now rows = rows

-- The first row does not decode.
abbrev decode : Row String → Decoded String
decode r = if r.id == 1 then undecodable 1 "bad row" else decoded r.entry

abbrev row : ℕ → Row String
row n = record {
  id = n;
  state = WorkState.ready;
  attempts = 0;
  max_attempts = 5;
  run_at = 10;
  lease_owner = none;
  lease_until = none;
  last_error = none;
  updated_at = 10;
  entry = "work";
}

abbrev rows : List (Row String)
rows = row 1 ∷ row 2 ∷ []

abbrev claiming : LeaseClaim
claiming = record { worker_id = "worker-1"; now = 20; lease_duration_ms = 100 }

claim_settles_example :
    (rows' : List (Row String)) × (value : Option String) × (claim any no_hook decode claiming rows
      ≡ some (rows', value))
    × Settled any no_hook decode claiming rows' value
claim_settles_example = claim_settles any no_hook decode claiming rows

abbrev result_rows : Option (List (Row String) × Option String) → List (Row String)
result_rows none = []
result_rows (some (rows', value)) = rows'

abbrev claimed_rows : List (Row String)
claimed_rows = result_rows (claim any no_hook decode claiming rows)

work_claimed : claim any no_hook decode claiming rows ≡ some (claimed_rows, some "work")
unfolding claim
work_claimed = refl

claim_exclusive_example :
    (r : Row String) × (decode (take claiming r) ≡ decoded "work")
    × (claimable any no_hook decode 20 r ≡ true)
    × (exists (holds r.id "worker-1" 100) claimed_rows ≡ true)
    × (exists (retakable any no_hook decode claiming r.id 100) claimed_rows ≡ false)
claim_exclusive_example =
    claim_exclusive any no_hook decode claiming rows claimed_rows "work" 100 work_claimed
      (omega arith)

abbrev giving_back : RescheduleInput
giving_back = record {
  id = 2;
  worker_id = "worker-1";
  failed_at = 50;
  run_at = 90;
  error = "timeout";
  max_attempts = 5;
}

-- The lease runs until 120.
abbrev too_late : RescheduleInput
too_late = record giving_back { failed_at = 120 }

reschedule_displaced_example :
    (r : Row String) × (decode (take claiming r) ≡ decoded "work")
    × (reschedule (record too_late { id = r.id }) claimed_rows ≡ (claimed_rows, stale))
reschedule_displaced_example =
    reschedule_displaced any no_hook decode claiming too_late rows claimed_rows "work" work_claimed
      (inr (omega arith))

reschedule_again_example :
    reschedule giving_back (reschedule giving_back claimed_rows).0
    ≡ ((reschedule giving_back claimed_rows).0, stale)
reschedule_again_example = reschedule_again giving_back claimed_rows
