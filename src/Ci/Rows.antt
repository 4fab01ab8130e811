-- ===== src/Ci/Rows.antt =====
-- src/ci/store.ts with src/ci/event.ts: the rows of its tables, and the states that they hold.
use workflowd.Base.{ℕ, String, Bool, Option, List}

pub record CiTarget : Type 0 where
  pub repository : String
  pub sha : String

pub record CiRun : Type 0 where
  pub id : ℕ
  pub name : String
  pub attempt : ℕ
  pub status : String
  pub conclusion : Option String
  pub failing_jobs : List String

pub data Conclusion : Type 0 where
  pending success failure : Conclusion

-- The state without its sequence, which the row of the log holds.
pub record CiState : Type 0 where
  pub repository : String
  pub sha : String
  pub conclusion : Conclusion
  pub failing_jobs : List String
  pub run_links : Option (List String)

pub record CiCompletion : Type 0 where
  pub repository : String
  pub sha : String
  pub installation_id : ℕ
  pub source : String
  pub source_id : ℕ
  pub conclusion : Option String

pub record TargetRow : Type 0 where
  pub repository : String
  pub sha : String
  pub installation_id : ℕ
  pub required : List String
  pub etag : Option String
  pub next_poll : ℕ
  pub expires_at : ℕ

pub record EventRow : Type 0 where
  pub sequence : ℕ
  pub state : CiState
  pub published : Bool

pub record DeliveryRow : Type 0 where
  pub delivery_id : String
  pub event : CiCompletion
  pub published : Bool

pub record WebhookRow : Type 0 where
  pub delivery_id : String
  pub event : String
  pub payload : String
  pub received_at : ℕ

-- `next_sequence` is that of `AUTOINCREMENT`.
pub record CiDb : Type 0 where
  pub targets : List TargetRow
  pub events : List EventRow
  pub deliveries : List DeliveryRow
  pub webhooks : List WebhookRow
  pub next_sequence : ℕ
