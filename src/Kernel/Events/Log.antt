-- ===== src/Kernel/Events/Log.antt =====
-- `recordEvent` of src/kernel/event-store.ts: the log grows in sequence and records an event once.
use workflowd.Base.{
  ℕ, true, some, List, [], ◌∷◌, ◌++◌, ◌≡◌, ◌<◌, ◌≤◌, inl, inr, arith, eq_iff, find?, All, All-map,
  find?-append_none, Option-cases,
}
use workflowd.Kernel.Db.{EventRow, Db, ok, Codec, max_sequence}
use workflowd.Kernel.Deliveries.{fresh, duplicate}
use workflowd.Kernel.Events.{
  RecordEventInput, RecordEventResult, event_is, same_event, next_sequence, new_event, with_event,
  event_deliveries, stored_event, record_event,
}

le-max_sequence : (n : ℕ) (es : List EventRow) → max_sequence es ≤ n → All (λ e. e.sequence ≤ n) es
le-max_sequence n [] h = tt
le-max_sequence n (e ∷ es) h = (omega arith, le-max_sequence n es (omega arith))

-- A recorded event comes after every event on record, and is appended to the log as it was given.
pub record_event-appends :
    (k : Codec) (i : RecordEventInput) (db db' : Db) (r : RecordEventResult)
    → record_event k i db ≡ ok db' r
    → r.status ≡ fresh
    → (db'.events ≡ db.events ++ new_event i r.sequence ∷ [])
      × All (λ e. e.sequence < r.sequence) db.events
unfolding record_event stored_event event_deliveries with_event
record_event-appends k i db db' r e f =
    let next : r.sequence ≡ next_sequence db = ground arith in
    (
      ground arith,
      All-map _ _ (λ x h. omega arith) db.events
          (le-max_sequence (max_sequence db.events) db.events (omega arith)),
    )

same_event_self : (i : RecordEventInput) (n : ℕ) → same_event (new_event i n) i ≡ true
same_event_self i n = ground (
  arith,
  eq_iff i.condition.type i.condition.type,
  eq_iff i.condition.key i.condition.key,
  eq_iff i.condition.correlation i.condition.correlation,
  eq_iff i.payload_json i.payload_json,
)

event_is_self :
    (i : RecordEventInput) (n : ℕ) → event_is i.source i.source_event_id (new_event i n) ≡ true
event_is_self i n =
    ground (arith, eq_iff i.source i.source, eq_iff i.source_event_id i.source_event_id)

found_again :
    (k : Codec) (i : RecordEventInput) (db db' : Db) (r : RecordEventResult)
    → record_event k i db ≡ ok db' r
    → r.status ≡ fresh
    → find? (event_is i.source i.source_event_id) db'.events ≡ some (new_event i r.sequence)
unfolding record_event stored_event event_deliveries with_event
found_again k i db db' r e f =
    elim (Option-cases (find? (event_is i.source i.source_event_id) db.events)) [
      | inl free ↦ ground (
        arith,
        find?-append_none (event_is i.source i.source_event_id) db.events (new_event i r.sequence)
            free (event_is_self i r.sequence),
      )
      | inr (row, found) ↦ ground arith
    ]

-- Recording is idempotent: the same event again, where its stored row decodes, is a duplicate
-- with the sequence of the first time, and changes nothing.
pub record_event_again :
    (k : Codec) (i : RecordEventInput) (db db' : Db) (r : RecordEventResult)
    → record_event k i db ≡ ok db' r
    → r.status ≡ fresh
    → k.event_decodes (new_event i r.sequence) ≡ true
    → record_event k i db'
      ≡ ok db' (record {
        status = duplicate;
        sequence = r.sequence;
        recorded_at = i.recorded_at;
        deliveries = [];
      })
unfolding record_event stored_event
record_event_again k i db db' r e f d =
    ground (arith, found_again k i db db' r e f, same_event_self i r.sequence)
