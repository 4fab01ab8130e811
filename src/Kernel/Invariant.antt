-- ===== src/Kernel/Invariant.antt =====
-- The invariant of the wait tables that no operation of src/kernel breaks: no wake-up is lost.
use workflowd.Base.{true, false, ◌≡◌, sym, subst, List, exists, All}
use workflowd.Kernel.Db.{Db, EventRow, WaitRow, DeliveryRow, is_pending, wait_is}
use workflowd.Kernel.Deliveries.{satisfies}
use workflowd.Kernel.Deliveries.Cover.{has_delivery}

-- A pending wait has no event on record that satisfies it.
abbrev pub IsQuiet : List EventRow → WaitRow → Type 0
IsQuiet events w = is_pending w.state ≡ true → All (λ e. satisfies w e ≡ false) events

-- A pending wait has no delivery.
abbrev pub IsUndelivered : List DeliveryRow → WaitRow → Type 0
IsUndelivered ds w = is_pending w.state ≡ true → has_delivery w ds ≡ false

-- A delivery belongs to a wait.
abbrev pub IsReferenced : List WaitRow → DeliveryRow → Type 0
IsReferenced ws d = exists (wait_is d.instance_id d.wait_id) ws ≡ true

pub record NoLostWake (db : Db) : Type 0 where
  pub quiet : All (IsQuiet db.events) db.waits
  pub undelivered : All (IsUndelivered db.deliveries) db.waits
  pub referenced : All (IsReferenced db.waits) db.deliveries

-- The tables that the invariant is about.
pub record Waiting : Type 0 where
  pub events : List EventRow
  pub waits : List WaitRow
  pub deliveries : List DeliveryRow

abbrev pub waiting : Db → Waiting
waiting db = record { events = db.events; waits = db.waits; deliveries = db.deliveries }

-- It carries over to tables that agree there.
pub NoLostWake-same : (db db' : Db) → waiting db' ≡ waiting db → NoLostWake db → NoLostWake db'
NoLostWake-same db db' e inv = record {
  quiet = subst (λ (w : Waiting). All (IsQuiet w.events) w.waits) (sym e) inv.quiet;
  undelivered =
      subst (λ (w : Waiting). All (IsUndelivered w.deliveries) w.waits) (sym e) inv.undelivered;
  referenced =
      subst (λ (w : Waiting). All (IsReferenced w.waits) w.deliveries) (sym e) inv.referenced;
}
