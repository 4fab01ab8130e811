-- ===== src/Kernel/Waits/Wakeup.antt =====
-- `registerWait` of src/kernel/event-store.ts loses no wake-up: a wait whose event came first is
-- matched at once.
use workflowd.Base.{
  ℕ, true, false, ◌||◌, none, [], ◌∷◌, ◌++◌, ◌≡◌, refl, sym, ap, ◌∙◌, subst, inl, inr, arith,
  eq_iff, find?, exists, All, All-map, All-update, All-zip, All-append, exists-update,
  exists-append, find?-none, All-order_by_inv, exists-find?, exists-none, Bool-cases, Option-cases,
}
use mathlib.Core.Bool.{false≢true}
use workflowd.Kernel.Db.{
  EventRow, WaitRow, DeliveryRow, Db, Codec, after, wait_is, instance_is, delivery_is,
}
use workflowd.Kernel.Deliveries.{new_delivery, insert_delivery}
use workflowd.Kernel.Deliveries.Cover.{has_delivery, All-insert_delivery, has_delivery-insert}
use workflowd.Kernel.Events.{match_wait}
use workflowd.Kernel.Invariant.{NoLostWake, IsQuiet, IsUndelivered, IsReferenced}
use workflowd.Kernel.Waits.{
  RegisterWaitInput, new_wait, first_event, match_stored, wait_result, fresh_wait, stored_wait,
  refused_wait, insert_wait, register_wait,
}

other_key :
    (i : RegisterWaitInput) (db : Db) (d : DeliveryRow)
    → find? (wait_is i.instance_id i.wait_id) db.waits ≡ none
    → IsReferenced db.waits d
    → delivery_is i.instance_id i.wait_id d ≡ false
other_key i db d free e = elim (Bool-cases (delivery_is i.instance_id i.wait_id d)) [
  | inr miss ↦ miss
  | inl hit ↦
      let same_instance : d.instance_id ≡ i.instance_id =
        ground (arith, eq_iff d.instance_id i.instance_id) in
      let same_wait : d.wait_id ≡ i.wait_id = ground (arith, eq_iff d.wait_id i.wait_id) in
      let found : exists (wait_is i.instance_id i.wait_id) db.waits ≡ true =
        subst (λ w. exists (wait_is i.instance_id w) db.waits ≡ true) same_wait
          (subst (λ n. exists (wait_is n d.wait_id) db.waits ≡ true) same_instance e) in
      ground (arith, exists-find? (wait_is i.instance_id i.wait_id) db.waits)
]

-- A key that no wait has is the key of no delivery.
no_delivery :
    (i : RegisterWaitInput) (db : Db)
    → NoLostWake db
    → find? (wait_is i.instance_id i.wait_id) db.waits ≡ none
    → exists (delivery_is i.instance_id i.wait_id) db.deliveries ≡ false
no_delivery i db inv free =
    exists-none _ db.deliveries
      (All-map _ _ (λ d e. other_key i db d free e) db.deliveries inv.referenced)

module _ (i : RegisterWaitInput) (cursor : ℕ) (db : Db) (inv : NoLostWake db)
    (free : find? (wait_is i.instance_id i.wait_id) db.waits ≡ none) where
  abbrev wait : WaitRow
  wait = new_wait i cursor

  abbrev inserted : Db
  inserted = record db { waits = db.waits ++ wait ∷ [] }

  referenced : All (IsReferenced inserted.waits) db.deliveries
  referenced =
      All-map _ _
        (λ d e.
          exists-append _ db.waits (wait ∷ [])
          ∙ ap (λ b. b || exists (wait_is d.instance_id d.wait_id) (wait ∷ [])) e)
        db.deliveries inv.referenced

  undelivered : All (IsUndelivered db.deliveries) inserted.waits
  undelivered =
      All-append _ db.waits (wait ∷ []) inv.undelivered (λ _. no_delivery i db inv free, tt)

  -- No event on record satisfies the wait.
  unmatched-NoLostWake : first_event wait db.events ≡ none → NoLostWake inserted
  unfolding first_event
  unmatched-NoLostWake e = record {
    quiet =
        All-append _ db.waits (wait ∷ []) inv.quiet
          (λ _. All-order_by_inv _ _ db.events (find?-none _ _ e), tt);
    undelivered = undelivered;
    referenced = referenced;
  }

  -- What is known of a wait before the update that matches the new one.
  abbrev Other : WaitRow → Type 0
  Other w =
      wait_is i.instance_id i.wait_id w ≡ false
      → IsQuiet db.events w × IsUndelivered db.deliveries w

  wait_is-wait : wait_is i.instance_id i.wait_id wait ≡ true
  wait_is-wait = ground (arith, eq_iff i.instance_id i.instance_id, eq_iff i.wait_id i.wait_id)

  others : All Other inserted.waits
  others =
      All-append Other db.waits (wait ∷ [])
        (All-map _ Other (λ w h miss. h) db.waits (All-zip _ _ db.waits inv.quiet inv.undelivered))
        ((λ miss. absurd (false≢true (sym miss ∙ wait_is-wait))), tt)

  still_undelivered :
      (event : EventRow) (w : WaitRow)
      → wait_is i.instance_id i.wait_id w ≡ false
      → has_delivery w db.deliveries ≡ false
      → has_delivery w
          (insert_delivery (new_delivery event.sequence event.recorded_at wait) db.deliveries)
        ≡ false
  still_undelivered event w miss none_yet =
      has_delivery-insert (new_delivery event.sequence event.recorded_at wait) w db.deliveries (
        ground (
          arith,
          eq_iff i.instance_id w.instance_id,
          eq_iff w.instance_id i.instance_id,
          eq_iff i.wait_id w.wait_id,
          eq_iff w.wait_id i.wait_id,
        ))
      ∙ none_yet

  same_keys :
      (event : EventRow) (d : DeliveryRow)
      → exists (wait_is d.instance_id d.wait_id) (match_stored wait event inserted).waits
        ≡ exists (wait_is d.instance_id d.wait_id) inserted.waits
  unfolding match_stored
  same_keys event d = exists-update _ _ match_wait (λ w. refl) inserted.waits

  wait_found : exists (wait_is i.instance_id i.wait_id) inserted.waits ≡ true
  wait_found = exists-append _ db.waits (wait ∷ []) ∙ ground (arith, wait_is-wait)

  matched-NoLostWake : (event : EventRow) → NoLostWake (match_stored wait event inserted)
  unfolding match_stored
  matched-NoLostWake event = record {
    quiet =
        All-update Other _ _ match_wait (λ w hit o pending. cc)
          (λ w miss o pending. (o (ground arith)).0 pending) inserted.waits others;
    undelivered =
        All-update Other _ _ match_wait (λ w hit o pending. cc)
          (λ w miss o pending.
            still_undelivered event w (ground arith) ((o (ground arith)).1 pending))
          inserted.waits others;
    referenced =
        All-map _ _ (λ d e. same_keys event d ∙ e) _
          (All-insert_delivery (IsReferenced inserted.waits) _ db.deliveries wait_found referenced);
  }

  fresh-NoLostWake : (k : Codec) → NoLostWake (after db (fresh_wait k i wait inserted))
  unfolding fresh_wait wait_result
  fresh-NoLostWake k = elim (Option-cases (first_event wait db.events)) [
    | inl e ↦ ground (arith, unmatched-NoLostWake e)
    | inr (event, e) ↦ ground (arith, matched-NoLostWake event)
  ]

-- `registerWait` keeps the invariant that no wake-up is lost, whatever it answers.
pub register_wait-NoLostWake :
    (k : Codec) (i : RegisterWaitInput) (db : Db)
    → NoLostWake db
    → NoLostWake (after db (register_wait k i db))
unfolding register_wait insert_wait refused_wait stored_wait wait_result
register_wait-NoLostWake k i db inv =
    elim (Option-cases (find? (wait_is i.instance_id i.wait_id) db.waits)) [
      | inr (w, e) ↦ ground arith
      | inl free ↦ elim (Option-cases (find? (instance_is i.instance_id) db.instances)) [
        | inl e ↦ ground arith
        | inr (row, e) ↦ ground (arith, fresh-NoLostWake i row.event_cursor db inv free k)
      ]
    ]
