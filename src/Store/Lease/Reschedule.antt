-- ===== src/Store/Lease/Reschedule.antt =====
-- `reschedule` of src/store/lease.ts, by a worker that has or had the lease.
use workflowd.Base.{
  ℕ, ◌+◌, ◌≤◌, ◌≢◌, ◌⊎◌, inl, inr, sym, subst, ◌∙◌, eq_iff, Option, none, some, ◌≡◌, Bool, false,
  List, arith, exists, update, update_none, exists-find?, exists-update_self,
}
use workflowd.Store.Lease.{
  Row, LeaseClaim, RescheduleInput, stale, Decoded, decoded, id_is, holds, take, taken, give_back,
  reschedule, claim,
}
use workflowd.Store.Lease.Ends.{claim-Ends}
use workflowd.Store.Lease.Held.{exists-update_miss}

module _ {E : Type 0} where
  pub reschedule_stale :
      (i : RescheduleInput) (rows : List (Row E))
      → exists (holds i.id i.worker_id i.failed_at) rows ≡ false
      → reschedule i rows ≡ (rows, stale)
  unfolding reschedule
  reschedule_stale i rows h = ground (
    arith,
    exists-find? (holds i.id i.worker_id i.failed_at) rows,
    update_none (holds i.id i.worker_id i.failed_at) (give_back i) rows,
  )

  gives_up :
      (i : RescheduleInput) (r : Row E) → holds i.id i.worker_id i.failed_at (give_back i r) ≡ false
  gives_up i r = ground arith

  -- The lease ends with a reschedule: the same one again is stale and changes nothing.
  pub reschedule_again :
      (i : RescheduleInput) (rows : List (Row E))
      → reschedule i (reschedule i rows).0 ≡ ((reschedule i rows).0, stale)
  unfolding reschedule
  reschedule_again i rows =
      let p = holds i.id i.worker_id i.failed_at in
      let after = update p (give_back i) rows in
      let released : exists p after ≡ false =
        exists-update_self p (give_back i) (λ r h. gives_up i r) rows in
      ground (arith, released, exists-find? p after, update_none p (give_back i) after)

module _ {E V : Type 0} (extra : ℕ → Row E → Bool) (before_claim : ℕ → List (Row E) → List (Row E))
    (decode : Row E → Decoded V) (i : LeaseClaim) (j : RescheduleInput) where
  -- The row that the claim took is out of reach of the reschedule.
  abbrev Displaced : List (Row E) → Option V → Type 0
  Displaced rows none = Unit {0}
  Displaced rows (some v) =
      (r : Row E) × (decode (take i r) ≡ decoded v)
      × (reschedule (record j { id = r.id }) rows ≡ (rows, stale))

  abbrev DisplacedResult : Option (List (Row E) × Option V) → Type 0
  DisplacedResult none = Unit {0}
  DisplacedResult (some (rows, value)) = Displaced rows value

  displaces :
      (j.worker_id ≢ i.worker_id) ⊎ (i.now + i.lease_duration_ms ≤ j.failed_at)
      → (id : ℕ) (r : Row E) → holds id j.worker_id j.failed_at (take i r) ≡ false
  displaces (inl other) id r = ground (arith, eq_iff i.worker_id j.worker_id)
  displaces (inr over) id r = ground arith

  -- After a claim that answers a value, a reschedule of the row that was claimed is stale and
  -- changes nothing, where it comes from another worker, or from the claim's worker once its lease
  -- has run out.
  pub reschedule_displaced :
      (rows rows' : List (Row E)) (v : V)
      → claim extra before_claim decode i rows ≡ some (rows', some v)
      → (j.worker_id ≢ i.worker_id) ⊎ (i.now + i.lease_duration_ms ≤ j.failed_at)
      → (r : Row E) × (decode (take i r) ≡ decoded v)
        × (reschedule (record j { id = r.id }) rows' ≡ (rows', stale))
  reschedule_displaced rows rows' v e lost =
      let (out, value, same, good) =
        claim-Ends extra before_claim decode i (λ rows. Unit {0}) Displaced (λ rows k e. tt)
          (λ rows r v k e d. (
            r,
            d,
            reschedule_stale (record j { id = r.id }) (taken i r rows)
                (exists-update_miss (id_is r.id) (holds r.id j.worker_id j.failed_at) (take i)
                  (λ a h. displaces lost r.id a) (λ a h. ground arith) rows),
          ))
          (λ rows r id m k e. tt) rows tt in
      subst DisplacedResult (sym same ∙ e) good
