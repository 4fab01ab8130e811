-- ===== src/Store/Lease/Held.antt =====
-- What a claim of src/store/lease.ts leaves in the table.
use workflowd.Base.{
  ℕ, ◌+◌, ◌<◌, ◌≡◌, refl, sym, subst, ◌∙◌, eq_iff, Bool, true, false, ◌&&◌, Option, none, some,
  List, [], ◌∷◌, arith, exists, update,
}
use workflowd.Store.Lease.{
  Row, LeaseClaim, Decoded, decoded, is_leased, owned_by, id_is, holds, take, claimable, claim,
}
use workflowd.Store.Lease.Slack.{candidate-claimable, candidate-exists}
use workflowd.Store.Lease.Ends.{claim-Ends, none-claimable}

module _ {A : Type 0} (p q : A → Bool) (f : A → A) where
  exists-update_hit :
      ((a : A) → p a ≡ true → q (f a) ≡ true)
      → (xs : List A) → exists p xs ≡ true
      → exists q (update p f xs) ≡ true
  exists-update_hit h [] e = cc
  exists-update_hit h (x ∷ xs) e = ground (arith, h x, exists-update_hit h xs)

  pub exists-update_miss :
      ((a : A) → p a ≡ true → q (f a) ≡ false)
      → ((a : A) → p a ≡ false → q a ≡ false)
      → (xs : List A) → exists q (update p f xs) ≡ false
  exists-update_miss h m [] = refl
  exists-update_miss h m (x ∷ xs) = ground (arith, h x, m x, exists-update_miss h m xs)

module _ {E V : Type 0} (extra : ℕ → Row E → Bool) (before_claim : ℕ → List (Row E) → List (Row E))
    (decode : Row E → Decoded V) (i : LeaseClaim) where
  -- The row of `r`'s id is leased to the worker.
  abbrev pub taken_from : Row E → Row E → Bool
  taken_from r x = id_is r.id x && is_leased x.state && owned_by i.worker_id x.lease_owner

  -- What a claim that answers `value` leaves: no claimable row, or the row of the value, leased to
  -- the worker.
  abbrev pub Settled : List (Row E) → Option V → Type 0
  Settled rows none = exists (claimable extra before_claim decode i.now) rows ≡ false
  Settled rows (some v) =
      (r : Row E) × (decode (take i r) ≡ decoded v)
      × (claimable extra before_claim decode i.now r ≡ true)
      × (exists (taken_from r) rows ≡ true)

  -- A claim ends: its fuel is enough on any table. Where it answers a value, that is what the
  -- decoder makes of a row that was claimable and is leased to the worker now; where it answers
  -- none, no row of the table is claimable.
  pub claim_settles :
      (rows : List (Row E))
      → (rows' : List (Row E)) × (value : Option V) × (claim extra before_claim decode i rows
          ≡ some (rows', value))
        × Settled rows' value
  claim_settles rows =
      claim-Ends extra before_claim decode i (λ rows. Unit {0}) Settled
        (λ rows k e. none-claimable extra before_claim decode i rows e)
        (λ rows r v k e d. (
          r,
          d,
          candidate-claimable extra before_claim decode i.now rows r e,
          exists-update_hit (id_is r.id) (taken_from r) (take i)
              (λ a h. ground (arith, eq_iff i.worker_id i.worker_id)) rows
              (candidate-exists extra before_claim decode i.now rows r (id_is r.id) e
                (ground arith)),
        ))
        (λ rows r id m k e. tt) rows tt

  abbrev pub retakable : ℕ → ℕ → Row E → Bool
  retakable id later x = id_is id x && claimable extra before_claim decode later x

  abbrev Exclusive : ℕ → List (Row E) → Option V → Type 0
  Exclusive later rows none = Unit {0}
  Exclusive later rows (some v) =
      (r : Row E) × (decode (take i r) ≡ decoded v)
      × (claimable extra before_claim decode i.now r ≡ true)
      × (exists (holds r.id i.worker_id later) rows ≡ true)
      × (exists (retakable r.id later) rows ≡ false)

  abbrev ExclusiveResult : ℕ → Option (List (Row E) × Option V) → Type 0
  ExclusiveResult later none = Unit {0}
  ExclusiveResult later (some (rows, value)) = Exclusive later rows value

  -- Where a claim answers a value, that is what the decoder makes of a row that was claimable, once
  -- it is taken; until the lease of the claim runs out, the worker holds a row of that row's id, and
  -- no row of the id is claimable.
  pub claim_exclusive :
      (rows rows' : List (Row E)) (v : V) (later : ℕ)
      → claim extra before_claim decode i rows ≡ some (rows', some v)
      → later < i.now + i.lease_duration_ms
      → (r : Row E) × (decode (take i r) ≡ decoded v)
        × (claimable extra before_claim decode i.now r ≡ true)
        × (exists (holds r.id i.worker_id later) rows' ≡ true)
        × (exists (retakable r.id later) rows' ≡ false)
  claim_exclusive rows rows' v later e before =
      let (out, value, same, good) =
        claim-Ends extra before_claim decode i (λ rows. Unit {0}) (Exclusive later) (λ rows k e. tt)
          (λ rows r v k e d. (
            r,
            d,
            candidate-claimable extra before_claim decode i.now rows r e,
            exists-update_hit (id_is r.id) (holds r.id i.worker_id later) (take i)
                (λ a h. ground (arith, eq_iff i.worker_id i.worker_id)) rows
                (candidate-exists extra before_claim decode i.now rows r (id_is r.id) e
                  (ground arith)),
            exists-update_miss (id_is r.id) (retakable r.id later) (take i) (λ a h. ground arith)
                (λ a h. ground arith) rows,
          ))
          (λ rows r id m k e. tt) rows tt in
      subst (ExclusiveResult later) (sym same ∙ e) good
