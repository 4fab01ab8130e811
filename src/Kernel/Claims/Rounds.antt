-- ===== src/Kernel/Claims/Rounds.antt =====
-- The branches of a round of the claim loop of src/kernel/job-store.ts, and an induction rule for
-- the loop.
use workflowd.Base.{
  String, Bool, true, not, ◌||◌, ltb, Option, none, some, List, [], ◌∷◌, ◌≡◌, inl, inr, exists,
  update, find?, Bool-cases, Option-cases,
}
use workflowd.Kernel.Db.{JobRow, Db, Outcome, ok, err, Codec, after}
use workflowd.Kernel.Deliveries.{identifier}
use workflowd.Kernel.Jobs.{job_is}
use workflowd.Kernel.Claims.{
  ClaimInput, JobClaim, exhausted, exhaust, takeable, take, quarantine, set_jobs, to_claim,
  claim_candidate, claim_candidates, claim_matching,
}

-- What the loop leaves: the tables after it, and of its claim the fact `Q`.
abbrev pub Leaves {ℓ} : (Db → Type ℓ) → (Db → JobClaim → Type ℓ) → Db × Option JobClaim → Type ℓ
Leaves I Q (db, none) = I db
Leaves I Q (db, some c) = I db × Q db c

abbrev pub Claims {ℓ} :
    (Db → Type ℓ) → (Db → JobClaim → Type ℓ) → Db → Outcome (Option JobClaim) → Type ℓ
Claims I Q db (ok db' c) = Leaves I Q (db', c)
Claims I Q db (err e) = I db

of_loop {ℓ} :
    (I : Db → Type ℓ) (Q : Db → JobClaim → Type ℓ) (db : Db) (r : Db × Option JobClaim)
    → Leaves I Q r
    → Claims I Q db (ok r.0 r.1)
of_loop I Q db (db', none) l = l
of_loop I Q db (db', some c) l = l

module _ (k : Codec) (uuid : String → String) (message : JobRow → String) (remote : Bool)
    (i : ClaimInput) where
  abbrev pub taken : String → Db → List JobRow
  taken id db = update (takeable k remote i.now db.dispatches id) (take i (uuid id)) db.jobs

  pub claim_candidate_cases {ℓ} :
      (P : Db × Option JobClaim → Type ℓ) (id : String) (db : Db)
      → (exists (exhausted i.now id) db.jobs ≡ true
          → P (set_jobs (update (exhausted i.now id) (exhaust i.now) db.jobs) db, none))
      → P (db, none)
      → ((j : JobRow)
          → find? (takeable k remote i.now db.dispatches id) db.jobs ≡ some j
          → P (set_jobs (taken id db) db, some (to_claim i (uuid id) (take i (uuid id) j))))
      → ((j : JobRow)
          → find? (takeable k remote i.now db.dispatches id) db.jobs ≡ some j
          → P (
            set_jobs
                (update (job_is id) (quarantine i.now (message (take i (uuid id) j))) (taken id db))
                db,
            none,
          ))
      → P (claim_candidate k uuid message remote i id db)
  unfolding claim_candidate
  claim_candidate_cases P id db over idle claimed bad =
      elim (Bool-cases (exists (exhausted i.now id) db.jobs)) [
        | inl e ↦ rw e (over e)
        | inr e ↦
            rw e (elim (Option-cases (find? (takeable k remote i.now db.dispatches id) db.jobs)) [
              | inl f ↦ rw f idle
              | inr (j, f) ↦ rw f (elim (Bool-cases (k.job_decodes (take i (uuid id) j))) [
                | inl d ↦ rw d (claimed j f)
                | inr d ↦ rw d (bad j f)
              ])
            ])
      ]

  next_round {ℓ} :
      (I : Db → Type ℓ) (Q : Db → JobClaim → Type ℓ) (ids : List String)
      → ((db : Db) → I db → Leaves I Q (claim_candidates k uuid message remote i ids db))
      → (r : Db × Option JobClaim) → Leaves I Q r
      → Leaves I Q (elim r.1 [
        | none ↦ claim_candidates k uuid message remote i ids r.0
        | some c ↦ (r.0, some c)
      ])
  next_round I Q ids rest (db', none) l = rest db' l
  next_round I Q ids rest (db', some c) l = l

  -- An invariant that every round keeps holds after the loop, with the fact of the claiming round.
  pub claim_candidates_inv {ℓ} :
      (I : Db → Type ℓ) (Q : Db → JobClaim → Type ℓ)
      → ((id : String) (db : Db)
          → I db
          → Leaves I Q (claim_candidate k uuid message remote i id db))
      → (ids : List String) (db : Db) → I db
      → Leaves I Q (claim_candidates k uuid message remote i ids db)
  unfolding claim_candidates
  claim_candidates_inv I Q round [] db h = h
  claim_candidates_inv I Q round (id ∷ ids) db h =
      next_round I Q ids (λ db' h'. claim_candidates_inv I Q round ids db' h')
        (claim_candidate k uuid message remote i id db) (round id db h)

  pub claim_matching_inv {ℓ} :
      (I : Db → Type ℓ) (Q : Db → JobClaim → Type ℓ)
      → ((id : String) (db : Db)
          → I db
          → Leaves I Q (claim_candidate k uuid message remote i id db))
      → (db : Db) → I db
      → Claims I Q db (claim_matching k uuid message remote i db)
  unfolding claim_matching
  claim_matching_inv I Q round db h =
      elim (Bool-cases (not (identifier i.worker_id) || not (ltb 0 i.lease_duration_ms))) [
        | inl e ↦ rw e h
        | inr e ↦ rw e (of_loop I Q db _ (claim_candidates_inv I Q round _ db h))
      ]

-- The invariant, whatever the call answers.
pub Claims-after {ℓ} :
    (I : Db → Type ℓ) (Q : Db → JobClaim → Type ℓ) (db : Db) (o : Outcome (Option JobClaim))
    → Claims I Q db o
    → I (after db o)
Claims-after I Q db (ok db' none) h = h
Claims-after I Q db (ok db' (some c)) h = h.0
Claims-after I Q db (err e) h = h
