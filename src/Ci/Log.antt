-- ===== src/Ci/Log.antt =====
-- The log of states of src/ci/store.ts: what is read after a snapshot, and that a snapshot which is
-- taken again adds nothing.
use workflowd.Base.{
  ℕ, ◌<◌, ◌≡◌, refl, ap, sym, subst, ◌∙◌, inl, inr, String, Bool, true, false, ◌&&◌, Option, none,
  some, List, [], ◌∷◌, ◌++◌, arith, All, if◌then◌else◌, str_eq, eq_iff, select, find?, update,
  order_by, insert_by, Bool-cases,
}
use workflowd.Ci.Rows.{
  CiTarget, CiRun, Conclusion, pending, success, failure, CiState, TargetRow, EventRow, CiDb,
}
use workflowd.Ci.Aggregate.{first}
use workflowd.Ci.{
  target_is, event_is, texts_eq, links_eq, conclusion_eq, same_state, log_state, by_sequence, read,
  state_of, unchanged, polled, snapshot,
}

-- The sequence numbers that were given out lie below the next one.
abbrev pub Sequenced : CiDb → Type 0
Sequenced db = All (λ (row : EventRow). row.sequence < db.next_sequence) db.events

abbrev later : EventRow → EventRow → Bool
later a b = by_sequence b a

first-insert :
    (x y : EventRow) (ys : List EventRow)
    → first ys ≡ some y
    → later y x ≡ true
    → first (insert_by later x ys) ≡ some y
first-insert x y [] e h = cc
first-insert x y (z ∷ ys) e h =
    let same : z ≡ y = ground arith in ground (arith, same, ap (λ w. later w x) same)

select-append :
    (p : EventRow → Bool) (y : EventRow)
    → p y ≡ true
    → (xs : List EventRow) → select p (xs ++ (y ∷ [])) ≡ select p xs ++ (y ∷ [])
select-append p y own [] = ground arith
select-append p y own (x ∷ xs) = ground (arith, select-append p y own xs)

All-selected :
    (p : EventRow → Bool) (n : ℕ) (xs : List EventRow)
    → All (λ (row : EventRow). row.sequence < n) xs
    → All (λ (row : EventRow). row.sequence < n) (select p xs)
All-selected p n [] h = tt
All-selected p n (x ∷ xs) h = elim (Bool-cases (p x)) [
  | inl e ↦ rw e (h.0, All-selected p n xs h.1)
  | inr e ↦ rw e (All-selected p n xs h.1)
]

first-append :
    (y : EventRow) (xs : List EventRow)
    → All (λ (row : EventRow). row.sequence < y.sequence) xs
    → first (order_by later (xs ++ (y ∷ []))) ≡ some y
first-append y [] h = refl
first-append y (x ∷ xs) h =
    first-insert x y (order_by later (xs ++ (y ∷ []))) (first-append y xs h.1) (ground (arith, h.0))

read-logged :
    (t : CiTarget) (state : CiState) (db : CiDb)
    → str_eq state.repository t.repository && str_eq state.sha t.sha ≡ true
    → Sequenced db
    → read t (log_state state db)
      ≡ some (record { sequence = db.next_sequence; state = state; published = false })
unfolding read
read-logged t state db own h =
    let row : EventRow = record { sequence = db.next_sequence; state = state; published = false } in
    ap (λ rows. first (order_by later rows)) (select-append (event_is t) row own db.events)
    ∙ first-append row (select (event_is t) db.events)
        (All-selected (event_is t) db.next_sequence db.events h)

texts_eq_self : (xs : List String) → texts_eq xs xs ≡ true
texts_eq_self [] = refl
texts_eq_self (x ∷ xs) = ground (arith, eq_iff x x, texts_eq_self xs)

links_eq_self : (xs : Option (List String)) → links_eq xs xs ≡ true
links_eq_self none = refl
links_eq_self (some xs) = texts_eq_self xs

conclusion_eq_self : (c : Conclusion) → conclusion_eq c c ≡ true
conclusion_eq_self pending = refl
conclusion_eq_self success = refl
conclusion_eq_self failure = refl

same_state_self : (s : CiState) → same_state s s ≡ true
same_state_self s = ground (
  arith,
  eq_iff s.repository s.repository,
  eq_iff s.sha s.sha,
  conclusion_eq_self s.conclusion,
  texts_eq_self s.failing_jobs,
  links_eq_self s.run_links,
)

required_kept :
    (t : CiTarget) (etag : Option String) (now : ℕ) (rows : List TargetRow) (row : TargetRow)
    → find? (target_is t) rows ≡ some row
    → (row' : TargetRow) × (find? (target_is t) (update (target_is t) (polled etag now) rows)
        ≡ some row')
      × (row'.required ≡ row.required)
required_kept t etag now [] row e = cc
required_kept t etag now (x ∷ rows) row e = elim (Bool-cases (target_is t x)) [
  | inl h ↦
      let same : x ≡ row = ground arith in
      (polled etag now x, rw h (ground (arith, h)), ap (λ (r : TargetRow). r.required) same)
  | inr h ↦
      let (row', found, kept) = required_kept t etag now rows row (ground arith) in
      (row', rw h (ground (arith, h, found)), kept)
]

some_inj {ℓ} : {A : Type ℓ} (a b : A) → some a ≡ some b → a ≡ b
some_inj a b e = cc

module _ (show : ℕ → String) (t : CiTarget) (runs : List CiRun) where
  abbrev logged : List String → CiDb → CiDb
  logged required db =
      let state = state_of show t required runs in
      if unchanged (read t db) state then db else log_state state db

  abbrev after : Option String → ℕ → List String → CiDb → CiDb
  after etag now required db = record (logged required db) {
    targets = update (target_is t) (polled etag now) (logged required db).targets;
  }

  own_state :
      (required : List String) → str_eq t.repository t.repository && str_eq t.sha t.sha ≡ true
  own_state required = ground (arith, eq_iff t.repository t.repository, eq_iff t.sha t.sha)

  logged-unchanged :
      (required : List String) (db : CiDb)
      → Sequenced db
      → unchanged (read t (logged required db)) (state_of show t required runs) ≡ true
  unfolding state_of
  logged-unchanged required db h =
      elim (Bool-cases (unchanged (read t db) (state_of show t required runs))) [
        | inl e ↦ rw (e) e
        | inr e ↦
            let state = state_of show t required runs in
            let shown = read-logged t state db (own_state required) h in
            rw e (ap (λ r. unchanged r state) shown ∙ same_state_self state)
      ]

  targets-logged : (required : List String) (db : CiDb) → (logged required db).targets ≡ db.targets
  targets-logged required db = ground arith

  snapshot-after :
      (etag : Option String) (now : ℕ) (db : CiDb) (row : TargetRow)
      → find? (target_is t) db.targets ≡ some row
      → snapshot show t runs etag now db ≡ some (after etag now row.required db)
  unfolding snapshot
  snapshot-after etag now db row e = rw (e, snapshot) refl

  shown-row :
      (r : Option EventRow) (state : CiState)
      → unchanged r state ≡ true
      → (row : EventRow) × (r ≡ some row) × (same_state row.state state ≡ true)
  shown-row none state e = cc
  shown-row (some row) state e = (row, refl, e)

  quiet :
      (required : List String) (db : CiDb)
      → unchanged (read t db) (state_of show t required runs) ≡ true
      → (logged required db).events ≡ db.events
  quiet required db e = rw e refl

  again-after :
      (etag etag' : Option String) (now now' : ℕ) (db : CiDb) (row : TargetRow)
      → find? (target_is t) db.targets ≡ some row
      → Sequenced db
      → (db'' : CiDb) × (snapshot show t runs etag' now' (after etag now row.required db)
          ≡ some db'')
        × (db''.events ≡ (after etag now row.required db).events)
  unfolding read
  again-after etag etag' now now' db row e h =
      let db' = after etag now row.required db in
      let (row', found, kept) = required_kept t etag now db.targets row e in
      let found' : find? (target_is t) db'.targets ≡ some row' =
        ap (λ rows. find? (target_is t) (update (target_is t) (polled etag now) rows))
          (targets-logged row.required db)
        ∙ found in
      let same : unchanged (read t db') (state_of show t row'.required runs) ≡ true =
        ap (λ required. unchanged (read t db') (state_of show t required runs)) kept
        ∙ logged-unchanged row.required db h in
      (
        after etag' now' row'.required db',
        snapshot-after etag' now' db' row' found',
        quiet row'.required db' same,
      )

-- Where the sequence numbers lie below the next one, a snapshot of a watched target is taken, and what
-- is read of the target afterwards is the state of its runs.
pub snapshot_reads :
    (show : ℕ → String) (t : CiTarget) (runs : List CiRun) (etag : Option String) (now : ℕ)
    (db : CiDb) (row : TargetRow)
    → find? (target_is t) db.targets ≡ some row
    → Sequenced db
    → (db' : CiDb) × (event : EventRow) × (snapshot show t runs etag now db ≡ some db')
      × (read t db' ≡ some event)
      × (same_state event.state (state_of show t row.required runs) ≡ true)
unfolding read
snapshot_reads show t runs etag now db row e h =
    let state = state_of show t row.required runs in
    let (event, shown, same) =
      shown-row show t runs (read t (logged show t runs row.required db)) state
        (logged-unchanged show t runs row.required db h) in
    (
      after show t runs etag now row.required db,
      event,
      snapshot-after show t runs etag now db row e,
      shown,
      same,
    )

-- Where the sequence numbers lie below the next one, a snapshot of a watched target that is taken
-- again, with the same runs and at any time, adds nothing to the log.
pub snapshot_again :
    (show : ℕ → String) (t : CiTarget) (runs : List CiRun) (etag etag' : Option String)
    (now now' : ℕ) (db db' : CiDb) (row : TargetRow)
    → find? (target_is t) db.targets ≡ some row
    → Sequenced db
    → snapshot show t runs etag now db ≡ some db'
    → (db'' : CiDb) × (snapshot show t runs etag' now' db' ≡ some db'') × (db''.events ≡ db'.events)
snapshot_again show t runs etag etag' now now' db db' row e h first_time =
    let same : after show t runs etag now row.required db ≡ db' =
      some_inj (after show t runs etag now row.required db) db'
        (sym (snapshot-after show t runs etag now db row e) ∙ first_time) in
    subst
      (λ (x : CiDb).
        (db'' : CiDb) × (snapshot show t runs etag' now' x ≡ some db'') × (db''.events ≡ x.events))
      same (again-after show t runs etag etag' now now' db row e h)
