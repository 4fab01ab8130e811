-- ===== src/Store/PullRequests/History.antt =====
-- Any transitions of src/store/pull-requests.ts, one after the other.
use workflowd.Base.{
  ℕ, ◌≡◌, refl, sym, subst, inl, inr, String, false, ◌&&◌, Option, none, some, List, [], ◌∷◌, arith,
  ◌==◌, Bool-cases,
}
use workflowd.Domain.Transition.{
  Snapshot, observation, authoritative, Decision, ignore_observation, request_reconciliation,
  apply_snapshot,
}
use workflowd.Store.Work.{WorkDb}
use workflowd.Store.PullRequests.{observed, carry_out, transition}
use workflowd.Store.PullRequests.Tracked.{TransitionInput, Status}
use workflowd.Store.PullRequests.Placed.{Placed}
use workflowd.Store.PullRequests.Machine.{own_id, own_number}
use workflowd.Store.PullRequests.Refine.{sequenced, transition_refines}
use workflowd.Store.PullRequests.Frame.{transition_frame}

-- The tables after a transition; a defect rolls it back.
abbrev pub kept : WorkDb → Option (WorkDb × Status) → WorkDb
kept db none = db
kept db (some o) = o.0

pub run : (String → String) → List TransitionInput → WorkDb → WorkDb
run lower [] db = db
run lower (i ∷ is) db = run lower is (kept db (transition lower i db))

unsent-observed :
    (s : Snapshot) (sequence : Option ℕ) (at : ℕ) (db : WorkDb)
    → sequenced s sequence ≡ false
    → (sequence ≡ none) × (observed s sequence at db ≡ none)
unfolding observed
unsent-observed (authoritative d) sequence at db h = cc
unsent-observed (observation action d) none at db h = (refl, refl)
unsent-observed (observation action d) (some n) at db h = cc

unsent-kept :
    (i : TransitionInput) (decision : Decision) (db : WorkDb)
    → sequenced i.snapshot i.observation_sequence ≡ false
    → kept db (carry_out i decision db) ≡ db
unfolding carry_out
unsent-kept i (ignore_observation g) db h = refl
unsent-kept i (request_reconciliation g) db h =
    let (missing, stuck) = unsent-observed i.snapshot i.observation_sequence i.applied_at db h in
    rw (missing, carry_out) refl
unsent-kept i (apply_snapshot s g is) db h =
    let (missing, stuck) = unsent-observed i.snapshot i.observation_sequence i.applied_at db h in
    rw (stuck, carry_out) refl

own-Placed :
    (lower : String → String) (i : TransitionInput) (db : WorkDb)
    → Placed (own_id i) (own_number i) db
    → Placed (own_id i) (own_number i) (kept db (transition lower i db))
unfolding transition
own-Placed lower i db p = elim (Bool-cases (sequenced i.snapshot i.observation_sequence)) [
  | inl sent ↦
      let (o, (out, same, after)) = transition_refines lower i db sent p in
      subst (λ (x : Option (WorkDb × Status)). Placed (own_id i) (own_number i) (kept db x))
        (sym out) after
  | inr unsent ↦ subst (Placed (own_id i) (own_number i)) (sym (unsent-kept i _ db unsent)) p
]

other-Placed :
    (lower : String → String) (i : TransitionInput) (db : WorkDb) (r n : ℕ)
    (result : Option (WorkDb × Status))
    → transition lower i db ≡ result
    → (own_id i == r && own_number i == n) ≡ false
    → Placed r n db
    → Placed r n (kept db result)
other-Placed lower i db r n none out far p = p
other-Placed lower i db r n (some o) out far p = (transition_frame lower i db o r n out far).1 p

step-Placed :
    (lower : String → String) (i : TransitionInput) (db : WorkDb) (r n : ℕ)
    → Placed r n db
    → Placed r n (kept db (transition lower i db))
step-Placed lower i db r n p = elim (Bool-cases (own_id i == r && own_number i == n)) [
  | inl own ↦
      let id : own_id i ≡ r = ground arith in
      let number : own_number i ≡ n = ground arith in
      subst (λ (k : ℕ × ℕ). Placed k.0 k.1 db → Placed k.0 k.1 (kept db (transition lower i db)))
        (λ j. (id j, number j)) (own-Placed lower i db) p
  | inr far ↦ other-Placed lower i db r n (transition lower i db) refl far p
]

-- Any transitions, one after the other and on any pull requests, with defects rolled back, keep the
-- work of a pull request in place: no job or publication of a later generation than its own, no active
-- one of an earlier generation, and none at all while it is not tracked.
pub run-Placed :
    (lower : String → String) (is : List TransitionInput) (db : WorkDb) (r n : ℕ)
    → Placed r n db
    → Placed r n (run lower is db)
unfolding run
run-Placed lower [] db r n p = p
run-Placed lower (i ∷ is) db r n p =
    run-Placed lower is (kept db (transition lower i db)) r n (step-Placed lower i db r n p)
