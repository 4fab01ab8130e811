-- ===== src/Store/Lease/Slack.antt =====
-- The attempts that the rows of a lease queue have left: a round of the claim loop uses one up.
use workflowd.Base.{
  ℕ, ◌+◌, ◌-◌, ◌≤◌, ◌<◌, ◌≡◌, String, inl, inr, Bool, true, ◌&&◌, some, List, [], ◌∷◌, arith, ltb,
  exists, find?, order_by, find?-true, Bool-cases, exists-order_by, refl, ap, sym, ◌∙◌,
}
use workflowd.Store.Lease.{
  Row, LeaseClaim, Decoded, id_is, holds, before_row, claimable, candidate, taken, put_aside, slack,
}

module _ {E : Type 0} where
  slack-put_aside :
      (i : LeaseClaim) (id : ℕ) (m : String) (rows : List (Row E))
      → slack (put_aside i id m rows) ≡ slack rows
  unfolding slack
  slack-put_aside i id m [] = refl
  slack-put_aside i id m (r ∷ rs) = elim (Bool-cases (holds id i.worker_id i.now r)) [
    | inl e ↦ rw e (ap (λ n. (r.max_attempts - r.attempts) + n) (slack-put_aside i id m rs))
    | inr e ↦ rw e (ap (λ n. (r.max_attempts - r.attempts) + n) (slack-put_aside i id m rs))
  ]

  slack-taken-le :
      (i : LeaseClaim) (r : Row E) (rows : List (Row E)) → slack (taken i r rows) ≤ slack rows
  unfolding slack
  slack-taken-le i r [] = omega arith
  slack-taken-le i r (x ∷ xs) = ground (arith, slack-taken-le i r xs)

  abbrev usable : Row E → Row E → Bool
  usable r x = id_is r.id x && ltb x.attempts x.max_attempts

  slack-taken-lt :
      (i : LeaseClaim) (r : Row E) (rows : List (Row E))
      → exists (usable r) rows ≡ true
      → slack (taken i r rows) < slack rows
  unfolding slack
  slack-taken-lt i r [] e = cc
  slack-taken-lt i r (x ∷ xs) e = ground (arith, slack-taken-le i r xs, slack-taken-lt i r xs)

  exists-of :
      (p q : Row E → Bool) (rows : List (Row E)) (r : Row E)
      → find? p rows ≡ some r
      → q r ≡ true
      → exists q rows ≡ true
  exists-of p q [] r e h = cc
  exists-of p q (x ∷ xs) r e h = elim (Bool-cases (p x)) [
    | inl t ↦ let same : x ≡ r = ground arith in ground (arith, ap q same)
    | inr t ↦ ground (arith, exists-of p q xs r (ground arith) h)
  ]

module _ {E V : Type 0} (extra : ℕ → Row E → Bool) (before_claim : ℕ → List (Row E) → List (Row E))
    (decode : Row E → Decoded V) where
  pub candidate-claimable :
      (now : ℕ) (rows : List (Row E)) (r : Row E)
      → candidate extra before_claim decode now rows ≡ some r
      → claimable extra before_claim decode now r ≡ true
  unfolding candidate
  candidate-claimable now rows r e =
      find?-true (claimable extra before_claim decode now) (order_by before_row rows) r e

  -- The candidate is a row of the table.
  pub candidate-exists :
      (now : ℕ) (rows : List (Row E)) (r : Row E) (q : Row E → Bool)
      → candidate extra before_claim decode now rows ≡ some r
      → q r ≡ true
      → exists q rows ≡ true
  unfolding candidate
  candidate-exists now rows r q e h =
      sym (exists-order_by before_row q rows)
      ∙ exists-of (claimable extra before_claim decode now) q (order_by before_row rows) r e h

  -- A round that goes on leaves fewer attempts.
  pub slack-round :
      (i : LeaseClaim) (rows : List (Row E)) (r : Row E) (id : ℕ) (m : String)
      → candidate extra before_claim decode i.now rows ≡ some r
      → slack (put_aside i id m (taken i r rows)) < slack rows
  slack-round i rows r id m e =
      let member =
        candidate-exists i.now rows r (usable r) e
          (ground (arith, candidate-claimable i.now rows r e)) in
      omega (arith, slack-put_aside i id m (taken i r rows), slack-taken-lt i r rows member)
