-- ===== src/Store/Lease/Ends.antt =====
-- The claim loop of src/store/lease.ts ends, and how statements about what it returns are proved.
use workflowd.Base.{
  ℕ, zero, suc, ◌<◌, ◌≡◌, refl, ap, ◌∙◌, sym, ◌⊎◌, inl, inr, String, Bool, true, false, Option,
  none, some, List, arith, Option-cases, exists, exists-order_by, exists-find?, update, order_by,
}
use workflowd.Store.Lease.{
  Row, LeaseClaim, Decoded, decoded, undecodable, spent, expire, take, before_row, taken, put_aside,
  slack, claimable, candidate, claim_loop, claim,
}
use workflowd.Store.Lease.Slack.{slack-round}

decoded_cases :
    {V : Type 0}
    → (d : Decoded V)
    → ((v : V) × (d ≡ decoded v)) ⊎ ((id : ℕ) × (m : String) × (d ≡ undecodable id m))
decoded_cases (decoded v) = inl (v, refl)
decoded_cases (undecodable id m) = inr (id, m, refl)

module _ {E V : Type 0} (extra : ℕ → Row E → Bool) (before_claim : ℕ → List (Row E) → List (Row E))
    (decode : Row E → Decoded V) (i : LeaseClaim) where
  abbrev chosen : List (Row E) → Option (Row E)
  chosen = candidate extra before_claim decode i.now

  abbrev loop : ℕ → List (Row E) → Option (List (Row E) × Option V)
  loop fuel rows = claim_loop extra before_claim decode fuel i rows

  -- A result of the loop, with what it satisfies.
  abbrev Ends : (List (Row E) → Option V → Type 0) → Option (List (Row E) × Option V) → Type 0
  Ends Good result =
      (rows : List (Row E)) × (value : Option V) × (result ≡ some (rows, value)) × Good rows value

  module _ (Keeps : List (Row E) → Type 0) (Good : List (Row E) → Option V → Type 0)
      (stops : (rows : List (Row E)) → Keeps rows → chosen rows ≡ none → Good rows none)
      (takes : (rows : List (Row E)) (r : Row E) (v : V)
        → Keeps rows
        → chosen rows ≡ some r
        → decode (take i r) ≡ decoded v
        → Good (taken i r rows) (some v))
      (goes_on : (rows : List (Row E)) (r : Row E) (id : ℕ) (m : String)
        → Keeps rows
        → chosen rows ≡ some r
        → Keeps (put_aside i id m (taken i r rows))) where
    pub claim_loop-Ends :
        (fuel : ℕ) (rows : List (Row E))
        → slack rows < fuel
        → Keeps rows
        → Ends Good (loop fuel rows)
    unfolding claim_loop
    claim_loop-Ends zero rows h k = absurd (omega (arith, h))
    claim_loop-Ends (suc fuel) rows h k = elim (Option-cases (chosen rows)) [
      | inl e ↦ (rows, none, ground arith, stops rows k e)
      | inr (r, e) ↦ elim (decoded_cases (decode (take i r))) [
        | inl (v, d) ↦ (taken i r rows, some v, ground arith, takes rows r v k e d)
        | inr (id, m, d) ↦
            let (out, value, same, good) =
              claim_loop-Ends fuel (put_aside i id m (taken i r rows))
                (omega (arith, slack-round extra before_claim decode i rows r id m e, h))
                (goes_on rows r id m k e) in
            (out, value, ground arith, good)
      ]
    ]

    -- The fuel of `claim` is enough, so that its result has what the loop's has.
    pub claim-Ends :
        (rows : List (Row E))
        → Keeps (update (spent i.now) (expire i.now) (before_claim i.now rows))
        → Ends Good (claim extra before_claim decode i rows)
    unfolding claim
    claim-Ends rows k =
        claim_loop-Ends
          (suc (slack (update (spent i.now) (expire i.now) (before_claim i.now rows))))
          (update (spent i.now) (expire i.now) (before_claim i.now rows)) (omega arith) k

  pub none-claimable :
      (rows : List (Row E))
      → chosen rows ≡ none
      → exists (claimable extra before_claim decode i.now) rows ≡ false
  unfolding candidate
  none-claimable rows e =
      sym (exists-order_by before_row (claimable extra before_claim decode i.now) rows)
      ∙ (exists-find? (claimable extra before_claim decode i.now) (order_by before_row rows)
          ∙ ap (λ o. elim o [ none ↦ false | some a ↦ true ]) e)
