-- ===== src/Store/PullRequests/Reviews.antt =====
-- The reviews of one generation of a pull request, through the statements of src/store/shared.ts and
-- src/store/pull-requests.ts on the jobs.
use workflowd.Base.{
  ℕ, ◌≡◌, refl, ap, ◌∙◌, Bool, true, false, ◌&&◌, Option, none, some, List, [], ◌∷◌, ◌++◌, arith,
  ltb, ◌==◌, exists, update,
}
use workflowd.Store.Lease.{Row}
use workflowd.Store.Work.{Job, is_active}
use workflowd.Store.PullRequests.Tracked.{max_or, latest_request, review_active}

-- The number is above every one so far.
abbrev pub exceeds : ℕ → Option ℕ → Bool
exceeds n none = true
exceeds n (some m) = ltb m n

module _ (p : Row Job → Bool) where
  pub latest-update :
      (q : Row Job → Bool) (f : Row Job → Row Job)
      → ((j : Row Job) → p (f j) ≡ p j)
      → ((j : Row Job) → (f j).entry.review_request_number ≡ j.entry.review_request_number)
      → (jobs : List (Row Job)) → latest_request p (update q f jobs) ≡ latest_request p jobs
  latest-update q f same number [] = refl
  latest-update q f same number (j ∷ jobs) =
      ground (arith, same j, number j, latest-update q f same number jobs)

  pub active-update_spares :
      (q : Row Job → Bool) (f : Row Job → Row Job)
      → ((j : Row Job) → p (f j) ≡ p j)
      → ((j : Row Job) → q j ≡ true → p j ≡ false)
      → (jobs : List (Row Job)) → review_active p (update q f jobs) ≡ review_active p jobs
  active-update_spares q f same spares [] = refl
  active-update_spares q f same spares (j ∷ jobs) =
      ground (arith, same j, spares j, active-update_spares q f same spares jobs)

  pub active-update_clears :
      (q : Row Job → Bool) (f : Row Job → Row Job)
      → ((j : Row Job) → p j ≡ true → is_active j.state ≡ true → q j ≡ true)
      → ((j : Row Job) → is_active (f j).state ≡ false)
      → (jobs : List (Row Job)) → review_active p (update q f jobs) ≡ false
  active-update_clears q f hits clears [] = refl
  active-update_clears q f hits clears (j ∷ jobs) =
      ground (arith, hits j, clears j, active-update_clears q f hits clears jobs)

  pub latest-append :
      (jobs : List (Row Job)) (j : Row Job)
      → p j ≡ true
      → latest_request p (jobs ++ (j ∷ []))
        ≡ some (max_or (latest_request p jobs) j.entry.review_request_number)
  latest-append [] j own = ground arith
  latest-append (k ∷ jobs) j own = ground (arith, latest-append jobs j own)

  pub latest-fresh :
      (n : ℕ) (jobs : List (Row Job))
      → exceeds n (latest_request p jobs) ≡ true
      → exists (λ j. p j && j.entry.review_request_number == n) jobs ≡ false
  latest-fresh n [] e = refl
  latest-fresh n (j ∷ jobs) e = ground (arith, latest-fresh n jobs)

  -- Without a row of the generation there is no review of it.
  pub no_reviews :
      (q : Row Job → Bool)
      → ((j : Row Job) → p j ≡ true → q j ≡ true)
      → (jobs : List (Row Job)) → exists q jobs ≡ false
      → (latest_request p jobs ≡ none) × (review_active p jobs ≡ false)
  no_reviews q within [] e = (refl, refl)
  no_reviews q within (j ∷ jobs) e =
      let (latest, active) = no_reviews q within jobs (ground arith) in
      (ground (arith, within j, latest), ground (arith, within j, active))

max_or-exceeds : (m : Option ℕ) (n : ℕ) → exceeds n m ≡ true → max_or m n ≡ n
max_or-exceeds none n e = refl
max_or-exceeds (some m) n e = ground arith

pub latest-append_fresh :
    (p : Row Job → Bool) (jobs : List (Row Job)) (j : Row Job)
    → p j ≡ true
    → exceeds j.entry.review_request_number (latest_request p jobs) ≡ true
    → latest_request p (jobs ++ (j ∷ [])) ≡ some j.entry.review_request_number
latest-append_fresh p jobs j own e =
    latest-append p jobs j own
    ∙ ap some (max_or-exceeds (latest_request p jobs) j.entry.review_request_number e)
