-- ===== src/Store/PullRequests/Carry.antt =====
-- What the intents of a decision make of the tables, in the loop of src/store/pull-requests.ts.
use workflowd.Base.{
  ℕ, ◌≡◌, ◌≤◌, refl, ap, subst, ◌∙◌, true, false, ◌&&◌, Option, some, List, [], ◌∷◌, arith, All,
  if◌then◌else◌, ◌==◌, exists,
}
use workflowd.Domain.Transition.{
  data_of, current_generation, earlier_review_requests, Intent, skip_automatic_review, queue_review,
  supersede_generation, supersede_review_requests,
}
use workflowd.Store.Work.{WorkDb, is_active, job_of, publication_of}
use workflowd.Store.Supersede.{
  SupersedeInput, outdated_job, supersede_job, supersede_publication, outdated_publication,
  supersede_pull_request_work,
}
use workflowd.Store.PullRequests.Tracked.{TransitionInput, review_of, latest_request, review_active}
use workflowd.Store.PullRequests.Write.{carry_out_intent, carry_out_intents, supersede_input}
use workflowd.Store.PullRequests.Intents.{At, withdraws, supersedes}
use workflowd.Store.PullRequests.Reviews.{latest-update, active-update_spares, active-update_clears}
use workflowd.Store.PullRequests.Placed.{
  PlacedAt, job_generation, publication_generation, strays-retire, strays-advance,
}

module _ (s : SupersedeInput) (db : WorkDb) where
  work-latest :
      (r n g : ℕ)
      → latest_request (review_of r n g) (supersede_pull_request_work s db).jobs
        ≡ latest_request (review_of r n g) db.jobs
  unfolding supersede_pull_request_work
  work-latest r n g =
      latest-update (review_of r n g) (λ j. outdated_job s j && is_active j.state)
        (supersede_job s.timestamp) (λ j. refl) (λ j. refl) db.jobs

  work-retires :
      (r n : ℕ) (current : Option ℕ)
      → PlacedAt r n current db
      → PlacedAt r n current (supersede_pull_request_work s db)
  unfolding supersede_pull_request_work
  work-retires r n current (jobs, publications) = (
    strays-retire (job_of r n) job_generation current _ (supersede_job s.timestamp) (λ j. refl)
        (λ j. refl) (λ j. refl) db.jobs jobs,
    strays-retire (publication_of r n) publication_generation current _
        (supersede_publication s.publication_reason s.timestamp) (λ j. refl) (λ j. refl) (λ j. refl)
        db.publications publications,
  )

  work-advances :
      (current : ℕ)
      → current ≤ s.generation
      → PlacedAt s.repository_id s.pull_request_number (some current) db
      → PlacedAt s.repository_id s.pull_request_number
          (some s.generation)
          (supersede_pull_request_work s db)
  unfolding supersede_pull_request_work
  work-advances current le (jobs, publications) =
      let r = s.repository_id in
      let n = s.pull_request_number in
      (
        strays-advance (job_of r n) job_generation current s.generation
            (λ j. outdated_job s j && is_active j.state) (supersede_job s.timestamp) le (λ j. refl)
            (λ j. refl) (λ j. refl) (λ j own active old. ground arith) db.jobs jobs,
        strays-advance (publication_of r n) publication_generation current s.generation
            (λ j. outdated_publication s j && is_active j.state)
            (supersede_publication s.publication_reason s.timestamp) le (λ j. refl) (λ j. refl)
            (λ j. refl) (λ j own active old. ground arith) db.publications publications,
      )

  work-active :
      (r n g : ℕ)
      → (s.repository_id == r && s.pull_request_number == n && s.include_current_generation) ≡ false
      → s.generation ≡ g
      → review_active (review_of r n g) (supersede_pull_request_work s db).jobs
        ≡ review_active (review_of r n g) db.jobs
  unfolding supersede_pull_request_work
  work-active r n g spared at =
      active-update_spares (review_of r n g) (λ j. outdated_job s j && is_active j.state)
        (supersede_job s.timestamp) (λ j. refl) (λ j h. ground arith) db.jobs

  work-other :
      (r n g : ℕ)
      → (s.repository_id == r && s.pull_request_number == n) ≡ false
      → review_active (review_of r n g) (supersede_pull_request_work s db).jobs
        ≡ review_active (review_of r n g) db.jobs
  unfolding supersede_pull_request_work
  work-other r n g spared =
      active-update_spares (review_of r n g) (λ j. outdated_job s j && is_active j.state)
        (supersede_job s.timestamp) (λ j. refl) (λ j h. ground arith) db.jobs

  work-withdraws :
      s.include_current_generation ≡ true
      → review_active
          (review_of s.repository_id s.pull_request_number s.generation)
          (supersede_pull_request_work s db).jobs
        ≡ false
  unfolding supersede_pull_request_work
  work-withdraws include =
      active-update_clears (review_of s.repository_id s.pull_request_number s.generation)
        (λ j. outdated_job s j && is_active j.state) (supersede_job s.timestamp)
        (λ j own active. ground arith) (λ j. refl) db.jobs

module _ (i : TransitionInput) where
  abbrev pub own_id : ℕ
  own_id = (data_of i.snapshot).repository.id

  abbrev pub own_number : ℕ
  own_number = (data_of i.snapshot).pull_request.number

  pub carry-pulls :
      (is : List Intent) (db : WorkDb)
      → (carry_out_intents i is db).pull_requests ≡ db.pull_requests
  unfolding supersede_pull_request_work
  carry-pulls [] db = refl
  carry-pulls (skip_automatic_review ∷ is) db = carry-pulls is db
  carry-pulls (queue_review n ∷ is) db = carry-pulls is db
  carry-pulls (supersede_generation h ∷ is) db =
      carry-pulls is (carry_out_intent i (supersede_generation h) db)
  carry-pulls (supersede_review_requests h current_generation ∷ is) db =
      carry-pulls is (carry_out_intent i (supersede_review_requests h current_generation) db)
  carry-pulls (supersede_review_requests h earlier_review_requests ∷ is) db = carry-pulls is db

  pub carry-latest :
      (r n g : ℕ) (is : List Intent) (db : WorkDb)
      → latest_request (review_of r n g) (carry_out_intents i is db).jobs
        ≡ latest_request (review_of r n g) db.jobs
  carry-latest r n g [] db = refl
  carry-latest r n g (skip_automatic_review ∷ is) db = carry-latest r n g is db
  carry-latest r n g (queue_review m ∷ is) db = carry-latest r n g is db
  carry-latest r n g (supersede_generation h ∷ is) db =
      carry-latest r n g is _
      ∙ work-latest (supersede_input i h false "pull request generation changed") db r n g
  carry-latest r n g (supersede_review_requests h current_generation ∷ is) db =
      carry-latest r n g is _
      ∙ work-latest (supersede_input i h true "pull request is not eligible") db r n g
  carry-latest r n g (supersede_review_requests h earlier_review_requests ∷ is) db =
      carry-latest r n g is db

  pub carry-retires :
      (r n : ℕ) (current : Option ℕ) (is : List Intent) (db : WorkDb)
      → PlacedAt r n current db
      → PlacedAt r n current (carry_out_intents i is db)
  carry-retires r n current [] db p = p
  carry-retires r n current (skip_automatic_review ∷ is) db p = carry-retires r n current is db p
  carry-retires r n current (queue_review m ∷ is) db p = carry-retires r n current is db p
  carry-retires r n current (supersede_generation h ∷ is) db p =
      carry-retires r n current is _ (
        work-retires (supersede_input i h false "pull request generation changed") db r n current p)
  carry-retires r n current (supersede_review_requests h current_generation ∷ is) db p =
      carry-retires r n current is _
        (work-retires (supersede_input i h true "pull request is not eligible") db r n current p)
  carry-retires r n current (supersede_review_requests h earlier_review_requests ∷ is) db p =
      carry-retires r n current is db p

  pub carry-other :
      (r n g : ℕ)
      → (own_id == r && own_number == n) ≡ false
      → (is : List Intent) (db : WorkDb)
      → review_active (review_of r n g) (carry_out_intents i is db).jobs
        ≡ review_active (review_of r n g) db.jobs
  carry-other r n g far [] db = refl
  carry-other r n g far (skip_automatic_review ∷ is) db = carry-other r n g far is db
  carry-other r n g far (queue_review m ∷ is) db = carry-other r n g far is db
  carry-other r n g far (supersede_generation h ∷ is) db =
      carry-other r n g far is _
      ∙ work-other (supersede_input i h false "pull request generation changed") db r n g far
  carry-other r n g far (supersede_review_requests h current_generation ∷ is) db =
      carry-other r n g far is _
      ∙ work-other (supersede_input i h true "pull request is not eligible") db r n g far
  carry-other r n g far (supersede_review_requests h earlier_review_requests ∷ is) db =
      carry-other r n g far is db

  withdrawn :
      (g h : ℕ)
      → h ≡ g
      → (db : WorkDb)
      → review_active
          (review_of own_id own_number g)
          (carry_out_intent i (supersede_review_requests h current_generation) db).jobs
        ≡ false
  withdrawn g h at db =
      subst
        (λ x.
          review_active (review_of own_id own_number x)
            (carry_out_intent i (supersede_review_requests h current_generation) db).jobs
          ≡ false)
        at (work-withdraws (supersede_input i h true "pull request is not eligible") db refl)

  -- What is withdrawn stays withdrawn.
  carry-inactive :
      (g : ℕ) (is : List Intent) (db : WorkDb)
      → All (At g) is
      → review_active (review_of own_id own_number g) db.jobs ≡ false
      → review_active (review_of own_id own_number g) (carry_out_intents i is db).jobs ≡ false
  carry-inactive g [] db at off = off
  carry-inactive g (skip_automatic_review ∷ is) db at off = carry-inactive g is db at.1 off
  carry-inactive g (queue_review m ∷ is) db at off = carry-inactive g is db at.1 off
  carry-inactive g (supersede_generation h ∷ is) db at off = carry-inactive g is _ at.1 (
      work-active (supersede_input i h false "pull request generation changed") db own_id own_number
        g (ground arith) at.0
      ∙ off)
  carry-inactive g (supersede_review_requests h current_generation ∷ is) db at off =
      carry-inactive g is _ at.1 (withdrawn g h at.0 db)
  carry-inactive g (supersede_review_requests h earlier_review_requests ∷ is) db at off =
      carry-inactive g is db at.1 off

  pub carry-active :
      (g : ℕ) (is : List Intent) (db : WorkDb)
      → All (At g) is
      → review_active (review_of own_id own_number g) (carry_out_intents i is db).jobs ≡ (
          if exists withdraws is
          then false
          else review_active (review_of own_id own_number g) db.jobs)
  carry-active g [] db at = refl
  carry-active g (skip_automatic_review ∷ is) db at = carry-active g is db at.1
  carry-active g (queue_review m ∷ is) db at = carry-active g is db at.1
  carry-active g (supersede_generation h ∷ is) db at =
      carry-active g is _ at.1
      ∙ ap (λ b. if exists withdraws is then false else b)
          (work-active (supersede_input i h false "pull request generation changed") db own_id
            own_number g (ground arith) at.0)
  carry-active g (supersede_review_requests h current_generation ∷ is) db at =
      carry-inactive g is _ at.1 (withdrawn g h at.0 db)
  carry-active g (supersede_review_requests h earlier_review_requests ∷ is) db at =
      carry-active g is db at.1

  pub carry-advances :
      (current g : ℕ)
      → current ≤ g
      → (is : List Intent) (db : WorkDb) → All (At g) is
      → exists supersedes is ≡ true
      → PlacedAt own_id own_number (some current) db
      → PlacedAt own_id own_number (some g) (carry_out_intents i is db)
  carry-advances current g le [] db at e p = cc
  carry-advances current g le (skip_automatic_review ∷ is) db at e p =
      carry-advances current g le is db at.1 e p
  carry-advances current g le (queue_review m ∷ is) db at e p =
      carry-advances current g le is db at.1 e p
  carry-advances current g le (supersede_generation h ∷ is) db at e p =
      carry-retires own_id own_number (some g) is _ (
        subst
          (λ x.
            PlacedAt own_id own_number (some x) (carry_out_intent i (supersede_generation h) db))
          at.0
          (work-advances (supersede_input i h false "pull request generation changed") db current
            (omega (arith, at.0)) p))
  carry-advances current g le (supersede_review_requests h current_generation ∷ is) db at e p =
      carry-advances current g le is _ at.1 e (
        work-retires (supersede_input i h true "pull request is not eligible") db own_id own_number
          (some current) p)
  carry-advances current g le (supersede_review_requests h earlier_review_requests ∷ is) db at e p =
      carry-advances current g le is db at.1 e p
