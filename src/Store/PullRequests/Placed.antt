-- ===== src/Store/PullRequests/Placed.antt =====
-- The work of a pull request that lies in its current generation, over a table of src/store: `own`
-- picks the rows of the pull request, and `gen` reads their generation.
use workflowd.Base.{
  ℕ, ◌≡◌, ◌≤◌, refl, ◌∙◌, Bool, true, false, ◌&&◌, ◌||◌, Option, none, some, List, [], ◌∷◌, ◌++◌,
  arith, ltb, find?, exists, update, exists-append,
}
use workflowd.Store.Lease.{Row, WorkState}
use workflowd.Store.Publications.{Publication}
use workflowd.Store.Work.{PullRow, Job, WorkDb, is_active, pull_is, job_of, publication_of}

-- Of the generations of a tracked pull request no later one exists, and of the earlier ones no work
-- is active; an untracked one has no work at all.
abbrev pub misplaced : Option ℕ → ℕ → WorkState → Bool
misplaced none generation state = true
misplaced (some current) generation state =
    ltb current generation || (is_active state && ltb generation current)

abbrev pub generation_at : Option PullRow → Option ℕ
generation_at none = none
generation_at (some row) = some row.generation

abbrev pub found : ℕ → ℕ → WorkDb → Option ℕ
found repository number db = generation_at (find? (pull_is repository number) db.pull_requests)

module _ {E : Type 0} (own : Row E → Bool) (gen : Row E → ℕ) where
  abbrev pub strays : Option ℕ → List (Row E) → Bool
  strays current rows = exists (λ r. own r && misplaced current (gen r) r.state) rows

  -- An update that ends the work of the rows it hits.
  pub strays-retire :
      (current : Option ℕ) (q : Row E → Bool) (f : Row E → Row E)
      → ((r : Row E) → own (f r) ≡ own r)
      → ((r : Row E) → gen (f r) ≡ gen r)
      → ((r : Row E) → is_active (f r).state ≡ false)
      → (rows : List (Row E)) → strays current rows ≡ false
      → strays current (update q f rows) ≡ false
  strays-retire current q f same gens ends [] s = refl
  strays-retire none q f same gens ends (r ∷ rows) s =
      ground (arith, same r, gens r, ends r, strays-retire none q f same gens ends rows)
  strays-retire (some g) q f same gens ends (r ∷ rows) s =
      ground (arith, same r, gens r, ends r, strays-retire (some g) q f same gens ends rows)

  -- One that hits the active rows of every earlier generation lets the generation advance.
  pub strays-advance :
      (current g : ℕ) (q : Row E → Bool) (f : Row E → Row E)
      → current ≤ g
      → ((r : Row E) → own (f r) ≡ own r)
      → ((r : Row E) → gen (f r) ≡ gen r)
      → ((r : Row E) → is_active (f r).state ≡ false)
      → ((r : Row E) → own r ≡ true → is_active r.state ≡ true → ltb (gen r) g ≡ true → q r ≡ true)
      → (rows : List (Row E)) → strays (some current) rows ≡ false
      → strays (some g) (update q f rows) ≡ false
  strays-advance current g q f le same gens ends hits [] s = refl
  strays-advance current g q f le same gens ends hits (r ∷ rows) s = ground (
    arith,
    same r,
    gens r,
    ends r,
    hits r,
    strays-advance current g q f le same gens ends hits rows,
  )

  pub strays-append :
      (current : Option ℕ) (rows : List (Row E)) (r : Row E)
      → strays current rows ≡ false
      → (own r && misplaced current (gen r) r.state) ≡ false
      → strays current (rows ++ (r ∷ [])) ≡ false
  strays-append current rows r s e =
      exists-append (λ r. own r && misplaced current (gen r) r.state) rows (r ∷ [])
      ∙ ground (arith, s, e)

  -- An untracked pull request without work may be tracked at any generation.
  pub strays-track :
      (g : ℕ) (rows : List (Row E)) → strays none rows ≡ false → strays (some g) rows ≡ false
  strays-track g [] s = refl
  strays-track g (r ∷ rows) s = ground (arith, strays-track g rows)

abbrev pub job_generation : Row Job → ℕ
job_generation r = r.entry.generation

abbrev pub publication_generation : Row Publication → ℕ
publication_generation r = r.entry.generation

-- No work of the pull request is out of place.
abbrev pub PlacedAt : ℕ → ℕ → Option ℕ → WorkDb → Type 0
PlacedAt repository number current db =
    (strays (job_of repository number) job_generation current db.jobs ≡ false)
    × (strays (publication_of repository number) publication_generation current db.publications
        ≡ false)

abbrev pub Placed : ℕ → ℕ → WorkDb → Type 0
Placed repository number db = PlacedAt repository number (found repository number db) db
