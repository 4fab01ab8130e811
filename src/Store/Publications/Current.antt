-- ===== src/Store/Publications/Current.antt =====
-- A publication of src/store/publications.ts is published once, and only of the current target.
use workflowd.Base.{
  ◌≡◌, refl, Bool, true, false, ◌&&◌, List, [], ◌∷◌, arith, ◌==◌, exists, update,
  exists-update_self,
}
use workflowd.Store.Lease.{Row, id_is}
use workflowd.Store.Publications.{
  PullRequestRow, ReviewJobRow, Publication, same_pull_request, current_publication,
  CompletePublicationInput, completed, stale, held, is_current, succeed, supersede,
  complete_publication, is_publication_current,
}

-- The pull request is at the publication's generation.
abbrev pub at_generation : List PullRequestRow → Publication → Bool
at_generation prs p = exists (λ pr. same_pull_request p pr && p.generation == pr.generation) prs

current-at_generation :
    (prs : List PullRequestRow) (p : Publication)
    → at_generation prs p ≡ false
    → current_publication prs p ≡ false
current-at_generation [] p h = refl
current-at_generation (pr ∷ prs) p h = ground (arith, current-at_generation prs p)

none_current :
    (prs : List PullRequestRow) (jobs : List ReviewJobRow) (i : CompletePublicationInput)
    (rows : List (Row Publication))
    → exists (λ r. id_is i.publication_id r && at_generation prs r.entry) rows ≡ false
    → exists (λ r. held i r && is_current prs jobs r) rows ≡ false
none_current prs jobs i [] h = refl
none_current prs jobs i (r ∷ rs) h =
    ground (arith, none_current prs jobs i rs, current-at_generation prs r.entry)

-- Once the pull request is at another generation than the publication's, completing it is stale
-- whatever its outcome, and the row is superseded if the worker holds its lease.
pub outdated_superseded :
    (prs : List PullRequestRow) (jobs : List ReviewJobRow) (i : CompletePublicationInput)
    (rows : List (Row Publication))
    → exists (λ r. id_is i.publication_id r && at_generation prs r.entry) rows ≡ false
    → complete_publication prs jobs i rows
      ≡ (update (held i) (supersede i.completed_at) rows, stale)
unfolding complete_publication
outdated_superseded prs jobs i rows h = ground (arith, none_current prs jobs i rows h)

-- An outcome is reported completed only where `isPublicationCurrent` holds at that instant, and
-- then it no longer holds afterwards.
pub completed_current :
    (prs : List PullRequestRow) (jobs : List ReviewJobRow) (i : CompletePublicationInput)
    (rows rows' : List (Row Publication))
    → complete_publication prs jobs i rows ≡ (rows', completed)
    → (is_publication_current prs jobs i.publication_id i.worker_id i.completed_at rows ≡ true)
      × (is_publication_current prs jobs i.publication_id i.worker_id i.completed_at rows' ≡ false)
unfolding complete_publication is_publication_current
completed_current prs jobs i rows rows' e = ground (
  arith,
  exists-update_self (λ r. held i r && is_current prs jobs r) (succeed i.completed_at)
      (λ r h. ground arith) rows,
)
