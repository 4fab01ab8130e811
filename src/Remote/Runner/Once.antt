-- ===== src/Remote/Runner/Once.antt =====
-- A runner of src/remote/runner-store.ts runs the turns of a command at most once.
use mathlib.Core.Bool.{false≢true}
use workflowd.Base.{
  ℕ, ◌+◌, ◌≤◌, ◌≡◌, refl, subst, inl, inr, String, Bool, true, false, ◌&&◌, Option, List, [], ◌∷◌,
  arith, if◌then◌else◌, str_eq, eq_iff, Bool-cases,
}
use workflowd.Remote.Runner.{ClaudeResumeJob, RemoteCommand, RunnerDeliveryInput, Runner, Codec}
use workflowd.Remote.Runner.Batch.{record_batch}
use workflowd.Remote.Runner.Execution.{
  Outcome, resume_kind, publish_row, starts, execute_probe, execute_claude_resume,
  mark_result_published,
}
use workflowd.Remote.Runner.Spent.{
  execute_probe-IsSpent, IsSpent, update-IsSpent, record_deliveries-IsSpent,
  execute_claude_resume-IsSpent, resume_kind-spends, starts_spent,
}

-- What happens to a runner. The run of a resume is what the executor's execution came to, `none`
-- being a process that ends before the result is stored.
pub data Call : Type 0 where
  batches : String → List RunnerDeliveryInput → ℕ → Call
  probes : RemoteCommand → ℕ → Call
  resumes : RemoteCommand → Option Outcome → ℕ → Call
  publishes : String → ℕ → Call

module _ (k : Codec) (recover : Option (ClaudeResumeJob → String → Outcome)) where
  abbrev pub step : Call → Runner → Runner
  step (batches host ds at) db = (record_batch k host ds at db).0
  step (probes c at) db = (execute_probe k c at db).0
  step (resumes c run at) db = (execute_claude_resume k recover run c at db).0
  step (publishes id at) db = mark_result_published id at db

-- The call runs the turns of the command of this id.
abbrev pub runs : String → Call → Runner → Bool
runs id (resumes c run at) db = str_eq c.command_id id && starts c db
runs id _ db = false

module _ (k : Codec) (recover : Option (ClaudeResumeJob → String → Outcome)) where
  -- Nothing makes a spent execution claimable again.
  step-IsSpent :
      (id : String) (call : Call) (db : Runner)
      → IsSpent id db.inbox
      → IsSpent id (step k recover call db).inbox
  unfolding record_batch mark_result_published
  step-IsSpent id (batches host ds at) db s = record_deliveries-IsSpent k host ds at id _ s
  step-IsSpent id (probes c at) db s = execute_probe-IsSpent k c at id db s
  step-IsSpent id (resumes c run at) db s = execute_claude_resume-IsSpent k recover run c at id db s
  step-IsSpent id (publishes result at) db s =
      update-IsSpent id _ publish_row (λ r. refl) (λ r u. ground arith) db.inbox s

  -- How often a history runs the turns of a command.
  unfoldable pub executions : String → List Call → Runner → ℕ
  executions id [] db = 0
  executions id (call ∷ calls) db =
      (if runs id call db then 1 else 0) + executions id calls (step k recover call db)

  spent_runs_nothing :
      (id : String) (call : Call) (db : Runner) → IsSpent id db.inbox → runs id call db ≡ false
  spent_runs_nothing id (batches host ds at) db s = refl
  spent_runs_nothing id (probes c at) db s = refl
  spent_runs_nothing id (publishes result at) db s = refl
  spent_runs_nothing id (resumes c run at) db s = starts_spent c.kind id c.command_id db s

  runs-IsSpent :
      (id : String) (call : Call) (db : Runner)
      → runs id call db ≡ true
      → IsSpent id (step k recover call db).inbox
  unfolding execute_claude_resume
  runs-IsSpent id (batches host ds at) db h = absurd (false≢true h)
  runs-IsSpent id (probes c at) db h = absurd (false≢true h)
  runs-IsSpent id (publishes result at) db h = absurd (false≢true h)
  runs-IsSpent id (resumes c run at) db h =
      subst (λ n. IsSpent n (resume_kind k recover run c c.kind at db).0.inbox)
        ((eq_iff c.command_id id).0 (ground arith))
        (resume_kind-spends k recover run c c.kind at db (ground arith))

  executions_spent :
      (id : String) (calls : List Call) (db : Runner)
      → IsSpent id db.inbox
      → executions id calls db ≡ 0
  unfolding executions
  executions_spent id [] db s = refl
  executions_spent id (call ∷ calls) db s = ground (
    arith,
    spent_runs_nothing id call db s,
    executions_spent id calls (step k recover call db) (step-IsSpent id call db s),
  )

  -- In any history of batches, probes, resumes and publications, from any tables, the turns of a
  -- command are run at most once, whichever runs end before their result is stored.
  pub executions-le-one :
      (id : String) (calls : List Call) (db : Runner) → executions id calls db ≤ 1
  unfolding executions
  executions-le-one id [] db = omega arith
  executions-le-one id (call ∷ calls) db = elim (Bool-cases (runs id call db)) [
    | inl e ↦
        ground
          (arith, executions_spent id calls (step k recover call db) (runs-IsSpent id call db e))
    | inr e ↦ ground (arith, executions-le-one id calls (step k recover call db))
  ]
