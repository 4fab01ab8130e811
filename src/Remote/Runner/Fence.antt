-- ===== src/Remote/Runner/Fence.antt =====
-- A fence that is delivered to src/remote/runner-store.ts shuts out every older generation.
use workflowd.Base.{
  ℕ, ◌≤◌, ◌<◌, ◌≡◌, refl, sym, ap, ◌∙◌, subst, inl, inr, String, Bool, true, false, ◌&&◌, Option,
  none, some, List, [], ◌∷◌, arith, ltb, str_eq, eq_iff, find?, exists, update, Bool-cases,
  Option-cases, exists-update, exists-append, exists-none, exists-false, All-of, All-update,
}
use workflowd.Remote.Runner.{
  RemoteFence, RemoteHostMessage, command, RunnerDeliveryInput, CurrentRow, InboxRow, Runner,
  inbox_is, delivery_is, current_of, at_generation, is_received, Codec,
}
use workflowd.Remote.Runner.Batch.{
  record_fence, fence_row, record_command, bind_row, is_unbound, initial_disposition,
  record_message, replay_delivery, changed, record_delivery, record_deliveries, fence_generations,
  raise_row, new_current, raise_current, raise_all, record_batch,
}
use workflowd.Remote.Runner.Execution.Recover.{recovers}
use workflowd.Remote.Runner.Generations.{fences, count, Covers, fence_generations-Covers}

abbrev below : String → ℕ → CurrentRow → Bool
below job g c = current_of job c && ltb c.generation g

module _ (job : String) (g : ℕ) where
  abbrev Fenced : List CurrentRow → Type 0
  Fenced rows = exists (below job g) rows ≡ false

  none-below : (rows : List CurrentRow) → exists (current_of job) rows ≡ false → Fenced rows
  none-below [] e = refl
  none-below (r ∷ rows) e = ground (arith, none-below rows)

  raise_row-other :
      (j : String) (h at : ℕ) (r : CurrentRow)
      → str_eq j job ≡ false
      → current_of j r ≡ true
      → below job g (raise_row h at r) ≡ false
  raise_row-other j h at r other hit =
      let same : r.job_id ≡ j = (eq_iff r.job_id j).0 hit in
      ground (arith, ap (λ x. str_eq x job) same)

  raise_current-keeps :
      (j : String) (h at : ℕ) (rows : List CurrentRow)
      → str_eq j job ≡ false
      → Fenced rows
      → Fenced (raise_current j h at rows)
  raise_current-keeps j h at rows other f =
      let p : CurrentRow → Bool = λ r. current_of j r && ltb r.generation h in
      elim (Bool-cases (exists (current_of j) rows)) [
        | inl e ↦ rw e (
            exists-none (below job g) (update p (raise_row h at) rows) (
              All-update (λ r. below job g r ≡ false) (λ r. below job g r ≡ false) p
                (raise_row h at) (λ r hit old. raise_row-other j h at r other (ground arith))
                (λ r miss old. old) rows (exists-false (below job g) rows f)))
        | inr e ↦
            rw e (exists-append (below job g) rows (new_current j h at ∷ []) ∙ ground (arith, f))
      ]

  raise_own-Fenced :
      (h at : ℕ) (rows : List CurrentRow) → g ≤ h → Fenced (raise_current job h at rows)
  raise_own-Fenced h at rows enough =
      let p : CurrentRow → Bool = λ r. current_of job r && ltb r.generation h in
      elim (Bool-cases (exists (current_of job) rows)) [
        | inl e ↦ rw e (
            exists-none (below job g) (update p (raise_row h at) rows) (
              All-update (λ r. Unit {0}) (λ r. below job g r ≡ false) p (raise_row h at)
                (λ r hit old. ground arith) (λ r miss old. ground arith) rows
                (All-of (λ r. Unit {0}) (λ r. tt) rows)))
        | inr e ↦ rw e (
            exists-append (below job g) rows (new_current job h at ∷ [])
            ∙ ground (arith, none-below rows e))
      ]

  raise_current-Fenced :
      (j : String) (h at : ℕ) (rows : List CurrentRow)
      → str_eq j job ≡ true
      → g ≤ h
      → Fenced (raise_current j h at rows)
  raise_current-Fenced j h at rows own enough =
      subst (λ x. Fenced (raise_current x h at rows)) (sym ((eq_iff j job).0 own))
        (raise_own-Fenced h at rows enough)

  raise_all-keeps :
      (gs : List (String × ℕ)) (at : ℕ) (rows : List CurrentRow)
      → count job gs ≡ 0
      → Fenced rows
      → Fenced (raise_all gs at rows)
  unfolding count
  raise_all-keeps [] at rows c f = f
  raise_all-keeps ((j, h) ∷ gs) at rows c f =
      raise_all-keeps gs at (raise_current j h at rows) (ground arith)
        (raise_current-keeps j h at rows (ground arith) f)

  raise_all-Fenced :
      (gs : List (String × ℕ)) (at : ℕ) (rows : List CurrentRow)
      → Covers job g gs
      → Fenced (raise_all gs at rows)
  unfolding count
  raise_all-Fenced [] at rows (c, l) = absurd (omega (arith, c))
  raise_all-Fenced ((j, h) ∷ gs) at rows (c, l) = elim (Bool-cases (str_eq j job)) [
    | inl e ↦
        raise_all-keeps gs at (raise_current j h at rows) (ground arith)
          (raise_current-Fenced j h at rows e (ground arith))
    | inr e ↦ raise_all-Fenced gs at (raise_current j h at rows) (ground arith, ground arith)
  ]

  -- Recording a delivery changes no generation.
  update-Fenced :
      (p : CurrentRow → Bool) (f : CurrentRow → CurrentRow)
      → ((r : CurrentRow) → below job g (f r) ≡ below job g r)
      → (rows : List CurrentRow) → Fenced rows
      → Fenced (update p f rows)
  update-Fenced p f same rows h = exists-update (below job g) p f same rows ∙ h

  below-fence_row :
      (f : RemoteFence) (at : ℕ) (r : CurrentRow) → below job g (fence_row f at r) ≡ below job g r
  below-fence_row f at r = ground arith

  record_message-Fenced :
      (k : Codec) (host : String) (d : RunnerDeliveryInput) (m : Option RemoteHostMessage)
      (hash : String) (at : ℕ) (db : Runner)
      → Fenced db.current
      → Fenced (record_message k host d m hash at db).0.current
  unfolding record_message record_fence record_command
  record_message-Fenced k host d none hash at db s = s
  record_message-Fenced k host d (some (RemoteHostMessage.fence f)) hash at db s =
      elim (Bool-cases (str_eq f.host_id host)) [
        | inl e ↦ rw e (
            update-Fenced (at_generation f.job_id f.generation) (fence_row f at)
              (below-fence_row f at) db.current s)
        | inr e ↦ rw e s
      ]
  record_message-Fenced k host d (some (command c)) hash at db s =
      elim (Option-cases (find? (inbox_is c.command_id) db.inbox)) [
        | inl e ↦
            let disposition =
              initial_disposition host c (find? (current_of c.job_id) db.current) at in
            rw (e, record_command)
              (elim (Bool-cases (is_received disposition)) [
                | inl r ↦ rw r (
                    update-Fenced
                      (λ r. at_generation c.job_id c.generation r && is_unbound r.command_id)
                      (bind_row c.command_id at) (λ r. refl) db.current s)
                | inr r ↦ rw r s
              ])
        | inr (row, e) ↦ rw (e, record_command) s
      ]

  record_delivery-Fenced :
      (k : Codec) (host : String) (d : RunnerDeliveryInput) (at : ℕ) (db : Runner)
      → Fenced db.current
      → Fenced (record_delivery k host d at db).0.current
  unfolding record_delivery replay_delivery
  record_delivery-Fenced k host d at db s =
      elim (Option-cases (find? (delivery_is d.delivery_id) db.deliveries)) [
        | inl e ↦
            rw (e, record_delivery)
              (record_message-Fenced k host d d.message (k.sha256 d.bytes) at db s)
        | inr (row, e) ↦
            rw (e, record_delivery)
              (elim (Bool-cases (changed (k.sha256 d.bytes) d row)) [
                | inl c ↦ rw (c, replay_delivery) s
                | inr c ↦ rw (c, replay_delivery) s
              ])
      ]

  record_deliveries-Fenced :
      (k : Codec) (host : String) (ds : List RunnerDeliveryInput) (at : ℕ) (db : Runner)
      → Fenced db.current
      → Fenced (record_deliveries k host ds at db).0.current
  unfolding record_deliveries
  record_deliveries-Fenced k host [] at db s = s
  record_deliveries-Fenced k host (d ∷ ds) at db s =
      record_deliveries-Fenced k host ds at (record_delivery k host d at db).0
        (record_delivery-Fenced k host d at db s)

abbrev pub recovers_below : String → ℕ → List CurrentRow → InboxRow → Bool
recovers_below job g currents row =
    recovers currents row && str_eq row.job_id job && ltb row.generation g

waits_in :
    (job : String) (g : ℕ) (row : InboxRow) (c : CurrentRow)
    → recovers (c ∷ []) row ≡ true
    → row.job_id ≡ job
    → row.generation < g
    → below job g c ≡ true
waits_in job g row c w same old = ground (arith, ap (λ x. str_eq c.job_id x) same)

Fenced-recovers :
    (job : String) (g : ℕ) (currents : List CurrentRow) (row : InboxRow)
    → exists (below job g) currents ≡ false
    → recovers_below job g currents row ≡ false
Fenced-recovers job g [] row f = ground arith
Fenced-recovers job g (c ∷ currents) row f =
    ground
      (arith, Fenced-recovers job g currents row, waits_in job g row c, (eq_iff row.job_id job).0)

-- Once a batch is recorded that holds a fence of this host for a job and a generation, wherever in
-- the batch it stands, no command of that job with a lower generation is recovered for execution.
pub fence_supersedes :
    (k : Codec) (host : String) (ds : List RunnerDeliveryInput) (at : ℕ) (db : Runner)
    (job : String) (g : ℕ)
    → exists (fences host job g) ds ≡ true
    → let db' = (record_batch k host ds at db).0 in
      exists (recovers_below job g db'.current) db'.inbox ≡ false
unfolding record_batch count
fence_supersedes k host ds at db job g h =
    let db' = (record_batch k host ds at db).0 in
    let fenced : exists (below job g) db'.current ≡ false =
      record_deliveries-Fenced job g k host ds at
        (record db { current = raise_all (fence_generations host ds []) at db.current })
        (raise_all-Fenced job g (fence_generations host ds []) at db.current
          (fence_generations-Covers job g host ds [] h (ground arith))) in
    exists-none (recovers_below job g db'.current) db'.inbox (
      All-of (λ r. recovers_below job g db'.current r ≡ false)
        (λ r. Fenced-recovers job g db'.current r fenced) db'.inbox)
