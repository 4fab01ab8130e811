-- ===== src/Remote/Runner/Generations.antt =====
-- The generations that the fences of a batch name, in `recordBatch` of src/remote/runner-store.ts.
use workflowd.Base.{
  ℕ, ◌+◌, ◌≤◌, ◌≡◌, refl, sym, ap, ◌∙◌, subst, inl, inr, String, Bool, true, false, ◌&&◌, Option,
  none, some, List, [], ◌∷◌, arith, max, ltb, if◌then◌else◌, ◌==◌, str_eq, eq_iff, exists,
  Bool-cases,
}
use workflowd.Remote.Runner.{RemoteHostMessage, command, RunnerDeliveryInput}
use workflowd.Remote.Runner.Batch.{raise_generation, raise_named, fence_generations}

-- A fence of this host names the job and the generation.
abbrev pub fences_message : String → String → ℕ → Option RemoteHostMessage → Bool
fences_message host job g none = false
fences_message host job g (some (command c)) = false
fences_message host job g (some (RemoteHostMessage.fence f)) =
    str_eq f.host_id host && str_eq f.job_id job && f.generation == g

abbrev pub fences : String → String → ℕ → RunnerDeliveryInput → Bool
fences host job g d = fences_message host job g d.message

abbrev pub low : String → ℕ → String × ℕ → Bool
low job g entry = str_eq entry.0 job && ltb entry.1 g

unfoldable pub count : String → List (String × ℕ) → ℕ
count job [] = 0
count job (e ∷ es) = (if str_eq e.0 job then 1 else 0) + count job es

-- The map names the job once, and with no lower generation.
abbrev pub Covers : String → ℕ → List (String × ℕ) → Type 0
Covers job g gs = (count job gs ≡ 1) × (exists (low job g) gs ≡ false)

module _ (job : String) (g : ℕ) where
  -- Raising another job leaves what the map says of this one.
  count-raise_other :
      (j : String) (h : ℕ) (gs : List (String × ℕ))
      → str_eq j job ≡ false
      → (count job (raise_generation j h gs) ≡ count job gs)
        × (exists (low job g) (raise_generation j h gs) ≡ exists (low job g) gs)
  unfolding count
  count-raise_other j h [] e = ground arith
  count-raise_other j h ((k, n) ∷ gs) e =
      ground
        (arith, count-raise_other j h gs e, eq_iff k j, λ (q : k ≡ j). ap (λ x. str_eq x job) q)

  count-raise_own :
      (h : ℕ) (gs : List (String × ℕ))
      → count job (raise_generation job h gs) ≡ max 1 (count job gs)
  unfolding count
  count-raise_own h [] = ground (arith, eq_iff job job)
  count-raise_own h ((k, n) ∷ gs) = ground (arith, count-raise_own h gs)

  low_none : (gs : List (String × ℕ)) → count job gs ≡ 0 → exists (low job g) gs ≡ false
  unfolding count
  low_none [] c = refl
  low_none ((k, n) ∷ gs) c = ground (arith, low_none gs)

  low-raise_own :
      (gs : List (String × ℕ))
      → count job gs ≤ 1
      → exists (low job g) (raise_generation job g gs) ≡ false
  unfolding count
  low-raise_own [] c = ground arith
  low-raise_own ((k, n) ∷ gs) c = ground (arith, low-raise_own gs, low_none gs)

  low-raise_again :
      (h : ℕ) (gs : List (String × ℕ))
      → count job gs ≡ 1
      → exists (low job g) gs ≡ false
      → exists (low job g) (raise_generation job h gs) ≡ false
  unfolding count
  low-raise_again h [] c l = ground arith
  low-raise_again h ((k, n) ∷ gs) c l = ground (arith, low-raise_again h gs)

  raise-Covers :
      (gs : List (String × ℕ)) → count job gs ≤ 1 → Covers job g (raise_generation job g gs)
  raise-Covers gs c = (omega (arith, count-raise_own g gs), low-raise_own gs c)

  count-raise :
      (j : String) (h : ℕ) (gs : List (String × ℕ))
      → count job gs ≤ 1
      → count job (raise_generation j h gs) ≤ 1
  count-raise j h gs c = elim (Bool-cases (str_eq j job)) [
    | inl e ↦
        subst (λ x. count job (raise_generation x h gs) ≤ 1) (sym ((eq_iff j job).0 e))
          (omega (arith, count-raise_own h gs))
    | inr e ↦ omega (arith, count-raise_other j h gs e)
  ]

  keep-Covers :
      (j : String) (h : ℕ) (gs : List (String × ℕ))
      → Covers job g gs
      → Covers job g (raise_generation j h gs)
  keep-Covers j h gs (c, l) = elim (Bool-cases (str_eq j job)) [
    | inl e ↦
        subst (λ x. Covers job g (raise_generation x h gs)) (sym ((eq_iff j job).0 e))
          (omega (arith, count-raise_own h gs), low-raise_again h gs c l)
    | inr e ↦ ((count-raise_other j h gs e).0 ∙ c, (count-raise_other j h gs e).1 ∙ l)
  ]

  raise_named-count :
      (host : String) (m : Option RemoteHostMessage) (gs : List (String × ℕ))
      → count job gs ≤ 1
      → count job (raise_named host m gs) ≤ 1
  raise_named-count host none gs c = c
  raise_named-count host (some (command x)) gs c = c
  raise_named-count host (some (RemoteHostMessage.fence f)) gs c =
      ground (arith, count-raise f.job_id f.generation gs c)

  raise_named-keeps :
      (host : String) (m : Option RemoteHostMessage) (gs : List (String × ℕ))
      → Covers job g gs
      → Covers job g (raise_named host m gs)
  raise_named-keeps host none gs c = c
  raise_named-keeps host (some (command x)) gs c = c
  raise_named-keeps host (some (RemoteHostMessage.fence f)) gs c =
      elim (Bool-cases (str_eq f.host_id host)) [
        | inl e ↦ rw e (keep-Covers f.job_id f.generation gs c)
        | inr e ↦ rw e c
      ]

  raise_named-Covers :
      (host : String) (m : Option RemoteHostMessage) (gs : List (String × ℕ))
      → fences_message host job g m ≡ true
      → count job gs ≤ 1
      → Covers job g (raise_named host m gs)
  raise_named-Covers host none gs h c = cc
  raise_named-Covers host (some (command x)) gs h c = cc
  raise_named-Covers host (some (RemoteHostMessage.fence f)) gs h c =
      let own : str_eq f.host_id host ≡ true = ground arith in
      let same : f.job_id ≡ job = (eq_iff f.job_id job).0 (ground arith) in
      let level : f.generation ≡ g = ground arith in
      rw own (
        subst (λ (x : String × ℕ). Covers job g (raise_generation x.0 x.1 gs))
          (λ i. (sym same i, sym level i)) (raise-Covers gs c))

  fence_generations-keeps :
      (host : String) (ds : List RunnerDeliveryInput) (gs : List (String × ℕ))
      → Covers job g gs
      → Covers job g (fence_generations host ds gs)
  unfolding fence_generations
  fence_generations-keeps host [] gs c = c
  fence_generations-keeps host (d ∷ ds) gs c =
      (fence_generations-keeps host ds (raise_named host d.message gs)
        (raise_named-keeps host d.message gs c))

  pub fence_generations-Covers :
      (host : String) (ds : List RunnerDeliveryInput) (gs : List (String × ℕ))
      → exists (fences host job g) ds ≡ true
      → count job gs ≤ 1
      → Covers job g (fence_generations host ds gs)
  unfolding fence_generations
  fence_generations-Covers host [] gs h c = cc
  fence_generations-Covers host (d ∷ ds) gs h c = elim (Bool-cases (fences host job g d)) [
    | inl e ↦
        fence_generations-keeps host ds (raise_named host d.message gs)
          (raise_named-Covers host d.message gs e c)
    | inr e ↦
        fence_generations-Covers host ds (raise_named host d.message gs) (ground arith)
          (raise_named-count host d.message gs c)
  ]
