-- ===== src/Kernel/Jobs/Distinct.antt =====
-- `job_id` is the primary key of `kernel_workflow_jobs`: no two rows share it.
use workflowd.Base.{
  String, Bool, true, false, some, List, [], ◌∷◌, ◌++◌, ◌≡◌, refl, sym, ap, ◌∙◌, subst, inl, inr,
  arith, str_eq, eq_iff, exists, update, find?, All, All-map, exists-update, exists-append,
  exists-false, exists-All, exists-find?, All-of, Bool-cases,
}
use mathlib.Core.Bool.{false≢true}
use workflowd.Kernel.Db.{JobRow}
use workflowd.Kernel.Jobs.{job_is}

abbrev pub Distinct : List JobRow → Type 0
Distinct [] = Unit {0}
Distinct (j ∷ js) = (exists (job_is j.job_id) js ≡ false) × Distinct js

-- An update keeps the keys apart if it keeps each row's key.
pub update-Distinct :
    (p : JobRow → Bool) (f : JobRow → JobRow)
    → ((j : JobRow) → (f j).job_id ≡ j.job_id)
    → (js : List JobRow) → Distinct js
    → Distinct (update p f js)
update-Distinct p f h [] d = tt
update-Distinct p f h (j ∷ js) d = elim (Bool-cases (p j)) [
  | inl e ↦ rw e (
    subst (λ n. exists (job_is n) (update p f js) ≡ false) (sym (h j)) (apart j),
    update-Distinct p f h js d.1,
  )
  | inr e ↦ rw e (apart j, update-Distinct p f h js d.1)
]
  where
    apart : (x : JobRow) → exists (job_is j.job_id) (update p f js) ≡ false
    apart x = exists-update (job_is j.job_id) p f (λ a. ap (λ n. str_eq n j.job_id) (h a)) js ∙ d.0

not_twice :
    (id : String) (p : JobRow → Bool)
    → ((j : JobRow) → p j ≡ true → job_is id j ≡ true)
    → (x : JobRow) (js : List JobRow) (j : JobRow) → exists (job_is x.job_id) js ≡ false
    → find? p js ≡ some j
    → job_is id x ≡ true
    → ⊥
not_twice id p h x js j free e hit =
    let found : exists (job_is x.job_id) js ≡ true =
      exists-All p (job_is x.job_id) js
        (All-of _
          (λ a t.
            ground (arith, h a t, eq_iff x.job_id id, eq_iff a.job_id id, eq_iff a.job_id x.job_id))
          js)
        (ground (arith, exists-find? p js)) in
    false≢true (sym free ∙ found)

-- The row under a key is the only one.
pub find?-only :
    (id : String) (p : JobRow → Bool)
    → ((j : JobRow) → p j ≡ true → job_is id j ≡ true)
    → (js : List JobRow) (j : JobRow) → Distinct js
    → find? p js ≡ some j
    → All (λ x. job_is id x ≡ true → x ≡ j) js
find?-only id p h [] j d e = tt
find?-only id p h (x ∷ js) j d e = elim (Bool-cases (p x)) [
  | inl t ↦
      let same : x ≡ j = ground arith in
      let key : x.job_id ≡ id = ground (arith, h x t, eq_iff x.job_id id) in
      (
        λ _. same,
        All-map _ _ (λ y miss hit. ground (arith, eq_iff x.job_id id)) js
            (exists-false (job_is x.job_id) js d.0),
      )
  | inr t ↦ (
    λ hit. absurd (not_twice id p h x js j d.0 (ground arith) hit),
    find?-only id p h js j d.1 (ground arith),
  )
]

append_key :
    (js : List JobRow) (x n : JobRow)
    → exists (job_is x.job_id) js ≡ false
    → job_is n.job_id x ≡ false
    → exists (job_is x.job_id) (js ++ n ∷ []) ≡ false
append_key js x n free other =
    exists-append (job_is x.job_id) js (n ∷ [])
    ∙ ground (arith, eq_iff n.job_id x.job_id, eq_iff x.job_id n.job_id)

-- A row under a new key is appended.
pub append-Distinct :
    (js : List JobRow) (n : JobRow)
    → exists (job_is n.job_id) js ≡ false
    → Distinct js
    → Distinct (js ++ n ∷ [])
append-Distinct [] n free d = (refl, tt)
append-Distinct (x ∷ js) n free d =
    (append_key js x n d.0 (ground arith), append-Distinct js n (ground arith) d.1)
