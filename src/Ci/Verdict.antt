-- ===== src/Ci/Verdict.antt =====
-- What a success of `aggregate` in src/ci/store.ts says of the runs.
use workflowd.Base.{
  ◌≡◌, refl, ap, sym, subst, ◌∙◌, inl, inr, String, Bool, true, false, not, ◌&&◌, Option, none,
  some, List, [], ◌∷◌, map, arith, All, str_eq, select, exists, order_by, insert_by,
  exists-order_by, Bool-cases,
}
use workflowd.Ci.Rows.{CiRun, success}
use workflowd.Ci.Aggregate.{
  newer_run, first, named, latest_run, unfinished, passing, failed, aggregate,
}

-- The run is over with a conclusion that counts as a success.
abbrev pub passes : CiRun → Bool
passes run = str_eq run.status "completed" && passing run.conclusion

abbrev pub newest : String → List CiRun → CiRun → Bool
newest name runs run = not (exists (λ other. named name other && newer_run other run) runs)

-- The newest run of the name passes.
abbrev pub newest_passes : List CiRun → String → Bool
newest_passes runs name =
    exists (λ run. named name run && (passes run && newest name runs run)) runs

module _ {ℓ} {A : Type ℓ} where
  exists-select :
      (p q : A → Bool) (xs : List A) → exists q (select p xs) ≡ exists (λ a. p a && q a) xs
  exists-select p q [] = refl
  exists-select p q (x ∷ xs) = ground (arith, exists-select p q xs)

  exists-first :
      (q : A → Bool) (xs : List A) (a : A) → first xs ≡ some a → q a ≡ true → exists q xs ≡ true
  exists-first q [] a e h = cc
  exists-first q (x ∷ xs) a e h = let same : x ≡ a = ground arith in ground (arith, ap q same)

not_before :
    (x y : CiRun) (xs : List CiRun)
    → newer_run x y ≡ false
    → exists (λ other. newer_run other x) xs ≡ false
    → exists (λ other. newer_run other y) xs ≡ false
not_before x y [] h e = refl
not_before x y (z ∷ xs) h e = ground (arith, not_before x y xs h)

insert-first :
    (y a : CiRun) (ys xs : List CiRun)
    → ((b : CiRun) → first ys ≡ some b → exists (λ other. newer_run other b) xs ≡ false)
    → (first ys ≡ none → xs ≡ [])
    → first (insert_by newer_run y ys) ≡ some a
    → exists (λ other. newer_run other a) (y ∷ xs) ≡ false
insert-first y a [] xs least empty e =
    let same : y ≡ a = ground arith in
    rw (empty refl)
      (subst (λ b. exists (λ other. newer_run other b) (y ∷ []) ≡ false) same (ground arith))
insert-first y a (z ∷ ys) xs least empty e = elim (Bool-cases (newer_run z y)) [
  | inl h ↦
      let same : z ≡ a = ground (arith, h) in
      subst (λ b. exists (λ other. newer_run other b) (y ∷ xs) ≡ false) same
        (ground (arith, least z refl))
  | inr h ↦
      let same : y ≡ a = ground (arith, h) in
      subst (λ b. exists (λ other. newer_run other b) (y ∷ xs) ≡ false) same
        (ground (arith, not_before z y xs h (least z refl)))
]

insert-ne-none : (y : CiRun) (ys : List CiRun) → first (insert_by newer_run y ys) ≡ none → ⊥
insert-ne-none y [] e = cc
insert-ne-none y (z ∷ ys) e = elim (Bool-cases (newer_run z y)) [
  | inl h ↦ ground (arith, h)
  | inr h ↦ ground (arith, h)
]

order-none : (xs : List CiRun) → first (order_by newer_run xs) ≡ none → xs ≡ []
order-none [] e = refl
order-none (x ∷ xs) e = absurd (insert-ne-none x (order_by newer_run xs) e)

first-newest :
    (xs : List CiRun) (a : CiRun)
    → first (order_by newer_run xs) ≡ some a
    → exists (λ other. newer_run other a) xs ≡ false
first-newest [] a e = cc
first-newest (x ∷ xs) a e =
    insert-first x a (order_by newer_run xs) xs (λ b h. first-newest xs b h) (order-none xs) e

latest-passes :
    (runs : List CiRun) (name : String) (latest : Option CiRun)
    → latest_run runs name ≡ latest
    → unfinished latest ≡ false
    → failed latest ≡ false
    → newest_passes runs name ≡ true
unfolding latest_run
latest-passes runs name none e u f = cc
latest-passes runs name (some run) e u f =
    let own = select (named name) runs in
    let over : passes run ≡ true = ground arith in
    let top : newest name runs run ≡ true = ap not (
      sym (exists-select (named name) (λ other. newer_run other run) runs)
      ∙ first-newest own run e) in
    sym (exists-select (named name) (λ r. passes r && newest name runs r) runs)
    ∙ (sym (exists-order_by newer_run (λ r. passes r && newest name runs r) own)
        ∙ exists-first (λ r. passes r && newest name runs r) (order_by newer_run own) run e
            (ground (arith, over, top)))

required_pass :
    (runs : List CiRun) (required : List String)
    → exists unfinished (map (latest_run runs) required) ≡ false
    → exists failed (map (latest_run runs) required) ≡ false
    → All (λ name. newest_passes runs name ≡ true) required
required_pass runs [] u f = tt
required_pass runs (name ∷ required) u f = (
  latest-passes runs name (latest_run runs name) refl (ground arith) (ground arith),
  required_pass runs required (ground arith) (ground arith),
)

-- Where the runs are a success, each required workflow has a run that is completed with the conclusion
-- success, skipped or neutral, and than which no run of that name is newer.
pub aggregate_success :
    (required : List String) (runs : List CiRun)
    → (aggregate required runs).0 ≡ success
    → All (λ name. newest_passes runs name ≡ true) required
unfolding aggregate
aggregate_success required runs e = required_pass runs required (ground arith) (ground arith)
