-- ===== src/Ci/Aggregate.antt =====
-- src/ci/store.ts, `aggregate`: the newest run of each required name.
use workflowd.Base.{
  String, Bool, true, false, not, ◌&&◌, ◌||◌, Option, none, some, List, [], ◌∷◌, ◌++◌, map,
  if◌then◌else◌, ltb, ◌==◌, str_eq, select, exists, order_by,
}
use workflowd.Ci.Rows.{CiRun, Conclusion, pending, success, failure}

-- `aggregate`: the newest run of each required name.
abbrev pub newer_run : CiRun → CiRun → Bool
newer_run a b = ltb b.id a.id || (b.id == a.id && ltb b.attempt a.attempt)

abbrev pub first {ℓ} : {A : Type ℓ} → List A → Option A
first [] = none
first (x ∷ xs) = some x

abbrev pub named : String → CiRun → Bool
named name run = str_eq run.name name

unfoldable pub latest_run : List CiRun → String → Option CiRun
latest_run runs name = first (order_by newer_run (select (named name) runs))

abbrev pub is_some {ℓ} : {A : Type ℓ} → Option A → Bool
is_some none = false
is_some (some a) = true

abbrev pub unfinished : Option CiRun → Bool
unfinished none = true
unfinished (some run) = not (str_eq run.status "completed") || not (is_some run.conclusion)

abbrev pub passing : Option String → Bool
passing none = false
passing (some c) = str_eq c "success" || str_eq c "skipped" || str_eq c "neutral"

abbrev pub failed : Option CiRun → Bool
failed none = false
failed (some run) = not (passing run.conclusion)

abbrev pub is_nil {ℓ} : {A : Type ℓ} → List A → Bool
is_nil [] = true
is_nil (x ∷ xs) = false

abbrev pub jobs_of : Option CiRun → List String
jobs_of none = []
jobs_of (some run) = if is_nil run.failing_jobs then run.name ∷ [] else run.failing_jobs

abbrev pub flat_map {ℓ κ} : {A : Type ℓ} {B : Type κ} → (A → List B) → List A → List B
flat_map f [] = []
flat_map f (x ∷ xs) = f x ++ flat_map f xs

unfoldable pub aggregate : List String → List CiRun → Conclusion × List String
unfolding latest_run
aggregate required runs =
    let latest = map (latest_run runs) required in
    if exists unfinished latest then (pending, []) else (
      if exists failed latest then failure else success,
      flat_map jobs_of (select failed latest),
    )
