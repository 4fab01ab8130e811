-- ===== src/Base/Rows.antt =====
-- Lemmas on predicates of every row, and on the statements of `Lists` over a table.
use Prim.Native.String.{String, compare}
use Prim.Native.Nat.{Ordering}
use mathlib.Core.Path.{sym, ◌≡◌, refl, subst, ap, ◌∙◌}
use mathlib.Core.Logic.{inl, inr}
use mathlib.Core.Bool.{Bool, true, false, ◌||◌}
use mathlib.Core.List.{List, [], ◌∷◌, ◌++◌}
use mathlib.Core.Option.{none, some}
use native.Mathlib.Omega.{arith}
use workflowd.Base.Tests.{Bool-cases, if◌then◌else◌}
use workflowd.Base.Lists.{All, update, select, find?, exists, insert_by, order_by}

-- SQLite's BINARY order of two texts.
abbrev pub before_text : String → String → Bool
before_text a b = elim (compare a b) [ Ordering.lt ↦ true | _ ↦ false ]

module _ {ℓ κ μ} {A : Type ℓ} (P : A → Type κ) (Q : A → Type μ) where
  pub All-map : ((a : A) → P a → Q a) → (xs : List A) → All P xs → All Q xs
  All-map f [] h = tt
  All-map f (x ∷ xs) h = (f x h.0, All-map f xs h.1)

  pub All-update :
      (p : A → Bool) (f : A → A)
      → ((a : A) → p a ≡ true → P a → Q (f a))
      → ((a : A) → p a ≡ false → P a → Q a)
      → (xs : List A) → All P xs
      → All Q (update p f xs)
  All-update p f hit miss [] h = tt
  All-update p f hit miss (x ∷ xs) h = elim (Bool-cases (p x)) [
    | inl e ↦ rw e (hit x e h.0, All-update p f hit miss xs h.1)
    | inr e ↦ rw e (miss x e h.0, All-update p f hit miss xs h.1)
  ]

  pub All-zip : (xs : List A) → All P xs → All Q xs → All (λ a. P a × Q a) xs
  All-zip [] h k = tt
  All-zip (x ∷ xs) h k = ((h.0, k.0), All-zip xs h.1 k.1)

module _ {ℓ κ} {A : Type ℓ} (P : A → Type κ) where
  pub All-append : (xs ys : List A) → All P xs → All P ys → All P (xs ++ ys)
  All-append [] ys h k = k
  All-append (x ∷ xs) ys h k = (h.0, All-append xs ys h.1 k)

  pub All-select : (p : A → Bool) (xs : List A) → All P xs → All P (select p xs)
  All-select p [] h = tt
  All-select p (x ∷ xs) h = elim (Bool-cases (p x)) [
    | inl e ↦ rw e (h.0, All-select p xs h.1)
    | inr e ↦ rw e (All-select p xs h.1)
  ]

  pub All-find? :
      (p : A → Bool) (xs : List A) (a : A) → All P xs → find? p xs ≡ some a → P a × (p a ≡ true)
  All-find? p [] a h e = cc
  All-find? p (x ∷ xs) a h e = elim (Bool-cases (p x)) [
    | inl t ↦ let same : x ≡ a = ground arith in subst (λ y. P y × (p y ≡ true)) same (h.0, t)
    | inr t ↦ All-find? p xs a h.1 (ground arith)
  ]

  pub All-of : ((a : A) → P a) → (xs : List A) → All P xs
  All-of f [] = tt
  All-of f (x ∷ xs) = (f x, All-of f xs)

module _ {ℓ} {A : Type ℓ} where
  pub find?-true : (p : A → Bool) (xs : List A) (a : A) → find? p xs ≡ some a → p a ≡ true
  find?-true p [] a e = cc
  find?-true p (x ∷ xs) a e = ground (arith, find?-true p xs a)

  pub find?-none : (p : A → Bool) (xs : List A) → find? p xs ≡ none → All (λ a. p a ≡ false) xs
  find?-none p [] e = tt
  find?-none p (x ∷ xs) e = elim (Bool-cases (p x)) [
    | inl t ↦ absurd (ground arith)
    | inr t ↦ (t, find?-none p xs (ground arith))
  ]

  pub exists-false : (p : A → Bool) (xs : List A) → exists p xs ≡ false → All (λ a. p a ≡ false) xs
  exists-false p [] e = tt
  exists-false p (x ∷ xs) e = elim (Bool-cases (p x)) [
    | inl t ↦ absurd (ground arith)
    | inr t ↦ (t, exists-false p xs (ground arith))
  ]

  pub exists-append :
      (p : A → Bool) (xs ys : List A) → exists p (xs ++ ys) ≡ (exists p xs || exists p ys)
  exists-append p [] ys = refl
  exists-append p (x ∷ xs) ys = ground (arith, exists-append p xs ys)

  -- An `UPDATE` that selects no row changes nothing.
  pub update_none :
      (p : A → Bool) (f : A → A) (xs : List A) → exists p xs ≡ false → update p f xs ≡ xs
  update_none p f [] e = refl
  update_none p f (x ∷ xs) e = ground (arith, update_none p f xs)

module _ {ℓ} {A : Type ℓ} where
  pub exists-insert_by :
      (before : A → A → Bool) (p : A → Bool) (x : A) (xs : List A)
      → exists p (insert_by before x xs) ≡ (p x || exists p xs)
  exists-insert_by before p x [] = refl
  exists-insert_by before p x (y ∷ ys) = ground (arith, exists-insert_by before p x ys)

  pub exists-order_by :
      (before : A → A → Bool) (p : A → Bool) (xs : List A)
      → exists p (order_by before xs) ≡ exists p xs
  exists-order_by before p [] = refl
  exists-order_by before p (x ∷ xs) =
      exists-insert_by before p x (order_by before xs)
      ∙ ap (λ b. p x || b) (exists-order_by before p xs)

  pub exists-find? :
      (p : A → Bool) (xs : List A)
      → exists p xs ≡ elim (find? p xs) [ none ↦ false | some a ↦ true ]
  exists-find? p [] = refl
  exists-find? p (x ∷ xs) = ground (arith, exists-find? p xs)

  pub exists-All :
      (p q : A → Bool) (xs : List A)
      → All (λ a. p a ≡ true → q a ≡ true) xs
      → exists p xs ≡ true
      → exists q xs ≡ true
  exists-All p q [] h e = cc
  exists-All p q (x ∷ xs) h e = ground (arith, exists-All p q xs h.1)

  -- Rows keep what an `UPDATE` leaves alone.
  pub exists-update :
      (p q : A → Bool) (f : A → A)
      → ((a : A) → p (f a) ≡ p a)
      → (xs : List A) → exists p (update q f xs) ≡ exists p xs
  exists-update p q f h [] = refl
  exists-update p q f h (x ∷ xs) = ground (arith, h x, exists-update p q f h xs)

module _ {ℓ} {A : Type ℓ} (of : A → A → Bool) where
  exists-self_cons :
      (ys xs : List A)
      → All (λ a. exists (of a) ys ≡ true) xs
      → (y : A) → All (λ a. exists (of a) (y ∷ ys) ≡ true) xs
  exists-self_cons ys xs h y = All-map _ _ (λ a e. ground arith) xs h

  -- Every row is found in its table by a reflexive test.
  pub exists_self :
      ((a : A) → of a a ≡ true) → (xs : List A) → All (λ a. exists (of a) xs ≡ true) xs
  exists_self h [] = tt
  exists_self h (x ∷ xs) = (ground (arith, h x), exists-self_cons xs xs (exists_self h xs) x)

module _ {ℓ κ} {A : Type ℓ} (P : A → Type κ) (before : A → A → Bool) where
  All-insert_by_inv : (x : A) (xs : List A) → All P (insert_by before x xs) → P x × All P xs
  All-insert_by_inv x [] h = h
  All-insert_by_inv x (y ∷ ys) h = elim (Bool-cases (before y x)) [
    | inl e ↦
        let k : All P (y ∷ insert_by before x ys) =
          subst (λ b. All P (if b then y ∷ insert_by before x ys else x ∷ y ∷ ys)) e h in
        let (px, rest) = All-insert_by_inv x ys k.1 in (px, (k.0, rest))
    | inr e ↦ subst (λ b. All P (if b then y ∷ insert_by before x ys else x ∷ y ∷ ys)) e h
  ]

  -- What holds of a sorted table holds of the table.
  pub All-order_by_inv : (xs : List A) → All P (order_by before xs) → All P xs
  All-order_by_inv [] h = tt
  All-order_by_inv (x ∷ xs) h =
      let (px, rest) = All-insert_by_inv x (order_by before xs) h in (px, All-order_by_inv xs rest)

module _ {ℓ} {A : Type ℓ} where
  pub exists-none : (p : A → Bool) (xs : List A) → All (λ a. p a ≡ false) xs → exists p xs ≡ false
  exists-none p [] h = refl
  exists-none p (x ∷ xs) h = ground (arith, h.0, exists-none p xs h.1)

  -- After an `UPDATE` whose rows no longer meet its own `WHERE`, no row meets it.
  pub exists-update_self :
      (p : A → Bool) (f : A → A)
      → ((a : A) → p a ≡ true → p (f a) ≡ false)
      → (xs : List A) → exists p (update p f xs) ≡ false
  exists-update_self p f h [] = refl
  exists-update_self p f h (x ∷ xs) = ground (arith, h x, exists-update_self p f h xs)

  pub exists_all_false :
      (p : A → Bool) → ((a : A) → p a ≡ false) → (xs : List A) → exists p xs ≡ false
  exists_all_false p h [] = refl
  exists_all_false p h (x ∷ xs) = ground (arith, h x, exists_all_false p h xs)

  -- The row under a key, after an `UPDATE` that hits it and leaves the key alone.
  pub find?-update_hit :
      (p q : A → Bool) (f : A → A)
      → ((a : A) → p (f a) ≡ p a)
      → (xs : List A) (a : A) → find? p xs ≡ some a
      → q a ≡ true
      → find? p (update q f xs) ≡ some (f a)
  find?-update_hit p q f h [] a e t = cc
  find?-update_hit p q f h (x ∷ xs) a e t = elim (Bool-cases (p x)) [
    | inl hit ↦
        let same : x ≡ a = ground arith in
        subst (λ y. find? p (update q f (y ∷ xs)) ≡ some (f a)) (sym same)
          (let key : p a ≡ true = subst (λ y. p y ≡ true) same hit in rw t (rw (h a) (rw key refl)))
    | inr miss ↦ ground (arith, h x, find?-update_hit p q f h xs a)
  ]

  pub exists-find?_hit :
      (p q : A → Bool) (xs : List A) (a : A) → find? p xs ≡ some a → q a ≡ true → exists q xs ≡ true
  exists-find?_hit p q [] a e t = cc
  exists-find?_hit p q (x ∷ xs) a e t = elim (Bool-cases (p x)) [
    | inl hit ↦
        let same : x ≡ a = ground arith in
        subst (λ y. exists q (y ∷ xs) ≡ true) (sym same) (rw t refl)
    | inr miss ↦ ground (arith, exists-find?_hit p q xs a)
  ]

  pub exists-split :
      (p : A → Bool) (xs : List A)
      → exists p xs ≡ true
      → (a : A) × (ys : List A) × (zs : List A) × (xs ≡ ys ++ a ∷ zs) × (p a ≡ true)
  exists-split p [] e = absurd (ground arith)
  exists-split p (x ∷ xs) e = elim (Bool-cases (p x)) [
    | inl t ↦ (x, [], xs, refl, t)
    | inr t ↦
        let (a, ys, zs, same, hit) = exists-split p xs (ground arith) in
        (a, x ∷ ys, zs, ap (λ l. x ∷ l) same, hit)
  ]

  pub find?-append_none :
      (p : A → Bool) (xs : List A) (y : A)
      → find? p xs ≡ none
      → p y ≡ true
      → find? p (xs ++ y ∷ []) ≡ some y
  find?-append_none p [] y e h = ground arith
  find?-append_none p (x ∷ xs) y e h = ground (arith, find?-append_none p xs y)
