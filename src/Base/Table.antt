-- ===== src/Base/Table.antt =====
-- A SQL table as the list of its rows, in row order, and the statements that the source runs on it.
use whatsvault.Base.Eq.{if◌then◌else◌, Bool-cases}
use Prim.Native.Nat.{ℕ, suc, ◌+◌, ◌≤◌}
use mathlib.Core.Path.{◌≡◌, refl, subst}
use mathlib.Core.Logic.{inl, inr}
use mathlib.Core.Bool.{Bool, true, false, ◌||◌, not}
use mathlib.Core.Option.{Option, none, some}
use mathlib.Core.List.{List, [], ◌∷◌, ◌++◌}
use native.Mathlib.Omega.{arith}

module _ {ℓ} {A : Type ℓ} where
  -- `SELECT ... WHERE p` and `fetchone()`
  abbrev pub find : (A → Bool) → List A → Option A
  find p [] = none
  find p (x ∷ xs) = if p x then some x else find p xs

  -- `fetchall()`, and what a `DELETE` of the other rows leaves
  abbrev pub select : (A → Bool) → List A → List A
  select p [] = []
  select p (x ∷ xs) = let rest = select p xs in if p x then x ∷ rest else rest

  -- `UPDATE ... SET f WHERE p`
  abbrev pub update : (A → Bool) → (A → A) → List A → List A
  update p f [] = []
  update p f (x ∷ xs) = (if p x then f x else x) ∷ update p f xs

  -- `SELECT COUNT(*) WHERE p`, and the `rowcount` of an `UPDATE` or a `DELETE`
  abbrev pub count : (A → Bool) → List A → ℕ
  count p [] = 0
  count p (x ∷ xs) = (if p x then 1 else 0) + count p xs

  abbrev pub any : (A → Bool) → List A → Bool
  any p [] = false
  any p (x ∷ xs) = p x || any p xs

  abbrev pub length : List A → ℕ
  length [] = 0
  length (x ∷ xs) = suc (length xs)

  abbrev pub All {κ} : (P : A → Type κ) (rows : List A) → Type κ
  All P [] = Unit
  All P (row ∷ rows) = P row × All P rows

  pub any-append : (p : A → Bool) (xs ys : List A) → any p (xs ++ ys) ≡ (any p xs || any p ys)
  any-append p [] ys = refl
  any-append p (x ∷ xs) ys = ground (arith, any-append p xs ys)

  pub count-append : (p : A → Bool) (xs ys : List A) → count p (xs ++ ys) ≡ count p xs + count p ys
  count-append p [] ys = omega arith
  count-append p (x ∷ xs) ys = omega (arith, count-append p xs ys)

  pub length-append : (xs ys : List A) → length (xs ++ ys) ≡ length xs + length ys
  length-append [] ys = omega arith
  length-append (x ∷ xs) ys = omega (arith, length-append xs ys)

  -- The row that `fetchone()` returns satisfies the condition.
  pub find_sound : (p : A → Bool) (xs : List A) (x : A) → find p xs ≡ some x → p x ≡ true
  find_sound p [] x h = cc
  find_sound p (y ∷ xs) x h = elim (Bool-cases (p y)) [
    | inl e ↦ ground arith
    | inr e ↦ find_sound p xs x (rw e at h)
  ]

  some_inj : (y x : A) → some y ≡ some x → y ≡ x
  some_inj y x h = cc

  -- What holds of every row holds of the row that is found.
  pub find-All {κ} :
      (P : A → Type κ) (p : A → Bool) (xs : List A) (x : A) → All P xs → find p xs ≡ some x → P x
  find-All P p [] x a h = cc
  find-All P p (y ∷ xs) x a h = elim (Bool-cases (p y)) [
    | inl e ↦ subst P (some_inj y x (rw e at h)) a.0
    | inr e ↦ find-All P p xs x a.1 (rw e at h)
  ]

  -- A statement whose condition no row satisfies changes no row.
  pub count-update_disjoint :
      (p q : A → Bool) (f : A → A) (xs : List A)
      → ((x : A) → p x ≡ true → q (f x) ≡ false)
      → ((x : A) → p x ≡ false → q x ≡ false)
      → count q (update p f xs) ≡ 0
  count-update_disjoint p q f [] on off = refl
  count-update_disjoint p q f (x ∷ xs) on off =
      ground (arith, on x, off x, count-update_disjoint p q f xs on off)

  pub length-update : (p : A → Bool) (f : A → A) (xs : List A) → length (update p f xs) ≡ length xs
  length-update p f [] = refl
  length-update p f (x ∷ xs) = omega (arith, length-update p f xs)

  pub any-false-All : (p : A → Bool) (xs : List A) → any p xs ≡ false → All (λ x. p x ≡ false) xs
  any-false-All p [] h = tt
  any-false-All p (x ∷ xs) h = (ground arith, any-false-All p xs (ground arith))

  pub All-select {κ} :
      (P : A → Type κ) (p : A → Bool) (xs : List A) → All P xs → All P (select p xs)
  All-select P p [] h = tt
  All-select P p (x ∷ xs) h = elim (Bool-cases (p x)) [
    | inl e ↦ rw e (h.0, All-select P p xs h.1)
    | inr e ↦ rw e (All-select P p xs h.1)
  ]

  -- The rows that a query returns satisfy its condition.
  pub select_sound : (p : A → Bool) (xs : List A) → All (λ x. p x ≡ true) (select p xs)
  select_sound p [] = tt
  select_sound p (x ∷ xs) = elim (Bool-cases (p x)) [
    | inl e ↦ rw e (e, select_sound p xs)
    | inr e ↦ rw e (select_sound p xs)
  ]

  pub All-zip {κ μ ν} :
      (P : A → Type κ) (Q : A → Type μ) (R : A → Type ν) (xs : List A)
      → ((x : A) → P x → Q x → R x)
      → All P xs
      → All Q xs
      → All R xs
  All-zip P Q R [] f hp hq = tt
  All-zip P Q R (x ∷ xs) f hp hq = (f x hp.0 hq.0, All-zip P Q R xs f hp.1 hq.1)

  pub All-map {κ μ} :
      (P : A → Type κ) (Q : A → Type μ) (xs : List A) → ((x : A) → P x → Q x) → All P xs → All Q xs
  All-map P Q [] f h = tt
  All-map P Q (x ∷ xs) f h = (f x h.0, All-map P Q xs f h.1)

  pub All-append {κ} : (P : A → Type κ) (xs ys : List A) → All P xs → All P ys → All P (xs ++ ys)
  All-append P [] ys h h' = h'
  All-append P (x ∷ xs) ys h h' = (h.0, All-append P xs ys h.1 h')

  pub count-none : (p : A → Bool) (xs : List A) → All (λ x. p x ≡ false) xs → count p xs ≡ 0
  count-none p [] h = refl
  count-none p (x ∷ xs) h = ground (arith, count-none p xs h.1)

  -- What holds of each row and is kept by the change holds after an UPDATE.
  pub update-All {κ} :
      (P : A → Type κ) (p : A → Bool) (f : A → A) (xs : List A)
      → All (λ x. p x ≡ true → P x → P (f x)) xs
      → All P xs
      → All P (update p f xs)
  update-All P p f [] k h = tt
  update-All P p f (x ∷ xs) k h = elim (Bool-cases (p x)) [
    | inl e ↦ rw e (k.0 e h.0, update-All P p f xs k.1 h.1)
    | inr e ↦ rw e (h.0, update-All P p f xs k.1 h.1)
  ]

  -- A search that fails in the first part goes on in the second.
  pub find-append_none :
      (p : A → Bool) (xs ys : List A) → find p xs ≡ none → find p (xs ++ ys) ≡ find p ys
  find-append_none p [] ys h = refl
  find-append_none p (x ∷ xs) ys h = ground (arith, find-append_none p xs ys)

  -- A search by a condition that the UPDATE keeps finds the changed row.
  pub find-update :
      (p : A → Bool) (f : A → A) (xs : List A) (x : A)
      → ((y : A) → p y ≡ true → p (f y) ≡ true)
      → find p xs ≡ some x
      → find p (update p f xs) ≡ some (f x)
  find-update p f [] x k h = cc
  find-update p f (y ∷ xs) x k h = ground (arith, k y, find-update p f xs x k)

  pub count-select-le : (p q : A → Bool) (xs : List A) → count p (select q xs) ≤ count p xs
  count-select-le p q [] = omega arith
  count-select-le p q (x ∷ xs) = ground (arith, count-select-le p q xs)

  pub length-select :
      (p : A → Bool) (xs : List A) → length (select p xs) + count (λ x. not (p x)) xs ≡ length xs
  length-select p [] = refl
  length-select p (x ∷ xs) = ground (arith, length-select p xs)

  -- The same for an UPDATE under another condition, where the change does not show in the search.
  pub find-update_at :
      (p q : A → Bool) (f : A → A) (xs : List A) (x : A)
      → ((y : A) → p (f y) ≡ p y)
      → find p xs ≡ some x
      → q x ≡ true
      → find p (update q f xs) ≡ some (f x)
  find-update_at p q f [] x k h hit = cc
  find-update_at p q f (y ∷ xs) x k h hit = ground (arith, k y, find-update_at p q f xs x k)

  -- After an UPDATE whose condition no changed row meets, no row meets it.
  pub All-of_count : (p : A → Bool) (xs : List A) → count p xs ≡ 0 → All (λ x. p x ≡ false) xs
  All-of_count p [] h = tt
  All-of_count p (x ∷ xs) h = (ground arith, All-of_count p xs (ground arith))
