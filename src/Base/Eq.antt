-- ===== src/Base/Eq.antt =====
-- Python's `==` for every type whose equality can be decided, tests on numbers, and `if`.
use Prim.Native.Nat.{ℕ, compare, Ordering}
use Prim.Native.String.{String}
use native.Mathlib.Decide.{ℕ_discrete}
use native.Mathlib.Omega.{arith}
use mathlib.Core.Path.{◌≡◌, refl, ap}
use mathlib.Core.Logic.{ite, dite, ◌⊎◌, inl, inr}
use mathlib.Core.Bool.{Bool, true, false, Bool-discrete}
use mathlib.Core.Option.{Option, none, some, none-ne-some, some-ne-none, some-injective}
use mathlib.Core.List.{List, [], ◌∷◌}
use text.Mathlib.Text
use text.Mathlib.TextEquality.{eq_iff}

infix 1 if◌then◌else◌
abbrev pub if◌then◌else◌ {ℓ} : {A : Type ℓ} → Bool → A → A → A
if true then x else y = x
if false then x else y = y

abbrev pub ltb : ℕ → ℕ → Bool
ltb a b = elim (compare a b) [ Ordering.lt ↦ true | _ ↦ false ]

abbrev pub leb : ℕ → ℕ → Bool
leb a b = elim (compare a b) [ Ordering.gt ↦ false | _ ↦ true ]

pub record Eq {ℓ} (A : Type ℓ) : Type ℓ where
  pub dec : Discrete A

module _ {ℓ} {A : Type ℓ} ⦃e : Eq A⦄ where
  infix 50 ◌==◌
  abbrev pub ◌==◌ : A → A → Bool
  a == b = ite (e.dec a b) true false

  option_dec : Discrete (Option A)
  option_dec none none = yes refl
  option_dec none (some b) = no (none-ne-some b)
  option_dec (some a) none = no (some-ne-none a)
  option_dec (some a) (some b) =
      dite (e.dec a b) (λ p. yes (ap some p)) (λ n. no (λ p. n (some-injective a b p)))

  instance unfoldable pub option_eq : Eq (Option A)
  unfolding option_dec
  option_eq = record { dec = option_dec }

  pub ==-refl : (a : A) → (a == a) ≡ true
  ==-refl a = ground arith

  pub ==-sound : (a b : A) → (a == b) ≡ true → a ≡ b
  ==-sound a b h = ground arith

instance unfoldable pub nat_eq : Eq ℕ
unfolding ℕ_discrete
nat_eq = record { dec = ℕ_discrete }

instance unfoldable pub string_eq : Eq String
string_eq = record {
  dec = λ s t.
      dite (Bool-discrete (Text.◌==◌ s t) true) (λ same. yes ((eq_iff s t).0 same))
        (λ differ. no (λ p. differ ((eq_iff s t).1 p)));
}

cons_eq : (x y : ℕ) (xs ys : List ℕ) → x ≡ y → xs ≡ ys → x ∷ xs ≡ y ∷ ys
cons_eq x y xs ys p q = cc

cons_ne_head : (x y : ℕ) (xs ys : List ℕ) → ¬ (x ≡ y) → ¬ (x ∷ xs ≡ y ∷ ys)
cons_ne_head x y xs ys n p = n (cc)

cons_ne_tail : (x y : ℕ) (xs ys : List ℕ) → ¬ (xs ≡ ys) → ¬ (x ∷ xs ≡ y ∷ ys)
cons_ne_tail x y xs ys n p = n (cc)

nil_ne_cons : (y : ℕ) (ys : List ℕ) → ¬ ([] ≡ y ∷ ys)
nil_ne_cons y ys p = cc

cons_ne_nil : (x : ℕ) (xs : List ℕ) → ¬ (x ∷ xs ≡ [])
cons_ne_nil x xs p = cc

list_dec : Discrete (List ℕ)
unfolding ℕ_discrete
list_dec [] [] = yes refl
list_dec [] (y ∷ ys) = no (nil_ne_cons y ys)
list_dec (x ∷ xs) [] = no (cons_ne_nil x xs)
list_dec (x ∷ xs) (y ∷ ys) =
    dite (ℕ_discrete x y)
      (λ p.
        dite (list_dec xs ys) (λ q. yes (cons_eq x y xs ys p q))
          (λ n. no (cons_ne_tail x y xs ys n)))
      (λ n. no (cons_ne_head x y xs ys n))

instance unfoldable pub bytes_eq : Eq (List ℕ)
unfolding list_dec cons_eq cons_ne_head cons_ne_tail nil_ne_cons cons_ne_nil
bytes_eq = record { dec = list_dec }

pub Bool-cases : (b : Bool) → (b ≡ true) ⊎ (b ≡ false)
Bool-cases true = inl refl
Bool-cases false = inr refl

pub Option-cases {ℓ} : {A : Type ℓ} (o : Option A) → (o ≡ none) ⊎ ((a : A) × (o ≡ some a))
Option-cases none = inl refl
Option-cases (some a) = inr (a, refl)

-- What holds of both branches holds of the choice.
pub either_way {ℓ κ} :
    {A : Type ℓ} (P : A → Type κ) (b : Bool) (x y : A) → P x → P y → P (if b then x else y)
either_way P true x y hx hy = hx
either_way P false x y hx hy = hy

-- The same, where each branch knows the test.
pub if_cases {ℓ κ} :
    {A : Type ℓ} (P : A → Type κ) (b : Bool) (x y : A)
    → (b ≡ true → P x)
    → (b ≡ false → P y)
    → P (if b then x else y)
if_cases P true x y hx hy = hx refl
if_cases P false x y hx hy = hy refl
