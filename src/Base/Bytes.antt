-- ===== src/Base/Bytes.antt =====
-- Byte strings as lists of numbers below 256, and Python's `int.to_bytes(w, "big")`.
use Prim.Native.Nat.{ℕ, zero, suc, ◌+◌, ◌*◌, ◌/◌, ◌%◌, ◌^◌, ◌<◌}
use mathlib.Core.Path.{◌≡◌, refl, sym, ap, ◌∙◌}
use mathlib.Core.List.{List, [], ◌∷◌, ◌++◌}
use Prim.Native.Char.{code}
use Prim.Native.String.{String}
use native.Mathlib.Omega.{arith}
use native.Mathlib.Nat.{pow-suc}
use whatsvault.Base.Table.{length, length-append}

abbrev pub Byte : Type 0
Byte = ℕ

abbrev pub Bytes : Type 0
Bytes = List Byte

-- The code points of a text: its bytes, where it is ASCII.
abbrev pub codes : String → Bytes
codes String.[] = []
codes (String.◌∷◌ c s) = code c ∷ codes s

abbrev pub take {ℓ} : {A : Type ℓ} → ℕ → List A → List A
take zero xs = []
take (suc n) [] = []
take (suc n) (x ∷ xs) = x ∷ take n xs

abbrev pub drop {ℓ} : {A : Type ℓ} → ℕ → List A → List A
drop zero xs = xs
drop (suc n) [] = []
drop (suc n) (x ∷ xs) = drop n xs

-- `int.from_bytes(b, "big")`
be_value_from : ℕ → Bytes → ℕ
be_value_from acc [] = acc
be_value_from acc (b ∷ bs) = be_value_from (acc * 256 + b) bs

unfoldable pub be_value : Bytes → ℕ
unfolding be_value_from
be_value = be_value_from 0

-- `n.to_bytes(w, "big")` for a number that fits
unfoldable pub be_bytes : ℕ → ℕ → Bytes
be_bytes zero n = []
be_bytes (suc w) n = be_bytes w (n / 256) ++ (n % 256) ∷ []

pub length-be_bytes : (w n : ℕ) → length (be_bytes w n) ≡ w
unfolding be_bytes
length-be_bytes zero n = refl
length-be_bytes (suc w) n =
    omega
      (arith, length-append (be_bytes w (n / 256)) ((n % 256) ∷ []), length-be_bytes w (n / 256))

be_value_from-append :
    (acc : ℕ) (xs : Bytes) (b : Byte)
    → be_value_from acc (xs ++ b ∷ []) ≡ be_value_from acc xs * 256 + b
unfolding be_value_from
be_value_from-append acc [] b = refl
be_value_from-append acc (x ∷ xs) b = be_value_from-append (acc * 256 + x) xs b

-- Decoding what was encoded gives the number back, where it fits in the width.
pub be_value-be_bytes : (w n : ℕ) → n < 256 ^ w → be_value (be_bytes w n) ≡ n
unfolding be_value be_bytes
be_value-be_bytes zero n h = omega arith
be_value-be_bytes (suc w) n h =
    let small : n < 256 ^ w * 256 = omega (arith, pow-suc 256 w) in
    omega (
      arith,
      be_value_from-append 0 (be_bytes w (n / 256)) (n % 256),
      be_value-be_bytes w (n / 256) (omega arith),
    )

-- A fixed-width number is determined by its bytes.
pub be_bytes-injective :
    (w m n : ℕ) → m < 256 ^ w → n < 256 ^ w → be_bytes w m ≡ be_bytes w n → m ≡ n
be_bytes-injective w m n hm hn e =
    sym (be_value-be_bytes w m hm) ∙ ap be_value e ∙ be_value-be_bytes w n hn

-- Two texts that begin with equally long parts are equal part by part.
pub append-injective :
    (xs ys us vs : Bytes) → length xs ≡ length ys → xs ++ us ≡ ys ++ vs → (xs ≡ ys) × (us ≡ vs)
append-injective [] [] us vs h e = (refl, e)
append-injective [] (y ∷ ys) us vs h e = absurd (omega arith)
append-injective (x ∷ xs) [] us vs h e = absurd (omega arith)
append-injective (x ∷ xs) (y ∷ ys) us vs h e =
    ground (arith, append-injective xs ys us vs (omega arith))
