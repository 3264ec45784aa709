-- ===== src/Base/Int.antt =====
-- Python's `int` as far as timestamps need it: a number of either sign.
use whatsvault.Base.{ℕ, Bool, true, false, ◌+◌, ◌-◌, ◌*◌, max, min}
use whatsvault.Base.Eq.{if◌then◌else◌, ltb}

-- `negsuc n` is -(n + 1)
pub data ℤ : Type 0 where
  pos : ℕ → ℤ
  negsuc : ℕ → ℤ

abbrev pub ltb_ℤ : ℤ → ℤ → Bool
ltb_ℤ (pos a) (pos b) = ltb a b
ltb_ℤ (pos a) (negsuc b) = false
ltb_ℤ (negsuc a) (pos b) = true
ltb_ℤ (negsuc a) (negsuc b) = ltb b a

-- `max(0, z)`
abbrev pub at_least_0 : ℤ → ℕ
at_least_0 (pos n) = n
at_least_0 (negsuc n) = 0

-- `z * 1000`
abbrev pub times_1000 : ℤ → ℤ
times_1000 (pos n) = pos (n * 1000)
times_1000 (negsuc n) = negsuc (n * 1000 + 999)

-- `z + k`
abbrev pub plus : ℤ → ℕ → ℤ
plus (pos n) k = pos (n + k)
plus (negsuc n) k = if ltb n k then pos (k - n - 1) else negsuc (n - k)

abbrev pub min_ℤ : ℤ → ℤ → ℤ
min_ℤ (pos a) (pos b) = pos (min a b)
min_ℤ (pos a) (negsuc b) = negsuc b
min_ℤ (negsuc a) (pos b) = negsuc a
min_ℤ (negsuc a) (negsuc b) = negsuc (max a b)

abbrev pub max_ℤ : ℤ → ℤ → ℤ
max_ℤ (pos a) (pos b) = pos (max a b)
max_ℤ (pos a) (negsuc b) = pos a
max_ℤ (negsuc a) (pos b) = pos b
max_ℤ (negsuc a) (negsuc b) = negsuc (min a b)
