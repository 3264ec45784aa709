-- ===== src/Approval/Clock.antt =====
-- src/whatsvault/approval/clockguard.py: the sender's trust in the wall clock.
use whatsvault.Base.{ℕ, ◌≤◌, ◌≡◌, Bool, false, Option, none, some, List, [], ◌∷◌, arith}
use whatsvault.Base.Eq.{if◌then◌else◌, ltb}

-- `ClockGuard._last`
abbrev pub Guard : Type 0
Guard = Option ℕ

abbrev runs_back : ℕ → Guard → Bool
runs_back n none = false
runs_back n (some last) = ltb n last

-- `trusted_now`, with what `self._now()` returns: `none` is `ClockUntrusted`.
unfoldable pub trusted_now : ℕ → Guard → Option ℕ × Guard
trusted_now n last = if runs_back n last then (none, last) else (some n, some n)

-- A trusted reading is the clock's, and becomes the guard's.
pub trusted_now-some :
    (n t : ℕ) (last g : Guard) → trusted_now n last ≡ (some t, g) → (t ≡ n) × (g ≡ some n)
unfolding trusted_now
trusted_now-some n t last g h = ground arith

-- The readings that a guard lets through, in a series of calls.
unfoldable pub accepted : Guard → List ℕ → List ℕ
unfolding trusted_now
accepted last [] = []
accepted last (n ∷ ns) =
    let (r, next) = trusted_now n last in
    let rest = accepted next ns in elim r [ none ↦ rest | some t ↦ t ∷ rest ]

abbrev NotBefore : Guard → ℕ → Type 0
NotBefore none t = Unit
NotBefore (some last) t = last ≤ t

-- Each reading is no earlier than the one before it, and none is earlier than `last`.
abbrev pub NeverBack : Guard → List ℕ → Type 0
NeverBack last [] = Unit
NeverBack last (t ∷ ts) = NotBefore last t × NeverBack (some t) ts

-- Whatever the wall clock reports, each trusted reading is at least the one trusted before it, and
-- the first is at least the guard's last reading, if it has one.
pub accepted-NeverBack : (last : Guard) (ns : List ℕ) → NeverBack last (accepted last ns)
unfolding accepted
accepted-NeverBack last [] = tt
accepted-NeverBack none (n ∷ ns) = (tt, accepted-NeverBack (some n) ns)
accepted-NeverBack (some last) (n ∷ ns) =
    ground (arith, accepted-NeverBack (some n) ns, accepted-NeverBack (some last) ns)
