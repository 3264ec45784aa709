-- ===== src/Approval/Sender/Recovery.antt =====
-- `recover_startup`, and the attempts that a crash left in flight.
use whatsvault.Base.{ℕ, ◌+◌, ◌≡◌, refl, Bool, true, List, [], ◌∷◌, inl, inr, arith}
use whatsvault.Base.Eq.{Bool-cases}
use whatsvault.Base.Table.{update, count}
use whatsvault.Base.Conn.{Conn}
use whatsvault.Approval.Schema.{Attempt, AttemptState, is_submitting, is_indeterminate, ApprovalDb}
use whatsvault.Approval.Sender.{recover_startup}

abbrev pub in_flight : Attempt → Bool
in_flight a = is_submitting a.state

abbrev pub unresolved : Attempt → Bool
unresolved a = is_indeterminate a.state

abbrev strand : ℕ → Attempt → Attempt
strand now a = record a { state = AttemptState.indeterminate; updated_at_ms = now }

strand-in_flight :
    (now : ℕ) (l : List Attempt) → count in_flight (update in_flight (strand now) l) ≡ 0
strand-in_flight now [] = refl
strand-in_flight now (a ∷ l) = ground (arith, strand-in_flight now l)

strand-unresolved :
    (now : ℕ) (l : List Attempt)
    → count unresolved (update in_flight (strand now) l) ≡ count unresolved l + count in_flight l
strand-unresolved now [] = refl
strand-unresolved now (a ∷ l) = one_more a.state (strand-unresolved now l)
  where
    Goal : AttemptState → Type 0
    Goal st =
        count unresolved (update in_flight (strand now) (record a { state = st } ∷ l))
        ≡ count unresolved (record a { state = st } ∷ l)
          + count in_flight (record a { state = st } ∷ l)

    one_more :
        (st : AttemptState)
        → count unresolved (update in_flight (strand now) l)
          ≡ count unresolved l + count in_flight l
        → Goal st
    one_more AttemptState.submitting ih = omega arith
    one_more AttemptState.indeterminate ih = omega arith
    one_more AttemptState.submitted ih = omega arith
    one_more AttemptState.failed ih = omega arith
    one_more AttemptState.abandoned_indeterminate ih = omega arith

strand_none :
    (now : ℕ) (l : List Attempt) → count in_flight l ≡ 0 → update in_flight (strand now) l ≡ l
strand_none now [] h = refl
strand_none now (a ∷ l) h = ground (arith, strand_none now l)

-- What recovery makes of the attempts, row by row: one in flight is indeterminate and dated now, and any
-- other is as it was.
abbrev pub Recovered : ℕ → List Attempt → List Attempt → Type 0
Recovered now [] [] = Unit
Recovered now (a ∷ l) (b ∷ m) =
    (a.state ≡ AttemptState.submitting
      → b ≡ record a { state = AttemptState.indeterminate; updated_at_ms = now })
    × (¬ (a.state ≡ AttemptState.submitting) → b ≡ a)
    × Recovered now l m
Recovered now _ _ = ⊥

is_submitting_complete :
    (st : AttemptState) → st ≡ AttemptState.submitting → is_submitting st ≡ true
is_submitting_complete st e = rw e refl

is_submitting_sound : (st : AttemptState) → is_submitting st ≡ true → st ≡ AttemptState.submitting
is_submitting_sound AttemptState.submitting h = refl
is_submitting_sound AttemptState.indeterminate h = cc
is_submitting_sound AttemptState.submitted h = cc
is_submitting_sound AttemptState.failed h = cc
is_submitting_sound AttemptState.abandoned_indeterminate h = cc

strand-Recovered : (now : ℕ) (l : List Attempt) → Recovered now l (update in_flight (strand now) l)
strand-Recovered now [] = tt
strand-Recovered now (a ∷ l) = elim (Bool-cases (is_submitting a.state)) [
  | inl stranded ↦
      rw stranded
        (λ e. refl, λ n. absurd (n (is_submitting_sound a.state stranded)), strand-Recovered now l)
  | inr other ↦ rw other (λ e. cc, λ n. refl, strand-Recovered now l)
]

-- Recovery reports as many attempts as are in flight. It makes each of them indeterminate and changes no
-- other attempt and no other table, and this is committed; no attempt is in flight after it, and a second
-- recovery reports none and changes no attempt.
pub recover_startup_lem :
    (now later : ℕ) (c : Conn ApprovalDb)
    → let (n, c') = recover_startup now c in
      (n ≡ count in_flight c.work.attempts)
      × Recovered now c.work.attempts c'.saved.attempts
      × (c'.saved ≡ record c.work { attempts = c'.saved.attempts })
      × (count in_flight c'.work.attempts ≡ 0)
      × (count unresolved c'.work.attempts ≡ count unresolved c.work.attempts + n)
      × (c'.saved ≡ c'.work)
      × ((recover_startup later c').0 ≡ 0)
      × ((recover_startup later c').1.work.attempts ≡ c'.work.attempts)
unfolding recover_startup
recover_startup_lem now later c = (
  refl,
  strand-Recovered now c.work.attempts,
  refl,
  strand-in_flight now c.work.attempts,
  strand-unresolved now c.work.attempts,
  refl,
  strand-in_flight now c.work.attempts,
  strand_none later (update in_flight (strand now) c.work.attempts)
      (strand-in_flight now c.work.attempts),
)
