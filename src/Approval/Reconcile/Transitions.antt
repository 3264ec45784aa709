-- ===== src/Approval/Reconcile/Transitions.antt =====
-- What a status event does to the states of the attempts.
use whatsvault.Base.{
  ℕ, String, ◌≡◌, ◌⊎◌, inl, inr, refl, Bool, true, false, Option, none, some, List, [], ◌∷◌, arith,
}
use whatsvault.Base.Eq.{if◌then◌else◌, ◌==◌, string_eq, option_eq, nat_eq, Bool-cases, Option-cases}
use whatsvault.Base.Table.{update, count, any}
use whatsvault.Base.Conn.{Conn}
use whatsvault.Approval.Schema.{Attempt, AttemptState, is_indeterminate, Candidate, ApprovalDb}
use whatsvault.Approval.Reconcile.{
  StatusEvent, callback_ref, is_awaited, submit_awaited, touch_attempt, record_candidate, by_wamid,
  match_wamid, on_status_event,
}

-- What an event with this callback may do to one attempt: leave its state and wamid alone, or take
-- it from indeterminate to submitted, if the callback names it.
abbrev pub Moves : Option String → Attempt → Attempt → Type 0
Moves ref a b =
    (b.id ≡ a.id)
    × (b.draft_id ≡ a.draft_id)
    × (b.idempotency_key ≡ a.idempotency_key)
    × (((b.state ≡ a.state) × (b.wamid ≡ a.wamid))
        ⊎ ((ref ≡ some a.id)
            × (a.state ≡ AttemptState.indeterminate)
            × (b.state ≡ AttemptState.submitted)))

abbrev pub AllMove : Option String → List Attempt → List Attempt → Type 0
AllMove ref [] [] = Unit
AllMove ref (a ∷ l) (b ∷ m) = Moves ref a b × AllMove ref l m
AllMove ref _ _ = ⊥

AllMove-refl : (ref : Option String) (l : List Attempt) → AllMove ref l l
AllMove-refl ref [] = tt
AllMove-refl ref (a ∷ l) = ((refl, refl, refl, inl (refl, refl)), AllMove-refl ref l)

AllMove-touch :
    (ref : Option String) (i : String) (now : ℕ) (l m : List Attempt)
    → AllMove ref l m
    → AllMove ref l (update (λ (a : Attempt). a.id == i) (λ a. record a { updated_at_ms = now }) m)
AllMove-touch ref i now [] [] h = tt
AllMove-touch ref i now (a ∷ l) [] h = absurd h
AllMove-touch ref i now [] (b ∷ m) h = absurd h
AllMove-touch ref i now (a ∷ l) (b ∷ m) h = (ground arith, AllMove-touch ref i now l m h.1)

is_indeterminate_sound :
    (s : AttemptState) → is_indeterminate s ≡ true → s ≡ AttemptState.indeterminate
is_indeterminate_sound AttemptState.indeterminate h = refl
is_indeterminate_sound AttemptState.submitting h = cc
is_indeterminate_sound AttemptState.submitted h = cc
is_indeterminate_sound AttemptState.failed h = cc
is_indeterminate_sound AttemptState.abandoned_indeterminate h = cc

AllMove-submit :
    (i : String) (wamid : Option String) (now : ℕ) (l : List Attempt)
    → AllMove (some i) l (
        update
          (is_awaited i)
          (λ a. record a { state = AttemptState.submitted; wamid = wamid; updated_at_ms = now })
          l)
AllMove-submit i wamid now [] = tt
AllMove-submit i wamid now (a ∷ l) =
    (submitted_moves (is_awaited i a) refl, AllMove-submit i wamid now l)
  where
    after : Bool → Attempt
    after b =
        if b
        then record a { state = AttemptState.submitted; wamid = wamid; updated_at_ms = now }
        else a

    submitted_moves : (b : Bool) → is_awaited i a ≡ b → Moves (some i) a (after b)
    submitted_moves false e = (refl, refl, refl, inl (refl, refl))
    submitted_moves true e =
        (refl, refl, refl, inr (ground arith, is_indeterminate_sound a.state (ground arith), refl))

match_wamid-AllMove :
    (ref : Option String) (i : String) (e : StatusEvent) (now : ℕ) (l : List Attempt)
    (c : Conn ApprovalDb)
    → AllMove ref l c.work.attempts
    → AllMove ref l (match_wamid i e now c).1.work.attempts
unfolding match_wamid touch_attempt record_candidate
match_wamid-AllMove ref i e now l c h = elim (Option-cases (by_wamid e.wamid c.work.attempts)) [
  | inr (a, found) ↦ rw (found, match_wamid) (AllMove-touch ref a.id now l c.work.attempts h)
  | inl unknown ↦ elim (Bool-cases (any (λ (x : Candidate). x.id == i) c.work.candidates)) [
    | inl taken ↦ rw (unknown, match_wamid, record_candidate, taken) h
    | inr fresh ↦ rw (unknown, match_wamid, record_candidate, fresh) h
  ]
]

-- Whatever a status event says, no attempt is added, dropped or renamed, and each keeps its state and
-- its wamid, but for one that was indeterminate and is named by the event's callback, which may
-- become submitted.
pub on_status_event-AllMove :
    (i : String) (e : StatusEvent) (now : ℕ) (c : Conn ApprovalDb)
    → AllMove
        (callback_ref e.biz_opaque_callback_data)
        c.work.attempts
        (on_status_event i e now c).1.work.attempts
unfolding on_status_event submit_awaited
on_status_event-AllMove i e now c = split (callback_ref e.biz_opaque_callback_data) refl
  where
    Goal : Option String → Type 0
    Goal ref = AllMove ref c.work.attempts (on_status_event i e now c).1.work.attempts

    split : (ref : Option String) → callback_ref e.biz_opaque_callback_data ≡ ref → Goal ref
    split none r =
        rw (r, on_status_event)
          (match_wamid-AllMove none i e now c.work.attempts c (AllMove-refl none c.work.attempts))
    split (some attempt) r =
        let moved = AllMove-submit attempt e.wamid now c.work.attempts in
        elim (Bool-cases (count (is_awaited attempt) c.work.attempts == 1)) [
          | inl one ↦ rw (r, on_status_event, one) moved
          | inr other ↦
              rw (r, on_status_event, other)
                (match_wamid-AllMove (some attempt) i e now c.work.attempts
                  (submit_awaited attempt e.wamid now c) moved)
        ]
