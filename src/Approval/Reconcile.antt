-- ===== src/Approval/Reconcile.antt =====
-- src/whatsvault/approval/reconcile.py: status events resolve indeterminate attempts.
pub mod Transitions
use Prim.Native.Char.{Char, code}
use whatsvault.Base.{
  ℕ, String, Bool, true, false, not, ◌&&◌, ◌||◌, Option, none, some, List, [], ◌∷◌, ◌++◌,
}
use whatsvault.Base.Eq.{if◌then◌else◌, ◌==◌, string_eq, option_eq, nat_eq}
use whatsvault.Base.Table.{find, update, count, any}
use whatsvault.Base.Conn.{Conn, write, commit}
use whatsvault.Approval.Schema.{
  Attempt, AttemptState, is_indeterminate, Candidate, CandidateState, ApprovalDb, Exn,
  integrity_error,
}

-- The keys that are read of a status event.
pub record StatusEvent : Type 0 where
  pub wamid : Option String
  pub biz_opaque_callback_data : Option String
  pub recipient_id : Option String
  pub provider_ts_ms : Option ℕ
  pub status : Option String

pub data Match : Type 0 where
  resolved : String → Match
  possible_match : String → Match
  match_raised : Exn → Match

-- `callback[4:]` where `callback.startswith("wv1:")`
unfoldable pub attempt_ref : String → Option String
attempt_ref (String.◌∷◌ a (String.◌∷◌ b (String.◌∷◌ c (String.◌∷◌ d rest)))) =
    if code a == b'w' && (code b == b'v' && (code c == b'1' && code d == b':'))
    then some rest
    else none
attempt_ref s = none

abbrev pub is_awaited : String → Attempt → Bool
is_awaited i a = a.id == i && is_indeterminate a.state

-- The UPDATE by the callback, which is committed also where it changes no row.
unfoldable pub submit_awaited : String → Option String → ℕ → Conn ApprovalDb → Conn ApprovalDb
submit_awaited i wamid now c = commit (
    write
      (record c.work {
        attempts =
            update (is_awaited i)
              (λ a. record a { state = AttemptState.submitted; wamid = wamid; updated_at_ms = now })
              c.work.attempts;
      })
      c)

-- A known wamid: its attempt is touched.
unfoldable pub touch_attempt : String → ℕ → Conn ApprovalDb → Conn ApprovalDb
touch_attempt i now c = commit (
    write
      (record c.work {
        attempts =
            update (λ (a : Attempt). a.id == i) (λ a. record a { updated_at_ms = now })
              c.work.attempts;
      })
      c)

abbrev candidate_row : String → StatusEvent → ℕ → Candidate
candidate_row i e now = record {
  id = i;
  wamid = e.wamid;
  recipient_id = e.recipient_id;
  provider_ts_ms = e.provider_ts_ms;
  status = e.status;
  state = CandidateState.possible_match;
  resolution = none;
  created_at_ms = now;
}

unfoldable pub record_candidate :
    String → StatusEvent → ℕ → Conn ApprovalDb → Match × Conn ApprovalDb
record_candidate i e now c =
    if any (λ (x : Candidate). x.id == i) c.work.candidates
    then (match_raised integrity_error, c)
    else (
      possible_match i,
      commit (
          write (record c.work { candidates = c.work.candidates ++ candidate_row i e now ∷ [] }) c),
    )

-- `if wamid: SELECT id FROM send_attempts WHERE wamid=?`
abbrev pub by_wamid : Option String → List Attempt → Option Attempt
by_wamid none l = none
by_wamid (some w) l = if w == "" then none else find (λ (a : Attempt). a.wamid == some w) l

unfoldable pub match_wamid : String → StatusEvent → ℕ → Conn ApprovalDb → Match × Conn ApprovalDb
match_wamid i e now c = elim (by_wamid e.wamid c.work.attempts) [
  | some a ↦ (resolved a.id, touch_attempt a.id now c)
  | none ↦ record_candidate i e now c
]

abbrev pub callback_ref : Option String → Option String
callback_ref none = none
callback_ref (some s) = attempt_ref s

-- `on_status_event`, with the identifier of `ids.new_id("rcn")`.
unfoldable pub on_status_event :
    String → StatusEvent → ℕ → Conn ApprovalDb → Match × Conn ApprovalDb
on_status_event i e now c = elim (callback_ref e.biz_opaque_callback_data) [
  | none ↦ match_wamid i e now c
  | some attempt ↦
      let c' = submit_awaited attempt e.wamid now c in
      if count (is_awaited attempt) c.work.attempts == 1
      then (resolved attempt, c')
      else match_wamid i e now c'
]

-- `resolve`: a human's decision on a candidate.
unfoldable pub resolve : String → String → Conn ApprovalDb → CandidateState × Conn ApprovalDb
resolve candidate_id decision c =
    let state =
      if decision == "resolve" then CandidateState.resolved else CandidateState.dismissed in
    (
      state,
      commit (
          write
            (record c.work {
              candidates =
                  update (λ (x : Candidate). x.id == candidate_id)
                    (λ x. record x { state = state; resolution = some decision }) c.work.candidates;
            })
            c),
    )
