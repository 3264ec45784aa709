-- ===== src/Approval/Sender.antt =====
-- src/whatsvault/approval/sender.py: the permission-to-transmit transaction, the call of the
-- provider, and the record of its outcome.
pub mod Authority
pub mod Durable
pub mod Once
pub mod Posts
pub mod Rebound
pub mod Recovery
use whatsvault.Base.{
  ℕ, ◌+◌, ◌*◌, String, Bool, true, false, not, ◌&&◌, ◌||◌, Option, none, some, List, [], ◌∷◌, ◌++◌,
}
use whatsvault.Base.Eq.{if◌then◌else◌, ◌==◌, string_eq, bytes_eq, nat_eq, ltb}
use whatsvault.Base.Table.{find, update, count, any, length}
use whatsvault.Base.Conn.{Conn, write, commit}
use whatsvault.Base.Bytes.{Bytes}
use whatsvault.Crypto.{Crypto, verify}
use whatsvault.Approval.Schema.{
  Draft, ConsumedNonce, Attempt, AttemptState, is_submitting, Window, ApprovalDb, Exn,
  integrity_error, overflow_error, index_error, unicode_error, provider_error,
}
use whatsvault.Approval.Policy.{Context, Reason, PolicyResult, evaluate}
use whatsvault.Approval.Clock.{Guard, trusted_now}
use whatsvault.Approval.Canonical.{DecisionFields, encode}
use whatsvault.Approval.Devices.{active_signing_key}

-- The keys of `signed_envelope` that the sender reads.
pub record Envelope : Type 0 where
  pub draft_id : String
  pub device_id : String
  pub decision : String
  pub nonce : Bytes
  pub signature : Bytes

abbrev pub window_ms : ℕ
window_ms = 24 * 3600 * 1000

unfoldable pub canonical_fields : Draft → Envelope → DecisionFields
canonical_fields d env = record {
  decision = env.decision;
  draft_id = d.id;
  account_id = d.account_id;
  phone_number_id = d.phone_number_id;
  recipient_wa_id = d.recipient_wa_id;
  body_sha256 = d.body_sha256;
  kind = d.kind;
  template_id = d.template_id;
  template_params_sha256 = d.template_params_sha256;
  reply_to_wamid = d.reply_to_wamid;
  target_message_wamid = d.target_message_wamid;
  attachments_digest = d.attachments_digest;
  nonce = d.nonce;
  created_at_ms = d.created_at_ms;
  expires_at_ms = d.expires_at_ms;
  device_id = env.device_id;
}

unfoldable pub last_inbound : ApprovalDb → String → ℕ
last_inbound db conversation_id =
    elim (find (λ (w : Window). w.conversation_id == conversation_id) db.windows) [
      | none ↦ 0
      | some w ↦ w.last_inbound_ms
    ]

-- `_window_open`
unfoldable pub window_open : ApprovalDb → String → ℕ → Bool
unfolding last_inbound
window_open db conversation_id now =
    let last = last_inbound db conversation_id in ltb 0 last && ltb now (last + window_ms)

-- The reasons of `_deny`.
pub data Denial : Type 0 where
  unknown_draft not_approved device_inactive signature_invalid payload_changed : Denial
  policy : Reason → Denial
  approval_already_consumed : Denial

-- What stands before the transaction: a denial, an exception, or the draft that may be sent.
pub data Verdict : Type 0 where
  denied : Denial → Verdict
  failed : Exn → Verdict
  allowed : Draft → Verdict

abbrev pub body_of : Draft → Bytes
body_of d = elim d.body_bytes [ none ↦ [] | some b ↦ b ]

abbrev pub body_changed : Crypto → Draft → Bool
body_changed k d = elim d.body_sha256 [ none ↦ false | some h ↦ not (k.sha256 (body_of d) == h) ]

unfoldable pub send_context : ApprovalDb → Draft → ℕ → Context
unfolding window_open
send_context db d now = record {
  recipient_wa_id = d.recipient_wa_id;
  kind = d.kind;
  account_ok = true;
  now_ms = some now;
  expires_at_ms = d.expires_at_ms;
  device_active = true;
  rate_ok = true;
  recipient_is_group = false;
  window_open = window_open db d.conversation_id now;
}

-- `if not pol.ok: return _deny(pol.failed[0])`
unfoldable pub policy_verdict : PolicyResult → Draft → Verdict
policy_verdict r d =
    if r.ok
    then allowed d
    else elim r.failed [ [] ↦ failed index_error | x ∷ xs ↦ denied (policy x) ]

unfoldable pub check_payload : Crypto → ApprovalDb → Envelope → Draft → Bytes → ℕ → Bytes → Verdict
check_payload k db env d signing_pub now payload =
    if not (verify k payload env.signature signing_pub)
    then denied signature_invalid
    else if body_changed k d
    then denied payload_changed
    else policy_verdict (evaluate (send_context db d now)) d

unfoldable pub check_signature : Crypto → ApprovalDb → Envelope → Draft → ℕ → Bytes → Verdict
check_signature k db env d now signing_pub = elim (encode k (canonical_fields d env)) [
  | none ↦ failed overflow_error
  | some payload ↦ check_payload k db env d signing_pub now payload
]

unfoldable pub check_draft : Crypto → ApprovalDb → Envelope → ℕ → Draft → Verdict
check_draft k db env now d =
    if not (env.decision == "APPROVE")
    then denied not_approved
    else elim (active_signing_key db env.device_id) [
      | none ↦ denied device_inactive
      | some key ↦ check_signature k db env d now key
    ]

-- The checks of `execute_write`, from the lookup of the draft to the policy.
unfoldable pub authorise : Crypto → ApprovalDb → Envelope → ℕ → Verdict
authorise k db env now = elim (find (λ (d : Draft). d.id == env.draft_id) db.drafts) [
  | none ↦ denied unknown_draft
  | some d ↦ check_draft k db env now d
]

abbrev pub is_nonce : Bytes → ConsumedNonce → Bool
is_nonce n r = r.nonce == n

abbrev pub is_consumed : Bytes → ApprovalDb → Bool
is_consumed n db = any (is_nonce n) db.nonces

-- The INSERT into approval_nonces: its primary key, and CHECK (length(nonce) = 32).
abbrev pub nonce_admissible : ApprovalDb → Bytes → Bool
nonce_admissible db n = length n == 32 && not (is_consumed n db)

abbrev pub consume : Envelope → ℕ → ApprovalDb → ApprovalDb
consume env now db = record db {
  nonces =
      db.nonces
      ++ record { nonce = env.nonce; consumed_by = env.draft_id; consumed_at_ms = now } ∷ [];
}

abbrev pub idempotency_key : Crypto → Envelope → String
idempotency_key k env = k.hex (k.sha256 (k.utf8 env.draft_id ++ env.nonce))

-- The INSERT into send_attempts: its primary key and the UNIQUE idempotency key.
abbrev pub attempt_admissible : ApprovalDb → String → String → Bool
attempt_admissible db i key =
    not (any (λ (a : Attempt). a.id == i || a.idempotency_key == key) db.attempts)

abbrev pub open_attempt : String → String → Envelope → ℕ → ApprovalDb → ApprovalDb
open_attempt attempt_id idem env now db = record db {
  attempts =
      db.attempts
      ++ record {
        id = attempt_id;
        draft_id = env.draft_id;
        idempotency_key = idem;
        state = AttemptState.submitting;
        wamid = none;
        error_code = none;
        created_at_ms = now;
        updated_at_ms = now;
      }
        ∷ [];
}

pub data Permit : Type 0 where
  granted : Permit
  already_consumed : Permit
  broken : Exn → Permit

-- Consume the nonce, open the attempt, COMMIT. A second INSERT that fails raises out of the
-- function and leaves the first one pending.
unfoldable pub permit : Crypto → Envelope → String → ℕ → Conn ApprovalDb → Permit × Conn ApprovalDb
permit k env attempt_id now c =
    if nonce_admissible c.work env.nonce
    then (let consumed = write (consume env now c.work) c in
        let idem = idempotency_key k env in
        if attempt_admissible consumed.work attempt_id idem
        then (granted, commit (write (open_attempt attempt_id idem env now consumed.work) consumed))
        else (broken integrity_error, consumed))
    else (already_consumed, c)

-- What `provider.send_text` does: it returns a result, or raises one of the two exceptions that
-- are caught, or any other.
pub data Reply : Type 0 where
  submitted : Option String → Reply
  rejected : Option String → Reply
  timeout_after_send connect_failed other_exception : Reply

-- A call of `provider.send_text`, with the nonce that allowed it and the database that a crash at
-- that moment would leave.
pub record Post : Type 0 where
  pub nonce : Bytes
  pub attempt_id : String
  pub phone_number_id : String
  pub recipient_wa_id : Option String
  pub body : String
  pub durable : ApprovalDb

-- The columns that `_finish` writes beside the state: `_FINISH_COLUMNS`.
pub data Finish : Type 0 where
  no_column : Finish
  set_wamid set_error_code : Option String → Finish

abbrev pub set_column : Finish → Attempt → Attempt
set_column no_column a = a
set_column (set_wamid w) a = record a { wamid = w }
set_column (set_error_code e) a = record a { error_code = e }

unfoldable pub finish : String → ℕ → AttemptState → Finish → Conn ApprovalDb → Conn ApprovalDb
finish attempt_id now state cols c = commit (
    write
      (record c.work {
        attempts =
            update (λ (a : Attempt). a.id == attempt_id)
              (λ a. set_column cols (record a { state = state; updated_at_ms = now }))
              c.work.attempts;
      })
      c)

pub data Outcome : Type 0 where
  refused_clock_untrusted : Outcome
  denied : Denial → Outcome
  submitted : Option String → String → Outcome
  failed indeterminate : String → Outcome
  raised : Exn → Outcome

-- The handlers of the `try` around the provider's call.
unfoldable pub settle : Reply → String → ℕ → Conn ApprovalDb → Outcome × Conn ApprovalDb
unfolding finish
settle (Reply.submitted wamid) i now c =
    (Outcome.submitted wamid i, finish i now AttemptState.submitted (set_wamid wamid) c)
settle (rejected code) i now c =
    (Outcome.failed i, finish i now AttemptState.failed (set_error_code code) c)
settle timeout_after_send i now c =
    (Outcome.indeterminate i, finish i now AttemptState.indeterminate no_column c)
settle connect_failed i now c =
    (Outcome.failed i, finish i now AttemptState.failed (set_error_code (some "connect_fail")) c)
settle other_exception i now c = (Outcome.raised provider_error, c)

-- The process: its connection to control.db, its clock guard, and the calls that it has made.
pub record Sender : Type 0 where
  pub conn : Conn ApprovalDb
  pub guard : Guard
  pub posts : List Post

-- The call itself: a body that is no UTF-8 raises before it.
unfoldable pub post : Crypto → Envelope → Draft → String → Sender → Option Sender
post k env d attempt_id s = elim (k.decode_utf8 (body_of d)) [
  | none ↦ none
  | some text ↦ some (record s {
    posts =
        s.posts
        ++ record {
          nonce = env.nonce;
          attempt_id = attempt_id;
          phone_number_id = d.phone_number_id;
          recipient_wa_id = d.recipient_wa_id;
          body = text;
          durable = s.conn.saved;
        }
          ∷ [];
  })
]

abbrev pub settle_posted : Reply → String → ℕ → Option Sender → Sender → Outcome × Sender
settle_posted reply i now none s = (Outcome.raised unicode_error, s)
settle_posted reply i now (some s') s =
    let (out, c) = settle reply i now s'.conn in (out, record s' { conn = c })

abbrev pub after_permit :
    Permit → Crypto → Reply → Envelope → String → ℕ → Draft → Sender → Outcome × Sender
after_permit granted k reply env i now d s = settle_posted reply i now (post k env d i s) s
after_permit already_consumed k reply env i now d s = (Outcome.denied approval_already_consumed, s)
after_permit (broken e) k reply env i now d s = (Outcome.raised e, s)

-- From the transaction on, for a draft that passed the checks.
unfoldable pub transmit : Crypto → Reply → Envelope → String → ℕ → Draft → Sender → Outcome × Sender
transmit k reply env i now d s =
    let (p, c) = permit k env i now s.conn in
    after_permit p k reply env i now d (record s { conn = c })

abbrev pub on_verdict : Verdict → Crypto → Reply → Envelope → String → ℕ → Sender → Outcome × Sender
on_verdict (Verdict.denied r) k reply env i now s = (Outcome.denied r, s)
on_verdict (Verdict.failed e) k reply env i now s = (Outcome.raised e, s)
on_verdict (allowed d) k reply env i now s = transmit k reply env i now d s

abbrev pub on_clock : Option ℕ → Crypto → Reply → Envelope → String → Sender → Outcome × Sender
on_clock none k reply env i s = (refused_clock_untrusted, s)
on_clock (some now) k reply env i s =
    on_verdict (authorise k s.conn.work env now) k reply env i now s

-- `execute_write`, with what the wall clock shows, the identifier that `ids.new_id("atm")` returns
-- and what the provider does.
unfoldable pub execute_write : Crypto → ℕ → String → Reply → Envelope → Sender → Outcome × Sender
execute_write k clock i reply env s =
    let (now, guard) = trusted_now clock s.guard in
    on_clock now k reply env i (record s { guard = guard })

-- `recover_startup`: the rows changed, and the connection after them.
unfoldable pub recover_startup : ℕ → Conn ApprovalDb → ℕ × Conn ApprovalDb
recover_startup now c = (
  count (λ (a : Attempt). is_submitting a.state) c.work.attempts,
  commit (
      write
        (record c.work {
          attempts =
              update (λ (a : Attempt). is_submitting a.state)
                (λ a. record a { state = AttemptState.indeterminate; updated_at_ms = now })
                c.work.attempts;
        })
        c),
)
