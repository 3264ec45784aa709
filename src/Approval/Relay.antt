-- ===== src/Approval/Relay.antt =====
-- src/whatsvault/approval/relay.py: `accept_envelope`, which files a signed decision.
pub mod Idempotent
use whatsvault.Base.{
  ℕ, String, Bool, true, false, not, ◌&&◌, ◌||◌, Option, none, some, List, [], ◌∷◌, ◌++◌,
}
use whatsvault.Base.Eq.{if◌then◌else◌, ◌==◌, string_eq, bytes_eq, option_eq, nat_eq}
use whatsvault.Base.Table.{find, any, length}
use whatsvault.Base.Conn.{Conn, write, commit}
use whatsvault.Base.Bytes.{Bytes}
use whatsvault.Approval.Schema.{
  Device, is_active, Draft, Approval, ApprovalDb, Exn, integrity_error, value_error,
}

-- What `json.loads` and `bytes.fromhex` read of an envelope: a missing key is `none`, a missing
-- signature is empty.
pub record Envelope : Type 0 where
  pub device_id : Option String
  pub draft_id : Option String
  pub decision : Option String
  pub signature : Bytes
  pub nonce : Option Bytes

pub data Reply : Type 0 where
  accepted : String → Reply
  unknown_or_inactive_device bad_signature_length bad_decision unknown_draft : Reply
  accept_raised : Exn → Reply

-- `WHERE draft_id=? AND device_id=? AND decision=? AND nonce=?`: in SQL a null nonce equals none.
abbrev pub is_filed : String → String → String → Option Bytes → Approval → Bool
is_filed draft_id device_id decision none a = false
is_filed draft_id device_id decision (some n) a =
    a.draft_id == draft_id
    && (a.device_id == device_id && (a.decision == decision && a.nonce == some n))

abbrev nonce_fits : Option Bytes → Bool
nonce_fits none = true
nonce_fits (some n) = length n == 32

abbrev approval_row : String → String → String → String → Envelope → Approval
approval_row i draft_id device_id decision env = record {
  approval_id = i;
  draft_id = draft_id;
  device_id = device_id;
  decision = decision;
  signature = env.signature;
  nonce = env.nonce;
}

-- The INSERT: the primary key, and the CHECK on the nonce; the UNIQUE slot was found empty.
abbrev pub insert_approval :
    String → String → String → String → Envelope → Conn ApprovalDb → Reply × Conn ApprovalDb
insert_approval i draft_id device_id decision env c =
    if not (any (λ (a : Approval). a.approval_id == i) c.work.approvals) && nonce_fits env.nonce
    then (
      accepted i,
      commit (
          write
            (record c.work {
              approvals = c.work.approvals ++ approval_row i draft_id device_id decision env ∷ [];
            })
            c),
    )
    else (accept_raised integrity_error, c)

unfoldable pub file_envelope :
    String → String → String → String → Envelope → Conn ApprovalDb → Reply × Conn ApprovalDb
file_envelope i draft_id device_id decision env c =
    elim (find (is_filed draft_id device_id decision env.nonce) c.work.approvals) [
      | some a ↦ (accepted a.approval_id, c)
      | none ↦ insert_approval i draft_id device_id decision env c
    ]

abbrev pub device_is_active : ApprovalDb → String → Bool
device_is_active db i = elim (find (λ (d : Device). d.id == i) db.devices) [
  | none ↦ false
  | some d ↦ is_active d.status
]

abbrev pub draft_exists : ApprovalDb → String → Bool
draft_exists db i = any (λ (d : Draft). d.id == i) db.drafts

abbrev pub is_decision : String → Bool
is_decision s = s == "APPROVE" || s == "REJECT"

abbrev check_named :
    String
    → String
    → Option String
    → Option String
    → Envelope
    → Conn ApprovalDb
    → Reply × Conn ApprovalDb
check_named i device_id none draft_id env c = (bad_decision, c)
check_named i device_id (some decision) none env c =
    (if is_decision decision then unknown_draft else bad_decision, c)
check_named i device_id (some decision) (some draft_id) env c =
    if not (is_decision decision)
    then (bad_decision, c)
    else if not (draft_exists c.work draft_id)
    then (unknown_draft, c)
    else file_envelope i draft_id device_id decision env c

abbrev check_device : String → Option String → Envelope → Conn ApprovalDb → Reply × Conn ApprovalDb
check_device i none env c = (unknown_or_inactive_device, c)
check_device i (some device_id) env c =
    if not (device_is_active c.work device_id)
    then (unknown_or_inactive_device, c)
    else if not (length env.signature == 64)
    then (bad_signature_length, c)
    else check_named i device_id env.decision env.draft_id env c

-- `accept_envelope`, with the identifier of `ids.new_id("apv")`.
unfoldable pub accept_envelope : String → Envelope → Conn ApprovalDb → Reply × Conn ApprovalDb
accept_envelope i env c = check_device i env.device_id env c
