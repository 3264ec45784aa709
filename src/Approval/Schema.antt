-- ===== src/Approval/Schema.antt =====
-- The approval tables of control.db, src/whatsvault/db/migrations/control/0001_initial.sql and
-- those after it. A column that is written and never read back, such as a display snapshot, has no
-- field. Times are milliseconds since the epoch, and natural numbers.
use whatsvault.Base.{ℕ, String, Bool, true, false, Option, List}
use whatsvault.Base.Bytes.{Bytes}

pub data DeviceStatus : Type 0 where
  active revoked : DeviceStatus

abbrev pub is_active : DeviceStatus → Bool
is_active DeviceStatus.active = true
is_active DeviceStatus.revoked = false

pub record Device : Type 0 where
  pub id : String
  pub name : String
  pub public_key : Bytes
  pub agreement_public_key : Option Bytes
  pub created_at_ms : Option ℕ
  pub status : DeviceStatus

pub data DraftState : Type 0 where
  draft pending_approval approval_received sending submitting submitted : DraftState
  expired rejected cancelled failed indeterminate abandoned_indeterminate : DraftState

abbrev pub is_pending : DraftState → Bool
is_pending DraftState.pending_approval = true
is_pending _ = false

pub record Draft : Type 0 where
  pub id : String
  pub conversation_id : String
  pub account_id : String
  pub phone_number_id : String
  pub recipient_wa_id : Option String
  pub body_bytes : Option Bytes
  pub body_sha256 : Option Bytes
  pub kind : String
  pub template_id : Option String
  pub template_params_sha256 : Option Bytes
  pub attachments_digest : Option Bytes
  pub reply_to_wamid : Option String
  pub target_message_wamid : Option String
  pub nonce : Option Bytes
  pub created_at_ms : Option ℕ
  pub expires_at_ms : Option ℕ
  pub state : DraftState

pub record Approval : Type 0 where
  pub approval_id : String
  pub draft_id : String
  pub device_id : String
  pub decision : String
  pub signature : Bytes
  pub nonce : Option Bytes

pub record ConsumedNonce : Type 0 where
  pub nonce : Bytes
  pub consumed_by : String
  pub consumed_at_ms : ℕ

pub data AttemptState : Type 0 where
  submitting submitted failed indeterminate abandoned_indeterminate : AttemptState

abbrev pub is_submitting : AttemptState → Bool
is_submitting AttemptState.submitting = true
is_submitting _ = false

abbrev pub is_indeterminate : AttemptState → Bool
is_indeterminate AttemptState.indeterminate = true
is_indeterminate _ = false

pub record Attempt : Type 0 where
  pub id : String
  pub draft_id : String
  pub idempotency_key : String
  pub state : AttemptState
  pub wamid : Option String
  pub error_code : Option String
  pub created_at_ms : ℕ
  pub updated_at_ms : ℕ

pub record Grant : Type 0 where
  pub capability_id : String
  pub device_id : String
  pub account_id : Option String
  pub conversation_id : Option String
  pub action : String
  pub created_at_ms : Option ℕ
  pub expires_at_ms : Option ℕ
  pub max_actions : Option ℕ
  pub used_count : ℕ
  pub nonce : Option Bytes
  pub signature : Bytes
  pub status : DeviceStatus

pub record Window : Type 0 where
  pub conversation_id : String
  pub last_inbound_ms : ℕ

pub data CandidateState : Type 0 where
  possible_match resolved dismissed : CandidateState

pub record Candidate : Type 0 where
  pub id : String
  pub wamid : Option String
  pub recipient_id : Option String
  pub provider_ts_ms : Option ℕ
  pub status : Option String
  pub state : CandidateState
  pub resolution : Option String
  pub created_at_ms : ℕ

pub record ApprovalDb : Type 0 where
  pub devices : List Device
  pub drafts : List Draft
  pub approvals : List Approval
  pub nonces : List ConsumedNonce
  pub attempts : List Attempt
  pub grants : List Grant
  pub windows : List Window
  pub candidates : List Candidate

-- The exceptions that leave an operation of the chain.
pub data Exn : Type 0 where
  integrity_error value_error overflow_error index_error unicode_error provider_error : Exn

pub data Result {ℓ} (A : Type ℓ) : Type ℓ where
  ok : A → Result A
  raised : Exn → Result A
