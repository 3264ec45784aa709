-- ===== src/Approval/Tests.antt =====
-- Concrete values of the approval chain, for its tests.
mod Chain
mod Filing
use text.Mathlib.TextEquality.{Char-path}
use whatsvault.Base.{
  ℕ, ◌+◌, ◌≤◌, String, ◌≡◌, ◌↔◌, ◌⊎◌, ◌≢◌, refl, ap, Bool, true, false, Option, none, some, List,
  [], ◌∷◌, ◌++◌, arith,
}
use whatsvault.Base.Eq.{◌==◌, option_eq, string_eq, bytes_eq, nat_eq}
use whatsvault.Base.Table.{count, All}
use whatsvault.Base.Conn.{Conn, commit}
use whatsvault.Base.Bytes.{Bytes, codes, be_bytes}
use whatsvault.Crypto.{Crypto, verify}
use whatsvault.Approval.Schema.{
  Device, DeviceStatus, Draft, DraftState, Attempt, AttemptState, Window, ApprovalDb, is_submitting,
  Grant, ok,
}
use whatsvault.Approval.Relay
use whatsvault.Approval.Relay.{accept_envelope, file_envelope}
use whatsvault.Approval.Relay.Idempotent.{named, accept_envelope-again}
use whatsvault.Approval.Grants.{
  Message, marked, marked_if, encode_grant, grant_domain, grant_slots, check_grant, consume_first,
  verify_and_consume, mark_read,
}
use whatsvault.Approval.Grants.Bounds.{
  Answer, IsWithin, verify_and_consume-UsedOnce, verify_and_consume-IsWithin,
}
use whatsvault.Approval.Grants.Target.{IsBound, mark_read-IsBound}
use whatsvault.Approval.Drafts.{
  Request, Prepared, prepared, prepare_context, no_attachments, insert_draft, prepare,
}
use whatsvault.Approval.Drafts.Reuse.{OnlyPrepares, prepare-again, prepare-OnlyPrepares}
use whatsvault.Approval.Reconcile.{StatusEvent, attempt_ref, on_status_event}
use whatsvault.Approval.Reconcile.Transitions.{AllMove, on_status_event-AllMove}
use whatsvault.Approval.Policy.{Context, MaySend, evaluate, evaluate-MaySend_iff}
use whatsvault.Approval.Clock.{Guard, NeverBack, accepted, trusted_now, accepted-NeverBack}
use whatsvault.Approval.Canonical.{DecisionFields, encode, encode_slots, slots, domain}
use whatsvault.Approval.Canonical.Bound.{IsUtf8, Agree, encode-Agree}
use whatsvault.Approval.Devices.{revoke, active_signing_key, active_agreement_key, revoke-no_keys}
use whatsvault.Approval.Sender.{
  Envelope, approval_already_consumed, canonical_fields, allowed, authorise, Reply, Outcome, Sender,
  Post, permit, granted, execute_write, recover_startup, check_draft, check_signature,
  check_payload, policy_verdict, send_context, transmit, post, settle, is_consumed, window_open,
}
use whatsvault.Approval.Sender.Authority.{Entitled, authorise-Entitled_iff}
use whatsvault.Approval.Sender.Posts.{OnePost, execute_write-OnePost}
use whatsvault.Approval.Sender.Once.{
  is_for, Reach, here, next, execute, die, recover, posts-at_most_once,
}
use whatsvault.Approval.Sender.Recovery.{in_flight, unresolved, recover_startup_lem}
use whatsvault.Approval.Sender.Rebound.{with_nonce, permit-with_nonce}

-- Stand-ins for the operations outside the repository: ASCII for UTF-8, the identity for a digest,
-- and a verifier that accepts the signatures whose first half is 0.
abbrev pub crypto : Crypto
crypto = record {
  utf8 = codes;
  decode_utf8 = λ b. some "hello";
  sha256 = λ b. b;
  hex = λ b. "digest";
  ecdsa_verify = λ key r s payload. r == 0;
}

codes-injective : (s t : String) → codes s ≡ codes t → s ≡ t
codes-injective String.[] String.[] h = refl
codes-injective String.[] (String.◌∷◌ c t) h = cc
codes-injective (String.◌∷◌ c s) String.[] h = cc
codes-injective (String.◌∷◌ c s) (String.◌∷◌ d t) h =
    cc (Char-path c d (cc), codes-injective s t (cc))

pub crypto-IsUtf8 : IsUtf8 crypto
crypto-IsUtf8 = record { injective = codes-injective; empty = refl }

abbrev pub zeros : ℕ → Bytes
zeros n = be_bytes n 0

abbrev pub phone : Device
phone = record {
  id = "dev_1";
  name = "phone";
  public_key = 4 ∷ 7 ∷ [];
  agreement_public_key = some (4 ∷ 9 ∷ []);
  created_at_ms = some 1;
  status = DeviceStatus.active;
}

abbrev pub hello : Draft
hello = record {
  id = "drf_1";
  conversation_id = "cnv_1";
  account_id = "acc_1";
  phone_number_id = "PN1";
  recipient_wa_id = some "61999";
  body_bytes = some (codes "hello");
  body_sha256 = some (codes "hello");
  kind = "text";
  template_id = none;
  template_params_sha256 = none;
  attachments_digest = none;
  reply_to_wamid = none;
  target_message_wamid = none;
  nonce = some (zeros 32);
  created_at_ms = some 1000;
  expires_at_ms = some 901000;
  state = DraftState.pending_approval;
}

abbrev pub stranded : Attempt
stranded = record {
  id = "atm_0";
  draft_id = "drf_1";
  idempotency_key = "old";
  state = AttemptState.submitting;
  wamid = none;
  error_code = none;
  created_at_ms = 5;
  updated_at_ms = 5;
}

abbrev pub db : ApprovalDb
db = record {
  devices = phone ∷ [];
  drafts = hello ∷ [];
  approvals = [];
  nonces = [];
  attempts = stranded ∷ [];
  grants = [];
  windows = record { conversation_id = "cnv_1"; last_inbound_ms = 1000 } ∷ [];
  candidates = [];
}

abbrev pub start : Sender
start = record { conn = record { work = db; saved = db }; guard = none; posts = [] }

abbrev pub approval : Envelope
approval = record {
  draft_id = "drf_1";
  device_id = "dev_1";
  decision = "APPROVE";
  nonce = zeros 32;
  signature = be_bytes 64 7;
}
