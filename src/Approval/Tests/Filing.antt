-- ===== src/Approval/Tests/Filing.antt =====
-- Drafts, grants, filed envelopes and status events at concrete inputs.
use whatsvault.Base.{ℕ, ◌≡◌, ◌⊎◌, ◌≢◌, refl, true, false, Option, none, some, [], ◌∷◌, ◌++◌, arith}
use whatsvault.Base.Eq.{◌==◌, option_eq, string_eq, bytes_eq, nat_eq}
use whatsvault.Base.Table.{All, find}
use whatsvault.Base.Conn.{Conn, commit}
use whatsvault.Base.Bytes.{Bytes, be_bytes}
use whatsvault.Crypto.{verify}
use whatsvault.Approval.Schema.{DeviceStatus, ApprovalDb, Grant, ok}
use whatsvault.Approval.Relay
use whatsvault.Approval.Relay.{accept_envelope, file_envelope}
use whatsvault.Approval.Relay.Idempotent.{named, accept_envelope-again}
use whatsvault.Approval.Grants.{
  Message, marked, marked_if, encode_grant, grant_domain, grant_slots, check_grant, consume_first,
  verify_and_consume, mark_read,
}
use whatsvault.Approval.Grants.Bounds.{
  Answer, IsWithin, verify_and_consume-UsedOnce, verify_and_consume-IsWithin,
}
use whatsvault.Approval.Grants.Target.{IsBound, mark_read-IsBound}
use whatsvault.Approval.Drafts.{Request, Prepared, prepare}
use whatsvault.Approval.Reconcile.{StatusEvent, attempt_ref, on_status_event}
use whatsvault.Approval.Reconcile.Transitions.{AllMove, on_status_event-AllMove}
use whatsvault.Approval.Canonical.{encode_slots}
use whatsvault.Approval.Devices.{active_signing_key}
use whatsvault.Approval.Templates.{
  Template, TemplateRequest, params_digest, prepare_template, template_row,
  prepare_template-authorise,
}
use whatsvault.Approval.Sender.{Envelope, authorise, allowed}
use whatsvault.Approval.Tests.{crypto, zeros, db, start}

abbrev pin : Grant
pin = record {
  capability_id = "cap_1";
  device_id = "dev_1";
  account_id = some "acc_1";
  conversation_id = some "cnv_1";
  action = "MARK_READ";
  created_at_ms = some 1;
  expires_at_ms = some 9000;
  max_actions = some 2;
  used_count = 1;
  nonce = some (zeros 32);
  signature = be_bytes 64 7;
  status = DeviceStatus.active;
}

abbrev granting : Conn ApprovalDb
granting = commit (record start.conn { work = record db { grants = pin ∷ [] } })

-- The grant has one use left.
verify_and_consume-pin :
    ((verify_and_consume crypto "MARK_READ" "cnv_1" 5 granting).0 ≡ ok true)
    × ((verify_and_consume crypto "MARK_READ" "cnv_1" 6
          (verify_and_consume crypto "MARK_READ" "cnv_1" 5 granting).1).0
        ≡ ok false)
unfolding verify_and_consume consume_first check_grant active_signing_key encode_grant grant_domain
    grant_slots verify be_bytes string_eq bytes_eq nat_eq option_eq encode_slots
verify_and_consume-pin = (refl, refl)

verify_and_consume-UsedOnce_example :
    Answer crypto "MARK_READ" "cnv_1" 5
      (verify_and_consume crypto "MARK_READ" "cnv_1" 5 granting).0
      granting
      (verify_and_consume crypto "MARK_READ" "cnv_1" 5 granting).1
verify_and_consume-UsedOnce_example =
    verify_and_consume-UsedOnce crypto "MARK_READ" "cnv_1" 5 granting (refl, tt)

pin-IsWithin : IsWithin pin
pin-IsWithin m e = ground arith

verify_and_consume-IsWithin_example :
    All IsWithin (verify_and_consume crypto "MARK_READ" "cnv_1" 5 granting).1.work.grants
verify_and_consume-IsWithin_example =
    verify_and_consume-IsWithin crypto "MARK_READ" "cnv_1" 5 granting (refl, tt) (pin-IsWithin, tt)

abbrev inbound : Message
inbound = record {
  wamid = some "wamid.1";
  account_id = "acc_1";
  conversation_id = "cnv_1";
  direction = "in";
}

mark_read-IsBound_example :
    (IsBound crypto (inbound ∷ []) "cnv_1" "wamid.1" "acc_1" 5 granting
      × (mark_read crypto (inbound ∷ []) "cnv_1" "wamid.1" "acc_1" 5 granting ≡ (
        marked_if (verify_and_consume crypto "MARK_READ" "cnv_1" 5 granting).0,
        (verify_and_consume crypto "MARK_READ" "cnv_1" 5 granting).1,
      )))
    ⊎ ((mark_read crypto (inbound ∷ []) "cnv_1" "wamid.1" "acc_1" 5 granting).0 ≢ marked)
      × ((mark_read crypto (inbound ∷ []) "cnv_1" "wamid.1" "acc_1" 5 granting).1 ≡ granting)
mark_read-IsBound_example =
    mark_read-IsBound crypto (inbound ∷ []) "cnv_1" "wamid.1" "acc_1" 5 granting

abbrev ask : Request
ask = record {
  conversation_id = "cnv_1";
  account_id = "acc_1";
  phone_number_id = "PN1";
  recipient_wa_id = some "61999";
  text = "good day";
  kind = "text";
  now_ms = 3000;
  window_open = true;
  expires_at_ms = none;
}

abbrev drafted : Prepared × Conn ApprovalDb
drafted = prepare crypto ask "drf_2" (be_bytes 32 2) start.conn

abbrev decision : Relay.Envelope
decision = named "dev_1" "drf_1" "APPROVE" (zeros 32) (be_bytes 64 7)

accept_envelope-again_example :
    accept_envelope "apv_2" decision (accept_envelope "apv_1" decision start.conn).1
    ≡ (Relay.accepted "apv_1", (accept_envelope "apv_1" decision start.conn).1)
unfolding accept_envelope file_envelope string_eq bytes_eq nat_eq option_eq be_bytes
accept_envelope-again_example =
    accept_envelope-again "dev_1" "drf_1" "APPROVE" (zeros 32) (be_bytes 64 7) "apv_1" "apv_2"
      "apv_1" start.conn refl

abbrev read_receipt : StatusEvent
read_receipt = record {
  wamid = some "wamid.NEW";
  biz_opaque_callback_data = some "wv1:atm_0";
  recipient_id = none;
  provider_ts_ms = none;
  status = some "read";
}

on_status_event-AllMove_example :
    AllMove
      (some "atm_0")
      db.attempts
      (on_status_event "rcn_1" read_receipt 9 start.conn).1.work.attempts
unfolding attempt_ref nat_eq
on_status_event-AllMove_example = on_status_event-AllMove "rcn_1" read_receipt 9 start.conn

abbrev greeting : Template
greeting = record {
  template_id = "tpl_1";
  name = "greeting";
  language = "en";
  status = "APPROVED";
  definition_version = 1;
  schema_params = some 0;
}

abbrev greet : TemplateRequest
greet = record {
  conversation_id = "cnv_1";
  account_id = "acc_1";
  phone_number_id = "PN1";
  template_id = "tpl_1";
  now_ms = 3000;
  draft_id = "drf_9";
  nonce = be_bytes 32 9;
}

abbrev bytes_or_none : Option Bytes → Bytes
bytes_or_none none = []
bytes_or_none (some b) = b

abbrev greet_digest : Bytes
greet_digest = bytes_or_none (params_digest crypto (λ n. "1") greeting [])

prepare_template-authorise_example :
    let c = (prepare_template crypto (λ n. "1") (greeting ∷ []) greet [] start.conn).1 in
    (c.saved.drafts ≡ start.conn.work.drafts ++ template_row greet greet_digest ∷ [])
    × ((t : Template) × (t.status ≡ "APPROVED")
        × (find (λ (x : Template). x.template_id == greet.template_id) (greeting ∷ []) ≡ some t))
    × ((later : ApprovalDb) (env : Envelope) (now : ℕ)
        → authorise crypto later env now ≢ allowed (template_row greet greet_digest))
unfolding prepare_template params_digest encode_slots be_bytes string_eq bytes_eq option_eq nat_eq
prepare_template-authorise_example =
    prepare_template-authorise crypto (λ n. "1") (greeting ∷ []) greet [] start.conn "drf_9"
      greet_digest refl
