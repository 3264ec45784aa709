-- ===== src/Approval/Drafts.antt =====
-- src/whatsvault/approval/drafts.py: the preparation of a draft.
pub mod Reuse
use whatsvault.Base.{
  ℕ, zero, suc, ◌+◌, String, Bool, true, false, not, ◌&&◌, ◌||◌, Option, none, some, List, [], ◌∷◌,
  ◌++◌,
}
use whatsvault.Base.Eq.{if◌then◌else◌, ◌==◌, string_eq, bytes_eq, option_eq}
use whatsvault.Base.Table.{find, any}
use whatsvault.Base.Conn.{Conn, write, commit}
use whatsvault.Base.Bytes.{Bytes, codes}
use whatsvault.Crypto.{Crypto}
use whatsvault.Approval.Schema.{
  Draft, DraftState, is_pending, ApprovalDb, Exn, index_error, integrity_error,
}
use whatsvault.Approval.Policy.{Context, Reason, evaluate}

-- 15 * 60 * 1000
abbrev pub default_ttl_ms : ℕ
default_ttl_ms = 900000

-- The arguments of `prepare`.
pub record Request : Type 0 where
  pub conversation_id : String
  pub account_id : String
  pub phone_number_id : String
  pub recipient_wa_id : Option String
  pub text : String
  pub kind : String
  pub now_ms : ℕ
  pub window_open : Bool
  pub expires_at_ms : Option ℕ

pub data Prepared : Type 0 where
  prepared : String → Bool → Prepared
  refused : Reason → Prepared
  prepare_raised : Exn → Prepared

unfoldable pub prepare_context : Request → Context
prepare_context r = record {
  recipient_wa_id = r.recipient_wa_id;
  kind = r.kind;
  account_ok = true;
  now_ms = some r.now_ms;
  expires_at_ms = some (r.now_ms + 1);
  device_active = true;
  rate_ok = true;
  recipient_is_group = false;
  window_open = r.window_open;
}

-- `attachments_digest([])`: the digest of its domain alone.
unfoldable pub no_attachments : Crypto → Bytes
no_attachments k = k.sha256 (codes "WHATSVAULT-ATTACHMENTS-V1\n")

-- `expires_at_ms or (now_ms + DEFAULT_TTL_MS)`
abbrev pub expiry : Option ℕ → ℕ → ℕ
expiry none now = now + default_ttl_ms
expiry (some e) now = elim e [ zero ↦ now + default_ttl_ms | suc n ↦ suc n ]

abbrev pub body_digest : Crypto → Request → Bytes
body_digest k r = k.sha256 (k.utf8 r.text)

-- `WHERE conversation_id=? AND body_sha256=? AND state='PENDING_APPROVAL'`
abbrev pub is_same_pending : String → Bytes → Draft → Bool
is_same_pending conversation_id digest d =
    d.conversation_id == conversation_id && (d.body_sha256 == some digest && is_pending d.state)

abbrev pub draft_row : Crypto → Request → String → Bytes → Draft
draft_row k r draft_id nonce = record {
  id = draft_id;
  conversation_id = r.conversation_id;
  account_id = r.account_id;
  phone_number_id = r.phone_number_id;
  recipient_wa_id = r.recipient_wa_id;
  body_bytes = some (k.utf8 r.text);
  body_sha256 = some (body_digest k r);
  kind = r.kind;
  template_id = none;
  template_params_sha256 = none;
  attachments_digest = some (no_attachments k);
  reply_to_wamid = none;
  target_message_wamid = none;
  nonce = some nonce;
  created_at_ms = some r.now_ms;
  expires_at_ms = some (expiry r.expires_at_ms r.now_ms);
  state = DraftState.pending_approval;
}

abbrev pub known_kind : String → Bool
known_kind s = s == "text" || (s == "template" || s == "mark_read")

-- The constraints of drafts: the primary key, the UNIQUE nonce and the CHECK on the kind. The
-- digests and the nonce have the lengths that their CHECKs want.
abbrev pub draft_admissible : ApprovalDb → Draft → Bool
draft_admissible db d =
    not (any (λ (x : Draft). x.id == d.id || x.nonce == d.nonce) db.drafts) && known_kind d.kind

unfoldable pub insert_draft :
    Crypto → Request → String → Bytes → Conn ApprovalDb → Prepared × Conn ApprovalDb
insert_draft k r draft_id nonce c =
    let row = draft_row k r draft_id nonce in
    if draft_admissible c.work row
    then (
      prepared draft_id false,
      commit (write (record c.work { drafts = c.work.drafts ++ row ∷ [] }) c),
    )
    else (prepare_raised integrity_error, c)

-- `prepare`, with the identifier of `ids.new_id("drf")` and the nonce of `os.urandom(32)`.
unfoldable pub prepare :
    Crypto → Request → String → Bytes → Conn ApprovalDb → Prepared × Conn ApprovalDb
prepare k r draft_id nonce c =
    let result = evaluate (prepare_context r) in
    if not result.ok
    then (elim result.failed [ [] ↦ prepare_raised index_error | x ∷ xs ↦ refused x ], c)
    else elim (find (is_same_pending r.conversation_id (body_digest k r)) c.work.drafts) [
      | some d ↦ (prepared d.id true, c)
      | none ↦ insert_draft k r draft_id nonce c
    ]
