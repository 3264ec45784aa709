-- ===== src/Approval/Templates.antt =====
-- src/whatsvault/templates.py: the catalogue of templates, and drafts made from them.
use whatsvault.Base.{
  ℕ, suc, ◌+◌, String, ◌≡◌, ◌≢◌, refl, Bool, true, false, not, ◌||◌, Option, none, some, List, [],
  ◌∷◌, ◌++◌, inl, inr, arith,
}
use whatsvault.Base.Eq.{if◌then◌else◌, ◌==◌, string_eq, nat_eq, bytes_eq, option_eq, Option-cases}
use whatsvault.Base.Table.{find, select, any, length}
use whatsvault.Base.Conn.{Conn, write, commit}
use whatsvault.Base.Bytes.{Bytes, codes}
use whatsvault.Crypto.{Crypto}
use whatsvault.Approval.Schema.{Draft, DraftState, ApprovalDb, Exn, integrity_error, overflow_error}
use whatsvault.Approval.Canonical.{Slot, str, encode_slots}
use whatsvault.Approval.Policy.{text_given}
use whatsvault.Approval.Sender.{Envelope, authorise, allowed, send_context}
use whatsvault.Approval.Sender.Authority.{authorise-Entitled}

-- A row of templates; `schema_params` is `schema.get("params")`.
pub record Template : Type 0 where
  pub template_id : String
  pub name : String
  pub language : String
  pub status : String
  pub definition_version : ℕ
  pub schema_params : Option ℕ

-- One of `params`: a plain value has the component type "body" and the type "text".
pub record Param : Type 0 where
  pub component_type : String
  pub param_type : String
  pub value : String

abbrev pub param_slots : (ℕ → String) → ℕ → List Param → List Slot
param_slots decimal i [] = []
param_slots decimal i (p ∷ ps) =
    str (some (decimal i))
    ∷ str (some p.component_type)
    ∷ str (some p.param_type)
    ∷ str (some p.value)
    ∷ param_slots decimal (suc i) ps

-- `params_digest`, with `str` of a number: `none` is the `OverflowError`.
unfoldable pub params_digest : Crypto → (ℕ → String) → Template → List Param → Option Bytes
params_digest k decimal t params =
    elim (encode_slots k (
      str (some t.name)
      ∷ str (some t.language)
      ∷ str (some (decimal t.definition_version))
      ∷ param_slots decimal 0 params)) [
        | none ↦ none
        | some body ↦ some (k.sha256 (codes "WHATSVAULT-TEMPLATE-PARAMS-V1\n" ++ body))
      ]

-- INSERT OR REPLACE, row by row.
abbrev pub upsert : List Template → List Template → List Template
upsert [] table = table
upsert (r ∷ rows) table =
    upsert rows (select (λ (x : Template). not (x.template_id == r.template_id)) table ++ r ∷ [])

-- `upsert_from_sync`: the number of rows, and the catalogue after it.
unfoldable pub upsert_from_sync : List Template → Conn (List Template) → ℕ × Conn (List Template)
upsert_from_sync rows c = (length rows, commit (write (upsert rows c.work) c))

pub data Made : Type 0 where
  made : String → Bytes → Made
  unknown_template not_approved param_mismatch : Made
  made_raised : Exn → Made

-- The arguments of `prepare_template`, and the identifier and nonce that it draws.
pub record TemplateRequest : Type 0 where
  pub conversation_id : String
  pub account_id : String
  pub phone_number_id : String
  pub template_id : String
  pub now_ms : ℕ
  pub draft_id : String
  pub nonce : Bytes

abbrev pub template_row : TemplateRequest → Bytes → Draft
template_row r digest = record {
  id = r.draft_id;
  conversation_id = r.conversation_id;
  account_id = r.account_id;
  phone_number_id = r.phone_number_id;
  recipient_wa_id = none;
  body_bytes = none;
  body_sha256 = none;
  kind = "template";
  template_id = some r.template_id;
  template_params_sha256 = some digest;
  attachments_digest = none;
  reply_to_wamid = none;
  target_message_wamid = none;
  nonce = some r.nonce;
  created_at_ms = some r.now_ms;
  expires_at_ms = some (r.now_ms + 900000);
  state = DraftState.pending_approval;
}

abbrev pub file_template : TemplateRequest → Option Bytes → Conn ApprovalDb → Made × Conn ApprovalDb
file_template r none c = (made_raised overflow_error, c)
file_template r (some digest) c =
    if any (λ (x : Draft). x.id == r.draft_id || x.nonce == some r.nonce) c.work.drafts
    then (made_raised integrity_error, c)
    else (
      made r.draft_id digest,
      commit (write (record c.work { drafts = c.work.drafts ++ template_row r digest ∷ [] }) c),
    )

abbrev pub mismatch : Option ℕ → List Param → Bool
mismatch none params = false
mismatch (some n) params = not (length params == n)

-- `prepare_template`
unfoldable pub prepare_template :
    Crypto
    → (ℕ → String)
    → List Template
    → TemplateRequest
    → List Param
    → Conn ApprovalDb
    → Made × Conn ApprovalDb
prepare_template k decimal table r params c =
    elim (find (λ (x : Template). x.template_id == r.template_id) table) [
      | none ↦ (unknown_template, c)
      | some t ↦
          if not (t.status == "APPROVED")
          then (not_approved, c)
          else if mismatch t.schema_params params
          then (param_mismatch, c)
          else file_template r (params_digest k decimal t params) c
    ]

not_given : (o : Option String) → o ≡ none → text_given o ≡ true → ⊥
not_given none e h = cc
not_given (some s) e h = cc

no_recipient :
    (k : Crypto) (db : ApprovalDb) (env : Envelope) (now : ℕ) (d : Draft)
    → d.recipient_wa_id ≡ none
    → authorise k db env now ≢ allowed d
unfolding send_context
no_recipient k db env now d unbound h =
    not_given d.recipient_wa_id unbound (authorise-Entitled k db env now d h).may_send.recipient

-- A draft that `prepare_template` files is committed, pending approval and of an approved template,
-- and the sender never lets it pass: whatever the database, the envelope and the time then are.
pub prepare_template-authorise :
    (k : Crypto) (decimal : ℕ → String) (table : List Template) (r : TemplateRequest)
    (params : List Param) (c : Conn ApprovalDb) (i : String) (digest : Bytes)
    → (prepare_template k decimal table r params c).0 ≡ made i digest
    → ((prepare_template k decimal table r params c).1.saved.drafts
        ≡ c.work.drafts ++ template_row r digest ∷ [])
      × ((t : Template) × (t.status ≡ "APPROVED")
          × (find (λ (x : Template). x.template_id == r.template_id) table ≡ some t))
      × ((db : ApprovalDb) (env : Envelope) (now : ℕ)
          → authorise k db env now ≢ allowed (template_row r digest))
unfolding prepare_template
prepare_template-authorise k decimal table r params c i digest h =
    elim (Option-cases (find (λ (x : Template). x.template_id == r.template_id) table)) [
      | inl unknown ↦ absurd (ground arith)
      | inr (t, found) ↦ elim (Option-cases (params_digest k decimal t params)) [
        | inl overflow ↦ absurd (ground arith)
        | inr (d, digested) ↦ (
          ground arith,
          (t, ground arith, found),
          λ db env now. no_recipient k db env now (template_row r digest) refl,
        )
      ]
    ]
