-- ===== src/Approval/Sender/Authority.antt =====
-- What a draft, an envelope and the database satisfy when the sender's checks let them pass.
use whatsvault.Base.{ℕ, ◌≡◌, ◌↔◌, inl, inr, refl, subst, true, false, Option, none, some, arith}
use whatsvault.Base.Eq.{◌==◌, string_eq, bytes_eq, Bool-cases, Option-cases}
use whatsvault.Base.Table.{find}
use whatsvault.Base.Bytes.{Bytes}
use whatsvault.Crypto.{Crypto, verify}
use whatsvault.Approval.Schema.{Draft, ApprovalDb}
use whatsvault.Approval.Policy.{MaySend, evaluate, evaluate-MaySend_iff, evaluate-refusal}
use whatsvault.Approval.Canonical.{encode}
use whatsvault.Approval.Devices.{active_signing_key}
use whatsvault.Approval.Sender.{
  Envelope, canonical_fields, allowed, body_of, body_changed, send_context, policy_verdict,
  check_payload, check_signature, check_draft, authorise,
}

-- The phone's active key signed these very bytes.
pub record IsSigned (k : Crypto) (db : ApprovalDb) (env : Envelope) (d : Draft) : Type 0 where
  pub key : Bytes
  pub payload : Bytes
  pub key_active : active_signing_key db env.device_id ≡ some key
  pub encoded : encode k (canonical_fields d env) ≡ some payload
  pub verified : verify k payload env.signature key ≡ true

pub record Entitled (k : Crypto) (db : ApprovalDb) (env : Envelope) (now : ℕ) (d : Draft)
    : Type 0 where
  pub stored : find (λ (x : Draft). x.id == env.draft_id) db.drafts ≡ some d
  pub approved : env.decision ≡ "APPROVE"
  pub signed : IsSigned k db env d
  pub body : (h : Bytes) → d.body_sha256 ≡ some h → k.sha256 (body_of d) ≡ h
  pub may_send : MaySend (send_context db d now)

module _ (k : Crypto) (db : ApprovalDb) (env : Envelope) (now : ℕ) where
  body_kept :
      (d : Draft) (o : Option Bytes)
      → d.body_sha256 ≡ o
      → body_changed k d ≡ false
      → (h : Bytes) → o ≡ some h
      → k.sha256 (body_of d) ≡ h
  body_kept d none e c h eh = cc
  body_kept d (some g) e c h eh = ground arith

  body_unchanged :
      (d : Draft) (o : Option Bytes)
      → d.body_sha256 ≡ o
      → ((h : Bytes) → o ≡ some h → k.sha256 (body_of d) ≡ h)
      → body_changed k d ≡ false
  body_unchanged d none e c = ground arith
  body_unchanged d (some g) e c = ground (arith, c g refl)

  policy_passes :
      (d d' : Draft)
      → policy_verdict (evaluate (send_context db d now)) d ≡ allowed d'
      → (d ≡ d') × ((evaluate (send_context db d now)).ok ≡ true)
  unfolding policy_verdict
  policy_passes d d' h = elim (Bool-cases (evaluate (send_context db d now)).ok) [
    | inl pass ↦ (ground arith, pass)
    | inr stop ↦ let (r, rs, e) = evaluate-refusal (send_context db d now) stop in ground arith
  ]

  payload_passes :
      (d d' : Draft) (key payload : Bytes)
      → check_payload k db env d key now payload ≡ allowed d'
      → (verify k payload env.signature key ≡ true)
        × (body_changed k d ≡ false)
        × (d ≡ d')
        × ((evaluate (send_context db d now)).ok ≡ true)
  unfolding check_payload
  payload_passes d d' key payload h = elim (Bool-cases (verify k payload env.signature key)) [
    | inr bad ↦ ground arith
    | inl good ↦ elim (Bool-cases (body_changed k d)) [
      | inl changed ↦ ground arith
      | inr kept ↦ ground (arith, policy_passes d d')
    ]
  ]

  signature_passes :
      (d d' : Draft) (key : Bytes)
      → active_signing_key db env.device_id ≡ some key
      → check_signature k db env d now key ≡ allowed d'
      → (d ≡ d')
        × IsSigned k db env d
        × (body_changed k d ≡ false)
        × ((evaluate (send_context db d now)).ok ≡ true)
  unfolding check_signature
  signature_passes d d' key active h = elim (Option-cases (encode k (canonical_fields d env))) [
    | inl none_encoded ↦ ground arith
    | inr (payload, encoded) ↦
        let (good, kept, same, pass) = payload_passes d d' key payload (ground arith) in
        (
          same,
          record {
            key = key;
            payload = payload;
            key_active = active;
            encoded = encoded;
            verified = good;
          },
          kept,
          pass,
        )
  ]

  draft_passes :
      (d d' : Draft)
      → find (λ (x : Draft). x.id == env.draft_id) db.drafts ≡ some d
      → check_draft k db env now d ≡ allowed d'
      → (d ≡ d') × Entitled k db env now d
  unfolding check_draft
  draft_passes d d' found h = elim (Option-cases (active_signing_key db env.device_id)) [
    | inl no_key ↦ ground arith
    | inr (key, active) ↦
        let (same, signed, kept, pass) = signature_passes d d' key active (ground arith) in
        (
          same,
          record {
            stored = found;
            approved = ground arith;
            signed = signed;
            body = body_kept d d.body_sha256 refl kept;
            may_send = (evaluate-MaySend_iff (send_context db d now)).0 pass;
          },
        )
  ]

  -- Only an entitled draft passes.
  pub authorise-Entitled :
      (d : Draft) → authorise k db env now ≡ allowed d → Entitled k db env now d
  unfolding authorise
  authorise-Entitled d h =
      elim (Option-cases (find (λ (x : Draft). x.id == env.draft_id) db.drafts)) [
        | inl absent ↦ ground arith
        | inr (x, found) ↦
            let (same, e) = draft_passes x d found (ground arith) in
            subst (Entitled k db env now) same e
      ]

  Entitled-passes : (d : Draft) → Entitled k db env now d → authorise k db env now ≡ allowed d
  unfolding authorise check_draft check_signature check_payload policy_verdict
  Entitled-passes d e = ground (
    arith,
    e.stored,
    e.approved,
    e.signed.key_active,
    e.signed.encoded,
    e.signed.verified,
    body_unchanged d d.body_sha256 refl e.body,
    (evaluate-MaySend_iff (send_context db d now)).1 e.may_send,
  )

  -- The sender's checks let a draft pass exactly when it is the stored draft that the envelope
  -- names, the decision is APPROVE, the active key of the envelope's device signed its canonical
  -- bytes, its body has the digest recorded for it, if one is, and the policy lets it be sent.
  pub authorise-Entitled_iff :
      (d : Draft) → (authorise k db env now ≡ allowed d) ↔ Entitled k db env now d
  authorise-Entitled_iff d = (authorise-Entitled d, Entitled-passes d)
