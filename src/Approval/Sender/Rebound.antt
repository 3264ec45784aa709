-- ===== src/Approval/Sender/Rebound.antt =====
-- The nonce that the replay gate consumes, and the one that the signature covers.
use whatsvault.Base.{ℕ, String, ◌≡◌, true, false, arith}
use whatsvault.Base.Eq.{nat_eq, bytes_eq}
use whatsvault.Base.Table.{length}
use whatsvault.Base.Conn.{Conn}
use whatsvault.Base.Bytes.{Bytes}
use whatsvault.Crypto.{Crypto}
use whatsvault.Approval.Schema.{Draft, ApprovalDb}
use whatsvault.Approval.Sender.{
  Envelope, allowed, authorise, is_consumed, idempotency_key, attempt_admissible, granted, permit,
  check_draft, check_signature, check_payload, canonical_fields,
}

abbrev pub with_nonce : Bytes → Envelope → Envelope
with_nonce m env = record env { nonce = m }

-- An envelope whose nonce is spent passes every check again under any other unspent nonce of 32
-- bytes, with the same signature, and is permitted to transmit, where the identifier of the
-- attempt and its idempotency key are new.
pub permit-with_nonce :
    (k : Crypto) (env : Envelope) (m : Bytes) (i : String) (now : ℕ) (d : Draft)
    (c : Conn ApprovalDb)
    → authorise k c.work env now ≡ allowed d
    → is_consumed env.nonce c.work ≡ true
    → length m ≡ 32
    → is_consumed m c.work ≡ false
    → attempt_admissible c.work i (idempotency_key k (with_nonce m env)) ≡ true
    → (authorise k c.work (with_nonce m env) now ≡ allowed d)
      × ((permit k (with_nonce m env) i now c).0 ≡ granted)
unfolding authorise check_draft check_signature check_payload canonical_fields permit
permit-with_nonce k env m i now d c h spent sized fresh new = (h, ground arith)
