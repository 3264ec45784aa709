-- ===== src/Approval/Sender/Durable.antt =====
-- The permission-to-transmit transaction: what it leaves, and what is durable when the provider is
-- called.
use whatsvault.Base.{ℕ, String, ◌≡◌, ◌≢◌, Bool, true, false, ◌&&◌, ◌||◌, [], ◌∷◌, arith}
use whatsvault.Base.Eq.{◌==◌, string_eq, bytes_eq, nat_eq}
use whatsvault.Base.Table.{any, any-append, length}
use whatsvault.Base.Conn.{Conn}
use whatsvault.Base.Bytes.{Bytes}
use whatsvault.Crypto.{Crypto}
use whatsvault.Approval.Schema.{Attempt, is_submitting, ApprovalDb}
use whatsvault.Approval.Sender.{
  Envelope, is_nonce, is_consumed, consume, idempotency_key, open_attempt, granted, permit,
}

abbrev pub is_opened : String → Attempt → Bool
is_opened i a = a.id == i && is_submitting a.state

-- What a permit that was granted has done: the nonce was of 32 bytes and fresh, it and an open
-- attempt are committed, and no other nonce was touched.
pub record Granted (env : Envelope) (i : String) (c c' : Conn ApprovalDb) : Type 0 where
  pub sized : length env.nonce ≡ 32
  pub fresh : is_consumed env.nonce c.work ≡ false
  pub nonces : (n : Bytes) → is_consumed n c'.work ≡ (is_consumed n c.work || env.nonce == n)
  pub opened : any (is_opened i) c'.saved.attempts ≡ true
  pub durable : c'.saved ≡ c'.work

module _ (k : Crypto) (env : Envelope) (i : String) (now : ℕ) (c : Conn ApprovalDb) where
  consumed-consume :
      (n : Bytes)
      → is_consumed n (consume env now c.work) ≡ (is_consumed n c.work || env.nonce == n)
  consumed-consume n = ground (
    arith,
    any-append (is_nonce n) c.work.nonces
        (record { nonce = env.nonce; consumed_by = env.draft_id; consumed_at_ms = now } ∷ []),
  )

  opened-open_attempt :
      (key : String) (db : ApprovalDb)
      → any (is_opened i) (open_attempt i key env now db).attempts ≡ true
  opened-open_attempt key db = rw (any-append (is_opened i) db.attempts) (ground arith)

  pub permit-Granted : (permit k env i now c).0 ≡ granted → Granted env i c (permit k env i now c).1
  unfolding permit
  permit-Granted h = record {
    sized = ground arith;
    fresh = ground arith;
    nonces = λ n. ground (arith, consumed-consume n);
    opened = ground (arith, opened-open_attempt (idempotency_key k env) (consume env now c.work));
    durable = ground arith;
  }

  -- A permit that is not granted commits nothing, and keeps every consumed nonce.
  pub permit-refused :
      (permit k env i now c).0 ≢ granted
      → ((permit k env i now c).1.saved ≡ c.saved)
        × ((n : Bytes)
            → is_consumed n c.work ≡ true
            → is_consumed n (permit k env i now c).1.work ≡ true)
  unfolding permit
  permit-refused h = (ground arith, λ n used. ground (arith, consumed-consume n))
