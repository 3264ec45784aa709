-- ===== src/Ingest/Dlq.antt =====
-- src/whatsvault/ingest/dlq.py: what becomes of an envelope that does not open, and the breaker.
use whatsvault.Base.{ℕ, zero, suc, String, Bool, true, false, Option, none, some, [], ◌∷◌, ◌++◌}
use whatsvault.Base.Eq.{if◌then◌else◌, ◌==◌, string_eq, option_eq, nat_eq}
use whatsvault.Base.Table.{any, count}
use whatsvault.Base.Conn.{Conn, write, commit}
use whatsvault.Base.Bytes.{Bytes}
use whatsvault.Sealed.{Primitives, Header, parse_header}
use whatsvault.Ingest.Db.{
  FailureClass, poison_malformed, aead_auth_failed_isolated, aead_auth_failed_systemic,
  key_unavailable, DlqRow, IngestDb,
}

-- The exceptions of `open_sealed`; the last stands for all that are not the module's.
pub data DecryptError : Type 0 where
  no_key malformed auth_failed other : DecryptError

-- `classify_decrypt_error`
unfoldable pub classify_decrypt_error : DecryptError → Bool → FailureClass
classify_decrypt_error no_key key_healthy = key_unavailable
classify_decrypt_error malformed key_healthy = poison_malformed
classify_decrypt_error auth_failed key_healthy =
    if key_healthy then aead_auth_failed_isolated else aead_auth_failed_systemic
classify_decrypt_error other key_healthy = aead_auth_failed_systemic

-- The first `n` characters of the detail: `_DETAIL_CAP` is 200.
abbrev pub cap : ℕ → String → String
cap zero s = String.[]
cap (suc n) String.[] = String.[]
cap (suc n) (String.◌∷◌ c s) = String.◌∷◌ c (cap n s)

abbrev pub hash_of : Option Header → Option Bytes
hash_of none = none
hash_of (some h) = some h.fields.event_id_hash

abbrev pub key_of : Option Header → Option ℕ
key_of none = none
key_of (some h) = some h.fields.recipient_key_id

abbrev pub digest_of : Option Header → Option String
digest_of none = none
digest_of (some h) = some h.ciphertext_sha256

abbrev pub dlq_row : Primitives → String → Bytes → FailureClass → ℕ → DlqRow
dlq_row pr i envelope failure now = record {
  id = i;
  event_id_hash = hash_of (parse_header pr envelope);
  envelope = envelope;
  failure_class = failure;
  recipient_key_id = key_of (parse_header pr envelope);
  ciphertext_sha256 = digest_of (parse_header pr envelope);
  first_seen_ms = now;
}

-- `quarantine`, with the identifier that it draws: `none` is the IntegrityError of the primary key.
unfoldable pub quarantine :
    Primitives → String → Bytes → FailureClass → ℕ → Conn IngestDb → Option (Conn IngestDb)
quarantine pr i envelope failure now c =
    if any (λ (x : DlqRow). x.id == i) c.work.dlq
    then none
    else some (
        commit
          (write (record c.work { dlq = c.work.dlq ++ dlq_row pr i envelope failure now ∷ [] }) c))

-- `state(conn) == "OPEN"`
abbrev pub circuit_open : IngestDb → Bool
circuit_open db = db.circuit.is_open

-- `trip`
unfoldable pub trip : String → ℕ → Conn IngestDb → Conn IngestDb
trip reason now c = commit (
    write
      (record c.work {
        circuit = record {
          is_open = true;
          tripped_at_ms = some now;
          reason = some (cap 200 reason);
        };
      })
      c)

-- `reset`
unfoldable pub reset : Conn IngestDb → Conn IngestDb
reset c = commit (
    write
      (record c.work { circuit = record { is_open = false; tripped_at_ms = none; reason = none } })
      c)

-- `references_key`
unfoldable pub references_key : IngestDb → ℕ → ℕ
references_key db key_id = count (λ (x : DlqRow). x.recipient_key_id == some key_id) db.dlq
