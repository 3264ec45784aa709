-- ===== src/Sealed.antt =====
-- src/whatsvault/crypto/sealed.py: the envelope in which the edge relays an event.
pub mod Roundtrip
mod Tests
use whatsvault.Base.{
  ℕ, zero, suc, ◌+◌, ◌^◌, String, Bool, true, false, not, ◌&&◌, ◌||◌, Option, none, some, List, [],
  ◌∷◌, ◌++◌,
}
use whatsvault.Base.Eq.{if◌then◌else◌, ◌==◌, nat_eq, bytes_eq, ltb}
use whatsvault.Base.Table.{length}
use whatsvault.Base.Bytes.{Byte, Bytes, codes, take, drop, be_value, be_bytes}

-- What the module calls of the cryptography package. `exchange` has no result where it raises
-- `ValueError`, as it does for a point of low order, and `decrypt` none where the tag is wrong.
pub record Primitives : Type 0 where
  pub public_key : Bytes → Bytes
  pub exchange : Bytes → Bytes → Option Bytes
  pub derive : Bytes → Bytes
  pub encrypt : Bytes → Bytes → Bytes → Bytes → Bytes
  pub decrypt : Bytes → Bytes → Bytes → Bytes → Option Bytes
  pub hexdigest : Bytes → String

abbrev pub magic : Bytes
magic = b'W' ∷ b'V' ∷ b'E' ∷ b'1' ∷ []

-- 4 + 1 + 1 + 1 + 4 + 32, and then the ephemeral key, the nonce and the length of the ciphertext
abbrev pub hdr_len : ℕ
hdr_len = 43

abbrev pub eph_end : ℕ
eph_end = 75

abbrev pub nonce_end : ℕ
nonce_end = 87

abbrev pub ctlen_end : ℕ
ctlen_end = 91

-- The three numbers of one byte, and the two fields, that a header names.
pub record Fields : Type 0 where
  pub envelope_version : ℕ
  pub algorithm_id : ℕ
  pub crypto_version : ℕ
  pub recipient_key_id : ℕ
  pub event_id_hash : Bytes

-- `bytes([v])` and `struct.pack(">I", n)` raise on what does not fit; so does the length check.
abbrev pub fits : Fields → Bool
fits f =
    length f.event_id_hash == 32
    && (ltb f.envelope_version 256
        && (ltb f.algorithm_id 256
            && (ltb f.crypto_version 256 && ltb f.recipient_key_id (256 ^ 4))))

abbrev pub header_layout : Fields → Bytes
header_layout f =
    magic
    ++ f.envelope_version
      ∷ f.algorithm_id
      ∷ f.crypto_version
      ∷ (be_bytes 4 f.recipient_key_id ++ f.event_id_hash)

-- `_header_bytes`: `none` is an exception.
unfoldable pub header_bytes : Fields → Option Bytes
header_bytes f = if fits f then some (header_layout f) else none

-- What `seal` puts after the header.
abbrev pub sealed_tail : Bytes → Bytes → Bytes → Bytes
sealed_tail ephpub nonce ct = ephpub ++ (nonce ++ (be_bytes 4 (length ct) ++ ct))

abbrev pub seal_with :
    Primitives → Bytes → Bytes → Bytes → Option Bytes → Option Bytes → Option Bytes
seal_with pr eph nonce plaintext none aad = none
seal_with pr eph nonce plaintext (some shared) none = none
seal_with pr eph nonce plaintext (some shared) (some aad) =
    let ct = pr.encrypt (pr.derive shared) nonce plaintext aad in
    if ltb (length ct) (256 ^ 4)
    then some (aad ++ sealed_tail (pr.public_key eph) nonce ct)
    else none

-- `seal`, with the ephemeral private key and the nonce that it draws: `none` is an exception.
unfoldable pub seal : Primitives → Bytes → Bytes → Bytes → Bytes → Fields → Option Bytes
seal pr eph nonce recipient_pub plaintext f =
    seal_with pr eph nonce plaintext (pr.exchange eph recipient_pub) (header_bytes f)

-- `envelope[a:a + n]`
abbrev pub slice : ℕ → ℕ → Bytes → Bytes
slice a n envelope = take n (drop a envelope)

abbrev pub ct_length : Bytes → ℕ
ct_length envelope = be_value (slice nonce_end 4 envelope)

abbrev pub ciphertext : Bytes → Bytes
ciphertext envelope = slice ctlen_end (ct_length envelope) envelope

abbrev pub read_fields : Bytes → Fields
read_fields envelope = record {
  envelope_version = be_value (slice 4 1 envelope);
  algorithm_id = be_value (slice 5 1 envelope);
  crypto_version = be_value (slice 6 1 envelope);
  recipient_key_id = be_value (slice 7 4 envelope);
  event_id_hash = slice 11 32 envelope;
}

pub record Header : Type 0 where
  pub fields : Fields
  pub ciphertext_sha256 : String

-- `parse_header`: `none` is `BadEnvelope`.
unfoldable pub parse_header : Primitives → Bytes → Option Header
parse_header pr envelope =
    if ltb (length envelope) ctlen_end || not (take 4 envelope == magic)
    then none
    else if not (length (ciphertext envelope) == ct_length envelope)
    then none
    else some (record {
      fields = read_fields envelope;
      ciphertext_sha256 = pr.hexdigest (ciphertext envelope);
    })

-- How `open_sealed` ends; the last is an exception that is none of the module's.
pub data Opened : Type 0 where
  opened : Bytes → Header → Opened
  bad_envelope key_unavailable aead_auth_failed value_error : Opened

abbrev decrypted : Header → Option Bytes → Opened
decrypted hdr none = aead_auth_failed
decrypted hdr (some pt) = opened pt hdr

abbrev pub open_with : Primitives → Bytes → Header → Option Bytes → Opened
open_with pr envelope hdr none = key_unavailable
open_with pr envelope hdr (some priv) = elim (pr.exchange priv (slice hdr_len 32 envelope)) [
  | none ↦ value_error
  | some shared ↦ decrypted hdr (
      pr.decrypt (pr.derive shared) (slice eph_end 12 envelope) (ciphertext envelope)
        (take hdr_len envelope))
]

-- `open_sealed`
unfoldable pub open_sealed : Primitives → (ℕ → Option Bytes) → Bytes → Opened
open_sealed pr key_lookup envelope = elim (parse_header pr envelope) [
  | none ↦ bad_envelope
  | some hdr ↦ open_with pr envelope hdr (key_lookup hdr.fields.recipient_key_id)
]
