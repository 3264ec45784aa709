-- ===== src/Sealed/Tests.antt =====
-- An envelope sealed and opened at concrete inputs.
use whatsvault.Base.{ℕ, ◌≡◌, refl, Option, none, some, [], ◌∷◌}
use whatsvault.Base.Eq.{nat_eq, bytes_eq}
use whatsvault.Base.Bytes.{Bytes, take, be_value, be_bytes, length-be_bytes}
use whatsvault.Sealed.{
  Primitives, Fields, header_bytes, seal, Header, bad_envelope, key_unavailable, opened,
  parse_header, open_sealed,
}
use whatsvault.Sealed.Roundtrip.{IsSound, open_sealed-seal}

-- Stand-ins: one public key for all, and a cipher that changes nothing.
abbrev pr : Primitives
pr = record {
  public_key = λ a. be_bytes 32 0;
  exchange = λ a b. some [];
  derive = λ s. s;
  encrypt = λ key nonce pt aad. pt;
  decrypt = λ key nonce ct aad. some ct;
  hexdigest = λ b. "digest";
}

pr-IsSound : IsSound pr
pr-IsSound = record {
  agrees = λ a b shared h. h;
  key_32 = λ a. length-be_bytes 32 0;
  opens = λ key nonce pt aad. refl;
}

abbrev fields : Fields
fields = record {
  envelope_version = 1;
  algorithm_id = 1;
  crypto_version = 1;
  recipient_key_id = 258;
  event_id_hash = be_bytes 32 9;
}

abbrev bytes_of : Option Bytes → Bytes
bytes_of none = []
bytes_of (some b) = b

abbrev envelope : Bytes
envelope = bytes_of (seal pr (7 ∷ []) (be_bytes 12 5) (be_bytes 32 0) (b'h' ∷ b'i' ∷ []) fields)

abbrev key_lookup : ℕ → Option Bytes
key_lookup n = some (7 ∷ [])

open_sealed-cut : open_sealed pr key_lookup (take 92 envelope) ≡ bad_envelope
unfolding open_sealed parse_header seal header_bytes be_bytes be_value nat_eq bytes_eq
open_sealed-cut = refl

open_sealed-no_key : open_sealed pr (λ n. none) envelope ≡ key_unavailable
unfolding open_sealed parse_header seal header_bytes be_bytes be_value nat_eq bytes_eq
open_sealed-no_key = refl

open_sealed-seal_example :
    (hdr : Header) × (hdr.fields ≡ fields)
    × (open_sealed pr key_lookup envelope ≡ opened (b'h' ∷ b'i' ∷ []) hdr)
unfolding seal header_bytes be_bytes nat_eq
open_sealed-seal_example =
    open_sealed-seal pr (7 ∷ []) (be_bytes 12 5) (7 ∷ []) (b'h' ∷ b'i' ∷ []) envelope fields
      key_lookup pr-IsSound refl refl refl
