-- ===== src/Ingest/Keys.antt =====
-- src/whatsvault/ingest/dedupe.py and `normalise.semantic_key`: the key by which a redelivery is seen.
use whatsvault.Base.{String, Option, none, some, List, [], ◌∷◌, ◌++◌}
use whatsvault.Base.Int.{ℤ, times_1000}
use whatsvault.Base.Bytes.{Bytes}
use whatsvault.Crypto.{Crypto}
use whatsvault.Approval.Canonical.{Slot, str, encode_slots}
use whatsvault.Ingest.Payload.{RawStatus, Atom, message, status, unknown}

-- What the module takes of Python besides the digests: `str` of a number.
pub record Decimal : Type 0 where
  pub decimal : ℤ → String

abbrev pub text_slots : List String → List Slot
text_slots [] = []
text_slots (s ∷ rest) = str (some s) ∷ text_slots rest

-- The bytes that `_sha` hashes: the domain, and each part after its length in four bytes.
unfoldable pub sha_input : Crypto → String → List String → Option Bytes
sha_input k domain parts = elim (encode_slots k (text_slots parts)) [
  | none ↦ none
  | some body ↦ some (k.utf8 domain ++ body)
]

-- `_sha`
abbrev pub sha : Crypto → String → List String → Option String
sha k domain parts = elim (sha_input k domain parts) [
  | none ↦ none
  | some b ↦ some (k.hex (k.sha256 b))
]

-- `value or ""`
abbrev pub or_blank : Option String → String
or_blank none = ""
or_blank (some s) = s

-- `message_key`
unfoldable pub message_key : Crypto → String → String → String → Option String
message_key k provider phone_number_id wamid =
    sha k "WHATSVAULT-DEDUPE-MESSAGE-V1" (provider ∷ phone_number_id ∷ wamid ∷ [])

abbrev pub recipient_part : Option String → String
recipient_part none = "\0none"
recipient_part (some r) = r

-- `status_key`
unfoldable pub status_key :
    Crypto → Decimal → String → String → String → String → ℤ → Option String → Option String
status_key k py provider phone_number_id wamid state ts recipient_id =
    sha k "WHATSVAULT-DEDUPE-STATUS-V1" (
      provider ∷ phone_number_id ∷ wamid ∷ state ∷ py.decimal ts ∷ recipient_part recipient_id ∷ [])

abbrev pub provider : String
provider = "meta"

abbrev pub status_atom_key : Crypto → Decimal → Option String → RawStatus → Option ℤ → Option String
status_atom_key k py p s none = none
status_atom_key k py p s (some seconds) =
    status_key k py provider (or_blank p) (or_blank s.id) (or_blank s.status) (times_1000 seconds)
      s.recipient_id

-- `semantic_key`, whose first part is `classify`: `none` where it raises.
unfoldable pub semantic_key : Crypto → Decimal → Atom → Option String
semantic_key k py (message p m n) = message_key k provider (or_blank p) (or_blank m.id)
semantic_key k py (status p s) = status_atom_key k py p s s.timestamp
semantic_key k py (unknown p dump) =
    some (k.hex (k.sha256 (k.utf8 "WHATSVAULT-DEDUPE-OTHER-V1" ++ k.utf8 dump)))
