-- ===== src/Approval/Canonical.antt =====
-- src/whatsvault/approval/canonical.py: the bytes that the phone signs. Each field is a slot of a
-- fixed order, written as its length in four bytes and its content; an absent one is empty.
pub mod Injective
pub mod Bound
use whatsvault.Base.{
  ℕ, ◌+◌, ◌^◌, ◌<◌, String, ◌≡◌, refl, Bool, true, false, Option, none, some, List, [], ◌∷◌, ◌++◌,
  arith,
}
use whatsvault.Base.Eq.{if◌then◌else◌, ltb}
use whatsvault.Base.Table.{length}
use whatsvault.Base.Bytes.{
  Bytes, codes, be_bytes, length-be_bytes, be_bytes-injective, append-injective,
}
use whatsvault.Crypto.{Crypto}

-- A value with the type that `_FIELDS` gives it; `none` is a missing or null field.
pub data Slot : Type 0 where
  str : Option String → Slot
  bytes : Option Bytes → Slot
  u64 : Option ℕ → Slot

infixl 5 ◌>>=◌
abbrev pub ◌>>=◌ {ℓ κ} : {A : Type ℓ} {B : Type κ} → Option A → (A → Option B) → Option B
none >>= f = none
some a >>= f = f a

-- `_field_bytes`: a number that does not fit in eight bytes raises `OverflowError`, here `none`.
unfoldable pub field_bytes : Crypto → Slot → Option Bytes
field_bytes k (str none) = some []
field_bytes k (str (some s)) = some (k.utf8 s)
field_bytes k (bytes none) = some []
field_bytes k (bytes (some b)) = some b
field_bytes k (u64 none) = some []
field_bytes k (u64 (some n)) = if ltb n (2 ^ 64) then some (be_bytes 8 n) else none

-- `len(b).to_bytes(4, "big")` and the content.
unfoldable pub frame : Bytes → Option Bytes
frame b = if ltb (length b) (2 ^ 32) then some (be_bytes 4 (length b) ++ b) else none

-- The loop over `_FIELDS`.
unfoldable pub encode_slots : Crypto → List Slot → Option Bytes
unfolding field_bytes frame
encode_slots k [] = some []
encode_slots k (s ∷ ss) = do
  b ← field_bytes k s
  framed ← frame b
  rest ← encode_slots k ss
  some (framed ++ rest)

-- The keys of `_FIELDS`.
pub record DecisionFields : Type 0 where
  pub decision : String
  pub draft_id : String
  pub account_id : String
  pub phone_number_id : String
  pub recipient_wa_id : Option String
  pub body_sha256 : Option Bytes
  pub kind : String
  pub template_id : Option String
  pub template_params_sha256 : Option Bytes
  pub reply_to_wamid : Option String
  pub target_message_wamid : Option String
  pub attachments_digest : Option Bytes
  pub nonce : Option Bytes
  pub created_at_ms : Option ℕ
  pub expires_at_ms : Option ℕ
  pub device_id : String

unfoldable pub slots : DecisionFields → List Slot
slots f =
    str (some f.decision)
    ∷ str (some f.draft_id)
    ∷ str (some f.account_id)
    ∷ str (some f.phone_number_id)
    ∷ str f.recipient_wa_id
    ∷ bytes f.body_sha256
    ∷ str (some f.kind)
    ∷ str f.template_id
    ∷ bytes f.template_params_sha256
    ∷ str f.reply_to_wamid
    ∷ str f.target_message_wamid
    ∷ bytes f.attachments_digest
    ∷ bytes f.nonce
    ∷ u64 f.created_at_ms
    ∷ u64 f.expires_at_ms
    ∷ str (some f.device_id)
    ∷ []

unfoldable pub domain : Bytes
domain = codes "WHATSVAULT-DRAFT-DECISION-V1\n"

abbrev pub version : ℕ
version = 1

unfoldable pub encode : Crypto → DecisionFields → Option Bytes
unfolding encode_slots
encode k f = do body ← encode_slots k (slots f); some ((domain ++ be_bytes 2 version) ++ body)
