-- ===== src/Import/Fingerprint.antt =====
-- src/whatsvault/importers/fingerprint.py: what identifies a message of a transcript.
use whatsvault.Base.{ℕ, ◌^◌, String, Option, none, some, List, [], ◌∷◌, ◌++◌}
use whatsvault.Base.Eq.{if◌then◌else◌, ltb}
use whatsvault.Base.Bytes.{Bytes, be_bytes}
use whatsvault.Crypto.{Crypto}
use whatsvault.Approval.Canonical.{frame}

-- `_lp`: each chunk after its length in four bytes. `none` is OverflowError.
unfoldable pub lp : List Bytes → Option Bytes
lp [] = some []
lp (c ∷ rest) = elim (frame c) [
  | none ↦ none
  | some framed ↦ elim (lp rest) [ none ↦ none | some others ↦ some (framed ++ others) ]
]

abbrev pub digest : Crypto → String → Option Bytes → Option String
digest k domain none = none
digest k domain (some blob) = some (k.hex (k.sha256 (k.utf8 domain ++ blob)))

-- `content_fingerprint`
unfoldable pub content_fingerprint : Crypto → String → String → Option String
content_fingerprint k kind text =
    digest k "WHATSVAULT-CONTENT-V1\n" (lp (k.utf8 kind ∷ k.utf8 text ∷ []))

-- What `import_fingerprint` takes; its version is always 1.
pub record Bucket : Type 0 where
  pub conversation_id : String
  pub minute_ms : ℕ
  pub sender : String
  pub kind : String
  pub content : String

-- `import_fingerprint`: `none` where the minute or the index does not fit its bytes.
unfoldable pub import_fingerprint : Crypto → Bucket → ℕ → Option String
import_fingerprint k b index =
    if ltb b.minute_ms (2 ^ 63)
    then if ltb index (2 ^ 32)
      then digest k "WHATSVAULT-IMPORT-FP-V1\n" (
          lp (
            be_bytes 4 1
            ∷ k.utf8 b.conversation_id
            ∷ be_bytes 8 b.minute_ms
            ∷ k.utf8 b.sender
            ∷ k.utf8 b.kind
            ∷ k.utf8 b.content
            ∷ be_bytes 4 index
            ∷ []))
      else none
    else none
