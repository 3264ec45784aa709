-- ===== src/Import/Batch.antt =====
-- `import_batch` of src/whatsvault/importers/whatsapp_export.py, on the records of a parsed transcript.
-- A column that is written and read by no modelled code has no field.

use whatsvault.Base.{ℕ, String, Bool, true, false, not, ◌&&◌, Option, none, some, List, [], ◌∷◌}
use whatsvault.Base.Eq.{if◌then◌else◌, ◌==◌, nat_eq, string_eq, option_eq}
use whatsvault.Base.Table.{any, count}
use whatsvault.Crypto.{Crypto}
use whatsvault.Ingest.Payload.{Direction}
use whatsvault.Import.Fingerprint.{Bucket, content_fingerprint}

pub data DstClass : Type 0 where
  unambiguous fold nonexistent : DstClass

-- A record of kind "message": the parts of the local time, and whether it is a placeholder of media.
pub record Line : Type 0 where
  pub ordinal : ℕ
  pub year : ℕ
  pub month : ℕ
  pub day : ℕ
  pub hour : ℕ
  pub minute : ℕ
  pub dst_class : DstClass
  pub sender : String
  pub body : String
  pub is_media : Bool

pub data Record : Type 0 where
  message : Line → Record
  system ambiguous_boundary : Record

pub record BatchRow : Type 0 where
  pub id : String
  pub source_sha256 : String
  pub date_format : String
  pub timezone : String
  pub self_label : String
  pub message_count : ℕ
  pub system_count : ℕ
  pub undone_at_ms : Option ℕ

pub record Participant : Type 0 where
  pub id : String
  pub batch_id : String
  pub raw_display_name : String

pub record Observation : Type 0 where
  pub batch_id : String
  pub message_id : String
  pub participant_id : String
  pub ordinal : ℕ
  pub source_fingerprint : String

pub record ImportedMessage : Type 0 where
  pub id : String
  pub account_id : String
  pub conversation_id : String
  pub direction : Direction
  pub ts_lower_ms : ℕ
  pub ts_upper_ms_exclusive : ℕ
  pub kind : String
  pub text_original : String
  pub window_eligible : Bool
  pub wamid : Option String
  pub import_fingerprint : Option String

pub record Source : Type 0 where
  pub id : String
  pub conversation_id : String
  pub write_capable : Bool
  pub account_id : String
  pub batch_id : String

-- The identifiers of the accounts and conversations, and the tables that an import writes.
pub record ImportDb : Type 0 where
  pub accounts : List String
  pub conversations : List String
  pub batches : List BatchRow
  pub participants : List Participant
  pub messages : List ImportedMessage
  pub observations : List Observation
  pub sources : List Source

-- The codes of `ImportRefused`, and an exception of the transaction.
pub data Refusal : Type 0 where
  missing_self missing_format missing_tz format_mismatch dst_unresolved failed : Refusal

pub data Imported : Type 0 where
  refused : Refusal → Imported
  added : ℕ → Imported

-- The arguments, with what `suggest_families` and `parse_transcript` make of the text.
pub record Import : Type 0 where
  pub source_sha256 : String
  pub date_format : String
  pub timezone : String
  pub conversation_id : String
  pub account_id : String
  pub self_label : String
  pub resolutions : List (ℕ × ℕ)
  pub families : List String
  pub records : List Record

-- What is taken from outside: digests, `str.strip`, and the instant of a local minute in a zone, which
-- is at 1970 or later.
pub record Tools : Type 0 where
  pub crypto : Crypto
  pub strip : String → String
  pub instant : String → Line → ℕ → ℕ

-- The identifiers that one import draws: those of its rows by their number.
pub record ImportFresh : Type 0 where
  pub batch : String
  pub source : String
  pub participant : ℕ → String
  pub message : ℕ → String

-- `_messages`
abbrev pub lines_of : List Record → List Line
lines_of [] = []
lines_of (message l ∷ rest) = l ∷ lines_of rest
lines_of (system ∷ rest) = lines_of rest
lines_of (ambiguous_boundary ∷ rest) = lines_of rest

abbrev pub is_system : Record → Bool
is_system system = true
is_system _ = false

abbrev pub is_resolved : List (ℕ × ℕ) → ℕ → Bool
is_resolved resolutions ordinal = any (λ (r : ℕ × ℕ). r.0 == ordinal) resolutions

abbrev pub needs_resolution : DstClass → Bool
needs_resolution unambiguous = false
needs_resolution fold = true
needs_resolution nonexistent = true

abbrev pub is_unresolved : List (ℕ × ℕ) → Line → Bool
is_unresolved resolutions l =
    needs_resolution l.dst_class && not (is_resolved resolutions l.ordinal)

-- The refusal gates, in their order.
unfoldable pub check_import : Import → Option Refusal
check_import a =
    if a.self_label == ""
    then some missing_self
    else if a.date_format == ""
    then some missing_format
    else if a.timezone == ""
    then some missing_tz
    else if not (any (λ (f : String). f == a.date_format) a.families)
    then some format_mismatch
    else if any (is_unresolved a.resolutions) (lines_of a.records)
    then some dst_unresolved
    else none

abbrev pub resolution : List (ℕ × ℕ) → ℕ → ℕ
resolution [] ordinal = 0
resolution (r ∷ rest) ordinal = if r.0 == ordinal then r.1 else resolution rest ordinal

-- `_minute_epoch_ms`
abbrev pub minute_ms : Tools → Import → Line → ℕ
minute_ms t a l =
    t.instant a.timezone l
      (if needs_resolution l.dst_class then resolution a.resolutions l.ordinal else 0)

abbrev pub kind_of : Line → String
kind_of l = if l.is_media then "media" else "text"

-- The bucket of a line, where its content has a fingerprint.
abbrev pub bucket_of : Tools → Import → Line → Option Bucket
bucket_of t a l = elim (content_fingerprint t.crypto (kind_of l) l.body) [
  | none ↦ none
  | some content ↦ some (record {
    conversation_id = a.conversation_id;
    minute_ms = minute_ms t a l;
    sender = l.sender;
    kind = kind_of l;
    content = content;
  })
]

abbrev pub same_bucket : Bucket → Bucket → Bool
same_bucket b x =
    x.conversation_id == b.conversation_id
    && (x.minute_ms == b.minute_ms
        && (x.sender == b.sender && (x.kind == b.kind && x.content == b.content)))

-- `occ.get(bucket, 0)`, of the buckets that were met
abbrev pub occurrences : Bucket → List Bucket → ℕ
occurrences b occ = count (same_bucket b) occ

abbrev pub has_print : String → List ImportedMessage → Bool
has_print fp messages = any (λ (x : ImportedMessage). x.import_fingerprint == some fp) messages
