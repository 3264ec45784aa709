-- ===== src/Import/Write.antt =====
-- The transaction of `import_batch` in src/whatsvault/importers/whatsapp_export.py.
pub mod Lines
pub mod Again
use whatsvault.Base.{
  ℕ, suc, ◌+◌, String, Bool, true, false, not, ◌&&◌, ◌||◌, Option, none, some, List, [], ◌∷◌, ◌++◌,
}
use whatsvault.Base.Eq.{if◌then◌else◌, ◌==◌, nat_eq, string_eq, option_eq}
use whatsvault.Base.Table.{find, any, count, length}
use whatsvault.Base.Conn.{Conn, write, commit, rollback}
use whatsvault.Ingest.Payload.{inward, outward}
use whatsvault.Import.Fingerprint.{Bucket, import_fingerprint}
use whatsvault.Import.Batch.{
  Line, BatchRow, Participant, Observation, ImportedMessage, Source, ImportDb, Refusal, failed,
  Imported, refused, added, Import, Tools, ImportFresh, lines_of, is_system, check_import,
  minute_ms, kind_of, bucket_of, occurrences,
}

-- The INSERT of the batch: `none` is an IntegrityError.
unfoldable pub insert_batch : Import → String → ImportDb → Option ImportDb
insert_batch a i db =
    if any (λ (x : BatchRow). x.id == i) db.batches
    then none
    else some (record db {
      batches =
          db.batches
          ++ record {
            id = i;
            source_sha256 = a.source_sha256;
            date_format = a.date_format;
            timezone = a.timezone;
            self_label = a.self_label;
            message_count = length (lines_of a.records);
            system_count = count is_system a.records;
            undone_at_ms = none;
          }
            ∷ [];
    })

-- `participant_id`, a dictionary by sender
abbrev pub Senders : Type 0
Senders = List (String × String)

abbrev pub sender_id : String → Senders → Option String
sender_id s [] = none
sender_id s (x ∷ rest) = if x.0 == s then some x.1 else sender_id s rest

abbrev insert_participant : String → String → String → ImportDb → Option ImportDb
insert_participant i batch name db =
    if any (λ (x : Participant). x.id == i) db.participants
    then none
    else some (record db {
      participants =
          db.participants ++ record { id = i; batch_id = batch; raw_display_name = name } ∷ [];
    })

-- The loop over the senders, after `n` of the lines.
unfoldable pub insert_senders :
    ImportFresh → ℕ → List Line → Senders → ImportDb → Option (Senders × ImportDb)
insert_senders f n [] senders db = some (senders, db)
insert_senders f n (l ∷ rest) senders db = elim (sender_id l.sender senders) [
  | some i ↦ insert_senders f (suc n) rest senders db
  | none ↦ elim (insert_participant (f.participant n) f.batch l.sender db) [
    | none ↦ none
    | some db' ↦ insert_senders f (suc n) rest ((l.sender, f.participant n) ∷ senders) db'
  ]
]

abbrev pub message_row : Tools → Import → String → Line → String → ImportedMessage
message_row t a i l fp = record {
  id = i;
  account_id = a.account_id;
  conversation_id = a.conversation_id;
  direction = if t.strip l.sender == t.strip a.self_label then outward else inward;
  ts_lower_ms = minute_ms t a l;
  ts_upper_ms_exclusive = minute_ms t a l + 60000;
  kind = kind_of l;
  text_original = l.body;
  window_eligible = false;
  wamid = none;
  import_fingerprint = some fp;
}

-- The INSERT of a message, whose account and conversation must be there.
abbrev pub insert_new : Tools → Import → String → Line → String → ImportDb → Option ImportDb
insert_new t a i l fp db =
    if any (λ (x : ImportedMessage). x.id == i) db.messages
      || (not (any (λ (x : String). x == a.account_id) db.accounts)
          || not (any (λ (x : String). x == a.conversation_id) db.conversations))
    then none
    else some (record db { messages = db.messages ++ message_row t a i l fp ∷ [] })

abbrev pub by_print : String → ImportDb → Option ImportedMessage
by_print fp db = find (λ (x : ImportedMessage). x.import_fingerprint == some fp) db.messages

-- The message of a line: the one with its fingerprint, or a new one, with how many were added.
abbrev pub message_for :
    Tools → Import → String → Line → String → ImportDb → Option (ℕ × String × ImportDb)
message_for t a i l fp db = elim (by_print fp db) [
  | some x ↦ some (0, x.id, db)
  | none ↦ elim (insert_new t a i l fp db) [ none ↦ none | some db' ↦ some (1, i, db') ]
]

abbrev pub observation_taken : String → String → ℕ → Observation → Bool
observation_taken batch message_id ordinal x =
    x.batch_id == batch && (x.message_id == message_id || x.ordinal == ordinal)

abbrev pub observe : String → String → Option String → Line → String → ImportDb → Option ImportDb
observe batch message_id none l content db = none
observe batch message_id (some participant) l content db =
    if any (observation_taken batch message_id l.ordinal) db.observations
    then none
    else some (record db {
      observations =
          db.observations
          ++ record {
            batch_id = batch;
            message_id = message_id;
            participant_id = participant;
            ordinal = l.ordinal;
            source_fingerprint = content;
          }
            ∷ [];
    })

-- One line, with its bucket and its fingerprint.
abbrev pub import_line :
    Tools
    → Import
    → ImportFresh
    → ℕ
    → Senders
    → Line
    → Bucket
    → String
    → ImportDb
    → Option (ℕ × ImportDb)
import_line t a f n senders l b fp db = elim (message_for t a (f.message n) l fp db) [
  | none ↦ none
  | some (more, message_id, db') ↦
      elim (observe f.batch message_id (sender_id l.sender senders) l b.content db') [
        | none ↦ none
        | some db'' ↦ some (more, db'')
      ]
]

-- The fingerprint of a line, after the buckets that were met, and its bucket.
abbrev pub print_of : Tools → Import → List Bucket → Line → Option (Bucket × String)
print_of t a occ l = elim (bucket_of t a l) [
  | none ↦ none
  | some b ↦ elim (import_fingerprint t.crypto b (occurrences b occ)) [
    | none ↦ none
    | some fp ↦ some (b, fp)
  ]
]

-- The loop over the lines: how many messages were added.
unfoldable pub import_lines :
    Tools
    → Import
    → ImportFresh
    → ℕ
    → Senders
    → List Bucket
    → List Line
    → ImportDb
    → Option (ℕ × ImportDb)
import_lines t a f n senders occ [] db = some (0, db)
import_lines t a f n senders occ (l ∷ rest) db = elim (print_of t a occ l) [
  | none ↦ none
  | some (b, fp) ↦ elim (import_line t a f n senders l b fp db) [
    | none ↦ none
    | some (more, db') ↦ elim (import_lines t a f (suc n) senders (b ∷ occ) rest db') [
      | none ↦ none
      | some (others, db'') ↦ some (more + others, db'')
    ]
  ]
]

unfoldable pub insert_source : Import → ImportFresh → ImportDb → Option ImportDb
insert_source a f db =
    if any (λ (x : Source). x.id == f.source) db.sources
    then none
    else some (record db {
      sources =
          db.sources
          ++ record {
            id = f.source;
            conversation_id = a.conversation_id;
            write_capable = false;
            account_id = a.account_id;
            batch_id = f.batch;
          }
            ∷ [];
    })

infixl 5 ◌>>=◌
abbrev ◌>>=◌ {ℓ₁ ℓ₂} : {X : Type ℓ₁} {Y : Type ℓ₂} → Option X → (X → Option Y) → Option Y
some x >>= next = next x
none >>= next = none

unfoldable pub write_batch : Tools → Import → ImportFresh → ImportDb → Option (ℕ × ImportDb)
write_batch t a f db = do
  db₁ ← insert_batch a f.batch db
  (senders, db₂) ← insert_senders f 0 (lines_of a.records) [] db₁
  (more, db₃) ← import_lines t a f 0 senders [] (lines_of a.records) db₂
  db₄ ← insert_source a f db₃
  some (more, db₄)

abbrev pub finish_import : Option (ℕ × ImportDb) → Conn ImportDb → Imported × Conn ImportDb
finish_import none c = (refused failed, rollback c)
finish_import (some (more, db)) c = (added more, commit (write db c))

-- `import_batch`
unfoldable pub import_batch :
    Tools → Import → ImportFresh → Conn ImportDb → Imported × Conn ImportDb
import_batch t a f c = elim (check_import a) [
  | some why ↦ (refused why, c)
  | none ↦ finish_import (write_batch t a f c.work) c
]
