-- ===== src/Import/Tests.antt =====
-- Imports at concrete inputs.
use mathlib.Core.List.{Memᴰ}
use mathlib.Core.List.Memᴰ.{head, cases_cons}
use whatsvault.Base.{ℕ, String, ◌≡◌, refl, sym, ◌∙◌, inl, inr, true, false, none, List, [], ◌∷◌}
use whatsvault.Base.Eq.{if◌then◌else◌, ◌==◌, string_eq, nat_eq, option_eq}
use whatsvault.Base.Conn.{Conn}
use whatsvault.Base.Bytes.{codes, be_bytes}
use whatsvault.Approval.Canonical.{frame}
use whatsvault.Import.Fingerprint.{lp, content_fingerprint, import_fingerprint}
use whatsvault.Import.Batch.{
  ImportedMessage, Observation, unambiguous, fold, Line, Record, message, system, ImportDb,
  dst_unresolved, refused, added, Import, Tools, ImportFresh, check_import,
}
use whatsvault.Import.Write.{
  insert_batch, insert_senders, import_lines, insert_source, write_batch, import_batch, message_row,
}
use whatsvault.Import.Undo.{undo_batch, undo_messages}
use whatsvault.Import.Undo.Spares.{undo_batch-spares}
use whatsvault.Import.Write.Again.{AddsNone, import_batch-again}

-- A stand-in for digests that tells inputs apart by whether they end in zero.
abbrev last_byte : List ℕ → ℕ
last_byte [] = 0
last_byte (b ∷ []) = b
last_byte (b ∷ x ∷ rest) = last_byte (x ∷ rest)

abbrev tools : Tools
tools = record {
  crypto = record {
    utf8 = codes;
    decode_utf8 = λ b. none;
    sha256 = λ b. b;
    hex = λ b. if last_byte b == 0 then "zero" else "other";
    ecdsa_verify = λ key r s payload. true;
  };
  strip = λ s. s;
  instant = λ zone l fold. 1700000000000;
}

abbrev hello : Line
hello = record {
  ordinal = 0;
  year = 2023;
  month = 11;
  day = 14;
  hour = 22;
  minute = 13;
  dst_class = unambiguous;
  sender = "Ana";
  body = "hello";
  is_media = false;
}

-- The same line twice in one minute, between them a line of the system.
abbrev transcript : List Record
transcript = message hello ∷ system ∷ message (record hello { ordinal = 2 }) ∷ []

abbrev order : Import
order = record {
  source_sha256 = "digest";
  date_format = "DMY";
  timezone = "Europe/Madrid";
  conversation_id = "cnv_1";
  account_id = "acc_1";
  self_label = "Ben";
  resolutions = [];
  families = "DMY" ∷ [];
  records = transcript;
}

abbrev fresh : String → ImportFresh
fresh batch = record {
  batch = batch;
  source = batch;
  participant = λ n. batch;
  message = λ n. if n == 0 then "msg_0" else "msg_1";
}

abbrev empty : Conn ImportDb
empty =
    let db : ImportDb = record {
      accounts = "acc_1" ∷ [];
      conversations = "cnv_1" ∷ [];
      batches = [];
      participants = [];
      messages = [];
      observations = [];
      sources = [];
    } in
    record { work = db; saved = db }

-- Two messages the first time, none the second, and no guess at a local time that occurs twice.
import_batch-runs :
    ((import_batch tools order (fresh "bat_1") empty).0 ≡ added 2)
    × ((import_batch tools order
          (fresh "bat_2")
          (import_batch tools order (fresh "bat_1") empty).1).0
        ≡ added 0)
    × ((import_batch tools
          (record order { records = message (record hello { dst_class = fold }) ∷ [] })
          (fresh "bat_1")
          empty).0
        ≡ refused dst_unresolved)
unfolding import_batch check_import write_batch insert_batch insert_senders import_lines
    insert_source content_fingerprint import_fingerprint lp frame be_bytes string_eq nat_eq
    option_eq
import_batch-runs = (refl, refl, refl)

import_batch-again_example :
    AddsNone
      (import_batch tools order
        (fresh "bat_2")
        (import_batch tools order (fresh "bat_1") empty).1).0
    × ((import_batch tools order
          (fresh "bat_2")
          (import_batch tools order (fresh "bat_1") empty).1).1.saved.messages
        ≡ (import_batch tools order (fresh "bat_1") empty).1.saved.messages)
unfolding import_batch check_import write_batch insert_batch insert_senders import_lines
    insert_source content_fingerprint import_fingerprint lp frame be_bytes string_eq nat_eq
    option_eq
import_batch-again_example =
    import_batch-again tools order (fresh "bat_1") (fresh "bat_2") empty 2 refl

-- A message that two batches have brought.
abbrev shared : ImportedMessage
shared = message_row tools order "msg_0" hello "print"

abbrev observation : String → Observation
observation batch = record {
  batch_id = batch;
  message_id = "msg_0";
  participant_id = batch;
  ordinal = 0;
  source_fingerprint = "print";
}

abbrev twice : Conn ImportDb
twice =
    let db = record empty.work {
      messages = shared ∷ [];
      observations = observation "bat_1" ∷ observation "bat_2" ∷ [];
    } in
    record { work = db; saved = db }

undo_batch-both :
    (undo_batch (λ i. false) "bat_2" 1 (undo_batch (λ i. false) "bat_1" 1 twice)).saved.messages
    ≡ []
unfolding undo_batch undo_messages string_eq
undo_batch-both = refl

only : (y : ImportedMessage) → Memᴰ y (shared ∷ []) → y ≡ shared
only y m = elim (cases_cons m) [ inl e ↦ e | inr none_left ↦ elim none_left [ ] ]

undo_batch-spares_example : Memᴰ shared (undo_batch (λ i. false) "bat_1" 1 twice).saved.messages
unfolding string_eq
undo_batch-spares_example =
    undo_batch-spares (λ i. false) "bat_1" 1 twice shared refl
      (λ y z m m' e. only y m ∙ sym (only z m')) (head refl) (inl refl)
