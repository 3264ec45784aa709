-- ===== src/Import/Undo.antt =====
-- `undo_batch` of src/whatsvault/importers/whatsapp_export.py.
pub mod Spares
use whatsvault.Base.{
  ℕ, suc, String, ◌≡◌, refl, sym, ◌∙◌, ap, subst, Bool, true, false, not, ◌&&◌, Option, none, some,
  List, [], ◌∷◌, ◌⊎◌, inl, inr, arith,
}
use whatsvault.Base.Eq.{
  if◌then◌else◌, ◌==◌, ==-sound, ==-refl, string_eq, if_cases, Bool-cases, Option-cases,
}
use whatsvault.Base.Table.{find, select, update, any}
use whatsvault.Base.Conn.{Conn, write, commit, rollback}
use whatsvault.Import.Batch.{BatchRow, Participant, Observation, ImportedMessage, Source, ImportDb}
use mathlib.Core.List.{Memᴰ}
use mathlib.Core.List.Memᴰ.{head, tail, cases_cons}

abbrev pub observed_by : String → Observation → Bool
observed_by batch x = x.batch_id == batch

abbrev pub observes : String → Observation → Bool
observes i x = x.message_id == i

abbrev pub message_ids : List Observation → List String
message_ids [] = []
message_ids (x ∷ rest) = x.message_id ∷ message_ids rest

abbrev pub has_no_wamid : Option ImportedMessage → Bool
has_no_wamid none = false
has_no_wamid (some x) = elim x.wamid [ none ↦ true | some w ↦ false ]

abbrev pub by_id : String → ImportDb → Option ImportedMessage
by_id i db = find (λ (x : ImportedMessage). x.id == i) db.messages

-- What a message must be for `undo_batch` to delete it.
abbrev pub is_orphan : String → ImportDb → Bool
is_orphan i db = not (any (observes i) db.observations) && has_no_wamid (by_id i db)

-- One round of the loop; `referenced` are the messages that other tables refer to, whose DELETE raises.
abbrev pub drop_message : (String → Bool) → String → ImportDb → Option ImportDb
drop_message referenced i db =
    if referenced i
    then none
    else some
        (record db { messages = select (λ (x : ImportedMessage). not (x.id == i)) db.messages })

abbrev pub undo_message : (String → Bool) → String → ImportDb → Option ImportDb
undo_message referenced i db = if is_orphan i db then drop_message referenced i db else some db

unfoldable pub undo_messages : (String → Bool) → List String → ImportDb → Option ImportDb
undo_messages referenced [] db = some db
undo_messages referenced (i ∷ rest) db = elim (undo_message referenced i db) [
  | none ↦ none
  | some db' ↦ undo_messages referenced rest db'
]

abbrev pub clear_batch : String → ℕ → ImportDb → ImportDb
clear_batch batch now db = record db {
  participants = select (λ (x : Participant). not (x.batch_id == batch)) db.participants;
  sources = select (λ (x : Source). not (x.batch_id == batch)) db.sources;
  batches =
      update (λ (x : BatchRow). x.id == batch) (λ x. record x { undone_at_ms = some now })
        db.batches;
}

abbrev pub without_observations : String → ImportDb → ImportDb
without_observations batch db = record db {
  observations = select (λ (x : Observation). not (observed_by batch x)) db.observations;
}

abbrev pub finish_undo : String → ℕ → Option ImportDb → Conn ImportDb → Conn ImportDb
finish_undo batch now none c = rollback c
finish_undo batch now (some db) c = commit (write (clear_batch batch now db) c)

-- `undo_batch`
unfoldable pub undo_batch : (String → Bool) → String → ℕ → Conn ImportDb → Conn ImportDb
undo_batch referenced batch now c =
    finish_undo batch now
      (undo_messages referenced (message_ids (select (observed_by batch) c.work.observations))
        (without_observations batch c.work))
      c
