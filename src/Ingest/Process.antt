-- ===== src/Ingest/Process.antt =====
-- The part of src/apps/ingest/consumer.py that writes the atoms of one payload, and
-- `advance_window` of src/whatsvault/doctor.py, which follows the commit of an inbound message.
pub mod Keeps
pub mod Grows
pub mod Ledger
pub mod Windows
use whatsvault.Base.{
  ℕ, suc, max, String, Bool, true, false, not, ◌&&◌, ◌||◌, Option, none, some, List, [], ◌∷◌, ◌++◌,
}
use whatsvault.Base.Eq.{if◌then◌else◌, ◌==◌, string_eq, option_eq}
use whatsvault.Base.Int.{ℤ, at_least_0}
use whatsvault.Base.Table.{find, any, update}
use whatsvault.Base.Conn.{Conn, write, commit, rollback}
use whatsvault.Base.Bytes.{Bytes}
use whatsvault.Crypto.{Crypto}
use whatsvault.Approval.Schema.{Window, ApprovalDb}
use whatsvault.Ingest.Payload.{
  Atom, Family, message_inbound, classify, Rows, message_rows, status_rows, no_rows, MessageRows,
  StatusRows, to_rows, Payload, split_webhook,
}
use whatsvault.Ingest.Keys.{Decimal, semantic_key}
use whatsvault.Ingest.Db.{
  Account, ContactRow, ConversationRow, StoredMessage, StoredStatus, IngestEvent, IngestDb,
}

infixl 5 ◌>>=◌
abbrev ◌>>=◌ {ℓ₁ ℓ₂} : {X : Type ℓ₁} {Y : Type ℓ₂} → Option X → (X → Option Y) → Option Y
some x >>= next = next x
none >>= next = none

-- How the call of `advance_window` goes: it returns, or control.db refuses the read or the upsert, or it
-- refuses the commit, which leaves the upsert pending.
pub data Projection : Type 0 where
  advances write_raises commit_raises : Projection

-- What one atom takes from outside: the identifiers that `ids.new_id` draws, and how control.db answers.
pub record Fresh : Type 0 where
  pub event : String
  pub account : String
  pub contact : String
  pub conversation : String
  pub message : String
  pub status : String
  pub projection : Projection

-- An INSERT of the primary key `id` that a row has already is an IntegrityError: `none`.
abbrev refuse_taken : Bool → Option (Unit {0})
refuse_taken true = none
refuse_taken false = some tt

-- `WHERE phone_number_id=?`, which null never satisfies
abbrev by_phone : Option String → IngestDb → Option Account
by_phone none db = none
by_phone (some p) db = find (λ (x : Account). x.phone_number_id == p) db.accounts

-- `_get_account`: phone_number_id is NOT NULL.
unfoldable pub get_account : String → Option String → IngestDb → Option (String × IngestDb)
get_account i p db = elim (by_phone p db) [
  | some a ↦ some (a.id, db)
  | none ↦ elim p [
    | none ↦ none
    | some number ↦
        if any (λ (x : Account). x.id == i) db.accounts
        then none
        else some (
          i,
          record db { accounts = db.accounts ++ record { id = i; phone_number_id = number } ∷ [] },
        )
  ]
]

abbrev by_wa_id : Option String → IngestDb → Option ContactRow
by_wa_id none db = none
by_wa_id (some w) db = find (λ (x : ContactRow). x.wa_id == some w) db.contacts

-- `_get_contact`
unfoldable pub get_contact :
    String → Option String → Option String → IngestDb → Option (String × IngestDb)
get_contact i wa_id name db = elim (by_wa_id wa_id db) [
  | some c ↦ some (c.id, db)
  | none ↦
      if any (λ (x : ContactRow). x.id == i) db.contacts
      then none
      else some (
        i,
        record db {
          contacts = db.contacts ++ record { id = i; wa_id = wa_id; display_name = name } ∷ [];
        },
      )
]

abbrev by_chat : String → Option String → IngestDb → Option ConversationRow
by_chat account_id none db = none
by_chat account_id (some w) db =
    find (λ (x : ConversationRow). x.account_id == account_id && x.wa_chat_id == some w)
      db.conversations

-- `_get_conversation`
unfoldable pub get_conversation :
    String → String → Option String → IngestDb → Option (String × IngestDb)
get_conversation i account_id chat db = elim (by_chat account_id chat db) [
  | some c ↦ some (c.id, db)
  | none ↦
      if any (λ (x : ConversationRow). x.id == i) db.conversations
      then none
      else some (
        i,
        record db {
          conversations =
              db.conversations
              ++ record { id = i; account_id = account_id; wa_chat_id = chat } ∷ [];
        },
      )
]

-- ux_messages_wamid, which counts no null
abbrev same_wamid : String → Option String → StoredMessage → Bool
same_wamid account_id none x = false
same_wamid account_id (some w) x = x.account_id == account_id && x.wamid == some w

abbrev message_taken : String → String → Option String → StoredMessage → Bool
message_taken i account_id wamid x = x.id == i || same_wamid account_id wamid x

-- The INSERT INTO messages: its keys, and the type that is NOT NULL.
unfoldable pub insert_message :
    String → String → String → String → MessageRows → IngestDb → Option IngestDb
insert_message i account_id contact_id conversation_id m db = do
  kind ← m.kind
  free ← refuse_taken (any (message_taken i account_id m.wamid) db.messages)
  some (record db {
    messages =
        db.messages
        ++ record {
          id = i;
          account_id = account_id;
          conversation_id = conversation_id;
          sender_contact_id = contact_id;
          direction = m.direction;
          ts_lower_ms = m.ts_lower_ms;
          ts_upper_ms_exclusive = m.ts_upper_ms_exclusive;
          kind = kind;
          text_original = m.text_original;
          window_eligible = m.window_eligible;
          wamid = m.wamid;
        }
          ∷ [];
  })

-- What `_apply_rows` gives back: the conversation and the time of a message.
abbrev pub Applied : Type 0
Applied = Option (String × ℤ)

unfoldable pub apply_message : Fresh → MessageRows → IngestDb → Option (Applied × IngestDb)
apply_message f m db = do
  (account_id, db₁) ← get_account f.account m.phone_number_id db
  (contact_id, db₂) ← get_contact f.contact m.wa_id m.name db₁
  (conversation_id, db₃) ← get_conversation f.conversation account_id m.wa_id db₂
  db₄ ← insert_message f.message account_id contact_id conversation_id m db₃
  some (some (conversation_id, m.ts_lower_ms), db₄)

-- wamid and status are NOT NULL.
unfoldable pub apply_status : Fresh → StatusRows → IngestDb → Option (Applied × IngestDb)
apply_status f s db = do
  wamid ← s.wamid
  status ← s.status
  free ← refuse_taken (any (λ (x : StoredStatus). x.id == f.status) db.status_events)
  some (
    none,
    record db {
      status_events =
          db.status_events
          ++ record {
            id = f.status;
            wamid = wamid;
            status = status;
            provider_ts_ms = s.provider_ts_ms;
            recipient_id = s.recipient_id;
          }
            ∷ [];
    },
  )

-- `_apply_rows`
unfoldable pub apply_rows : Fresh → Rows → IngestDb → Option (Applied × IngestDb)
apply_rows f (message_rows m) db = apply_message f m db
apply_rows f (status_rows s) db = apply_status f s db
apply_rows f no_rows db = some (none, db)

abbrev pub event_row : String → String → Family → ℕ → IngestEvent
event_row i key family now = record {
  id = i;
  semantic_event_key = key;
  family = family;
  received_at_ms = now;
}

-- INSERT OR IGNORE passes over a row whose identifier or key is there.
abbrev pub is_seen : String → String → IngestDb → Bool
is_seen i key db = any (λ (x : IngestEvent). x.id == i || x.semantic_event_key == key) db.events

-- `max(existing, incoming)`, for a stored time that is not negative
abbrev pub new_window : Option Window → ℤ → ℕ
new_window none t = at_least_0 t
new_window (some w) t = max w.last_inbound_ms (at_least_0 t)

abbrev window_of : String → Window → Bool
window_of i w = w.conversation_id == i

abbrev pub upsert_window : String → ℕ → List Window → List Window
upsert_window i t l =
    if any (window_of i) l
    then update (window_of i) (λ w. record w { last_inbound_ms = t }) l
    else l ++ record { conversation_id = i; last_inbound_ms = t } ∷ []

-- `advance_window`: the upsert, and its commit.
abbrev pub write_window : String → ℤ → Conn ApprovalDb → Conn ApprovalDb
write_window i t c =
    write
      (record c.work {
        windows = upsert_window i (new_window (find (window_of i) c.work.windows) t) c.work.windows;
      })
      c

unfoldable pub advance_window : String → ℤ → Conn ApprovalDb → Conn ApprovalDb
advance_window i t c = commit (write_window i t c)

-- The two databases of the consumer.
pub record Stores : Type 0 where
  pub vault : Conn IngestDb
  pub control : Conn ApprovalDb

abbrev is_inbound : Family → Bool
is_inbound message_inbound = true
is_inbound _ = false

-- The call of `advance_window`, which stands outside the try block: true where it returns, false where
-- its exception leaves the loop.
abbrev pub call_advance : Projection → String → ℤ → Conn ApprovalDb → Bool × Conn ApprovalDb
call_advance advances i t c = (true, advance_window i t c)
call_advance write_raises i t c = (false, c)
call_advance commit_raises i t c = (false, write_window i t c)

-- What follows the commit: the window of the conversation, for an inbound message.
abbrev pub project : Projection → Family → Applied → Conn ApprovalDb → Bool × Conn ApprovalDb
project p family none c = (true, c)
project p family (some (i, t)) c = if is_inbound family then call_advance p i t c else (true, c)

-- The end of a transaction, rolled back where the rows were refused. vault.db is committed before the
-- window in control.db is touched, and stays so where that fails.
abbrev finish_atom : Projection → Family → Option (Applied × IngestDb) → Stores → Bool × Stores
finish_atom p family none s = (false, record s { vault = rollback s.vault })
finish_atom p family (some (applied, db)) s = (
  (project p family applied s.control).0,
  record { vault = commit (write db s.vault); control = (project p family applied s.control).1 },
)

-- The transaction of one atom: true where the loop goes on, false where it raises.
abbrev pub insert_atom : Fresh → ℕ → Family → String → Rows → Stores → Bool × Stores
insert_atom f now family key rows s =
    if is_seen f.event key s.vault.work
    then (true, record s { vault = commit s.vault })
    else let db = record s.vault.work {
      events = s.vault.work.events ++ event_row f.event key family now ∷ [];
    } in
      finish_atom f.projection family (apply_rows f rows db) (record s { vault = write db s.vault })

-- One round of the loop of `_process_payload`. `semantic_key` and `to_rows` raise before anything is
-- written.
unfoldable pub process_atom : Crypto → Decimal → Fresh → ℕ → Atom → Stores → Bool × Stores
process_atom k py f now a s = elim (semantic_key k py a) [
  | none ↦ (false, s)
  | some key ↦ elim (to_rows a) [
    | none ↦ (false, s)
    | some rows ↦ insert_atom f now (classify a) key rows s
  ]
]

-- The loop, with the identifiers of each round.
unfoldable pub process_atoms :
    Crypto → Decimal → (ℕ → Fresh) → ℕ → ℕ → List Atom → Stores → Bool × Stores
process_atoms k py fresh n now [] s = (true, s)
process_atoms k py fresh n now (a ∷ rest) s =
    let (going, s') = process_atom k py (fresh n) now a s in
    elim going [ true ↦ process_atoms k py fresh (suc n) now rest s' | false ↦ (false, s') ]

-- `_process_payload`, with what `json.loads` makes of the plaintext: `none` where it raises.
unfoldable pub process_payload :
    Crypto → Decimal → (ℕ → Fresh) → ℕ → Option Payload → Stores → Bool × Stores
process_payload k py fresh now none s = (false, s)
process_payload k py fresh now (some p) s = process_atoms k py fresh 0 now (split_webhook p) s
