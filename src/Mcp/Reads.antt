-- ===== src/Mcp/Reads.antt =====
-- src/whatsvault/mcp/reads.py: the queries behind the tools, but for the full-text search.
pub mod Fence
use whatsvault.Base.{
  ℕ, zero, suc, ◌+◌, min, max, String, Bool, true, false, not, ◌&&◌, Option, none, some, List, [],
  ◌∷◌,
}
use whatsvault.Base.Int.{ℤ, ltb_ℤ}
use whatsvault.Base.Eq.{if◌then◌else◌, ◌==◌, string_eq, option_eq, ltb}
use whatsvault.Base.Table.{find, select}
use whatsvault.Ingest.Status.{Reduced, reduce_status, nothing_seen}
use whatsvault.Mcp.Present.{Python, Row, View, Contact, Untrusted, wrap, message_view}
use whatsvault.Mcp.Acl.{Conversation, StatusRow, Vault, is_local_only, in_local_only}

-- What SQLite decides: the two orders, and whether a subject is LIKE a query between two signs `%`.
pub record Sqlite : Type 0 where
  pub by_time : List Row → List Row
  pub by_activity : List Conversation → List Conversation
  pub like : String → Option String → Bool

-- What a caller gives as `limit`: a number, one below zero, or what `int` refuses.
pub data Limit : Type 0 where
  number : ℕ → Limit
  below_zero : ℕ → Limit
  unreadable : Limit

abbrev pub max_limit : ℕ
max_limit = 200

-- `_clamp`: `none` is the `ValueError`.
unfoldable pub clamp : Limit → Option ℕ
clamp (number n) = some (max 1 (min n max_limit))
clamp (below_zero n) = some 1
clamp unreadable = none

abbrev pub first {ℓ} : {A : Type ℓ} → ℕ → List A → List A
first zero l = []
first (suc n) [] = []
first (suc n) (x ∷ l) = x ∷ first n l

abbrev pub each {ℓ κ} : {A : Type ℓ} {B : Type κ} → (A → B) → List A → List B
each f [] = []
each f (x ∷ l) = f x ∷ each f l

-- `_contact`
abbrev pub contact : Vault → Option String → Option Contact
contact v none = none
contact v (some i) = if i == "" then none else find (λ (x : Contact). x.id == i) v.contacts

-- `_view`
abbrev pub view : Python → Vault → Row → View
view py v m = message_view py m (contact v m.sender_contact_id)

abbrev pub after : Option ℤ → Row → Bool
after none m = true
after (some from_ms) m = ltb_ℤ from_ms m.ts_upper_ms_exclusive

abbrev pub before : Option ℤ → Row → Bool
before none m = true
before (some to_ms) m = ltb_ℤ m.ts_lower_ms to_ms

abbrev pub in_interval : String → Option ℤ → Option ℤ → Row → Bool
in_interval i from_ms to_ms m = m.conversation_id == i && (after from_ms m && before to_ms m)

abbrev pub by_id : String → Conversation → Bool
by_id i x = x.id == i

-- `not vis or vis[0] == "LOCAL_ONLY"`
abbrev pub closed : Option Conversation → Bool
closed none = true
closed (some x) = is_local_only x.mcp_visibility

-- The rows that `fetchall` gives, and their views.
abbrev pub limited {ℓ κ} : {A : Type ℓ} {B : Type κ} → Option ℕ → (A → B) → List A → Option (List B)
limited none f rows = none
limited (some n) f rows = some (each f (first n rows))

-- `get_messages`: `none` is the `ValueError`.
unfoldable pub get_messages :
    Python → Sqlite → Vault → String → Option ℤ → Option ℤ → Limit → Option (List View)
get_messages py sql v i from_ms to_ms limit =
    if closed (find (by_id i) v.conversations)
    then some []
    else limited (clamp limit) (view py v)
        (sql.by_time (select (in_interval i from_ms to_ms) v.messages))

pub record Chat : Type 0 where
  pub conversation_id : String
  pub kind : String
  pub subject : Option Untrusted
  pub last_message_ms : Option ℤ

abbrev pub chat : Conversation → Chat
chat x = record {
  conversation_id = x.id;
  kind = x.kind;
  subject = wrap x.subject;
  last_message_ms = x.last_message_ms;
}

abbrev pub asked : Sqlite → Option String → Conversation → Bool
asked sql none x = true
asked sql (some query) x = if query == "" then true else sql.like query x.subject

abbrev pub is_listed : Sqlite → Option String → Conversation → Bool
is_listed sql query x = not (is_local_only x.mcp_visibility) && asked sql query x

-- `list_chats`
unfoldable pub list_chats : Sqlite → Vault → Option String → Limit → Option (List Chat)
list_chats sql v query limit =
    limited (clamp limit) chat (sql.by_activity (select (is_listed sql query) v.conversations))

abbrev pub events_of : String → List StatusRow → List StatusRow
events_of w = select (λ (x : StatusRow). x.wamid == w)

abbrev pub status_of : Vault → Option String → Reduced
status_of v none = nothing_seen
status_of v (some w) =
    if w == ""
    then nothing_seen
    else reduce_status (each (λ (x : StatusRow). x.event) (events_of w v.status_events))

-- `get_message_status`
unfoldable pub get_message_status : Vault → String → Option Reduced
get_message_status v message_id = elim (find (λ (m : Row). m.id == message_id) v.messages) [
  | none ↦ none
  | some m ↦ if in_local_only v m.conversation_id then none else some (status_of v m.wamid)
]

-- 24 * 3600 * 1000
abbrev pub window_ms : ℕ
window_ms = 86400000

pub record Activity : Type 0 where
  pub is_open : Bool
  pub last_inbound_ms : ℕ
  pub closes_at_ms : ℕ

abbrev pub activity : ℕ → ℕ → Activity
activity now last = record {
  is_open = ltb 0 last && ltb now (last + window_ms);
  last_inbound_ms = last;
  closes_at_ms = last + window_ms;
}

-- `get_conversation_window`, with the row of conversation_windows that control.db has for it.
unfoldable pub get_conversation_window : Vault → Option ℕ → String → ℕ → Activity
get_conversation_window v last i now =
    if in_local_only v i
    then record { is_open = false; last_inbound_ms = 0; closes_at_ms = window_ms }
    else elim last [ none ↦ activity now 0 | some t ↦ activity now t ]
