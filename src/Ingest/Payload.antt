-- ===== src/Ingest/Payload.antt =====
-- src/whatsvault/ingest/normalise.py: the fan-out of a webhook into atoms, and the rows of an atom.
use whatsvault.Base.{String, Bool, true, false, not, Option, none, some, List, [], ◌∷◌, ◌++◌}
use whatsvault.Base.Eq.{if◌then◌else◌, ◌==◌, string_eq, option_eq}
use whatsvault.Base.Int.{ℤ, plus, times_1000}
use whatsvault.Base.Table.{any}

-- The keys that are read of one message. `kind` is `type`: missing, null, or a text. `timestamp` has
-- no value where `int` raises on it, is 0 where it is missing, and may be negative. `dump` is what `json.dumps` makes
-- of the whole object.
pub record RawMessage : Type 0 where
  pub id : Option String
  pub sender : Option String
  pub timestamp : Option ℤ
  pub kind : Option (Option String)
  pub text_body : Option String
  pub echo : Bool
  pub dump : String

pub record RawStatus : Type 0 where
  pub id : Option String
  pub status : Option String
  pub timestamp : Option ℤ
  pub recipient_id : Option String
  pub dump : String

pub record RawContact : Type 0 where
  pub wa_id : Option String
  pub name : Option String

-- `value` of a change; a missing list is empty.
pub record Value : Type 0 where
  pub phone_number_id : Option String
  pub contacts : List RawContact
  pub messages : List RawMessage
  pub statuses : List RawStatus
  pub dump : String

-- The `changes` of each entry.
abbrev pub Payload : Type 0
Payload = List (List Value)

pub data Atom : Type 0 where
  message : Option String → RawMessage → Option String → Atom
  status : Option String → RawStatus → Atom
  unknown : Option String → String → Atom

-- The dictionary of names: of two contacts with one key the later counts.
abbrev pub name_of : Option String → List RawContact → Option String
name_of key [] = none
name_of key (c ∷ cs) =
    let later = name_of key cs in
    if any (λ (x : RawContact). x.wa_id == key) cs
    then later
    else if c.wa_id == key
    then c.name
    else none

abbrev pub message_atoms : Value → List RawMessage → List Atom
message_atoms v [] = []
message_atoms v (m ∷ ms) =
    message v.phone_number_id m (name_of m.sender v.contacts) ∷ message_atoms v ms

abbrev pub status_atoms : Value → List RawStatus → List Atom
status_atoms v [] = []
status_atoms v (s ∷ ss) = status v.phone_number_id s ∷ status_atoms v ss

-- The atoms of one change; with no message and no status it is one of unknown kind.
abbrev pub value_atoms : Value → List Atom
value_atoms v = elim (message_atoms v v.messages ++ status_atoms v v.statuses) [
  | [] ↦ unknown v.phone_number_id v.dump ∷ []
  | a ∷ rest ↦ a ∷ rest
]

abbrev pub entry_atoms : List Value → List Atom
entry_atoms [] = []
entry_atoms (v ∷ vs) = value_atoms v ++ entry_atoms vs

-- `split_webhook`
unfoldable pub split_webhook : Payload → List Atom
split_webhook [] = []
split_webhook (entry ∷ entries) = entry_atoms entry ++ split_webhook entries

pub data Family : Type 0 where
  message_inbound message_echo message_status unknown_supported : Family

-- `classify`, on the kinds of atom that `split_webhook` makes
abbrev pub classify : Atom → Family
classify (message p m n) = if m.echo then message_echo else message_inbound
classify (status p s) = message_status
classify (unknown p d) = unknown_supported

-- `m.get("type", "text")`
abbrev pub kind_or_text : Option (Option String) → Option String
kind_or_text none = some "text"
kind_or_text (some k) = k

-- `_text`
abbrev pub text_of : RawMessage → Option String
text_of m = if m.kind == some (some "text") then m.text_body else none

pub data Direction : Type 0 where
  inward outward : Direction

abbrev pub is_inward : Direction → Bool
is_inward inward = true
is_inward outward = false

pub record MessageRows : Type 0 where
  pub wa_id : Option String
  pub name : Option String
  pub wamid : Option String
  pub ts_lower_ms : ℤ
  pub ts_upper_ms_exclusive : ℤ
  pub kind : Option String
  pub text_original : Option String
  pub direction : Direction
  pub window_eligible : Bool
  pub phone_number_id : Option String

pub record StatusRows : Type 0 where
  pub wamid : Option String
  pub status : Option String
  pub provider_ts_ms : ℤ
  pub recipient_id : Option String

pub data Rows : Type 0 where
  message_rows : MessageRows → Rows
  status_rows : StatusRows → Rows
  no_rows : Rows

abbrev pub message_row : Option String → RawMessage → Option String → ℤ → MessageRows
message_row p m n seconds = record {
  wa_id = m.sender;
  name = n;
  wamid = m.id;
  ts_lower_ms = times_1000 seconds;
  ts_upper_ms_exclusive = plus (times_1000 seconds) 1000;
  kind = kind_or_text m.kind;
  text_original = text_of m;
  direction = if m.echo then outward else inward;
  window_eligible = not m.echo;
  phone_number_id = p;
}

abbrev pub status_row : RawStatus → ℤ → StatusRows
status_row s seconds = record {
  wamid = s.id;
  status = s.status;
  provider_ts_ms = times_1000 seconds;
  recipient_id = s.recipient_id;
}

-- `to_rows`: `none` where `int` raises.
unfoldable pub to_rows : Atom → Option Rows
to_rows (message p m n) = elim m.timestamp [
  | none ↦ none
  | some seconds ↦ some (message_rows (message_row p m n seconds))
]
to_rows (status p s) = elim s.timestamp [
  | none ↦ none
  | some seconds ↦ some (status_rows (status_row s seconds))
]
to_rows (unknown p d) = some no_rows
