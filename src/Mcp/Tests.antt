-- ===== src/Mcp/Tests.antt =====
-- A vault with a private conversation, and the reads on it.
mod Gate
use whatsvault.Base.{String, ◌≡◌, refl, true, none, some, [], ◌∷◌}
use whatsvault.Base.Int.{pos}
use whatsvault.Base.Eq.{◌==◌, string_eq, option_eq}
use whatsvault.Base.Conn.{Conn}
use whatsvault.Mcp.Present.{Python, Row}
use whatsvault.Mcp.Acl.{Conversation, Vault, Visibility, allow_mcp, local_only, set_visibility}
use whatsvault.Mcp.Reads.{Sqlite, number, get_messages, list_chats, get_message_status}
use whatsvault.Mcp.Reads.Fence.{
  IsKeyedVault, without_local, get_messages-without_local, list_chats-without_local,
  get_message_status-without_local, set_visibility-get_messages,
}

-- Stand-ins for what Python and SQLite decide.
abbrev py : Python
py = record { isdigit = λ c. true; hexdigest = λ s. s }

abbrev sql : Sqlite
sql = record { by_time = λ l. l; by_activity = λ l. l; like = λ p t. t == some p }

abbrev chat_of : String → Visibility → Conversation
chat_of i v = record {
  id = i;
  kind = "dm";
  subject = some i;
  last_message_ms = some (pos 1000);
  mcp_visibility = v;
}

abbrev message_of : String → String → Row
message_of i conversation_id = record {
  id = i;
  conversation_id = conversation_id;
  sender_contact_id = none;
  direction = "in";
  ts_lower_ms = pos 1000;
  ts_upper_ms_exclusive = pos 2000;
  ts_precision = "s";
  delivery_rank = 0;
  reply_to_wamid = none;
  text_original = some i;
  wamid = none;
}

abbrev vault : Vault
vault = record {
  conversations = chat_of "open" allow_mcp ∷ chat_of "private" local_only ∷ [];
  messages = message_of "m1" "open" ∷ message_of "m2" "private" ∷ [];
  contacts = [];
  status_events = [];
}

vault-IsKeyed : IsKeyedVault vault
unfolding string_eq
vault-IsKeyed = record { conversations = (refl, (refl, tt)); messages = (refl, (refl, tt)) }

get_messages-without_local_example :
    get_messages py sql vault "open" (some (pos 500)) none (number 50)
    ≡ get_messages py sql (without_local vault) "open" (some (pos 500)) none (number 50)
get_messages-without_local_example =
    get_messages-without_local py sql vault "open" (some (pos 500)) none (number 50) vault-IsKeyed

abbrev opened : Conn Vault
opened = record { work = vault; saved = vault }

abbrev marked : Vault
marked = record vault {
  conversations = chat_of "open" local_only ∷ chat_of "private" local_only ∷ [];
}

set_visibility-get_messages_example :
    get_messages py sql marked "open" none none (number 1) ≡ some []
unfolding set_visibility string_eq
set_visibility-get_messages_example =
    set_visibility-get_messages py sql "open" none none (number 1) opened
      (record { work = marked; saved = marked }) refl
