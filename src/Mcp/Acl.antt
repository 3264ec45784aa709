-- ===== src/Mcp/Acl.antt =====
-- src/whatsvault/mcp/acl.py: which conversations a model may see at all.
use whatsvault.Base.{String, Bool, true, false, ◌&&◌, Option, none, some, List}
use whatsvault.Base.Int.{ℤ}
use whatsvault.Base.Eq.{if◌then◌else◌, ◌==◌, string_eq}
use whatsvault.Base.Table.{any, update}
use whatsvault.Base.Conn.{Conn, write, commit}
use whatsvault.Mcp.Present.{Contact, Row}
use whatsvault.Ingest.Status.{Event}

pub data Visibility : Type 0 where
  allow_mcp local_only : Visibility

abbrev pub is_local_only : Visibility → Bool
is_local_only allow_mcp = false
is_local_only local_only = true

pub record Conversation : Type 0 where
  pub id : String
  pub kind : String
  pub subject : Option String
  pub last_message_ms : Option ℤ
  pub mcp_visibility : Visibility

-- A row of message_status_events: the message's wamid, and the event.
pub record StatusRow : Type 0 where
  pub wamid : String
  pub event : Event

pub record Vault : Type 0 where
  pub conversations : List Conversation
  pub messages : List Row
  pub contacts : List Contact
  pub status_events : List StatusRow

abbrev read_visibility : String → Option Visibility
read_visibility s =
    if s == "ALLOW_MCP" then some allow_mcp else if s == "LOCAL_ONLY" then some local_only else none

-- `set_visibility`: `none` is the `ValueError`.
unfoldable pub set_visibility : String → String → Conn Vault → Option (Conn Vault)
set_visibility conversation_id visibility c = elim (read_visibility visibility) [
  | none ↦ none
  | some v ↦ some (
      commit (
        write
          (record c.work {
            conversations =
                update (λ (x : Conversation). x.id == conversation_id)
                  (λ x. record x { mcp_visibility = v }) c.work.conversations;
          })
          c))
]

-- `conversation_id in local_only_ids(vault_conn)`
abbrev pub is_fenced : String → Conversation → Bool
is_fenced i x = x.id == i && is_local_only x.mcp_visibility

unfoldable pub in_local_only : Vault → String → Bool
in_local_only v i = any (is_fenced i) v.conversations
