-- ===== src/Ingest/Db.antt =====
-- The tables of vault.db that the consumer writes, src/whatsvault/db/migrations/vault/0001_initial.sql
-- and 0005_ingest_ops.sql. A column that is written and read by no modelled code has no field.
use whatsvault.Base.{ℕ, String, Bool, Option, List}
use whatsvault.Base.Int.{ℤ}
use whatsvault.Base.Bytes.{Bytes}
use whatsvault.Ingest.Payload.{Family, Direction}

pub record Account : Type 0 where
  pub id : String
  pub phone_number_id : String

pub record ContactRow : Type 0 where
  pub id : String
  pub wa_id : Option String
  pub display_name : Option String

pub record ConversationRow : Type 0 where
  pub id : String
  pub account_id : String
  pub wa_chat_id : Option String

pub record StoredMessage : Type 0 where
  pub id : String
  pub account_id : String
  pub conversation_id : String
  pub sender_contact_id : String
  pub direction : Direction
  pub ts_lower_ms : ℤ
  pub ts_upper_ms_exclusive : ℤ
  pub kind : String
  pub text_original : Option String
  pub window_eligible : Bool
  pub wamid : Option String

pub record StoredStatus : Type 0 where
  pub id : String
  pub wamid : String
  pub status : String
  pub provider_ts_ms : ℤ
  pub recipient_id : Option String

-- The ledger by which a redelivery is seen; its provider is always the same.
pub record IngestEvent : Type 0 where
  pub id : String
  pub semantic_event_key : String
  pub family : Family
  pub received_at_ms : ℕ

pub data FailureClass : Type 0 where
  poison_malformed aead_auth_failed_isolated aead_auth_failed_systemic key_unavailable :
      FailureClass

-- `failure_code` follows from the class, and `sanitised_detail` is the one text "stage=decrypt".
pub record DlqRow : Type 0 where
  pub id : String
  pub event_id_hash : Option Bytes
  pub envelope : Bytes
  pub failure_class : FailureClass
  pub recipient_key_id : Option ℕ
  pub ciphertext_sha256 : Option String
  pub first_seen_ms : ℕ

-- The one row of ingest_state.
pub record Circuit : Type 0 where
  pub is_open : Bool
  pub tripped_at_ms : Option ℕ
  pub reason : Option String

pub record IngestDb : Type 0 where
  pub accounts : List Account
  pub contacts : List ContactRow
  pub conversations : List ConversationRow
  pub messages : List StoredMessage
  pub status_events : List StoredStatus
  pub events : List IngestEvent
  pub dlq : List DlqRow
  pub circuit : Circuit
