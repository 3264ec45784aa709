-- ===== src/Ingest/Evidence/Refines.antt =====
-- The windows that the consumer keeps, against the messages that the doctor reads them off.
use whatsvault.Base.{Bool, String, ◌≡◌, true, false, List}
use whatsvault.Base.Eq.{string_eq, nat_eq}
use whatsvault.Base.Int.{ℤ, pos, negsuc}
use whatsvault.Base.Conn.{Conn}
use whatsvault.Crypto.{Crypto}
use whatsvault.Approval.Schema.{ApprovalDb}
use whatsvault.Approval.Sender.{last_inbound}
use whatsvault.Ingest.Payload.{Rows, Payload}
use whatsvault.Ingest.Db.{StoredMessage}
use whatsvault.Ingest.Process.{Stores}
use whatsvault.Ingest.Process.Grows.{IsQuiet}
use whatsvault.Ingest.Evidence.Rows.{shown}

-- The stored windows are the latest evidence, where evidence from before 1970 counts as 0.
abbrev pub Projects : ApprovalDb → List StoredMessage → Type 0
Projects control l = (i : String) → last_inbound control i ≡ shown i l

abbrev pub IsProjected : Stores → Type 0
IsProjected s = Projects s.control.work s.vault.work.messages

-- Nothing is pending in vault.db, and the windows are those of its messages.
abbrev InSync : Stores → Type 0
InSync s = IsQuiet s × IsProjected s

abbrev pub is_negative : ℤ → Bool
is_negative (pos n) = false
is_negative (negsuc n) = true
