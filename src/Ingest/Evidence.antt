-- ===== src/Ingest/Evidence.antt =====
-- `rebuild_window_from_evidence` of src/whatsvault/doctor.py: the window of a conversation against the
-- messages that open it.
pub mod Rows
pub mod Refines
use whatsvault.Base.{ℕ, String, Bool, false, not, ◌&&◌, Option, none, some, List, [], ◌∷◌}
use whatsvault.Base.Eq.{if◌then◌else◌, ◌==◌, string_eq, nat_eq}
use whatsvault.Base.Int.{ℤ, pos, negsuc, max_ℤ}
use whatsvault.Approval.Schema.{ApprovalDb}
use whatsvault.Approval.Sender.{last_inbound}
use whatsvault.Ingest.Payload.{is_inward}
use whatsvault.Ingest.Db.{StoredMessage, IngestDb}

abbrev pub is_evidence : String → StoredMessage → Bool
is_evidence i x = x.conversation_id == i && (is_inward x.direction && x.window_eligible)

abbrev higher : ℤ → Option ℤ → ℤ
higher t none = t
higher t (some u) = max_ℤ t u

-- `MAX(ts_lower_ms)` of the window-eligible inbound messages, null where there are none
abbrev pub max_evidence : String → List StoredMessage → Option ℤ
max_evidence i [] = none
max_evidence i (x ∷ rest) =
    if is_evidence i x
    then some (higher x.ts_lower_ms (max_evidence i rest))
    else max_evidence i rest

-- `COALESCE(MAX(ts_lower_ms), 0)`
abbrev pub or_0 : Option ℤ → ℤ
or_0 none = pos 0
or_0 (some t) = t

abbrev pub latest_evidence : String → List StoredMessage → ℤ
latest_evidence i l = or_0 (max_evidence i l)

abbrev pub same_time : ℕ → ℤ → Bool
same_time n (pos m) = n == m
same_time n (negsuc m) = false

pub record Drift : Type 0 where
  pub evidence_ms : ℤ
  pub stored_ms : ℕ
  pub drift : Bool

-- What `rebuild_window_from_evidence` finds and returns; its repair is not modelled.
unfoldable pub drift_of : String → IngestDb → ApprovalDb → Drift
drift_of i vault control =
    let evidence = latest_evidence i vault.messages in
    let stored = last_inbound control i in
    record { evidence_ms = evidence; stored_ms = stored; drift = not (same_time stored evidence) }
