-- ===== src/Approval/Grants.antt =====
-- src/whatsvault/approval/capabilities.py and `sender.mark_read`: grants that the phone signs, and
-- their use.
pub mod Bounds
pub mod Target
use whatsvault.Base.{
  ℕ, ◌+◌, String, Bool, true, false, not, ◌&&◌, ◌||◌, Option, none, some, List, [], ◌∷◌, ◌++◌,
}
use whatsvault.Base.Eq.{if◌then◌else◌, ◌==◌, string_eq, option_eq, nat_eq, leb, ltb}
use whatsvault.Base.Table.{find, select, update, any, count, length}
use whatsvault.Base.Conn.{Conn, write, commit}
use whatsvault.Base.Bytes.{Bytes, codes, be_bytes}
use whatsvault.Crypto.{Crypto, verify}
use whatsvault.Approval.Schema.{
  Grant, DeviceStatus, is_active, ApprovalDb, Exn, integrity_error, overflow_error, Result, ok,
  raised,
}
use whatsvault.Approval.Canonical.{Slot, str, bytes, u64, ◌>>=◌, encode_slots}
use whatsvault.Approval.Devices.{active_signing_key}

-- The keys of the dictionary `fields`; those read by `fields.get` may be missing.
pub record GrantFields : Type 0 where
  pub capability_id : String
  pub device_id : String
  pub account_id : Option String
  pub conversation_id : Option String
  pub action : String
  pub created_at_ms : Option ℕ
  pub expires_at_ms : Option ℕ
  pub max_actions : Option ℕ
  pub nonce : Option Bytes

unfoldable pub grant_domain : Bytes
grant_domain = codes "WHATSVAULT-CAPABILITY-V1\n"

unfoldable pub grant_slots : GrantFields → List Slot
grant_slots f =
    str (some f.capability_id)
    ∷ str (some f.device_id)
    ∷ str f.account_id
    ∷ str f.conversation_id
    ∷ str (some f.action)
    ∷ u64 f.created_at_ms
    ∷ u64 f.expires_at_ms
    ∷ u64 f.max_actions
    ∷ bytes f.nonce
    ∷ []

-- `encode_grant`; its loop is that of `canonical.encode`.
unfoldable pub encode_grant : Crypto → GrantFields → Option Bytes
encode_grant k f = do
  body ← encode_slots k (grant_slots f)
  some ((grant_domain ++ be_bytes 2 1) ++ body)

pub data StoreOutcome : Type 0 where
  stored : String → StoreOutcome
  device_inactive_or_unknown bad_signature : StoreOutcome
  store_raised : Exn → StoreOutcome

abbrev sized : ℕ → Option Bytes → Bool
sized n none = true
sized n (some b) = length b == n

-- The constraints of capability_grants: the primary key, and the lengths of nonce and signature. The
-- device exists, since it has an active key.
abbrev grant_admissible : ApprovalDb → GrantFields → Bytes → Bool
grant_admissible db f signature =
    not (any (λ (g : Grant). g.capability_id == f.capability_id) db.grants)
    && (sized 32 f.nonce && length signature == 64)

abbrev grant_row : GrantFields → Bytes → Grant
grant_row f signature = record {
  capability_id = f.capability_id;
  device_id = f.device_id;
  account_id = f.account_id;
  conversation_id = f.conversation_id;
  action = f.action;
  created_at_ms = f.created_at_ms;
  expires_at_ms = f.expires_at_ms;
  max_actions = f.max_actions;
  used_count = 0;
  nonce = f.nonce;
  signature = signature;
  status = DeviceStatus.active;
}

-- The INSERT of `store_grant`, after the signature was checked.
unfoldable pub insert_grant : GrantFields → Bytes → Conn ApprovalDb → StoreOutcome × Conn ApprovalDb
insert_grant f signature c =
    if grant_admissible c.work f signature
    then (
      stored f.capability_id,
      commit (write (record c.work { grants = c.work.grants ++ grant_row f signature ∷ [] }) c),
    )
    else (store_raised integrity_error, c)

abbrev store_signed :
    Crypto
    → GrantFields
    → Bytes
    → Bytes
    → Option Bytes
    → Conn ApprovalDb
    → StoreOutcome × Conn ApprovalDb
store_signed k f signature key none c = (store_raised overflow_error, c)
store_signed k f signature key (some payload) c =
    if verify k payload signature key then insert_grant f signature c else (bad_signature, c)

unfoldable pub store_grant :
    Crypto → GrantFields → Bytes → Conn ApprovalDb → StoreOutcome × Conn ApprovalDb
store_grant k f signature c = elim (active_signing_key c.work f.device_id) [
  | none ↦ (device_inactive_or_unknown, c)
  | some key ↦ store_signed k f signature key (encode_grant k f) c
]

-- The fields that are read back from a stored grant; `conversation_id` and `action` are those asked
-- for, which the row's own equal.
abbrev pub stored_fields : String → String → Grant → GrantFields
stored_fields action conversation_id g = record {
  capability_id = g.capability_id;
  device_id = g.device_id;
  account_id = g.account_id;
  conversation_id = some conversation_id;
  action = action;
  created_at_ms = g.created_at_ms;
  expires_at_ms = g.expires_at_ms;
  max_actions = g.max_actions;
  nonce = g.nonce;
}

-- `WHERE action=? AND conversation_id=? AND status='ACTIVE'`
abbrev pub is_offered : String → String → Grant → Bool
is_offered action conversation_id g =
    g.action == action && (g.conversation_id == some conversation_id && is_active g.status)

abbrev pub has_expired : Option ℕ → ℕ → Bool
has_expired none now = false
has_expired (some e) now = leb e now

abbrev pub is_used_up : Option ℕ → ℕ → Bool
is_used_up none used = false
is_used_up (some m) used = leb m used

-- What the loop finds of one row: skip it, stop with an exception, or try to consume it.
pub data Check : Type 0 where
  skip consume : Check
  stop : Exn → Check

abbrev signature_check : Crypto → Bytes → Bytes → Option Bytes → Check
signature_check k signature key none = stop overflow_error
signature_check k signature key (some payload) =
    if verify k payload signature key then consume else skip

abbrev key_check : Crypto → String → String → ℕ → Grant → Option Bytes → Check
key_check k action conversation_id now g none = skip
key_check k action conversation_id now g (some key) =
    if has_expired g.expires_at_ms now
    then skip
    else if is_used_up g.max_actions g.used_count
    then skip
    else signature_check k g.signature key (encode_grant k (stored_fields action conversation_id g))

unfoldable pub check_grant : Crypto → ApprovalDb → String → String → ℕ → Grant → Check
check_grant k db action conversation_id now g =
    key_check k action conversation_id now g (active_signing_key db g.device_id)

-- `WHERE capability_id=? AND used_count=?`
abbrev pub is_row : Grant → Grant → Bool
is_row g x = x.capability_id == g.capability_id && x.used_count == g.used_count

abbrev pub use_once : Grant → Grant
use_once g = record g { used_count = g.used_count + 1 }

-- The loop over the rows. The UPDATE may touch no row, or several, only where the table changed
-- under the loop; then the loop goes on, with the change pending.
unfoldable pub consume_first :
    Crypto → String → String → ℕ → List Grant → Conn ApprovalDb → Result Bool × Conn ApprovalDb
consume_first k action conversation_id now [] c = (ok false, c)
consume_first k action conversation_id now (g ∷ gs) c =
    let used : Conn ApprovalDb =
      write (record c.work { grants = update (is_row g) use_once c.work.grants }) c in
    let skipped = consume_first k action conversation_id now gs c in
    let missed = consume_first k action conversation_id now gs used in
    elim (check_grant k c.work action conversation_id now g) [
      | skip ↦ skipped
      | stop e ↦ (raised e, c)
      | consume ↦ if count (is_row g) c.work.grants == 1 then (ok true, commit used) else missed
    ]

unfoldable pub verify_and_consume :
    Crypto → String → String → ℕ → Conn ApprovalDb → Result Bool × Conn ApprovalDb
unfolding consume_first
verify_and_consume k action conversation_id now c =
    consume_first k action conversation_id now
      (select (is_offered action conversation_id) c.work.grants) c

-- A row of vault.messages, as far as `mark_read` reads it. `wamid` may be null.
pub record Message : Type 0 where
  pub wamid : Option String
  pub account_id : String
  pub conversation_id : String
  pub direction : String

pub data MarkRead : Type 0 where
  marked : MarkRead
  unknown_target target_conversation_mismatch not_inbound authorization_missing : MarkRead
  mark_raised : Exn → MarkRead

-- What `verify_and_consume` lets `mark_read` answer.
abbrev pub marked_if : Result Bool → MarkRead
marked_if (ok true) = marked
marked_if (ok false) = authorization_missing
marked_if (raised e) = mark_raised e

abbrev mark_found :
    Crypto → String → ℕ → Option Message → Conn ApprovalDb → MarkRead × Conn ApprovalDb
mark_found k conversation_id now none c = (unknown_target, c)
mark_found k conversation_id now (some m) c =
    if not (m.conversation_id == conversation_id)
    then (target_conversation_mismatch, c)
    else if not (m.direction == "in")
    then (not_inbound, c)
    else let (r, c') = verify_and_consume k "MARK_READ" conversation_id now c in (marked_if r, c')

-- `mark_read`: the answer, and the connection after it; the provider is called where it is `marked`.
unfoldable pub mark_read :
    Crypto
    → List Message
    → String
    → String
    → String
    → ℕ
    → Conn ApprovalDb
    → MarkRead × Conn ApprovalDb
mark_read k messages conversation_id wamid account_id now c =
    mark_found k conversation_id now
      (find (λ (m : Message). m.wamid == some wamid && m.account_id == account_id) messages) c
