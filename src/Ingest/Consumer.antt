-- ===== src/Ingest/Consumer.antt =====
-- `drain_once` of src/apps/ingest/consumer.py: one lease of messages, each opened, written and
-- acknowledged, handed back, or quarantined.
pub mod Rounds
pub mod Acks
pub mod Fates
pub mod Tally
use whatsvault.Base.{ℕ, suc, String, Bool, true, false, Option, none, some, List, [], ◌∷◌, ◌++◌}
use whatsvault.Base.Eq.{if◌then◌else◌, ◌==◌, nat_eq, option_eq}
use whatsvault.Base.Table.{any, length}
use whatsvault.Base.Conn.{Conn}
use whatsvault.Base.Bytes.{Bytes}
use whatsvault.Crypto.{Crypto}
use whatsvault.Sealed.{
  Primitives, Opened, opened, bad_envelope, key_unavailable, aead_auth_failed, value_error,
  parse_header, open_sealed,
}
use whatsvault.Approval.Schema.{ApprovalDb}
use whatsvault.Ingest.Payload.{Payload}
use whatsvault.Ingest.Keys.{Decimal}
use whatsvault.Ingest.Db.{FailureClass, poison_malformed, aead_auth_failed_isolated, IngestDb}
use whatsvault.Ingest.Dlq.{
  auth_failed, classify_decrypt_error, key_of, quarantine, circuit_open, trip,
}
use whatsvault.Ingest.Process.{Fresh, Stores, process_payload}

-- `LeasedMsg`, its identifier as a number
pub record Leased : Type 0 where
  pub lease_id : ℕ
  pub body : Bytes

-- What the loop takes from outside: the libraries, the private keys, `json.loads`, and the identifiers
-- that are drawn while the message of a lease is handled.
pub record Outside : Type 0 where
  pub crypto : Crypto
  pub py : Decimal
  pub primitives : Primitives
  pub key_lookup : ℕ → Option Bytes
  pub loads : Bytes → Option Payload
  pub fresh : ℕ → ℕ → Fresh
  pub dlq_id : ℕ → String
  -- "systemic decrypt failure key=..."
  pub reason : Option ℕ → String

-- The variables of the loop, and the calls of `queue.nack`.
pub record Drain : Type 0 where
  pub stores : Stores
  pub key_health : List ℕ
  pub to_ack : List ℕ
  pub nacked : List ℕ
  pub poison : ℕ
  pub transient : ℕ
  pub systemic : ℕ
  pub durable : ℕ

-- How a round ends: with the next one, by `break`, or by an exception that nothing catches.
pub data Round : Type 0 where
  next stop escape : Drain → Round

-- `key_health.add(k)`
abbrev pub add_key : ℕ → List ℕ → List ℕ
add_key n l = if any (λ (x : ℕ). x == n) l then l else n ∷ l

-- `key_id in key_health`, where `None` is never one
abbrev pub healthy : Option ℕ → List ℕ → Bool
healthy none l = false
healthy (some n) l = any (λ (x : ℕ). x == n) l

abbrev pub hand_back : Leased → Drain → Drain
hand_back lm d = record d { transient = suc d.transient; nacked = d.nacked ++ lm.lease_id ∷ [] }

abbrev quarantined : Leased → Drain → Option (Conn IngestDb) → Round
quarantined lm d none = escape (record d { poison = suc d.poison })
quarantined lm d (some c) = next (record d {
  stores = record d.stores { vault = c };
  poison = suc d.poison;
  to_ack = d.to_ack ++ lm.lease_id ∷ [];
})

-- Quarantine, and the lease among those to acknowledge.
abbrev pub poisoned : Outside → ℕ → Leased → FailureClass → Drain → Round
poisoned o now lm failure d =
    quarantined lm d
      (quarantine o.primitives (o.dlq_id lm.lease_id) lm.body failure now d.stores.vault)

abbrev pub is_isolated : FailureClass → Bool
is_isolated aead_auth_failed_isolated = true
is_isolated _ = false

abbrev pub circuit_break : Outside → ℕ → Option ℕ → Drain → Round
circuit_break o now key_id d = stop (record d {
  systemic = suc d.systemic;
  stores = record d.stores { vault = trip (o.reason key_id) now d.stores.vault };
})

-- The handler of `AeadAuthFailed`.
abbrev pub tag_failed : Outside → ℕ → Leased → Drain → Round
tag_failed o now lm d =
    let key_id = key_of (parse_header o.primitives lm.body) in
    let failure = classify_decrypt_error auth_failed (healthy key_id d.key_health) in
    if is_isolated failure then poisoned o now lm failure d else circuit_break o now key_id d

abbrev written : Leased → Drain → Bool × Stores → Round
written lm d (true, s) =
    next (record d { stores = s; to_ack = d.to_ack ++ lm.lease_id ∷ []; durable = suc d.durable })
written lm d (false, s) = next (hand_back lm (record d { stores = s }))

-- An envelope that opened.
abbrev pub deliver : Outside → ℕ → Leased → ℕ → Bytes → Drain → Round
deliver o now lm key_id plaintext d =
    written lm (record d { key_health = add_key key_id d.key_health })
      (process_payload o.crypto o.py (o.fresh lm.lease_id) now (o.loads plaintext) d.stores)

-- The handlers of the exceptions of `open_sealed`.
abbrev pub on_opened : Outside → ℕ → Leased → Drain → Opened → Round
on_opened o now lm d (opened plaintext hdr) =
    deliver o now lm hdr.fields.recipient_key_id plaintext d
on_opened o now lm d key_unavailable = next (hand_back lm d)
on_opened o now lm d bad_envelope = poisoned o now lm poison_malformed d
on_opened o now lm d aead_auth_failed = tag_failed o now lm d
on_opened o now lm d value_error = escape d

-- One round of the loop.
unfoldable pub handle : Outside → ℕ → Leased → Drain → Round
handle o now lm d = on_opened o now lm d (open_sealed o.primitives o.key_lookup lm.body)

-- The loop: true where it ends and the acknowledgements are sent, false where an exception leaves it.
unfoldable pub drain_loop : Outside → ℕ → List Leased → Drain → Bool × Drain
drain_loop o now [] d = (true, d)
drain_loop o now (lm ∷ rest) d = elim (handle o now lm d) [
  | next d' ↦ drain_loop o now rest d'
  | stop d' ↦ (true, d')
  | escape d' ↦ (false, d')
]

-- What `drain_once` returns.
pub record Counts : Type 0 where
  pub leased : ℕ
  pub acked : ℕ
  pub poison : ℕ
  pub transient : ℕ
  pub systemic : ℕ
  pub durable : ℕ
  pub open_circuit : Bool

abbrev pub start_drain : Stores → List ℕ → Drain
start_drain s key_health = record {
  stores = s;
  key_health = key_health;
  to_ack = [];
  nacked = [];
  poison = 0;
  transient = 0;
  systemic = 0;
  durable = 0;
}

abbrev pub counts_of : ℕ → Drain → Counts
counts_of n d = record {
  leased = n;
  acked = length d.to_ack;
  poison = d.poison;
  transient = d.transient;
  systemic = d.systemic;
  durable = d.durable;
  open_circuit = circuit_open d.stores.vault.work;
}

-- What a drain has done: the leases that it acknowledged and those it handed back, the databases, and
-- the counts, none where an exception left the loop.
pub record Drained : Type 0 where
  pub stores : Stores
  pub acked : List ℕ
  pub nacked : List ℕ
  pub counts : Option Counts

abbrev pub drained : ℕ → Bool × Drain → Drained
drained n (true, d) = record {
  stores = d.stores;
  acked = d.to_ack;
  nacked = d.nacked;
  counts = some (counts_of n d);
}
drained n (false, d) = record { stores = d.stores; acked = []; nacked = d.nacked; counts = none }

abbrev pub closed_counts : Counts
closed_counts = record {
  leased = 0;
  acked = 0;
  poison = 0;
  transient = 0;
  systemic = 0;
  durable = 0;
  open_circuit = true;
}

-- What the drain of an open circuit returns.
abbrev pub closed : Stores → Drained
closed s = record { stores = s; acked = []; nacked = []; counts = some closed_counts }

-- `drain_once`, with the messages that `queue.lease` gives.
unfoldable pub drain_once : Outside → List Leased → List ℕ → ℕ → Stores → Drained
drain_once o leased key_health now s =
    if circuit_open s.vault.work
    then closed s
    else drained (length leased) (drain_loop o now leased (start_drain s key_health))
