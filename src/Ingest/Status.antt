-- ===== src/Ingest/Status.antt =====
-- src/whatsvault/ingest/status.py: the delivery state of a message, from its status events.
pub mod Order
use whatsvault.Base.{ℕ, max, String, Bool, true, false, Option, none, some, List, [], ◌∷◌}
use whatsvault.Base.Eq.{if◌then◌else◌, ◌==◌, string_eq}
use whatsvault.Base.Int.{ℤ, min_ℤ}
use whatsvault.Base.Table.{any}

pub record Event : Type 0 where
  pub status : String
  pub provider_ts_ms : ℤ

-- The variables of the loop. The set `unknown` is a list, the last status added first; `sorted` lays
-- it out in an order of Python's own.
pub record Reduced : Type 0 where
  pub delivery_rank : ℕ
  pub failed_at_ms : Option ℤ
  pub deleted_at_ms : Option ℤ
  pub unknown_statuses : List String

-- `RANK.get(s)`
abbrev pub rank_of : String → Option ℕ
rank_of s =
    if s == "sent"
    then some 1
    else if s == "delivered"
    then some 2
    else if s == "read"
    then some 3
    else none

-- `ts if at is None else min(at, ts)`
abbrev pub earliest : Option ℤ → ℤ → Option ℤ
earliest none ts = some ts
earliest (some t) ts = some (min_ℤ t ts)

abbrev pub add : String → List String → List String
add s unknown = if any (λ (x : String). x == s) unknown then unknown else s ∷ unknown

-- One round of the loop.
unfoldable pub reduce_event : Event → Reduced → Reduced
reduce_event e r = elim (rank_of e.status) [
  | some n ↦ record r { delivery_rank = max r.delivery_rank n }
  | none ↦
      if e.status == "failed"
      then record r { failed_at_ms = earliest r.failed_at_ms e.provider_ts_ms }
      else if e.status == "deleted"
      then record r { deleted_at_ms = earliest r.deleted_at_ms e.provider_ts_ms }
      else record r { unknown_statuses = add e.status r.unknown_statuses }
]

unfoldable pub reduce_from : List Event → Reduced → Reduced
reduce_from [] r = r
reduce_from (e ∷ es) r = reduce_from es (reduce_event e r)

abbrev pub nothing_seen : Reduced
nothing_seen = record {
  delivery_rank = 0;
  failed_at_ms = none;
  deleted_at_ms = none;
  unknown_statuses = [];
}

-- `reduce_status`
unfoldable pub reduce_status : List Event → Reduced
unfolding reduce_from
reduce_status events = reduce_from events nothing_seen
