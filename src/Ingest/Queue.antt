-- ===== src/Ingest/Queue.antt =====
-- src/apps/ingest/queue_client.py: a queue that leases its messages, in memory.
pub mod Held
pub mod Leases
pub mod Acked
use whatsvault.Base.{
  ℕ, zero, suc, ◌+◌, ◌≡◌, refl, Bool, true, false, Option, none, some, List, [], ◌∷◌, ◌++◌, arith,
}
use whatsvault.Base.Eq.{if◌then◌else◌, ◌==◌, nat_eq, bytes_eq}
use whatsvault.Base.Bytes.{Bytes}
use whatsvault.Ingest.Dlq.{circuit_open}
use whatsvault.Ingest.Process.{Stores}
use whatsvault.Ingest.Consumer.{Leased, Outside, Drained, closed, drain_once}

-- `FakeQueue`; `_leased` is a dictionary by lease.
pub record Queue : Type 0 where
  pub pending : List Bytes
  pub leased : List Leased
  pub acked : List Bytes
  pub counter : ℕ

-- `add`
unfoldable pub add : Bytes → Queue → Queue
add body q = record q { pending = q.pending ++ body ∷ [] }

-- The loop of `lease`, over the messages that may still be leased.
unfoldable pub lease : ℕ → Queue → List Leased × Queue
lease zero q = ([], q)
lease (suc n) q = elim q.pending [
  | [] ↦ ([], q)
  | body ∷ rest ↦
      let lm : Leased = record { lease_id = suc q.counter; body = body } in
      let (more, q') =
        lease n
          (record q { pending = rest; leased = q.leased ++ lm ∷ []; counter = suc q.counter }) in
      (lm ∷ more, q')
]

-- `self._leased.pop(lid, None)`
abbrev pub take_lease : ℕ → List Leased → Option Bytes × List Leased
take_lease i [] = (none, [])
take_lease i (lm ∷ rest) =
    let (found, others) = take_lease i rest in
    if lm.lease_id == i then (some lm.body, rest) else (found, lm ∷ others)

abbrev pub acked_body : Option Bytes → List Leased → Queue → Queue
acked_body none l q = q
acked_body (some body) l q = record q { leased = l; acked = q.acked ++ body ∷ [] }

abbrev pub pended_body : Option Bytes → List Leased → Queue → Queue
pended_body none l q = q
pended_body (some body) l q = record q { leased = l; pending = q.pending ++ body ∷ [] }

-- One round of `ack`, and of `nack`.
abbrev pub ack_one : ℕ → Queue → Queue
ack_one i q = let (body, l) = take_lease i q.leased in acked_body body l q

abbrev pub nack_one : ℕ → Queue → Queue
nack_one i q = let (body, l) = take_lease i q.leased in pended_body body l q

unfoldable pub ack : List ℕ → Queue → Queue
ack [] q = q
ack (i ∷ rest) q = ack rest (ack_one i q)

unfoldable pub nack : List ℕ → Queue → Queue
nack [] q = q
nack (i ∷ rest) q = nack rest (nack_one i q)

-- `drain_once` on this queue, whose leases and acknowledgements are those of the model of the loop.
unfoldable pub drain_queue : Outside → ℕ → List ℕ → ℕ → Stores → Queue → Drained × Queue
drain_queue o max_lease key_health now s q =
    if circuit_open s.vault.work
    then (closed s, q)
    else let (leased, q') = lease max_lease q in
      let r = drain_once o leased key_health now s in (r, ack r.acked (nack r.nacked q'))
