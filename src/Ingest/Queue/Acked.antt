-- ===== src/Ingest/Queue/Acked.antt =====
-- What the queue acknowledges, against what is settled in vault.db.
use whatsvault.Base.{
  ℕ, ◌≡◌, refl, sym, ◌∙◌, subst, Option, none, some, List, [], ◌∷◌, ◌⊎◌, inl, inr, arith,
}
use whatsvault.Base.Eq.{if_cases, either_way, ◌==◌, ==-sound, bytes_eq, nat_eq}
use whatsvault.Base.Table.{All}
use whatsvault.Base.Bytes.{Bytes}
use whatsvault.Ingest.Dlq.{circuit_open}
use whatsvault.Ingest.Process.{Stores}
use whatsvault.Ingest.Process.Grows.{IsQuiet}
use whatsvault.Ingest.Consumer.{Leased, Outside, Drained, closed, drain_once}
use whatsvault.Ingest.Consumer.Rounds.{Settled}
use whatsvault.Ingest.Consumer.Acks.{IsNew, IsAcked, drain_once-IsSafe}
use whatsvault.Ingest.Queue.{
  Queue, lease, take_lease, ack_one, nack_one, ack, nack, acked_body, pended_body, drain_queue,
}
use mathlib.Core.List.{Memᴰ}
use mathlib.Core.List.Memᴰ.{head, tail, cases_cons}
use whatsvault.Ingest.Queue.Leases.{IsOrdered, Mem-append_one, lease-IsLease}

-- The lease that `pop` finds.
abbrev Found : ℕ → List Leased → Option Bytes → Type 0
Found i l none = Unit
Found i l (some b) = (x : Leased) × Memᴰ x l × (x.lease_id ≡ i) × (x.body ≡ b)

Found-tail :
    (i : ℕ) (y : Leased) (l : List Leased) (o : Option Bytes) → Found i l o → Found i (y ∷ l) o
Found-tail i y l none h = tt
Found-tail i y l (some b) (x, m, named, same) = (x, tail m, named, same)

take_lease-Found :
    (i : ℕ) (l : List Leased)
    → Found i l (take_lease i l).0 × ((y : Leased) → Memᴰ y (take_lease i l).1 → Memᴰ y l)
take_lease-Found i [] = (tt, λ y m. m)
take_lease-Found i (x ∷ l) =
    let (found, kept) = take_lease-Found i l in
    if_cases
      (λ (r : Option Bytes × List Leased).
        Found i (x ∷ l) r.0 × ((y : Leased) → Memᴰ y r.1 → Memᴰ y (x ∷ l)))
      (x.lease_id == i) (some x.body, l) ((take_lease i l).0, x ∷ (take_lease i l).1)
      (λ here. ((x, head refl, ==-sound x.lease_id i here, refl), λ y m. tail m))
      (λ other. (
        Found-tail i x l (take_lease i l).0 found,
        λ y m. elim (cases_cons m) [ inl e ↦ head e | inr later ↦ tail (kept y later) ],
      ))

-- A step that only gives leases back.
record IsBack (q q' : Queue) : Type 0 where
  leased : (y : Leased) → Memᴰ y q'.leased → Memᴰ y q.leased
  counter : q'.counter ≡ q.counter
  acked : q'.acked ≡ q.acked

pended_body-IsBack :
    (o : Option Bytes) (l : List Leased) (q : Queue)
    → ((y : Leased) → Memᴰ y l → Memᴰ y q.leased)
    → IsBack q (pended_body o l q)
pended_body-IsBack none l q h = record { leased = λ y m. m; counter = refl; acked = refl }
pended_body-IsBack (some b) l q h = record { leased = h; counter = refl; acked = refl }

nack-IsBack : (l : List ℕ) (q : Queue) → IsBack q (nack l q)
unfolding nack
nack-IsBack [] q = record { leased = λ y m. m; counter = refl; acked = refl }
nack-IsBack (i ∷ l) q =
    let first =
      pended_body-IsBack (take_lease i q.leased).0 (take_lease i q.leased).1 q
        (take_lease-Found i q.leased).1 in
    let rest = nack-IsBack l (nack_one i q) in
    record {
      leased = λ y m. first.leased y (rest.leased y m);
      counter = rest.counter ∙ first.counter;
      acked = rest.acked ∙ first.acked;
    }

-- A lease with one of the identifiers, which holds the body.
abbrev IsOf : List ℕ → List Leased → Bytes → Type 0
IsOf ids l b = (x : Leased) × Memᴰ x l × Memᴰ x.lease_id ids × (x.body ≡ b)

-- What an acknowledgement of `ids` acknowledges.
record IsGone (ids : List ℕ) (q q' : Queue) : Type 0 where
  leased : (y : Leased) → Memᴰ y q'.leased → Memᴰ y q.leased
  counter : q'.counter ≡ q.counter
  acked : (b : Bytes) → Memᴰ b q'.acked → Memᴰ b q.acked ⊎ IsOf ids q.leased b

acked_body-IsGone :
    (i : ℕ) (rest : List ℕ) (o : Option Bytes) (l : List Leased) (q : Queue)
    → Found i q.leased o
    → ((y : Leased) → Memᴰ y l → Memᴰ y q.leased)
    → IsGone (i ∷ rest) q (acked_body o l q)
acked_body-IsGone i rest none l q found h = record {
  leased = λ y m. m;
  counter = refl;
  acked = λ b m. inl m;
}
acked_body-IsGone i rest (some c) l q (x, m, named, same) h = record {
  leased = h;
  counter = refl;
  acked = λ b there. elim (Mem-append_one q.acked c b there) [
    | inl before ↦ inl before
    | inr e ↦ inr (x, m, head named, same ∙ sym e)
  ];
}

ack-IsGone : (l : List ℕ) (q : Queue) → IsGone l q (ack l q)
unfolding ack
ack-IsGone [] q = record { leased = λ y m. m; counter = refl; acked = λ b m. inl m }
ack-IsGone (i ∷ l) q =
    let (found, kept) = take_lease-Found i q.leased in
    let first =
      acked_body-IsGone i l (take_lease i q.leased).0 (take_lease i q.leased).1 q found kept in
    let rest = ack-IsGone l (ack_one i q) in
    record {
      leased = λ y m. first.leased y (rest.leased y m);
      counter = rest.counter ∙ first.counter;
      acked = λ b m. elim (rest.acked b m) [
        | inl before ↦ first.acked b before
        | inr (x, there, named, same) ↦ inr (x, first.leased x there, tail named, same)
      ];
    }

All-Mem : {A : Type 0} (P : A → Type 0) (l : List A) (x : A) → All P l → Memᴰ x l → P x
All-Mem P [] x h m = elim m [ ]
All-Mem P (y ∷ l) x h m = elim (cases_cons m) [
  | inl e ↦ subst P (sym e) h.0
  | inr later ↦ All-Mem P l x h.1 later
]

IsOrdered-fewer :
    (q q' : Queue)
    → IsOrdered q
    → ((y : Leased) → Memᴰ y q'.leased → Memᴰ y q.leased)
    → q'.counter ≡ q.counter
    → IsOrdered q'
IsOrdered-fewer q q' h sub same = record {
  one_body = λ x y m m' e. h.one_body x y (sub x m) (sub y m') e;
  below = λ x m. omega (arith, h.below x (sub x m), same);
}

-- A drain keeps the leases in order.
drain_queue-IsOrdered :
    (o : Outside) (max_lease : ℕ) (key_health : List ℕ) (now : ℕ) (s : Stores) (q : Queue)
    → IsOrdered q
    → IsOrdered (drain_queue o max_lease key_health now s q).1
unfolding drain_queue
drain_queue-IsOrdered o max_lease key_health now s q ordered =
    let leases = lease-IsLease max_lease q ordered in
    let q' = (lease max_lease q).1 in
    let r = drain_once o (lease max_lease q).0 key_health now s in
    let back = nack-IsBack r.nacked q' in
    let gone = ack-IsGone r.acked (nack r.nacked q') in
    either_way (λ (x : Drained × Queue). IsOrdered x.1) (circuit_open s.vault.work) (closed s, q)
      (r, ack r.acked (nack r.nacked q')) ordered
      (IsOrdered-fewer q' (ack r.acked (nack r.nacked q')) leases.ordered
        (λ y m. back.leased y (gone.leased y m)) (gone.counter ∙ back.counter))

-- A body that the queue has acknowledged after a drain was acknowledged before it, or is settled in what is
-- committed: it is quarantined, or it opened and the ledger has its atoms. This holds where the leases of
-- the queue are in order, nothing is pending in vault.db, and the identifiers that are drawn are new.
pub drain_queue-Settled :
    (o : Outside) (max_lease : ℕ) (key_health : List ℕ) (now : ℕ) (s : Stores) (q : Queue)
    (b : Bytes)
    → IsOrdered q
    → IsQuiet s
    → IsNew o s.vault.saved
    → Memᴰ b (drain_queue o max_lease key_health now s q).1.acked
    → Memᴰ b q.acked ⊎ Settled o b (drain_queue o max_lease key_health now s q).0.stores.vault.saved
unfolding drain_queue
drain_queue-Settled o max_lease key_health now s q b ordered quiet fresh =
    let leases = lease-IsLease max_lease q ordered in
    let l = (lease max_lease q).0 in
    let q' = (lease max_lease q).1 in
    let r = drain_once o l key_health now s in
    let safe = drain_once-IsSafe o l key_health now s quiet fresh leases.apart in
    let back = nack-IsBack r.nacked q' in
    let gone = ack-IsGone r.acked (nack r.nacked q') in
    if_cases
      (λ (x : Drained × Queue).
        Memᴰ b x.1.acked → Memᴰ b q.acked ⊎ Settled o b x.0.stores.vault.saved)
      (circuit_open s.vault.work) (closed s, q) (r, ack r.acked (nack r.nacked q'))
      (λ shut m. inl m)
      (λ going m. elim (gone.acked b m) [
        | inl before ↦ inl (subst (Memᴰ b) (back.acked ∙ leases.acked) before)
        | inr (x, there, named, same) ↦
            let acked =
              All-Mem (IsAcked o l r.stores.vault.saved) r.acked x.lease_id safe.acks named in
            let body =
              leases.ordered.one_body acked.lm x (leases.held acked.lm acked.there)
                (back.leased x there) acked.named in
            inr
              (subst (λ (c : Bytes). Settled o c r.stores.vault.saved) (body ∙ same) acked.settled)
      ])
