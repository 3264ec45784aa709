-- ===== src/Ingest/Queue/Held.antt =====
-- How often the queue has a body, over its operations.
use whatsvault.Base.{
  ℕ, zero, suc, ◌+◌, ◌≡◌, refl, ◌∙◌, ap, Option, none, some, List, [], ◌∷◌, ◌++◌, arith,
}
use whatsvault.Base.Eq.{either_way, ◌==◌, bytes_eq, nat_eq}
use whatsvault.Base.Table.{count, count-append}
use whatsvault.Base.Bytes.{Bytes}
use whatsvault.Ingest.Dlq.{circuit_open}
use whatsvault.Ingest.Process.{Stores}
use whatsvault.Ingest.Consumer.{Leased, Outside, Drained, closed, drain_once}
use whatsvault.Ingest.Queue.{
  Queue, lease, take_lease, ack_one, nack_one, ack, nack, acked_body, pended_body, drain_queue,
}

abbrev pub copies : Bytes → List Bytes → ℕ
copies b = count (λ (x : Bytes). x == b)

abbrev pub leased_copies : Bytes → List Leased → ℕ
leased_copies b = count (λ (lm : Leased). lm.body == b)

-- How often the queue has a body: waiting, leased, or acknowledged.
abbrev pub held : Bytes → Queue → ℕ
held b q = copies b q.pending + leased_copies b q.leased + copies b q.acked

abbrev found_copies : Bytes → Option Bytes → ℕ
found_copies b none = 0
found_copies b (some x) = copies b (x ∷ [])

module _ (b : Bytes) where
  -- The queue after the first message was leased.
  abbrev first_leased : Bytes → List Bytes → Queue → Queue
  first_leased body rest q = record q {
    pending = rest;
    leased = q.leased ++ record { lease_id = suc q.counter; body = body } ∷ [];
    counter = suc q.counter;
  }

  lease-empty : (n : ℕ) (q : Queue) → q.pending ≡ [] → (lease (suc n) q).1 ≡ q
  unfolding lease
  lease-empty n q e = rw (lease, e) cc

  lease-first :
      (n : ℕ) (q : Queue) (body : Bytes) (rest : List Bytes)
      → q.pending ≡ body ∷ rest
      → (lease (suc n) q).1 ≡ (lease n (first_leased body rest q)).1
  unfolding lease
  lease-first n q body rest e = rw (lease, e) refl

  lease_from :
      (n : ℕ)
      → ((q : Queue) → held b (lease n q).1 ≡ held b q)
      → (q : Queue) (l : List Bytes) → q.pending ≡ l
      → held b (lease (suc n) q).1 ≡ held b q
  lease_from n more q [] e = ap (held b) (lease-empty n q e)
  lease_from n more q (body ∷ rest) e =
      let lm : Leased = record { lease_id = suc q.counter; body = body } in
      let moved = count-append (λ (x : Leased). x.body == b) q.leased (lm ∷ []) in
      let one : held b (first_leased body rest q) ≡ held b q = ground (arith, e, moved) in
      ap (held b) (lease-first n q body rest e) ∙ more (first_leased body rest q) ∙ one

  pub held-lease : (n : ℕ) (q : Queue) → held b (lease n q).1 ≡ held b q
  unfolding lease
  held-lease zero q = refl
  held-lease (suc n) q = lease_from n (held-lease n) q q.pending refl

  leased_copies-take_lease :
      (i : ℕ) (l : List Leased)
      → leased_copies b l ≡ found_copies b (take_lease i l).0 + leased_copies b (take_lease i l).1
  leased_copies-take_lease i [] = refl
  leased_copies-take_lease i (lm ∷ rest) = ground (arith, leased_copies-take_lease i rest)

  acked_copies :
      (x : Option Bytes) (l : List Leased) (q : Queue)
      → leased_copies b q.leased ≡ found_copies b x + leased_copies b l
      → held b (acked_body x l q) ≡ held b q
  acked_copies none l q h = refl
  acked_copies (some body) l q h =
      omega (arith, h, count-append (λ (x : Bytes). x == b) q.acked (body ∷ []))

  pended_copies :
      (x : Option Bytes) (l : List Leased) (q : Queue)
      → leased_copies b q.leased ≡ found_copies b x + leased_copies b l
      → held b (pended_body x l q) ≡ held b q
  pended_copies none l q h = refl
  pended_copies (some body) l q h =
      omega (arith, h, count-append (λ (x : Bytes). x == b) q.pending (body ∷ []))

  held-ack_one : (i : ℕ) (q : Queue) → held b (ack_one i q) ≡ held b q
  held-ack_one i q =
      acked_copies (take_lease i q.leased).0 (take_lease i q.leased).1 q
        (leased_copies-take_lease i q.leased)

  held-nack_one : (i : ℕ) (q : Queue) → held b (nack_one i q) ≡ held b q
  held-nack_one i q =
      pended_copies (take_lease i q.leased).0 (take_lease i q.leased).1 q
        (leased_copies-take_lease i q.leased)

  pub held-ack : (l : List ℕ) (q : Queue) → held b (ack l q) ≡ held b q
  unfolding ack
  held-ack [] q = refl
  held-ack (i ∷ l) q = held-ack l (ack_one i q) ∙ held-ack_one i q

  pub held-nack : (l : List ℕ) (q : Queue) → held b (nack l q) ≡ held b q
  unfolding nack
  held-nack [] q = refl
  held-nack (i ∷ l) q = held-nack l (nack_one i q) ∙ held-nack_one i q

-- A drain loses no message of the queue and doubles none: whatever happens, a body is waiting, leased or
-- acknowledged as often after it as before.
pub held-drain_queue :
    (b : Bytes) (o : Outside) (max_lease : ℕ) (key_health : List ℕ) (now : ℕ) (s : Stores)
    (q : Queue)
    → held b (drain_queue o max_lease key_health now s q).1 ≡ held b q
unfolding drain_queue
held-drain_queue b o max_lease key_health now s q =
    let q' = (lease max_lease q).1 in
    let r = drain_once o (lease max_lease q).0 key_health now s in
    either_way (λ (x : Drained × Queue). held b x.1 ≡ held b q) (circuit_open s.vault.work)
      (closed s, q) (r, ack r.acked (nack r.nacked q')) refl
      (held-ack b r.acked (nack r.nacked q') ∙ held-nack b r.nacked q' ∙ held-lease b max_lease q)
