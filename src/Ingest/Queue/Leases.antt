-- ===== src/Ingest/Queue/Leases.antt =====
-- The identifiers of the leases that the queue hands out.
use whatsvault.Base.{
  ℕ, zero, suc, ◌≤◌, ◌<◌, ◌≡◌, ◌≢◌, refl, sym, ◌∙◌, ap, List, [], ◌∷◌, ◌++◌, ◌⊎◌, inl, inr, arith,
}
use whatsvault.Base.Eq.{bytes_eq, nat_eq}
use whatsvault.Base.Table.{All, All-map}
use whatsvault.Base.Bytes.{Bytes}
use whatsvault.Ingest.Consumer.{Leased}
use whatsvault.Ingest.Consumer.Acks.{AllApart}
use whatsvault.Ingest.Queue.{Queue, lease}
use mathlib.Core.List.{Memᴰ}
use mathlib.Core.List.Memᴰ.{head, tail, cases_cons, append_left, append_right}

-- Leases with one identifier are of one body, and the counter is past all of them.
pub record IsOrdered (q : Queue) : Type 0 where
  pub one_body :
      (x y : Leased) → Memᴰ x q.leased → Memᴰ y q.leased → x.lease_id ≡ y.lease_id → x.body ≡ y.body
  pub below : (x : Leased) → Memᴰ x q.leased → x.lease_id ≤ q.counter

pub Mem-append_one : {A : Type 0} (l : List A) (a x : A) → Memᴰ x (l ++ a ∷ []) → Memᴰ x l ⊎ (x ≡ a)
Mem-append_one [] a x m = elim (cases_cons m) [ inl e ↦ inr e | inr none_left ↦ elim none_left [ ] ]
Mem-append_one (y ∷ l) a x m = elim (cases_cons m) [
  | inl e ↦ inl (head e)
  | inr later ↦ elim (Mem-append_one l a x later) [ inl there ↦ inl (tail there) | inr e ↦ inr e ]
]

abbrev next_lease : Bytes → Queue → Leased
next_lease body q = record { lease_id = suc q.counter; body = body }

abbrev lease_one : Bytes → List Bytes → Queue → Queue
lease_one body rest q = record q {
  pending = rest;
  leased = q.leased ++ next_lease body q ∷ [];
  counter = suc q.counter;
}

lease_one-IsOrdered :
    (body : Bytes) (rest : List Bytes) (q : Queue) → IsOrdered q → IsOrdered (lease_one body rest q)
lease_one-IsOrdered body rest q h =
    let new = next_lease body q in
    record {
      one_body = λ x y m m' e. elim (Mem-append_one q.leased new x m) [
        | inl there ↦ elim (Mem-append_one q.leased new y m') [
          | inl there' ↦ h.one_body x y there there' e
          | inr last ↦
              absurd (omega (arith, h.below x there, e, ap (λ (z : Leased). z.lease_id) last))
        ]
        | inr last ↦ elim (Mem-append_one q.leased new y m') [
          | inl there' ↦
              absurd (omega (arith, h.below y there', e, ap (λ (z : Leased). z.lease_id) last))
          | inr last' ↦ ap (λ (z : Leased). z.body) (last ∙ sym last')
        ]
      ];
      below = λ x m. elim (Mem-append_one q.leased new x m) [
        | inl there ↦ omega (arith, h.below x there)
        | inr last ↦ omega (arith, ap (λ (z : Leased). z.lease_id) last)
      ];
    }

-- What a lease of messages does.
pub record IsLease (q : Queue) (r : List Leased × Queue) : Type 0 where
  pub ordered : IsOrdered r.1
  pub kept : (x : Leased) → Memᴰ x q.leased → Memᴰ x r.1.leased
  pub held : (x : Leased) → Memᴰ x r.0 → Memᴰ x r.1.leased
  pub fresh : All (λ x. q.counter < x.lease_id) r.0
  pub apart : AllApart r.0
  pub acked : r.1.acked ≡ q.acked

lease_from :
    (n : ℕ)
    → ((q : Queue) → IsOrdered q → IsLease q (lease n q))
    → (q : Queue) → IsOrdered q
    → (l : List Bytes) → q.pending ≡ l
    → IsLease q (lease (suc n) q)
unfolding lease
lease_from n more q h [] e =
    rw (lease, e)
      (record {
        ordered = h;
        kept = λ x m. m;
        held = λ x m. elim m [ ];
        fresh = tt;
        apart = tt;
        acked = refl;
      })
lease_from n more q h (body ∷ rest) e =
    let one = lease_one-IsOrdered body rest q h in
    let r = more (lease_one body rest q) one in
    let new = next_lease body q in
    rw (lease, e)
      (record {
        ordered = r.ordered;
        kept = λ x m. r.kept x (append_left (new ∷ []) m);
        held = λ x m. elim (cases_cons m) [
          | inl first ↦ r.kept x (append_right q.leased (head first))
          | inr later ↦ r.held x later
        ];
        fresh = (
          omega arith,
          All-map (λ x. suc q.counter < x.lease_id) (λ x. q.counter < x.lease_id)
              (lease n (lease_one body rest q)).0 (λ x lt. omega (arith, lt)) r.fresh,
        );
        apart = (
          All-map (λ x. suc q.counter < x.lease_id) (λ x. suc q.counter ≢ x.lease_id)
              (lease n (lease_one body rest q)).0 (λ x lt e'. omega (arith, lt, e')) r.fresh,
          r.apart,
        );
        acked = r.acked;
      })

pub lease-IsLease : (n : ℕ) (q : Queue) → IsOrdered q → IsLease q (lease n q)
unfolding lease
lease-IsLease zero q h = record {
  ordered = h;
  kept = λ x m. m;
  held = λ x m. elim m [ ];
  fresh = tt;
  apart = tt;
  acked = refl;
}
lease-IsLease (suc n) q h = lease_from n (lease-IsLease n) q h q.pending refl
