-- ===== src/Ingest/Status/Order.antt =====
-- Status events in different orders.
use whatsvault.Base.{
  String, ◌≡◌, refl, ◌∙◌, subst, Bool, true, ◌||◌, Option, none, some, List, [], ◌∷◌, inl, inr,
  arith,
}
use mathlib.Core.List.{Permᴰ}
use whatsvault.Base.Eq.{◌==◌, string_eq, ==-sound, Bool-cases}
use whatsvault.Base.Int.{ℤ}
use whatsvault.Base.Table.{any}
use whatsvault.Ingest.Status.{
  Event, Reduced, earliest, add, reduce_event, reduce_from, reduce_status, nothing_seen,
}

abbrev pub has : String → List String → Bool
has s l = any (λ (x : String). x == s) l

-- The same ranks and times, and the same set of unknown statuses.
pub record Same (a b : Reduced) : Type 0 where
  pub rank : a.delivery_rank ≡ b.delivery_rank
  pub failed : a.failed_at_ms ≡ b.failed_at_ms
  pub deleted : a.deleted_at_ms ≡ b.deleted_at_ms
  pub unknown : (s : String) → has s a.unknown_statuses ≡ has s b.unknown_statuses

seen_same : (s t : String) (l : List String) → has t l ≡ true → (t == s) ≡ true → has s l ≡ true
seen_same s t l seen same = ground (arith, seen, ==-sound t s same)

has-add : (s t : String) (l : List String) → has s (add t l) ≡ (has s l || t == s)
has-add s t l = elim (Bool-cases (has t l)) [
  | inl seen ↦ ground (arith, seen_same s t l)
  | inr new ↦ ground arith
]

earliest_comm : (o : Option ℤ) (a b : ℤ) → earliest (earliest o a) b ≡ earliest (earliest o b) a
earliest_comm none a b = ground arith
earliest_comm (some t) a b = ground arith

reduce_event-swap :
    (d e : Event) (r : Reduced)
    → Same (reduce_event d (reduce_event e r)) (reduce_event e (reduce_event d r))
unfolding reduce_event
reduce_event-swap d e r = record {
  rank = ground arith;
  failed = ground (arith, earliest_comm r.failed_at_ms d.provider_ts_ms e.provider_ts_ms);
  deleted = ground (arith, earliest_comm r.deleted_at_ms d.provider_ts_ms e.provider_ts_ms);
  unknown = λ s. ground (
    arith,
    has-add s d.status r.unknown_statuses,
    has-add s e.status r.unknown_statuses,
    has-add s d.status (add e.status r.unknown_statuses),
    has-add s e.status (add d.status r.unknown_statuses),
  );
}

reduce_event-Same :
    (e : Event) (a b : Reduced) → Same a b → Same (reduce_event e a) (reduce_event e b)
unfolding reduce_event
reduce_event-Same e a b h = record {
  rank = ground (arith, h.rank);
  failed = ground (arith, h.failed);
  deleted = ground (arith, h.deleted);
  unknown = λ s. ground (
    arith,
    h.unknown s,
    has-add s e.status a.unknown_statuses,
    has-add s e.status b.unknown_statuses,
  );
}

Same-refl : (a : Reduced) → Same a a
Same-refl a = record { rank = refl; failed = refl; deleted = refl; unknown = λ s. refl }

Same-trans : (a b c : Reduced) → Same a b → Same b c → Same a c
Same-trans a b c h k = record {
  rank = h.rank ∙ k.rank;
  failed = h.failed ∙ k.failed;
  deleted = h.deleted ∙ k.deleted;
  unknown = λ s. h.unknown s ∙ k.unknown s;
}

reduce_from-Same :
    (es : List Event) (a b : Reduced) → Same a b → Same (reduce_from es a) (reduce_from es b)
unfolding reduce_from
reduce_from-Same [] a b h = h
reduce_from-Same (e ∷ es) a b h =
    reduce_from-Same es (reduce_event e a) (reduce_event e b) (reduce_event-Same e a b h)

reduce_from_perm :
    {es ds : List Event}
    → Permᴰ es ds
    → (a b : Reduced) → Same a b
    → Same (reduce_from es a) (reduce_from ds b)
unfolding reduce_from
reduce_from_perm Permᴰ.nil a b h = h
reduce_from_perm (Permᴰ.cons {a = d} {b = e} same p) a b h =
    reduce_from_perm p (reduce_event d a) (reduce_event e b)
      (subst (λ x. Same (reduce_event d a) (reduce_event x b)) same (reduce_event-Same d a b h))
reduce_from_perm (Permᴰ.swap {a = d} {b = e} {a' = e'} {b' = d'} {l = l} p q) a b h =
    reduce_from-Same l (reduce_event e (reduce_event d a)) (reduce_event d' (reduce_event e' b)) (
      subst (λ x. Same (reduce_event e (reduce_event d a)) (reduce_event x (reduce_event e' b))) p
        (subst (λ x. Same (reduce_event e (reduce_event d a)) (reduce_event d (reduce_event x b))) q
          (Same-trans _ _ _ (reduce_event-swap e d a)
            (reduce_event-Same d _ _ (reduce_event-Same e a b h)))))
reduce_from_perm (Permᴰ.trans p q) a b h =
    Same-trans _ _ _ (reduce_from_perm p a b h) (reduce_from_perm q b b (Same-refl b))

-- The delivery state does not depend on the order in which the events arrived: two arrangements of the
-- same events give the same rank, the same times of failure and deletion, and the same unknown
-- statuses.
pub reduce_status-Same :
    (es ds : List Event) → Permᴰ es ds → Same (reduce_status es) (reduce_status ds)
unfolding reduce_status
reduce_status-Same es ds p = reduce_from_perm p nothing_seen nothing_seen (Same-refl nothing_seen)
