-- ===== src/Ingest/Consumer/Tally.antt =====
-- The counts of a drain, and where its leases go.
use whatsvault.Base.{
  ℕ, suc, ◌+◌, ◌≡◌, refl, ◌∙◌, ap, subst, sym, Bool, true, false, none, some, List, [], ◌∷◌, ◌++◌,
  inl, inr, arith,
}
use whatsvault.Base.Eq.{◌==◌, ==-refl, nat_eq, string_eq, Bool-cases}
use whatsvault.Base.Table.{any-append, All, length, length-append}
use whatsvault.Sealed.{aead_auth_failed}
use whatsvault.Ingest.Dlq.{circuit_open}
use whatsvault.Ingest.Process.{Stores}
use whatsvault.Ingest.Consumer.{
  Leased, Outside, Drain, handle, drain_loop, start_drain, Counts, counts_of, drained, Drained,
  closed, closed_counts, drain_once,
}
use mathlib.Core.List.{Memᴰ}
use mathlib.Core.List.Memᴰ.{head, tail}
use whatsvault.Ingest.Consumer.Acks.{next_round, stops, escapes, Round-cases}
use whatsvault.Ingest.Consumer.Fates.{
  Gives, Raises, Advances, EndsWell, handle-Ends, has_lease, Fate,
}

-- After `n` leases, each acknowledged or handed back.
record IsTally (d : Drain) (n : ℕ) : Type 0 where
  acks : length d.to_ack ≡ d.poison + d.durable
  nacks : length d.nacked ≡ d.transient
  whole : length d.to_ack + length d.nacked ≡ n

Advances-IsTally :
    (o : Outside) (lm : Leased) (d d' : Drain) (n : ℕ)
    → Advances o lm d d'
    → IsTally d n
    → IsTally d' (suc n)
Advances-IsTally o lm d d' n (inl h) t =
    let more = ap length h.to_ack ∙ length-append d.to_ack (lm.lease_id ∷ []) in
    let same = ap length h.nacked in
    record {
      acks = omega (arith, more, t.acks, h.total);
      nacks = omega (arith, same, t.nacks, h.transient);
      whole = omega (arith, more, same, t.whole);
    }
Advances-IsTally o lm d d' n (inr h) t =
    let same = ap length h.to_ack in
    let more = ap length h.nacked ∙ length-append d.nacked (lm.lease_id ∷ []) in
    record {
      acks = omega (arith, same, t.acks, h.total);
      nacks = omega (arith, more, t.nacks, h.transient);
      whole = omega (arith, more, same, t.whole);
    }

-- The leases of one drain that are acknowledged or handed back are so in the other.
abbrev IsKept : Drain → Drain → Type 0
IsKept d d' =
    ((i : ℕ) → has_lease i d.to_ack ≡ true → has_lease i d'.to_ack ≡ true)
    × ((i : ℕ) → has_lease i d.nacked ≡ true → has_lease i d'.nacked ≡ true)

Advances-IsKept : (o : Outside) (lm : Leased) (d d' : Drain) → Advances o lm d d' → IsKept d d'
Advances-IsKept o lm d d' (inl h) = (
  λ i e. ground (arith, h.to_ack, any-append (λ (x : ℕ). x == i) d.to_ack (lm.lease_id ∷ []), e),
  λ i e. ground (arith, h.nacked, e),
)
Advances-IsKept o lm d d' (inr h) = (
  λ i e. ground (arith, h.to_ack, e),
  λ i e. ground (arith, h.nacked, any-append (λ (x : ℕ). x == i) d.nacked (lm.lease_id ∷ []), e),
)

added : (i : ℕ) (l : List ℕ) → has_lease i (l ++ i ∷ []) ≡ true
added i l = ground (arith, any-append (λ (x : ℕ). x == i) l (i ∷ []), ==-refl i)

Advances-Fate :
    (o : Outside) (lm : Leased) (d d' r : Drain)
    → Advances o lm d d'
    → IsKept d' r
    → Fate o lm r.to_ack r.nacked
Advances-Fate o lm d d' r (inl h) (acks, nacks) =
    inl (acks lm.lease_id (ground (arith, h.to_ack, added lm.lease_id d.to_ack)), h.why)
Advances-Fate o lm d d' r (inr h) (acks, nacks) =
    inr (nacks lm.lease_id (ground (arith, h.nacked, added lm.lease_id d.nacked)), h.why)

-- How the loop ends.
data LoopEnd (o : Outside) (rest : List Leased) (d : Drain) (n : ℕ) (r : Bool × Drain)
    : Type 0 where
  loop_raised :
      (lm : Leased)
      → Memᴰ lm rest
      → Raises o lm r.1.stores.vault.work
      → r.0 ≡ false
      → LoopEnd o rest d n r
  loop_broken :
      (lm : Leased)
      → Memᴰ lm rest
      → Gives o lm aead_auth_failed
      → r.0 ≡ true
      → circuit_open r.1.stores.vault.work ≡ true
      → LoopEnd o rest d n r
  loop_done :
      r.0 ≡ true
      → IsTally r.1 (n + length rest)
      → All (λ lm. Fate o lm r.1.to_ack r.1.nacked) rest
      → IsKept d r.1
      → LoopEnd o rest d n r

further :
    (o : Outside) (lm : Leased) (rest : List Leased) (d d' : Drain) (n : ℕ) (r : Bool × Drain)
    → Advances o lm d d'
    → LoopEnd o rest d' (suc n) r
    → LoopEnd o (lm ∷ rest) d n r
further o lm rest d d' n r a (loop_raised x m why stopped) = loop_raised x (tail m) why stopped
further o lm rest d d' n r a (loop_broken x m why going is_open) =
    loop_broken x (tail m) why going is_open
further o lm rest d d' n r a (loop_done going t all kept) =
    let here = Advances-IsKept o lm d d' a in
    loop_done going (subst (IsTally r.1) (omega arith) t) (Advances-Fate o lm d d' r.1 a kept, all)
      (λ i h. kept.0 i (here.0 i h), λ i h. kept.1 i (here.1 i h))

module _ (o : Outside) (now : ℕ) where
  drain_loop-LoopEnd :
      (rest : List Leased) (d : Drain) (n : ℕ)
      → IsTally d n
      → LoopEnd o rest d n (drain_loop o now rest d)
  unfolding drain_loop
  drain_loop-LoopEnd [] d n t =
      loop_done refl (subst (IsTally d) (omega arith) t) tt (λ i h. h, λ i h. h)
  drain_loop-LoopEnd (lm ∷ rest) d n t =
      let ends = handle-Ends o now lm d in
      elim (Round-cases (handle o now lm d)) [
        | next_round d' e ↦
            let moved = subst (EndsWell o lm d) e ends in
            rw (drain_loop, e)
              (further o lm rest d d' n (drain_loop o now rest d') moved
                (drain_loop-LoopEnd rest d' (suc n) (Advances-IsTally o lm d d' n moved t)))
        | stops d' e ↦
            let broke = subst (EndsWell o lm d) e ends in
            rw (drain_loop, e) (loop_broken lm (head refl) broke.1 refl broke.0)
        | escapes d' e ↦
            rw (drain_loop, e) (loop_raised lm (head refl) (subst (EndsWell o lm d) e ends) refl)
      ]

-- How a drain of these leases from these databases ends. `raised`: an exception leaves it. `found_open`:
-- the circuit is open before it. `broken`: the circuit is open after an envelope whose tag failed.
-- `complete`: each lease has its fate, and the counts add up.
pub data Ending (o : Outside) (leased : List Leased) (s : Stores) (r : Drained) : Type 0 where
  raised :
      (lm : Leased)
      → Memᴰ lm leased
      → Raises o lm r.stores.vault.work
      → r.counts ≡ none
      → r.acked ≡ []
      → Ending o leased s r
  found_open :
      (c : Counts)
      → r.counts ≡ some c
      → circuit_open s.vault.work ≡ true
      → c.open_circuit ≡ true
      → r.stores ≡ s
      → r.acked ≡ []
      → r.nacked ≡ []
      → Ending o leased s r
  broken :
      (c : Counts) (lm : Leased)
      → r.counts ≡ some c
      → Memᴰ lm leased
      → Gives o lm aead_auth_failed
      → c.open_circuit ≡ true
      → Ending o leased s r
  complete :
      (c : Counts)
      → r.counts ≡ some c
      → All (λ lm. Fate o lm r.acked r.nacked) leased
      → c.acked ≡ c.poison + c.durable
      → c.leased ≡ c.acked + c.transient
      → Ending o leased s r

drained-Ending :
    (o : Outside) (leased : List Leased) (s : Stores) (d : Drain) (r : Bool × Drain)
    → LoopEnd o leased d 0 r
    → Ending o leased s (drained (length leased) r)
drained-Ending o leased s d (true, d') (loop_raised lm m why stopped) = cc
drained-Ending o leased s d (true, d') (loop_broken lm m why going is_open) =
    broken (counts_of (length leased) d') lm refl m why is_open
drained-Ending o leased s d (true, d') (loop_done going t all kept) =
    complete (counts_of (length leased) d') refl all t.acks (omega (arith, t.whole, t.nacks))
drained-Ending o leased s d (false, d') (loop_raised lm m why stopped) = raised lm m why refl refl
drained-Ending o leased s d (false, d') (loop_broken lm m why going is_open) = cc
drained-Ending o leased s d (false, d') (loop_done going t all kept) = cc

-- A drain ends in one of four ways. An exception leaves it, with nothing acknowledged: then a lease has an
-- ephemeral key that the library refuses, or an envelope that is malformed or fails its tag and whose
-- identifier the quarantine has already. Or it finds the circuit open, and does nothing. Or the circuit is
-- open after an envelope that failed its tag. Or each lease is acknowledged, where its envelope opened, is
-- malformed or failed its tag, or handed back, where it opened or its key was not there; and as many are
-- acknowledged as were quarantined or written, and the others are as many as were transient.
pub drain_once-Ending :
    (o : Outside) (leased : List Leased) (key_health : List ℕ) (now : ℕ) (s : Stores)
    → Ending o leased s (drain_once o leased key_health now s)
unfolding drain_once
drain_once-Ending o leased key_health now s = elim (Bool-cases (circuit_open s.vault.work)) [
  | inl is_open ↦
      let same : drain_once o leased key_health now s ≡ closed s = ground arith in
      subst (Ending o leased s) (sym same)
        (found_open closed_counts refl is_open refl refl refl refl)
  | inr shut ↦
      let d = start_drain s key_health in
      let r = drain_loop o now leased d in
      let same : drain_once o leased key_health now s ≡ drained (length leased) r = ground arith in
      subst (Ending o leased s) (sym same) (
        drained-Ending o leased s d r (
          drain_loop-LoopEnd o now leased d 0 (record { acks = refl; nacks = refl; whole = refl })))
]
