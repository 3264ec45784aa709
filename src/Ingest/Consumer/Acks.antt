-- ===== src/Ingest/Consumer/Acks.antt =====
-- What a whole drain acknowledges.
use whatsvault.Base.{ℕ, ◌≡◌, ◌≢◌, refl, sym, ap, subst, Bool, true, false, List, [], ◌∷◌, inl, inr}
use whatsvault.Base.Eq.{either_way}
use whatsvault.Base.Table.{All, All-map, All-zip, All-append, length}
use whatsvault.Ingest.Db.{IngestDb}
use whatsvault.Ingest.Dlq.{circuit_open}
use whatsvault.Ingest.Process.{Stores}
use whatsvault.Ingest.Process.Grows.{
  has_id, Grows, Grows-refl, IsQuiet, IsRound, Grows-trans, Draws,
}
use whatsvault.Ingest.Process.Ledger.{IsUnused}
use whatsvault.Ingest.Consumer.{
  Leased, Outside, Drain, Round, next, stop, escape, handle, drain_loop, start_drain, closed,
  drained, Drained, drain_once,
}
use whatsvault.Ingest.Consumer.Rounds.{Settled, Settled-Grows, left, IsHandled, handle-IsHandled}
use mathlib.Core.List.{Memᴰ}
use mathlib.Core.List.Memᴰ.{head, tail}

pub data RoundCases (r : Round) : Type 0 where
  next_round : (d : Drain) → r ≡ next d → RoundCases r
  stops : (d : Drain) → r ≡ stop d → RoundCases r
  escapes : (d : Drain) → r ≡ escape d → RoundCases r

pub Round-cases : (r : Round) → RoundCases r
Round-cases (next d) = next_round d refl
Round-cases (stop d) = stops d refl
Round-cases (escape d) = escapes d refl

-- The identifiers that are drawn: no two draws agree, and no row of the ledger has one.
pub record IsNew (o : Outside) (db : IngestDb) : Type 0 where
  pub leases : (i j m n : ℕ) → (o.fresh i m).event ≡ (o.fresh j n).event → i ≡ j
  pub draws : (i m n : ℕ) → (o.fresh i m).event ≡ (o.fresh i n).event → m ≡ n
  pub unused : (i m : ℕ) → has_id (o.fresh i m).event db ≡ false

-- The leases have different identifiers.
abbrev pub AllApart : List Leased → Type 0
AllApart [] = Unit
AllApart (lm ∷ rest) = All (λ x. lm.lease_id ≢ x.lease_id) rest × AllApart rest

-- A lease of the list, whose envelope is settled.
pub record IsAcked (o : Outside) (all : List Leased) (db : IngestDb) (i : ℕ) : Type 0 where
  pub lm : Leased
  pub there : Memᴰ lm all
  pub named : lm.lease_id ≡ i
  pub settled : Settled o lm.body db

-- A drain that leaves nothing pending, loses nothing, and acknowledges settled envelopes only.
pub record IsSafe (o : Outside) (all : List Leased) (before after : Stores) (acked : List ℕ)
    : Type 0 where
  pub quiet : IsQuiet after
  pub grows : Grows before.vault.saved after.vault.saved
  pub acks : All (IsAcked o all after.vault.saved) acked

IsAcked-Grows :
    (o : Outside) (all : List Leased) (a b : IngestDb) (i : ℕ)
    → Grows a b
    → IsAcked o all a i
    → IsAcked o all b i
IsAcked-Grows o all a b i g h = record {
  lm = h.lm;
  there = h.there;
  named = h.named;
  settled = Settled-Grows o h.lm.body a b g h.settled;
}

module _ (o : Outside) (now : ℕ) (all : List Leased) where
  abbrev Unused : IngestDb → Leased → Type 0
  Unused db lm = IsUnused (o.fresh lm.lease_id) 0 db

  abbrev Safe : Stores → Drain → Type 0
  Safe before d = IsSafe o all before d.stores d.to_ack

  abbrev Apart : Type 0
  Apart = (i j m n : ℕ) → (o.fresh i m).event ≡ (o.fresh j n).event → i ≡ j

  IsUnused-still :
      (lm x : Leased) (s s' : Stores)
      → Apart
      → lm.lease_id ≢ x.lease_id
      → IsRound (Draws (o.fresh lm.lease_id)) s s'
      → Unused s.vault.saved x
      → Unused s'.vault.saved x
  IsUnused-still lm x s s' apart other round u = record {
    distinct = u.distinct;
    unused = λ m h.
        round.ids (o.fresh x.lease_id m).event
          (λ (n, same). other (apart lm.lease_id x.lease_id n m same)) (u.unused m h);
  }

  All-IsUnused :
      (lm : Leased) (s s' : Stores) (rest : List Leased)
      → Apart
      → All (λ x. lm.lease_id ≢ x.lease_id) rest
      → IsRound (Draws (o.fresh lm.lease_id)) s s'
      → All (Unused s.vault.saved) rest
      → All (Unused s'.vault.saved) rest
  All-IsUnused lm s s' rest apart others round =
      All-zip (λ x. lm.lease_id ≢ x.lease_id) (Unused s.vault.saved) (Unused s'.vault.saved) rest
        (λ x other u. IsUnused-still lm x s s' apart other round u) others

  one_round :
      (before : Stores) (lm : Leased) (d d' : Drain)
      → Memᴰ lm all
      → IsHandled o lm d d'
      → Safe before d
      → Safe before d'
  one_round before lm d d' there h safe =
      let later =
        All-map (IsAcked o all d.stores.vault.saved) (IsAcked o all d'.stores.vault.saved) d.to_ack
          (λ i. IsAcked-Grows o all d.stores.vault.saved d'.stores.vault.saved i h.round.grows)
          safe.acks in
      record {
        quiet = h.round.quiet;
        grows =
            Grows-trans before.vault.saved d.stores.vault.saved d'.stores.vault.saved safe.grows
              h.round.grows;
        acks = elim h.acks [
          | inl same ↦ subst (All (IsAcked o all d'.stores.vault.saved)) (sym same) later
          | inr (more, settled) ↦ subst (All (IsAcked o all d'.stores.vault.saved)) (sym more) (
              All-append (IsAcked o all d'.stores.vault.saved) d.to_ack (lm.lease_id ∷ []) later
                (record { lm = lm; there = there; named = refl; settled = settled }, tt))
        ];
      }

  drain_loop-Safe :
      (before : Stores) (rest : List Leased) (d : Drain)
      → Apart
      → AllApart rest
      → ((x : Leased) → Memᴰ x rest → Memᴰ x all)
      → All (Unused d.stores.vault.saved) rest
      → Safe before d
      → Safe before (drain_loop o now rest d).1
  unfolding drain_loop
  drain_loop-Safe before [] d apart different part unused safe = safe
  drain_loop-Safe before (lm ∷ rest) d apart different part unused safe =
      let h = handle-IsHandled o now lm d safe.quiet unused.0 in
      let safe' = one_round before lm d (left (handle o now lm d)) (part lm (head refl)) h safe in
      let unused' =
        All-IsUnused lm d.stores (left (handle o now lm d)).stores rest apart different.0 h.round
          unused.1 in
      elim (Round-cases (handle o now lm d)) [
        | next_round d' e ↦
            let same = ap left e in
            rw (drain_loop, e)
              (drain_loop-Safe before rest d' apart different.1 (λ x m. part x (tail m))
                (subst (λ (x : Drain). All (Unused x.stores.vault.saved) rest) same unused')
                (subst (Safe before) same safe'))
        | stops d' e ↦ rw (drain_loop, e) (subst (Safe before) (ap left e) safe')
        | escapes d' e ↦ rw (drain_loop, e) (subst (Safe before) (ap left e) safe')
      ]

drained-IsSafe :
    (o : Outside) (all : List Leased) (s : Stores) (n : ℕ) (r : Bool × Drain)
    → IsSafe o all s r.1.stores r.1.to_ack
    → IsSafe o all s (drained n r).stores (drained n r).acked
drained-IsSafe o all s n (true, d) h = h
drained-IsSafe o all s n (false, d) h = record { quiet = h.quiet; grows = h.grows; acks = tt }

IsUnused-leases :
    (o : Outside) (db : IngestDb) (l : List Leased)
    → IsNew o db
    → All (λ (lm : Leased). IsUnused (o.fresh lm.lease_id) 0 db) l
IsUnused-leases o db [] h = tt
IsUnused-leases o db (lm ∷ l) h = (
  record { distinct = h.draws lm.lease_id; unused = λ m least. h.unused lm.lease_id m },
  IsUnused-leases o db l h,
)

-- A drain of leases with different identifiers, from a vault.db with nothing pending, leaves nothing
-- pending in vault.db, keeps what the ledger and the quarantine held, and acknowledges only messages of
-- its leases that are quarantined, or that opened and whose atoms the ledger has, in what is committed:
-- where the identifiers that are drawn are new.
pub drain_once-IsSafe :
    (o : Outside) (leased : List Leased) (key_health : List ℕ) (now : ℕ) (s : Stores)
    → IsQuiet s
    → IsNew o s.vault.saved
    → AllApart leased
    → IsSafe o leased s
        (drain_once o leased key_health now s).stores
        (drain_once o leased key_health now s).acked
unfolding drain_once
drain_once-IsSafe o leased key_health now s quiet fresh different =
    let safe : IsSafe o leased s s [] = record {
      quiet = quiet;
      grows = Grows-refl s.vault.saved;
      acks = tt;
    } in
    either_way (λ (r : Drained). IsSafe o leased s r.stores r.acked) (circuit_open s.vault.work)
      (closed s) (drained (length leased) (drain_loop o now leased (start_drain s key_health))) safe
      (drained-IsSafe o leased s (length leased)
        (drain_loop o now leased (start_drain s key_health))
        (drain_loop-Safe o now leased s leased (start_drain s key_health) fresh.leases different
          (λ x m. m) (IsUnused-leases o s.vault.saved leased fresh) safe))
