-- ===== src/Ingest/Process/Ledger.antt =====
-- A payload that was processed, the ledger, and the same payload delivered again.
use whatsvault.Base.{
  ℕ, suc, ◌≤◌, String, ◌≡◌, refl, sym, ap, subst, Bool, true, false, Option, none, some, List, [],
  ◌∷◌, ◌++◌, inl, inr, arith,
}
use whatsvault.Base.Eq.{==-refl, string_eq, bytes_eq, Option-cases, Bool-cases}
use whatsvault.Base.Conn.{commit}
use whatsvault.Crypto.{Crypto}
use whatsvault.Ingest.Payload.{Atom, Family, classify, Rows, to_rows, Payload, split_webhook}
use whatsvault.Ingest.Keys.{Decimal, semantic_key}
use whatsvault.Ingest.Db.{IngestDb}
use whatsvault.Ingest.Process.{
  Fresh, Stores, apply_rows, event_row, is_seen, insert_atom, process_atom, process_atoms,
  process_payload,
}
use whatsvault.Ingest.Process.Keeps.{Keeps, apply_rows-Keeps}
use whatsvault.Ingest.Process.Grows.{
  has_key, has_id, Grows, Grows-refl, IsQuiet, IsRound, IsRound-refl, IsRound-trans, IsRound-weaken,
  seen_by_key, key_seen, key_added, id_added, OneDraw, Draws, not_drawn,
}

module _ (f : Fresh) (now : ℕ) (family : Family) (key : String) (rows : Rows) (s : Stores)
    (quiet : IsQuiet s) (unused : has_id f.event s.vault.saved ≡ false) where
  abbrev after : Bool × Stores
  after = insert_atom f now family key rows s

  with_event : IngestDb
  with_event = record s.vault.work {
    events = s.vault.work.events ++ event_row f.event key family now ∷ [];
  }

  applied_round :
      (db : IngestDb)
      → Keeps with_event db
      → Grows s.vault.saved db
        × ((i : String) → ¬ OneDraw f i → has_id i s.vault.saved ≡ false → has_id i db ≡ false)
        × (has_key key db ≡ true)
  unfolding with_event
  applied_round db k =
      let keys = key_added f.event key family now s.vault.work db k.events in
      let ids = id_added f.event key family now s.vault.work db k.events in
      (
        record {
          keys = λ key' h. ground (arith, quiet, keys key');
          kept = λ body h. ground (arith, quiet, k.dlq);
        },
        λ i n h. ground (arith, quiet, ids i, not_drawn f.event i n),
        ground (arith, keys key, ==-refl key),
      )

  insert_atom-IsRound :
      IsRound (OneDraw f) s after.1 × (after.0 ≡ true → has_key key after.1.vault.saved ≡ true)
  unfolding with_event
  insert_atom-IsRound = elim (Bool-cases (is_seen f.event key s.vault.work)) [
    | inl seen ↦
        let same = sym quiet in
        let unused_work = subst (λ (db : IngestDb). has_id f.event db ≡ false) same unused in
        rw seen (
          record {
            quiet = refl;
            grows = subst (Grows s.vault.saved) same (Grows-refl s.vault.saved);
            ids = λ i n h. subst (λ (db : IngestDb). has_id i db ≡ false) same h;
          },
          λ h. seen_by_key f.event key s.vault.work.events seen unused_work,
        )
    | inr new ↦ elim (Option-cases (apply_rows f rows with_event)) [
      | inl failed ↦
          rw (new, failed)
            (record { quiet = refl; grows = Grows-refl s.vault.saved; ids = λ i n h. h }, λ h. cc)
      | inr ((applied, db), done) ↦
          let (grows, ids, there) =
            applied_round db (apply_rows-Keeps f rows with_event db applied done) in
          rw (new, done) (record { quiet = refl; grows = grows; ids = ids }, λ h. there)
    ]
  ]

-- The ledger has the key of an atom, whose rows could be made.
pub record IsSeen (k : Crypto) (py : Decimal) (a : Atom) (db : IngestDb) : Type 0 where
  pub key : String
  pub keyed : semantic_key k py a ≡ some key
  pub rows : Rows
  pub readable : to_rows a ≡ some rows
  pub seen : has_key key db ≡ true

abbrev pub AllSeen : Crypto → Decimal → List Atom → IngestDb → Type 0
AllSeen k py [] db = Unit
AllSeen k py (a ∷ rest) db = IsSeen k py a db × AllSeen k py rest db

pub IsSeen-Grows :
    (k : Crypto) (py : Decimal) (x : Atom) (a b : IngestDb)
    → Grows a b
    → IsSeen k py x a
    → IsSeen k py x b
IsSeen-Grows k py x a b g h = record {
  key = h.key;
  keyed = h.keyed;
  rows = h.rows;
  readable = h.readable;
  seen = g.keys h.key h.seen;
}

pub AllSeen-Grows :
    (k : Crypto) (py : Decimal) (l : List Atom) (a b : IngestDb)
    → Grows a b
    → AllSeen k py l a
    → AllSeen k py l b
AllSeen-Grows k py [] a b g h = tt
AllSeen-Grows k py (x ∷ l) a b g h = (IsSeen-Grows k py x a b g h.0, AllSeen-Grows k py l a b g h.1)

-- No row of the ledger has an identifier that is drawn from the `n`th on, and no two draws agree.
pub record IsUnused (fresh : ℕ → Fresh) (n : ℕ) (db : IngestDb) : Type 0 where
  pub distinct : (m m' : ℕ) → (fresh m).event ≡ (fresh m').event → m ≡ m'
  pub unused : (m : ℕ) → n ≤ m → has_id (fresh m).event db ≡ false

module _ (k : Crypto) (py : Decimal) (now : ℕ) where
  process_atom-IsRound :
      (f : Fresh) (a : Atom) (s : Stores)
      → IsQuiet s
      → has_id f.event s.vault.saved ≡ false
      → IsRound (OneDraw f) s (process_atom k py f now a s).1
        × ((process_atom k py f now a s).0 ≡ true
            → IsSeen k py a (process_atom k py f now a s).1.vault.saved)
  unfolding process_atom
  process_atom-IsRound f a s quiet unused = elim (Option-cases (semantic_key k py a)) [
    | inl no_key ↦ rw (no_key, process_atom) (IsRound-refl (OneDraw f) s quiet, λ h. cc)
    | inr (key, keyed) ↦ elim (Option-cases (to_rows a)) [
      | inl no_time ↦ rw (keyed, no_time, process_atom) (IsRound-refl (OneDraw f) s quiet, λ h. cc)
      | inr (rows, readable) ↦
          let (round, there) = insert_atom-IsRound f now (classify a) key rows s quiet unused in
          rw (keyed, readable, process_atom)
            (
              round,
              λ h. record {
                key = key;
                keyed = keyed;
                rows = rows;
                readable = readable;
                seen = there h;
              },
            )
    ]
  ]

  IsUnused-later :
      (fresh : ℕ → Fresh) (n : ℕ) (s s' : Stores)
      → IsUnused fresh n s.vault.saved
      → IsRound (OneDraw (fresh n)) s s'
      → IsUnused fresh (suc n) s'.vault.saved
  IsUnused-later fresh n s s' u round = record {
    distinct = u.distinct;
    unused = λ m h.
        round.ids (fresh m).event (λ same. absurd (omega (arith, u.distinct n m same)))
          (u.unused m (omega arith));
  }

  process_atoms-IsRound :
      (fresh : ℕ → Fresh) (n : ℕ) (l : List Atom) (s : Stores)
      → IsQuiet s
      → IsUnused fresh n s.vault.saved
      → IsRound (Draws fresh) s (process_atoms k py fresh n now l s).1
        × ((process_atoms k py fresh n now l s).0 ≡ true
            → AllSeen k py l (process_atoms k py fresh n now l s).1.vault.saved)
  unfolding process_atoms
  process_atoms-IsRound fresh n [] s quiet u = (IsRound-refl (Draws fresh) s quiet, λ h. tt)
  process_atoms-IsRound fresh n (a ∷ l) s quiet u =
      let (round, there) = process_atom-IsRound (fresh n) a s quiet (u.unused n (omega arith)) in
      let s' = (process_atom k py (fresh n) now a s).1 in
      let end = (process_atoms k py fresh (suc n) now l s').1 in
      let (later, rest) =
        process_atoms-IsRound fresh (suc n) l s' round.quiet
          (IsUnused-later fresh n s s' u round) in
      elim (Bool-cases (process_atom k py (fresh n) now a s).0) [
        | inr raised ↦
            rw (raised, process_atoms)
              (IsRound-weaken (OneDraw (fresh n)) (Draws fresh) s s' (λ i d. (n, d)) round, λ h. cc)
        | inl going ↦
            rw (going, process_atoms)
              (
                IsRound-trans (OneDraw (fresh n)) (Draws fresh) (Draws fresh) s s' end
                    (λ i d. (n, d)) (λ i d. d) round later,
                λ h. (
                  IsSeen-Grows k py a s'.vault.saved end.vault.saved later.grows (there going),
                  rest h,
                ),
              )
      ]

  -- A payload that is processed to its end has every atom in the ledger, committed; and whatever
  -- happens, no transaction is left pending, and the ledger and the quarantine keep what they held.
  pub process_payload-IsRound :
      (fresh : ℕ → Fresh) (p : Option Payload) (s : Stores)
      → IsQuiet s
      → IsUnused fresh 0 s.vault.saved
      → IsRound (Draws fresh) s (process_payload k py fresh now p s).1
        × ((process_payload k py fresh now p s).0 ≡ true
            → (q : Payload) × (p ≡ some q)
              × AllSeen k py (split_webhook q) (process_payload k py fresh now p s).1.vault.saved)
  unfolding process_payload
  process_payload-IsRound fresh none s quiet u = (IsRound-refl (Draws fresh) s quiet, λ h. cc)
  process_payload-IsRound fresh (some q) s quiet u =
      let (round, there) = process_atoms-IsRound fresh 0 (split_webhook q) s quiet u in
      (round, λ h. (q, refl, there h))

  quiet_commit : (s : Stores) → IsQuiet s → record s { vault = commit s.vault } ≡ s
  quiet_commit s q = cc

  again_atom :
      (f : Fresh) (a : Atom) (s : Stores)
      → IsQuiet s
      → IsSeen k py a s.vault.saved
      → process_atom k py f now a s ≡ (true, s)
  unfolding process_atom
  again_atom f a s quiet h =
      let there = subst (λ (db : IngestDb). has_key h.key db ≡ true) (sym quiet) h.seen in
      rw (h.keyed, h.readable, process_atom, key_seen f.event h.key s.vault.work.events there)
        (ap (λ (t : Stores). (true, t)) (quiet_commit s quiet))

  -- What the ledger has already is passed over, whatever identifiers are drawn: nothing is written to
  -- either database.
  pub again_atoms :
      (fresh : ℕ → Fresh) (n : ℕ) (l : List Atom) (s : Stores)
      → IsQuiet s
      → AllSeen k py l s.vault.saved
      → process_atoms k py fresh n now l s ≡ (true, s)
  unfolding process_atoms
  again_atoms fresh n [] s quiet h = refl
  again_atoms fresh n (a ∷ l) s quiet h =
      let first = again_atom (fresh n) a s quiet h.0 in
      let going = ap (λ (r : Bool × Stores). r.0) first in
      let same = ap (λ (r : Bool × Stores). r.1) first in
      rw (process_atoms, going, same) (again_atoms fresh (suc n) l s quiet h.1)

-- A payload that was processed to its end, and is delivered again, changes nothing: not vault.db, not
-- control.db, whatever the time and the identifiers drawn then, where those drawn first were new.
pub process_payload-again :
    (k : Crypto) (py : Decimal) (now later : ℕ) (fresh fresh' : ℕ → Fresh) (p : Option Payload)
    (s : Stores)
    → IsQuiet s
    → IsUnused fresh 0 s.vault.saved
    → (process_payload k py fresh now p s).0 ≡ true
    → process_payload k py fresh' later p (process_payload k py fresh now p s).1
      ≡ (true, (process_payload k py fresh now p s).1)
unfolding process_payload
process_payload-again k py now later fresh fresh' none s quiet u done = cc
process_payload-again k py now later fresh fresh' (some q) s quiet u done =
    let (round, there) = process_atoms-IsRound k py now fresh 0 (split_webhook q) s quiet u in
    again_atoms k py later fresh' 0 (split_webhook q)
      (process_atoms k py fresh 0 now (split_webhook q) s).1 round.quiet (there done)
