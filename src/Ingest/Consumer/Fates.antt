-- ===== src/Ingest/Consumer/Fates.antt =====
-- How one round of `drain_once` ends, and what becomes of its lease.
use whatsvault.Base.{
  ℕ, suc, ◌+◌, String, ◌≡◌, refl, Bool, true, none, List, [], ◌∷◌, ◌++◌, ◌⊎◌, inl, inr, arith,
}
use whatsvault.Base.Eq.{◌==◌, nat_eq, string_eq, Option-cases, Bool-cases}
use whatsvault.Base.Table.{any}
use whatsvault.Base.Conn.{Conn}
use whatsvault.Base.Bytes.{Bytes}
use whatsvault.Sealed.{
  Header, Opened, opened, bad_envelope, key_unavailable, aead_auth_failed, value_error,
  parse_header, open_sealed,
}
use whatsvault.Ingest.Db.{FailureClass, poison_malformed, DlqRow, IngestDb}
use whatsvault.Ingest.Dlq.{
  auth_failed, key_of, classify_decrypt_error, quarantine, circuit_open, trip,
}
use whatsvault.Ingest.Process.{process_payload}
use whatsvault.Ingest.Consumer.{
  Leased, Outside, Drain, Round, next, stop, escape, poisoned, tag_failed, deliver, handle,
  on_opened, is_isolated, healthy,
}

-- How the envelope of a lease opens.
abbrev pub Gives : Outside → Leased → Opened → Type 0
Gives o lm r = open_sealed o.primitives o.key_lookup lm.body ≡ r

abbrev pub IsOpened : Outside → Leased → Type 0
IsOpened o lm = (plaintext : Bytes) × (hdr : Header) × Gives o lm (opened plaintext hdr)

abbrev pub IsPoison : Outside → Leased → Type 0
IsPoison o lm = Gives o lm bad_envelope ⊎ Gives o lm aead_auth_failed

-- What an exception that leaves the loop comes from: an ephemeral key that the library refuses, or an
-- envelope to be quarantined under an identifier that the quarantine of this database has already.
abbrev pub Raises : Outside → Leased → IngestDb → Type 0
Raises o lm db =
    Gives o lm value_error
    ⊎ (IsPoison o lm × (any (λ (x : DlqRow). x.id == o.dlq_id lm.lease_id) db.dlq ≡ true))

pub record IsAckedNow (o : Outside) (lm : Leased) (d d' : Drain) : Type 0 where
  pub to_ack : d'.to_ack ≡ d.to_ack ++ lm.lease_id ∷ []
  pub nacked : d'.nacked ≡ d.nacked
  pub total : d'.poison + d'.durable ≡ suc (d.poison + d.durable)
  pub transient : d'.transient ≡ d.transient
  pub why : IsOpened o lm ⊎ IsPoison o lm

pub record IsHandedBack (o : Outside) (lm : Leased) (d d' : Drain) : Type 0 where
  pub to_ack : d'.to_ack ≡ d.to_ack
  pub nacked : d'.nacked ≡ d.nacked ++ lm.lease_id ∷ []
  pub total : d'.poison + d'.durable ≡ d.poison + d.durable
  pub transient : d'.transient ≡ suc d.transient
  pub why : IsOpened o lm ⊎ Gives o lm key_unavailable

abbrev pub Advances : Outside → Leased → Drain → Drain → Type 0
Advances o lm d d' = IsAckedNow o lm d d' ⊎ IsHandedBack o lm d d'

-- A round acknowledges its lease or hands it back, or opens the circuit, or raises.
abbrev pub EndsWell : Outside → Leased → Drain → Round → Type 0
EndsWell o lm d (next d') = Advances o lm d d'
EndsWell o lm d (stop d') = (circuit_open d'.stores.vault.work ≡ true) × Gives o lm aead_auth_failed
EndsWell o lm d (escape d') = Raises o lm d'.stores.vault.work

module _ (o : Outside) (now : ℕ) (lm : Leased) (d : Drain) where
  taken :
      (i : String) (failure : FailureClass) (c : Conn IngestDb)
      → quarantine o.primitives i lm.body failure now c ≡ none
      → any (λ (x : DlqRow). x.id == i) c.work.dlq ≡ true
  unfolding quarantine
  taken i failure c h = ground (arith, h)

  poisoned-Ends :
      (failure : FailureClass) → IsPoison o lm → EndsWell o lm d (poisoned o now lm failure d)
  poisoned-Ends failure poison =
      elim (Option-cases
        (quarantine o.primitives (o.dlq_id lm.lease_id) lm.body failure now d.stores.vault)) [
          | inl failed ↦
              rw failed (inr (poison, taken (o.dlq_id lm.lease_id) failure d.stores.vault failed))
          | inr (c, done) ↦ rw done (
              inl (record {
                to_ack = refl;
                nacked = refl;
                total = omega arith;
                transient = refl;
                why = inr poison;
              }))
        ]

  tag_failed-Ends : Gives o lm aead_auth_failed → EndsWell o lm d (tag_failed o now lm d)
  unfolding trip
  tag_failed-Ends e =
      let key_id = key_of (parse_header o.primitives lm.body) in
      let failure = classify_decrypt_error auth_failed (healthy key_id d.key_health) in
      elim (Bool-cases (is_isolated failure)) [
        | inl one ↦ rw one (poisoned-Ends failure (inr e))
        | inr all ↦ rw all (refl, e)
      ]

  deliver-Ends :
      (key_id : ℕ) (plaintext : Bytes)
      → IsOpened o lm
      → EndsWell o lm d (deliver o now lm key_id plaintext d)
  deliver-Ends key_id plaintext is_open =
      elim (Bool-cases
        (process_payload o.crypto o.py (o.fresh lm.lease_id) now (o.loads plaintext) d.stores).0) [
          | inl whole ↦ rw whole (
              inl (record {
                to_ack = refl;
                nacked = refl;
                total = omega arith;
                transient = refl;
                why = inl is_open;
              }))
          | inr raised ↦ rw raised (
              inr (record {
                to_ack = refl;
                nacked = refl;
                total = refl;
                transient = refl;
                why = inl is_open;
              }))
        ]

  on_opened-Ends : (r : Opened) → Gives o lm r → EndsWell o lm d (on_opened o now lm d r)
  on_opened-Ends (opened plaintext hdr) e =
      deliver-Ends hdr.fields.recipient_key_id plaintext (plaintext, hdr, e)
  on_opened-Ends key_unavailable e =
      inr (record { to_ack = refl; nacked = refl; total = refl; transient = refl; why = inr e })
  on_opened-Ends bad_envelope e = poisoned-Ends poison_malformed (inl e)
  on_opened-Ends aead_auth_failed e = tag_failed-Ends e
  on_opened-Ends value_error e = inl e

  pub handle-Ends : EndsWell o lm d (handle o now lm d)
  unfolding handle
  handle-Ends = on_opened-Ends (open_sealed o.primitives o.key_lookup lm.body) refl

abbrev pub has_lease : ℕ → List ℕ → Bool
has_lease i l = any (λ (x : ℕ). x == i) l

-- What becomes of a lease: acknowledged, where its envelope opened or is quarantined; or handed back,
-- where it opened or its key was not there.
abbrev pub Fate : Outside → Leased → List ℕ → List ℕ → Type 0
Fate o lm acked nacked =
    ((has_lease lm.lease_id acked ≡ true) × (IsOpened o lm ⊎ IsPoison o lm))
    ⊎ ((has_lease lm.lease_id nacked ≡ true) × (IsOpened o lm ⊎ Gives o lm key_unavailable))
