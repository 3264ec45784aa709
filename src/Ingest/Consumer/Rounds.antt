-- ===== src/Ingest/Consumer/Rounds.antt =====
-- What one round of the loop of `drain_once` does to vault.db, and when it acknowledges its lease.
use whatsvault.Base.{
  ℕ, suc, String, ◌≡◌, refl, sym, ◌∙◌, subst, true, Option, some, [], ◌∷◌, ◌++◌, ◌⊎◌, inl, inr,
  arith,
}
use whatsvault.Base.Eq.{◌==◌, ==-refl, bytes_eq, Option-cases, Bool-cases}
use whatsvault.Base.Table.{any-append}
use whatsvault.Base.Conn.{Conn}
use whatsvault.Base.Bytes.{Bytes}
use whatsvault.Sealed.{
  Primitives, Header, Opened, opened, bad_envelope, key_unavailable, aead_auth_failed, value_error,
  parse_header, open_sealed,
}
use whatsvault.Ingest.Payload.{Payload, split_webhook}
use whatsvault.Ingest.Db.{FailureClass, poison_malformed, DlqRow, IngestDb}
use whatsvault.Ingest.Dlq.{dlq_row, auth_failed, key_of, classify_decrypt_error, quarantine, trip}
use whatsvault.Ingest.Process.{Stores, process_payload}
use whatsvault.Ingest.Process.Grows.{is_quarantined, Grows, IsQuiet, IsRound, IsRound-refl, Draws}
use whatsvault.Ingest.Process.Ledger.{AllSeen, AllSeen-Grows, IsUnused, process_payload-IsRound}
use whatsvault.Ingest.Consumer.{
  Leased, Outside, Drain, Round, next, stop, escape, hand_back, poisoned, circuit_break, tag_failed,
  deliver, handle, on_opened, is_isolated, healthy,
}

-- An envelope that opened, and every atom of whose payload the ledger has.
pub record IsWritten (o : Outside) (body : Bytes) (db : IngestDb) : Type 0 where
  pub plaintext : Bytes
  pub header : Header
  pub opens : open_sealed o.primitives o.key_lookup body ≡ opened plaintext header
  pub payload : Payload
  pub reads : o.loads plaintext ≡ some payload
  pub atoms : AllSeen o.crypto o.py (split_webhook payload) db

-- What it takes to acknowledge an envelope.
abbrev pub Settled : Outside → Bytes → IngestDb → Type 0
Settled o body db = (is_quarantined body db ≡ true) ⊎ IsWritten o body db

pub Settled-Grows :
    (o : Outside) (body : Bytes) (a b : IngestDb) → Grows a b → Settled o body a → Settled o body b
Settled-Grows o body a b g (inl h) = inl (g.kept body h)
Settled-Grows o body a b g (inr h) = inr (record {
  plaintext = h.plaintext;
  header = h.header;
  opens = h.opens;
  payload = h.payload;
  reads = h.reads;
  atoms = AllSeen-Grows o.crypto o.py (split_webhook h.payload) a b g h.atoms;
})

abbrev pub left : Round → Drain
left (next d) = d
left (stop d) = d
left (escape d) = d

-- The lease of a round is acknowledged only where its envelope is settled in what is committed.
abbrev pub Acknowledges : Outside → Leased → Drain → Drain → Type 0
Acknowledges o lm d d' =
    (d'.to_ack ≡ d.to_ack)
    ⊎ ((d'.to_ack ≡ d.to_ack ++ lm.lease_id ∷ []) × Settled o lm.body d'.stores.vault.saved)

pub record IsHandled (o : Outside) (lm : Leased) (d d' : Drain) : Type 0 where
  pub round : IsRound (Draws (o.fresh lm.lease_id)) d.stores d'.stores
  pub acks : Acknowledges o lm d d'

module _ (s : Stores) (quiet : IsQuiet s) (Drawn : String → Type 0) where
  quarantine-IsRound :
      (pr : Primitives) (i : String) (body : Bytes) (failure : FailureClass) (now : ℕ)
      (c : Conn IngestDb)
      → quarantine pr i body failure now s.vault ≡ some c
      → IsRound Drawn s (record s { vault = c }) × (is_quarantined body c.saved ≡ true)
  unfolding quarantine
  quarantine-IsRound pr i body failure now c h =
      let row = dlq_row pr i body failure now in
      let db = record s.vault.work { dlq = s.vault.work.dlq ++ row ∷ [] } in
      let made : (c.work ≡ db) × (c.saved ≡ db) = ground (arith, h) in
      let found =
        λ (b : Bytes). any-append (λ (x : DlqRow). x.envelope == b) s.vault.work.dlq (row ∷ []) in
      (
        record {
          quiet = made.0 ∙ sym made.1;
          grows = record {
            keys = λ key x. ground (arith, made.1, quiet);
            kept = λ b x. ground (arith, made.1, quiet, found b);
          };
          ids = λ j n x. ground (arith, made.1, quiet);
        },
        ground (arith, made.1, found body, ==-refl body),
      )

  trip-IsRound :
      (reason : String) (now : ℕ) → IsRound Drawn s (record s { vault = trip reason now s.vault })
  unfolding trip
  trip-IsRound reason now = record {
    quiet = refl;
    grows = record { keys = λ key x. ground (arith, quiet); kept = λ b x. ground (arith, quiet) };
    ids = λ j n x. ground (arith, quiet);
  }

module _ (o : Outside) (now : ℕ) (lm : Leased) (d : Drain) (quiet : IsQuiet d.stores) where
  same_stores : (d' : Drain) → d'.stores ≡ d.stores → d'.to_ack ≡ d.to_ack → IsHandled o lm d d'
  same_stores d' s a = record {
    round =
        subst (IsRound (Draws (o.fresh lm.lease_id)) d.stores) (sym s)
          (IsRound-refl (Draws (o.fresh lm.lease_id)) d.stores quiet);
    acks = inl a;
  }

  poisoned-IsHandled :
      (failure : FailureClass) → IsHandled o lm d (left (poisoned o now lm failure d))
  poisoned-IsHandled failure =
      elim (Option-cases
        (quarantine o.primitives (o.dlq_id lm.lease_id) lm.body failure now d.stores.vault)) [
          | inl failed ↦ rw failed (same_stores (record d { poison = suc d.poison }) refl refl)
          | inr (c, done) ↦
              let (round, kept) =
                quarantine-IsRound d.stores quiet (Draws (o.fresh lm.lease_id)) o.primitives
                  (o.dlq_id lm.lease_id) lm.body failure now c done in
              rw done (record { round = round; acks = inr (refl, inl kept) })
        ]

  circuit_break-IsHandled :
      (key_id : Option ℕ) → IsHandled o lm d (left (circuit_break o now key_id d))
  circuit_break-IsHandled key_id = record {
    round = trip-IsRound d.stores quiet (Draws (o.fresh lm.lease_id)) (o.reason key_id) now;
    acks = inl refl;
  }

  deliver-IsHandled :
      (plaintext : Bytes) (header : Header)
      → open_sealed o.primitives o.key_lookup lm.body ≡ opened plaintext header
      → IsUnused (o.fresh lm.lease_id) 0 d.stores.vault.saved
      → IsHandled o lm d (left (deliver o now lm header.fields.recipient_key_id plaintext d))
  deliver-IsHandled plaintext header opens unused =
      let (round, there) =
        process_payload-IsRound o.crypto o.py now (o.fresh lm.lease_id) (o.loads plaintext) d.stores
          quiet unused in
      elim (Bool-cases
        (process_payload o.crypto o.py (o.fresh lm.lease_id) now (o.loads plaintext) d.stores).0) [
          | inl whole ↦
              let (payload, reads, atoms) = there whole in
              rw whole (record {
                round = round;
                acks = inr (
                  refl,
                  inr (record {
                    plaintext = plaintext;
                    header = header;
                    opens = opens;
                    payload = payload;
                    reads = reads;
                    atoms = atoms;
                  }),
                );
              })
          | inr raised ↦ rw raised (record { round = round; acks = inl refl })
        ]

  tag_failed-IsHandled : IsHandled o lm d (left (tag_failed o now lm d))
  tag_failed-IsHandled =
      let key_id = key_of (parse_header o.primitives lm.body) in
      let failure = classify_decrypt_error auth_failed (healthy key_id d.key_health) in
      elim (Bool-cases (is_isolated failure)) [
        | inl one ↦ rw one (poisoned-IsHandled failure)
        | inr all ↦ rw all (circuit_break-IsHandled key_id)
      ]

  on_opened-IsHandled :
      IsUnused (o.fresh lm.lease_id) 0 d.stores.vault.saved
      → (r : Opened) → open_sealed o.primitives o.key_lookup lm.body ≡ r
      → IsHandled o lm d (left (on_opened o now lm d r))
  on_opened-IsHandled unused (opened plaintext hdr) e = deliver-IsHandled plaintext hdr e unused
  on_opened-IsHandled unused key_unavailable e = same_stores (hand_back lm d) refl refl
  on_opened-IsHandled unused bad_envelope e = poisoned-IsHandled poison_malformed
  on_opened-IsHandled unused aead_auth_failed e = tag_failed-IsHandled
  on_opened-IsHandled unused value_error e = same_stores d refl refl

  -- One round: nothing is left pending, nothing is lost, and the lease is acknowledged only where its
  -- envelope is settled.
  pub handle-IsHandled :
      IsUnused (o.fresh lm.lease_id) 0 d.stores.vault.saved
      → IsHandled o lm d (left (handle o now lm d))
  unfolding handle
  handle-IsHandled unused =
      on_opened-IsHandled unused (open_sealed o.primitives o.key_lookup lm.body) refl
