-- ===== src/Approval/Sender/Posts.antt =====
-- What stands behind a call of the provider.
use whatsvault.Base.{
  ℕ, String, ◌≡◌, ◌≢◌, ◌⊎◌, inl, inr, refl, sym, subst, true, false, Option, none, some, [], ◌∷◌,
  ◌++◌, arith,
}
use whatsvault.Base.Eq.{bytes_eq, Option-cases}
use whatsvault.Base.Table.{any}
use whatsvault.Crypto.{Crypto}
use whatsvault.Approval.Schema.{Draft, ApprovalDb}
use whatsvault.Approval.Clock.{Guard, trusted_now, trusted_now-some}
use whatsvault.Approval.Sender.{
  Outcome, on_clock, on_verdict, Envelope, Verdict, allowed, denied, failed, authorise, body_of,
  is_consumed, Permit, granted, already_consumed, broken, permit, Reply, Sender, post, after_permit,
  transmit, execute_write,
}
use whatsvault.Approval.Sender.Authority.{Entitled, authorise-Entitled}
use whatsvault.Approval.Sender.Durable.{is_opened, permit-Granted}

-- One more call of the provider, of draft `d`, after its nonce and its attempt were committed.
pub record OnePost (k : Crypto) (env : Envelope) (i : String) (d : Draft) (s s' : Sender)
    : Type 0 where
  pub text : String
  pub durable : ApprovalDb
  pub decoded : k.decode_utf8 (body_of d) ≡ some text
  pub fresh : is_consumed env.nonce s.conn.work ≡ false
  pub consumed : is_consumed env.nonce durable ≡ true
  pub opened : any (is_opened i) durable.attempts ≡ true
  pub posts :
      s'.posts
      ≡ s.posts
        ++ record {
          nonce = env.nonce;
          attempt_id = i;
          phone_number_id = d.phone_number_id;
          recipient_wa_id = d.recipient_wa_id;
          body = text;
          durable = durable;
        }
          ∷ []

pub Permit-cases : (p : Permit) → (p ≡ granted) ⊎ (p ≢ granted)
Permit-cases granted = inl refl
Permit-cases already_consumed = inr (λ e. cc)
Permit-cases (broken x) = inr (λ e. cc)

module _ (k : Crypto) (reply : Reply) (env : Envelope) (i : String) where
  settled_posts :
      (now : ℕ) (d : Draft) (s : Sender)
      → (after_permit granted k reply env i now d s).1.posts ≡ s.posts
        ⊎ ((text : String) × (k.decode_utf8 (body_of d) ≡ some text)
            × ((after_permit granted k reply env i now d s).1.posts
                ≡ s.posts
                  ++ record {
                    nonce = env.nonce;
                    attempt_id = i;
                    phone_number_id = d.phone_number_id;
                    recipient_wa_id = d.recipient_wa_id;
                    body = text;
                    durable = s.conn.saved;
                  }
                    ∷ []))
  unfolding post
  settled_posts now d s = elim (Option-cases (k.decode_utf8 (body_of d))) [
    | inl e ↦ inl (ground arith)
    | inr (text, e) ↦ inr (text, e, ground arith)
  ]

  transmit_posts :
      (now : ℕ) (d : Draft) (s : Sender)
      → ((transmit k reply env i now d s).1.posts ≡ s.posts)
        ⊎ OnePost k env i d s (transmit k reply env i now d s).1
  unfolding transmit
  transmit_posts now d s = split (permit k env i now s.conn).0 refl
    where
      s' : Sender
      s' = record s { conn = (permit k env i now s.conn).1 }

      split :
          (p : Permit)
          → (permit k env i now s.conn).0 ≡ p
          → ((after_permit p k reply env i now d s').1.posts ≡ s.posts)
            ⊎ OnePost k env i d s (after_permit p k reply env i now d s').1
      split already_consumed e = inl refl
      split (broken x) e = inl refl
      split granted e =
          let g = permit-Granted k env i now s.conn e in
          elim (settled_posts now d s') [
            | inl same ↦ inl same
            | inr (text, decoded, more) ↦ inr (record {
              text = text;
              durable = s'.conn.saved;
              decoded = decoded;
              fresh = g.fresh;
              consumed = ground (arith, g.nonces env.nonce, g.durable);
              opened = g.opened;
              posts = more;
            })
          ]

-- One run of `execute_write` calls the provider at most once, and only for a draft that is entitled
-- at a trusted time, with a nonce that was not consumed before; at the call that nonce and an open
-- attempt are already committed, and the text sent is the draft's body.
pub execute_write-OnePost :
    (k : Crypto) (clock : ℕ) (i : String) (reply : Reply) (env : Envelope) (s : Sender)
    → ((execute_write k clock i reply env s).1.posts ≡ s.posts)
      ⊎ ((d : Draft) × (trusted_now clock s.guard ≡ (some clock, some clock))
          × Entitled k s.conn.work env clock d
          × OnePost k env i d s (execute_write k clock i reply env s).1)
unfolding execute_write
execute_write-OnePost k clock i reply env s =
    at_reading (trusted_now clock s.guard).0 (trusted_now clock s.guard).1 refl
  where
    Result : Outcome × Sender → Type 0
    Result r =
        (r.1.posts ≡ s.posts)
        ⊎ ((d : Draft) × (trusted_now clock s.guard ≡ (some clock, some clock))
            × Entitled k s.conn.work env clock d
            × OnePost k env i d s r.1)

    at_verdict :
        (g : Guard) (v : Verdict)
        → trusted_now clock s.guard ≡ (some clock, some clock)
        → authorise k s.conn.work env clock ≡ v
        → Result (on_verdict v k reply env i clock (record s { guard = g }))
    at_verdict g (denied r) e h = inl refl
    at_verdict g (failed x) e h = inl refl
    at_verdict g (allowed d) e h =
        elim (transmit_posts k reply env i clock d (record s { guard = g })) [
          | inl same ↦ inl same
          | inr one ↦ inr (
            d,
            e,
            authorise-Entitled k s.conn.work env clock d h,
            record {
              text = one.text;
              durable = one.durable;
              decoded = one.decoded;
              fresh = one.fresh;
              consumed = one.consumed;
              opened = one.opened;
              posts = one.posts;
            },
          )
        ]

    at_reading :
        (r : Option ℕ) (g : Guard)
        → trusted_now clock s.guard ≡ (r, g)
        → Result (on_clock r k reply env i (record s { guard = g }))
    at_reading none g e = inl refl
    at_reading (some t) g e =
        let (et, eg) = trusted_now-some clock t s.guard g e in
        subst (λ x. Result (on_clock (some x) k reply env i (record s { guard = g }))) (sym et)
          (at_verdict g (authorise k s.conn.work env clock) (cc) refl)
