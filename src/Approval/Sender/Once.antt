-- ===== src/Approval/Sender/Once.antt =====
-- The calls of the provider for one nonce, over crashes, restarts and recovery.
use whatsvault.Base.{
  ℕ, ◌≤◌, String, ◌≡◌, ◌≢◌, inl, inr, refl, sym, subst, Bool, true, Option, none, some, [], ◌∷◌,
  ◌++◌, arith,
}
use whatsvault.Base.Eq.{if◌then◌else◌, ◌==◌, bytes_eq, Option-cases}
use whatsvault.Base.Table.{count, count-append}
use whatsvault.Base.Conn.{Conn, write, commit, rollback}
use whatsvault.Base.Bytes.{Bytes}
use whatsvault.Crypto.{Crypto}
use whatsvault.Approval.Schema.{Draft, ApprovalDb}
use whatsvault.Approval.Clock.{Guard, trusted_now}
use whatsvault.Approval.Sender.{
  Envelope, Verdict, allowed, denied, failed, authorise, body_of, is_consumed, Permit, granted,
  already_consumed, broken, permit, Reply, submitted, rejected, timeout_after_send, connect_failed,
  other_exception, Post, Sender, post, settle, settle_posted, after_permit, on_clock, on_verdict,
  transmit, execute_write, recover_startup,
}
use whatsvault.Approval.Sender.Posts.{Permit-cases}
use whatsvault.Approval.Sender.Durable.{permit-Granted, permit-refused}

abbrev pub is_for : Bytes → Post → Bool
is_for n p = p.nonce == n

abbrev pub restart : Sender → Sender
restart s = record s { conn = rollback s.conn; guard = none }

-- What may happen to the sender: a run of `execute_write`, a crash between the commit and the call
-- of the provider or between the call and the record of its outcome, a crash at any other time,
-- recovery, and a committed write of another operation, which leaves approval_nonces alone.
pub data Step (k : Crypto) (s : Sender) : Sender → Type 0 where
  execute :
      (clock : ℕ) (i : String) (reply : Reply) (env : Envelope)
      → Step k s (execute_write k clock i reply env s).1
  die_before_post :
      (env : Envelope) (i : String) (now : ℕ)
      → Step k s (restart (record s { conn = (permit k env i now s.conn).1 }))
  die_after_post :
      (env : Envelope) (i : String) (now : ℕ) (d : Draft) (s' : Sender)
      → (permit k env i now s.conn).0 ≡ granted
      → post k env d i (record s { conn = (permit k env i now s.conn).1 }) ≡ some s'
      → Step k s (restart s')
  die : Step k s (restart s)
  recover : (now : ℕ) → Step k s (record s { conn = (recover_startup now s.conn).1 })
  elsewhere :
      (db : ApprovalDb)
      → db.nonces ≡ s.conn.work.nonces
      → Step k s (record s { conn = commit (write db s.conn) })

pub data Reach (k : Crypto) (s : Sender) : Sender → Type 0 where
  here : Reach k s s
  next : {t u : Sender} → Reach k s t → Step k t u → Reach k s u

abbrev allowance : Bool → ℕ
allowance b = if b then 1 else 0

-- A nonce was posted at most once, and not at all before it was durably consumed; what is durably
-- consumed is consumed.
pub record IsOnce (s : Sender) : Type 0 where
  pub once : (n : Bytes) → count (is_for n) s.posts ≤ allowance (is_consumed n s.conn.saved)
  pub kept : (n : Bytes) → is_consumed n s.conn.saved ≡ true → is_consumed n s.conn.work ≡ true

-- The state between the commit of `n` and the call of the provider.
record IsArmed (n : Bytes) (s : Sender) : Type 0 where
  once : IsOnce s
  consumed : is_consumed n s.conn.saved ≡ true
  unposted : count (is_for n) s.posts ≡ 0

IsOnce-restart : (s : Sender) → IsOnce s → IsOnce (restart s)
IsOnce-restart s h = record { once = h.once; kept = λ n e. e }

-- A committed write that keeps the consumed nonces keeps the invariant.
IsOnce-commit :
    (s : Sender) (db : ApprovalDb)
    → db.nonces ≡ s.conn.work.nonces
    → IsOnce s
    → IsOnce (record s { conn = commit (write db s.conn) })
IsOnce-commit s db e h = record {
  once = λ n. ground (arith, h.once n, h.kept n, e);
  kept = λ n x. x;
}

permit-IsArmed :
    (k : Crypto) (env : Envelope) (i : String) (now : ℕ) (s : Sender)
    → IsOnce s
    → (permit k env i now s.conn).0 ≡ granted
    → IsArmed env.nonce (record s { conn = (permit k env i now s.conn).1 })
permit-IsArmed k env i now s h e =
    let g = permit-Granted k env i now s.conn e in
    record {
      once = record {
        once = λ n. ground (arith, h.once n, h.kept n, g.nonces n, g.durable);
        kept = λ n x. subst (λ (db : ApprovalDb). is_consumed n db ≡ true) g.durable x;
      };
      consumed = ground (arith, g.nonces env.nonce, g.durable);
      unposted = ground (arith, h.once env.nonce, h.kept env.nonce, g.fresh);
    }

permit_refused-IsOnce :
    (k : Crypto) (env : Envelope) (i : String) (now : ℕ) (s : Sender)
    → IsOnce s
    → (permit k env i now s.conn).0 ≢ granted
    → IsOnce (record s { conn = (permit k env i now s.conn).1 })
permit_refused-IsOnce k env i now s h ne =
    let (same, grows) = permit-refused k env i now s.conn ne in
    record {
      once = λ n. ground (arith, h.once n, same);
      kept =
          λ n x. grows n (h.kept n (subst (λ (db : ApprovalDb). is_consumed n db ≡ true) same x));
    }

post_adds :
    (k : Crypto) (env : Envelope) (d : Draft) (i : String) (s s' : Sender)
    → post k env d i s ≡ some s'
    → (p : Post) × (p.nonce ≡ env.nonce) × (s'.posts ≡ s.posts ++ p ∷ []) × (s'.conn ≡ s.conn)
unfolding post
post_adds k env d i s s' e = elim (Option-cases (k.decode_utf8 (body_of d))) [
  | inl none_decoded ↦ ground arith
  | inr (text, decoded) ↦ (
    record {
      nonce = env.nonce;
      attempt_id = i;
      phone_number_id = d.phone_number_id;
      recipient_wa_id = d.recipient_wa_id;
      body = text;
      durable = s.conn.saved;
    },
    refl,
    ground arith,
    ground arith,
  )
]

post-IsOnce :
    (k : Crypto) (env : Envelope) (d : Draft) (i : String) (s s' : Sender)
    → IsArmed env.nonce s
    → post k env d i s ≡ some s'
    → IsOnce s'
post-IsOnce k env d i s s' h e =
    let (p, own, more, same) = post_adds k env d i s s' e in
    record {
      once = λ n. ground (
        arith,
        own,
        more,
        same,
        h.once.once n,
        h.consumed,
        h.unposted,
        count-append (is_for n) s.posts (p ∷ []),
      );
      kept = λ n x.
          subst (λ (c : Conn ApprovalDb). is_consumed n c.work ≡ true) (sym same)
            (h.once.kept n (subst (λ (c : Conn ApprovalDb). is_consumed n c.saved ≡ true) same x));
    }

settle-IsOnce :
    (reply : Reply) (i : String) (now : ℕ) (s : Sender)
    → IsOnce s
    → IsOnce (record s { conn = (settle reply i now s.conn).1 })
unfolding settle
settle-IsOnce (submitted w) i now s h = IsOnce-commit s _ refl h
settle-IsOnce (rejected c) i now s h = IsOnce-commit s _ refl h
settle-IsOnce timeout_after_send i now s h = IsOnce-commit s _ refl h
settle-IsOnce connect_failed i now s h = IsOnce-commit s _ refl h
settle-IsOnce other_exception i now s h = h

after_permit-IsOnce :
    (k : Crypto) (reply : Reply) (env : Envelope) (i : String) (now : ℕ) (d : Draft) (s : Sender)
    → IsArmed env.nonce s
    → IsOnce (after_permit granted k reply env i now d s).1
after_permit-IsOnce k reply env i now d s h = split (post k env d i s) refl
  where
    split : (o : Option Sender) → post k env d i s ≡ o → IsOnce (settle_posted reply i now o s).1
    split none e = h.once
    split (some s') e = settle-IsOnce reply i now s' (post-IsOnce k env d i s s' h e)

transmit-IsOnce :
    (k : Crypto) (reply : Reply) (env : Envelope) (i : String) (now : ℕ) (d : Draft) (s : Sender)
    → IsOnce s
    → IsOnce (transmit k reply env i now d s).1
unfolding transmit
transmit-IsOnce k reply env i now d s h = split (permit k env i now s.conn).0 refl
  where
    split :
        (p : Permit)
        → (permit k env i now s.conn).0 ≡ p
        → IsOnce
            (after_permit p k reply env i now d
              (record s { conn = (permit k env i now s.conn).1 })).1
    split granted e = after_permit-IsOnce k reply env i now d _ (permit-IsArmed k env i now s h e)
    split already_consumed e = permit_refused-IsOnce k env i now s h (λ g. cc)
    split (broken x) e = permit_refused-IsOnce k env i now s h (λ g. cc)

execute_write-IsOnce :
    (k : Crypto) (clock : ℕ) (i : String) (reply : Reply) (env : Envelope) (s : Sender)
    → IsOnce s
    → IsOnce (execute_write k clock i reply env s).1
unfolding execute_write
execute_write-IsOnce k clock i reply env s h =
    at_reading (trusted_now clock s.guard).0 (trusted_now clock s.guard).1
  where
    guarded : (g : Guard) → IsOnce (record s { guard = g })
    guarded g = record { once = h.once; kept = h.kept }

    at_verdict :
        (g : Guard) (now : ℕ) (v : Verdict)
        → IsOnce (on_verdict v k reply env i now (record s { guard = g })).1
    at_verdict g now (denied r) = guarded g
    at_verdict g now (failed x) = guarded g
    at_verdict g now (allowed d) = transmit-IsOnce k reply env i now d _ (guarded g)

    at_reading :
        (r : Option ℕ) (g : Guard) → IsOnce (on_clock r k reply env i (record s { guard = g })).1
    at_reading none g = guarded g
    at_reading (some now) g = at_verdict g now (authorise k s.conn.work env now)

Step-IsOnce : {k : Crypto} {s t : Sender} → Step k s t → IsOnce s → IsOnce t
unfolding recover_startup
Step-IsOnce {k} {s} (execute clock i reply env) h = execute_write-IsOnce k clock i reply env s h
Step-IsOnce {k} {s} (die_before_post env i now) h =
    elim (Permit-cases (permit k env i now s.conn).0) [
      | inl g ↦ IsOnce-restart _ (permit-IsArmed k env i now s h g).once
      | inr ne ↦ IsOnce-restart _ (permit_refused-IsOnce k env i now s h ne)
    ]
Step-IsOnce {k} {s} (die_after_post env i now d s' g e) h =
    IsOnce-restart s' (post-IsOnce k env d i _ s' (permit-IsArmed k env i now s h g) e)
Step-IsOnce {k} {s} die h = IsOnce-restart s h
Step-IsOnce {k} {s} (recover now) h = IsOnce-commit s _ refl h
Step-IsOnce {k} {s} (elsewhere db e) h = IsOnce-commit s db e h

-- From a sender that has posted nothing for any nonce, or at most once for each durably consumed
-- one, every sequence of runs, crashes, restarts, recoveries and other writes keeps it so: no nonce
-- is ever posted twice.
pub Reach-IsOnce : {k : Crypto} {s t : Sender} → Reach k s t → IsOnce s → IsOnce t
Reach-IsOnce here h = h
Reach-IsOnce (next r st) h = Step-IsOnce st (Reach-IsOnce r h)

-- Whatever sequence of sends, crashes at any point, restarts, recoveries and other committed writes
-- follows a start with no call made, the provider is called at most once for each nonce.
pub posts-at_most_once :
    (k : Crypto) (c : Conn ApprovalDb) (t : Sender) (n : Bytes)
    → Reach k (record { conn = commit c; guard = none; posts = [] }) t
    → count (is_for n) t.posts ≤ 1
posts-at_most_once k c t n r =
    let safe : IsOnce t = Reach-IsOnce r (record { once = λ m. omega arith; kept = λ m x. x }) in
    ground (arith, safe.once n)
