-- ===== src/Approval/Tests/Chain.antt =====
-- The policy, the clock, the encoding, the devices and the sender at concrete inputs.
use whatsvault.Base.{◌+◌, ◌≤◌, ◌≡◌, ◌↔◌, ◌⊎◌, refl, true, false, Option, none, some, [], ◌∷◌}
use whatsvault.Base.Eq.{option_eq, string_eq, bytes_eq, nat_eq}
use whatsvault.Base.Table.{count}
use whatsvault.Base.Conn.{commit}
use whatsvault.Base.Bytes.{Bytes, be_bytes}
use whatsvault.Crypto.{verify}
use whatsvault.Approval.Schema.{Draft}
use whatsvault.Approval.Policy.{Context, MaySend, evaluate, evaluate-MaySend_iff}
use whatsvault.Approval.Clock.{NeverBack, accepted, trusted_now, accepted-NeverBack}
use whatsvault.Approval.Canonical.{encode, slots, domain}
use whatsvault.Approval.Canonical.Bound.{Agree, encode-Agree}
use whatsvault.Approval.Devices.{revoke, active_signing_key, active_agreement_key, revoke-no_keys}
use whatsvault.Approval.Sender.{
  approval_already_consumed, canonical_fields, allowed, authorise, Reply, Outcome, Sender, permit,
  granted, execute_write, recover_startup, check_draft, check_signature, check_payload,
  policy_verdict, send_context, transmit, post, settle,
}
use whatsvault.Approval.Sender.Authority.{Entitled, authorise-Entitled_iff}
use whatsvault.Approval.Sender.Posts.{OnePost, execute_write-OnePost}
use whatsvault.Approval.Sender.Once.{is_for, here, next, execute, posts-at_most_once}
use whatsvault.Approval.Sender.Recovery.{in_flight, unresolved, Recovered, recover_startup_lem}
use whatsvault.Approval.Sender.Rebound.{with_nonce, permit-with_nonce}
use whatsvault.Approval.Tests.{crypto, zeros, hello, db, start, approval, crypto-IsUtf8}

authorise-approval : authorise crypto db approval 2000 ≡ allowed hello
unfolding authorise check_draft check_signature check_payload policy_verdict active_signing_key
    encode verify evaluate send_context canonical_fields slots domain string_eq bytes_eq nat_eq
    be_bytes
authorise-approval = refl

abbrev reply_ok : Reply
reply_ok = Reply.submitted (some "wamid.NEW")

-- The first run sends; a second one with the same envelope is denied.
execute_write-approval :
    let (first, s) = execute_write crypto 2000 "atm_1" reply_ok approval start in
    let (second, t) = execute_write crypto 2001 "atm_2" reply_ok approval s in
    (first ≡ Outcome.submitted (some "wamid.NEW") "atm_1")
    × (second ≡ Outcome.denied approval_already_consumed)
    × (count (is_for (zeros 32)) t.posts ≡ 1)
unfolding execute_write trusted_now authorise check_draft check_signature check_payload
    policy_verdict active_signing_key encode verify evaluate send_context canonical_fields slots
    domain string_eq bytes_eq nat_eq be_bytes transmit permit post settle
execute_write-approval = (refl, refl, refl)

abbrev context : Context
context = record {
  recipient_wa_id = some "61999";
  kind = "text";
  account_ok = true;
  now_ms = some 5;
  expires_at_ms = some 5;
  device_active = true;
  rate_ok = true;
  recipient_is_group = false;
  window_open = true;
}

evaluate-MaySend_iff_example : ((evaluate context).ok ≡ true) ↔ MaySend context
evaluate-MaySend_iff_example = evaluate-MaySend_iff context

accepted-NeverBack_example : NeverBack none (accepted none (5 ∷ 3 ∷ 9 ∷ []))
accepted-NeverBack_example = accepted-NeverBack none (5 ∷ 3 ∷ 9 ∷ [])

abbrev bytes_of : Option Bytes → Bytes
bytes_of none = []
bytes_of (some b) = b

abbrev no_recipient : Draft
no_recipient = record hello { recipient_wa_id = none }

abbrev empty_recipient : Draft
empty_recipient = record hello { recipient_wa_id = some "" }

encode-Agree_example :
    Agree (canonical_fields no_recipient approval) (canonical_fields empty_recipient approval)
unfolding encode slots domain be_bytes canonical_fields
encode-Agree_example =
    encode-Agree crypto crypto-IsUtf8 (canonical_fields no_recipient approval)
      (canonical_fields empty_recipient approval)
      (bytes_of (encode crypto (canonical_fields no_recipient approval))) refl refl

revoke-no_keys_example :
    (active_signing_key (revoke "dev_1" start.conn).work "dev_1" ≡ none)
    × (active_agreement_key (revoke "dev_1" start.conn).work "dev_1" ≡ none)
    × ((revoke "dev_1" start.conn).saved ≡ (revoke "dev_1" start.conn).work)
revoke-no_keys_example = revoke-no_keys "dev_1" start.conn

authorise-Entitled_iff_example :
    (authorise crypto db approval 2000 ≡ allowed hello) ↔ Entitled crypto db approval 2000 hello
authorise-Entitled_iff_example = authorise-Entitled_iff crypto db approval 2000 hello

execute_write-OnePost_example :
    ((execute_write crypto 2000 "atm_1" reply_ok approval start).1.posts ≡ start.posts)
    ⊎ ((d : Draft) × (trusted_now 2000 start.guard ≡ (some 2000, some 2000))
        × Entitled crypto db approval 2000 d
        × OnePost crypto approval "atm_1" d start
            (execute_write crypto 2000 "atm_1" reply_ok approval start).1)
execute_write-OnePost_example = execute_write-OnePost crypto 2000 "atm_1" reply_ok approval start

abbrev sent : Sender
sent = (execute_write crypto 2000 "atm_1" reply_ok approval start).1

posts-at_most_once_example :
    count (is_for (zeros 32)) (execute_write crypto 2001 "atm_2" reply_ok approval sent).1.posts ≤ 1
posts-at_most_once_example =
    posts-at_most_once crypto start.conn
      (execute_write crypto 2001 "atm_2" reply_ok approval sent).1 (zeros 32)
      (next (next here (execute 2000 "atm_1" reply_ok approval))
        (execute 2001 "atm_2" reply_ok approval))

recover_startup_lem_example :
    let (n, c') = recover_startup 9 start.conn in
    (n ≡ count in_flight db.attempts)
    × Recovered 9 db.attempts c'.saved.attempts
    × (c'.saved ≡ record db { attempts = c'.saved.attempts })
    × (count in_flight c'.work.attempts ≡ 0)
    × (count unresolved c'.work.attempts ≡ count unresolved db.attempts + n)
    × (c'.saved ≡ c'.work)
    × ((recover_startup 10 c').0 ≡ 0)
    × ((recover_startup 10 c').1.work.attempts ≡ c'.work.attempts)
recover_startup_lem_example = recover_startup_lem 9 10 start.conn

abbrev spent : Sender
spent = record start {
  conn = commit (record start.conn {
    work = record db {
      nonces = record { nonce = zeros 32; consumed_by = "drf_1"; consumed_at_ms = 1 } ∷ [];
    };
  });
}

permit-with_nonce_example :
    (authorise crypto spent.conn.work (with_nonce (be_bytes 32 1) approval) 2000 ≡ allowed hello)
    × ((permit crypto (with_nonce (be_bytes 32 1) approval) "atm_1" 2000 spent.conn).0 ≡ granted)
unfolding authorise check_draft check_signature check_payload policy_verdict active_signing_key
    encode verify evaluate send_context canonical_fields slots domain string_eq bytes_eq nat_eq
    be_bytes
permit-with_nonce_example =
    permit-with_nonce crypto approval (be_bytes 32 1) "atm_1" 2000 hello spent.conn refl refl refl
      refl refl
