-- ===== src/Ingest/Tests/Drain.antt =====
-- Drains of the queue at concrete inputs.
use Prim.Native.Char.{Char, code}
use whatsvault.Base.{
  ◌⊎◌, ℕ, zero, suc, ◌+◌, String, ◌≡◌, refl, sym, ◌∙◌, ap, true, false, ◌&&◌, ◌||◌, Option, none,
  some, List, [], ◌∷◌, arith,
}
use whatsvault.Base.Eq.{◌==◌, ltb, ==-refl, nat_eq, string_eq, bytes_eq, option_eq}
use whatsvault.Base.Int.{pos, negsuc}
use whatsvault.Base.Table.{count}
use whatsvault.Base.Bytes.{Bytes, be_bytes, be_value, codes}
use whatsvault.Crypto.{Crypto}
use whatsvault.Sealed.{Primitives, Fields, seal, header_bytes, parse_header, open_sealed}
use whatsvault.Approval.Canonical.{encode_slots}
use whatsvault.Approval.Schema.{ApprovalDb}
use whatsvault.Approval.Sender.{window_open, last_inbound, window_ms}
use whatsvault.Ingest.Payload.{RawMessage, Payload, split_webhook, to_rows}
use whatsvault.Ingest.Keys.{semantic_key, message_key, sha_input}
use whatsvault.Ingest.Db.{IngestDb}
use whatsvault.Ingest.Dlq.{quarantine, trip, classify_decrypt_error}
use whatsvault.Ingest.Process.{
  Fresh, advances, Stores, get_account, get_contact, get_conversation, insert_message,
  apply_message, apply_rows, advance_window, process_atom, process_atoms, process_payload,
}
use whatsvault.Ingest.Process.Ledger.{process_payload-again}
use whatsvault.Ingest.Process.Windows.{advance_window-opens}
use whatsvault.Ingest.Consumer.{Leased, Outside, handle, drain_loop, drain_once}
use whatsvault.Ingest.Consumer.Acks.{IsNew, IsSafe, drain_once-IsSafe}
use whatsvault.Ingest.Consumer.Tally.{Ending, drain_once-Ending}
use whatsvault.Ingest.Evidence.{drift_of}
use mathlib.Core.List.{Memᴰ}
use mathlib.Core.List.Memᴰ.{head}
use whatsvault.Ingest.Consumer.Rounds.{Settled}
use whatsvault.Ingest.Queue.Leases.{IsOrdered}
use whatsvault.Ingest.Queue.Acked.{drain_queue-Settled}
use whatsvault.Ingest.Queue.{lease, ack, nack, Queue, drain_queue}
use whatsvault.Ingest.Queue.Held.{held, held-drain_queue}

abbrev ticks : Char → ℕ → String → String
ticks c zero s = s
ticks c (suc n) s = String.◌∷◌ c (ticks c n s)

abbrev event_id : ℕ → ℕ → String
event_id i m = ticks "a" i (ticks "b" m "")

abbrev letters : ℕ → String → ℕ
letters x s = count (λ (y : ℕ). y == x) (codes s)

letters-ticks :
    (c : Char) (n : ℕ) (s : String) → letters (code c) (ticks c n s) ≡ n + letters (code c) s
letters-ticks c zero s = omega arith
letters-ticks c (suc n) s = ground (arith, letters-ticks c n s, ==-refl (code c))

letters-others :
    (c : Char) (x n : ℕ) (s : String)
    → (code c == x) ≡ false
    → letters x (ticks c n s) ≡ letters x s
letters-others c x zero s h = refl
letters-others c x (suc n) s h = ground (arith, h, letters-others c x n s h)

letters_a : (i m : ℕ) → letters b'a' (event_id i m) ≡ i
unfolding nat_eq
letters_a i m =
    letters-ticks "a" i (ticks "b" m "") ∙ omega (arith, letters-others "b" b'a' m "" refl)

letters_b : (i m : ℕ) → letters b'b' (event_id i m) ≡ m
unfolding nat_eq
letters_b i m =
    letters-others "a" b'b' i (ticks "b" m "") refl ∙ letters-ticks "b" m "" ∙ omega arith

-- Stand-ins for the libraries.
abbrev crypto : Crypto
crypto = record {
  utf8 = codes;
  decode_utf8 = λ b. none;
  sha256 = λ b. b;
  hex = λ b. "digest";
  ecdsa_verify = λ key r s payload. true;
}

abbrev pr : Primitives
pr = record {
  public_key = λ a. be_bytes 32 0;
  exchange = λ a b. some [];
  derive = λ s. s;
  encrypt = λ key nonce pt aad. pt;
  decrypt = λ key nonce ct aad. some ct;
  hexdigest = λ b. "digest";
}

abbrev fields : Fields
fields = record {
  envelope_version = 1;
  algorithm_id = 1;
  crypto_version = 1;
  recipient_key_id = 258;
  event_id_hash = be_bytes 32 9;
}

abbrev bytes_of : Option Bytes → Bytes
bytes_of none = []
bytes_of (some b) = b

abbrev envelope : Bytes
envelope = bytes_of (seal pr (7 ∷ []) (be_bytes 12 5) (be_bytes 32 0) (b'h' ∷ b'i' ∷ []) fields)

abbrev hi : RawMessage
hi = record {
  id = some "wamid.1";
  sender = some "447700900123";
  timestamp = some (pos 1700000000);
  kind = some (some "text");
  text_body = some "hi";
  echo = false;
  dump = "{}";
}

abbrev webhook : Payload
webhook =
    (record {
      phone_number_id = some "pn_1";
      contacts = [];
      messages = hi ∷ [];
      statuses = [];
      dump = "{}";
    }
      ∷ [])
    ∷ []

abbrev fresh : ℕ → ℕ → Fresh
fresh i m = record {
  event = event_id i m;
  account = "acc_1";
  contact = "con_1";
  conversation = "cnv_1";
  message = "msg_1";
  status = "sts_1";
  projection = advances;
}

abbrev outside : Outside
outside = record {
  crypto = crypto;
  py = record { decimal = λ n. "0" };
  primitives = pr;
  key_lookup = λ n. some (7 ∷ []);
  loads = λ b. some webhook;
  fresh = fresh;
  dlq_id = λ i. event_id i 0;
  reason = λ k. "systemic decrypt failure";
}

abbrev vault : IngestDb
vault = record {
  accounts = [];
  contacts = [];
  conversations = [];
  messages = [];
  status_events = [];
  events = [];
  dlq = [];
  circuit = record { is_open = false; tripped_at_ms = none; reason = none };
}

abbrev control : ApprovalDb
control = record {
  devices = [];
  drafts = [];
  approvals = [];
  nonces = [];
  attempts = [];
  grants = [];
  windows = [];
  candidates = [];
}

abbrev stores : Stores
stores = record {
  vault = record { work = vault; saved = vault };
  control = record { work = control; saved = control };
}

-- One envelope that opens, and one that is cut short.
abbrev leases : List Leased
leases = record { lease_id = 1; body = envelope } ∷ record { lease_id = 2; body = b'x' ∷ [] } ∷ []

drain_once-both :
    (drain_once outside leases [] 1700000005000 stores).counts
    ≡ some (record {
      leased = 2;
      acked = 2;
      poison = 1;
      transient = 0;
      systemic = 0;
      durable = 1;
      open_circuit = false;
    })
unfolding drain_once drain_loop handle open_sealed parse_header seal header_bytes be_bytes be_value
    nat_eq bytes_eq process_payload process_atoms process_atom split_webhook to_rows semantic_key
    message_key sha_input encode_slots get_account get_contact get_conversation insert_message
    apply_message apply_rows advance_window quarantine trip classify_decrypt_error string_eq
    option_eq
drain_once-both = refl

event_id-IsNew : IsNew outside vault
event_id-IsNew = record {
  leases = λ i j m n h. sym (letters_a i m) ∙ ap (letters b'a') h ∙ letters_a j n;
  draws = λ i m n h. sym (letters_b i m) ∙ ap (letters b'b') h ∙ letters_b i n;
  unused = λ i m. refl;
}

drain_once-IsSafe_example :
    IsSafe outside leases stores
      (drain_once outside leases [] 1700000005000 stores).stores
      (drain_once outside leases [] 1700000005000 stores).acked
drain_once-IsSafe_example =
    drain_once-IsSafe outside leases [] 1700000005000 stores refl event_id-IsNew
      ((omega arith, tt), (tt, tt))

drain_once-Ending_example :
    Ending outside leases stores (drain_once outside leases [] 1700000005000 stores)
drain_once-Ending_example = drain_once-Ending outside leases [] 1700000005000 stores

process_payload-again_example :
    process_payload crypto outside.py
      (fresh 2)
      1700000009000
      (some webhook)
      (process_payload crypto outside.py (fresh 1) 1700000005000 (some webhook) stores).1
    ≡ (true, (process_payload crypto outside.py (fresh 1) 1700000005000 (some webhook) stores).1)
unfolding process_payload process_atoms process_atom split_webhook to_rows semantic_key message_key
    sha_input encode_slots get_account get_contact get_conversation insert_message apply_message
    apply_rows advance_window nat_eq be_bytes bytes_eq string_eq option_eq
process_payload-again_example =
    process_payload-again crypto outside.py 1700000005000 1700000009000 (fresh 1) (fresh 2)
      (some webhook) stores refl
      (record {
        distinct = λ m n h. sym (letters_b 1 m) ∙ ap (letters b'b') h ∙ letters_b 1 n;
        unused = λ m h. refl;
      })
      refl

abbrev chat : String
chat = "cnv_1"

advance_window-opens_example :
    window_open (advance_window chat (pos 5000) stores.control).saved chat 6000
    ≡ (window_open control chat 6000 || chat == chat && ltb 0 5000 && ltb 6000 (5000 + window_ms))
advance_window-opens_example = advance_window-opens chat (pos 5000) stores.control chat 6000

abbrev waiting : Queue
waiting = record { pending = envelope ∷ (b'x' ∷ []) ∷ []; leased = []; acked = []; counter = 0 }

held-drain_queue_example :
    held envelope (drain_queue outside 32 [] 1700000005000 stores waiting).1 ≡ held envelope waiting
held-drain_queue_example = held-drain_queue envelope outside 32 [] 1700000005000 stores waiting

-- A message from before 1970, and what the doctor makes of it.
abbrev early : Payload
early =
    (record {
      phone_number_id = some "pn_1";
      contacts = [];
      messages = record hi { timestamp = some (negsuc 4) } ∷ [];
      statuses = [];
      dump = "{}";
    }
      ∷ [])
    ∷ []

drift_of-early :
    let s' = (process_payload crypto outside.py (fresh 1) 1700000005000 (some early) stores).1 in
    drift_of chat s'.vault.work s'.control.work
    ≡ record { evidence_ms = negsuc 4999; stored_ms = 0; drift = true }
unfolding drift_of process_payload process_atoms process_atom split_webhook to_rows semantic_key
    message_key sha_input encode_slots get_account get_contact get_conversation insert_message
    apply_message apply_rows advance_window last_inbound nat_eq be_bytes bytes_eq string_eq
    option_eq
drift_of-early = refl

-- A window in the future is drift.
drift_of-forged :
    drift_of chat vault (advance_window chat (pos 5000) stores.control).work
    ≡ record { evidence_ms = pos 0; stored_ms = 5000; drift = true }
unfolding drift_of advance_window last_inbound string_eq nat_eq
drift_of-forged = refl

waiting-IsOrdered : IsOrdered waiting
waiting-IsOrdered = record { one_body = λ x y m m' e. elim m [ ]; below = λ x m. elim m [ ] }

-- The envelope that opens is acknowledged by a drain, and so settled.
drain_queue-Settled_example :
    Memᴰ envelope waiting.acked
    ⊎ Settled outside envelope
        (drain_queue outside 32 [] 1700000005000 stores waiting).0.stores.vault.saved
unfolding drain_queue lease ack nack drain_once drain_loop handle open_sealed parse_header seal
    header_bytes be_bytes be_value nat_eq bytes_eq process_payload process_atoms process_atom
    split_webhook to_rows semantic_key message_key sha_input encode_slots get_account get_contact
    get_conversation insert_message apply_message apply_rows advance_window quarantine trip
    classify_decrypt_error string_eq option_eq
drain_queue-Settled_example =
    drain_queue-Settled outside 32 [] 1700000005000 stores waiting envelope waiting-IsOrdered refl
      event_id-IsNew (head refl)
