-- ===== src/Approval/Canonical/Bound.antt =====
-- What a signature over the canonical bytes fixes, field by field.
use whatsvault.Base.{ℕ, String, ◌≡◌, refl, sym, ◌∙◌, ap, Option, none, some, [], ◌++◌, arith}
use whatsvault.Base.Bytes.{Bytes, be_bytes, length-be_bytes, be_bytes-injective, append-injective}
use whatsvault.Crypto.{Crypto}
use whatsvault.Approval.Canonical.{
  str, bytes, u64, field_bytes, DecisionFields, slots, encode, domain, version,
}
use whatsvault.Approval.Canonical.Injective.{encode_slots-injective, encode_slots-fits, encode_body}

-- What is used of `str.encode("utf-8")`: it loses nothing, and the empty text has no bytes.
pub record IsUtf8 (k : Crypto) : Type 0 where
  pub injective : (s t : String) → k.utf8 s ≡ k.utf8 t → s ≡ t
  pub empty : k.utf8 "" ≡ []

-- A null field and an empty one have the same bytes.
abbrev pub or_empty : Option String → String
or_empty none = ""
or_empty (some s) = s

abbrev pub or_no_bytes : Option Bytes → Bytes
or_no_bytes none = []
or_no_bytes (some b) = b

pub record Agree (a b : DecisionFields) : Type 0 where
  pub decision : a.decision ≡ b.decision
  pub draft_id : a.draft_id ≡ b.draft_id
  pub account_id : a.account_id ≡ b.account_id
  pub phone_number_id : a.phone_number_id ≡ b.phone_number_id
  pub recipient_wa_id : or_empty a.recipient_wa_id ≡ or_empty b.recipient_wa_id
  pub body_sha256 : or_no_bytes a.body_sha256 ≡ or_no_bytes b.body_sha256
  pub kind : a.kind ≡ b.kind
  pub template_id : or_empty a.template_id ≡ or_empty b.template_id
  pub template_params_sha256 :
      or_no_bytes a.template_params_sha256 ≡ or_no_bytes b.template_params_sha256
  pub reply_to_wamid : or_empty a.reply_to_wamid ≡ or_empty b.reply_to_wamid
  pub target_message_wamid : or_empty a.target_message_wamid ≡ or_empty b.target_message_wamid
  pub attachments_digest : or_no_bytes a.attachments_digest ≡ or_no_bytes b.attachments_digest
  pub nonce : or_no_bytes a.nonce ≡ or_no_bytes b.nonce
  pub created_at_ms : a.created_at_ms ≡ b.created_at_ms
  pub expires_at_ms : a.expires_at_ms ≡ b.expires_at_ms
  pub device_id : a.device_id ≡ b.device_id

some_inj : (x y : Bytes) → some x ≡ some y → x ≡ y
some_inj x y h = cc

module _ (k : Crypto) (laws : IsUtf8 k) where
  text_slot :
      (s t : Option String)
      → field_bytes k (str s) ≡ field_bytes k (str t)
      → or_empty s ≡ or_empty t
  unfolding field_bytes
  text_slot none none h = refl
  text_slot none (some t) h = laws.injective "" t (laws.empty ∙ some_inj _ _ h)
  text_slot (some s) none h = laws.injective s "" (some_inj _ _ h ∙ sym laws.empty)
  text_slot (some s) (some t) h = laws.injective s t (some_inj _ _ h)

  required_slot :
      (s t : String) → field_bytes k (str (some s)) ≡ field_bytes k (str (some t)) → s ≡ t
  required_slot s t h = text_slot (some s) (some t) h

  bytes_slot :
      (b c : Option Bytes)
      → field_bytes k (bytes b) ≡ field_bytes k (bytes c)
      → or_no_bytes b ≡ or_no_bytes c
  unfolding field_bytes
  bytes_slot none none h = refl
  bytes_slot none (some c) h = some_inj _ _ h
  bytes_slot (some b) none h = some_inj _ _ h
  bytes_slot (some b) (some c) h = some_inj _ _ h

  number_slot :
      (m n : Option ℕ) (x : Bytes)
      → field_bytes k (u64 m) ≡ some x
      → field_bytes k (u64 m) ≡ field_bytes k (u64 n)
      → m ≡ n
  unfolding field_bytes
  number_slot none none x hx h = refl
  number_slot none (some n) x hx h = ground (arith, length-be_bytes 8 n)
  number_slot (some m) none x hx h = ground (arith, length-be_bytes 8 m)
  number_slot (some m) (some n) x hx h = ground (arith, be_bytes-injective 8 m n)

  -- Two decisions that encode to the same bytes agree on all sixteen fields, a null text or byte
  -- field counting as the empty one.
  pub encode-Agree :
      (a b : DecisionFields) (w : Bytes) → encode k a ≡ some w → encode k b ≡ some w → Agree a b
  unfolding slots
  encode-Agree a b w ea eb =
      let (body, sa, wa) = encode_body k a w ea in
      let (tail, sb, wb) = encode_body k b w eb in
      let same =
        append-injective (domain ++ be_bytes 2 version) (domain ++ be_bytes 2 version) body tail
          refl (sym wa ∙ wb) in
      let contents =
        encode_slots-injective k (slots a) (slots b) body refl sa (sb ∙ ap some (sym same.1)) in
      let fits = encode_slots-fits k (slots a) body sa in
      record {
        decision = required_slot a.decision b.decision (cc);
        draft_id = required_slot a.draft_id b.draft_id (cc);
        account_id = required_slot a.account_id b.account_id (cc);
        phone_number_id = required_slot a.phone_number_id b.phone_number_id (cc);
        recipient_wa_id = text_slot a.recipient_wa_id b.recipient_wa_id (cc);
        body_sha256 = bytes_slot a.body_sha256 b.body_sha256 (cc);
        kind = required_slot a.kind b.kind (cc);
        template_id = text_slot a.template_id b.template_id (cc);
        template_params_sha256 = bytes_slot a.template_params_sha256 b.template_params_sha256 (cc);
        reply_to_wamid = text_slot a.reply_to_wamid b.reply_to_wamid (cc);
        target_message_wamid = text_slot a.target_message_wamid b.target_message_wamid (cc);
        attachments_digest = bytes_slot a.attachments_digest b.attachments_digest (cc);
        nonce = bytes_slot a.nonce b.nonce (cc);
        created_at_ms =
            number_slot a.created_at_ms b.created_at_ms (fits.1.1.1.1.1.1.1.1.1.1.1.1.1.0).0
              (fits.1.1.1.1.1.1.1.1.1.1.1.1.1.0).1 (cc);
        expires_at_ms =
            number_slot a.expires_at_ms b.expires_at_ms (fits.1.1.1.1.1.1.1.1.1.1.1.1.1.1.0).0
              (fits.1.1.1.1.1.1.1.1.1.1.1.1.1.1.0).1 (cc);
        device_id = required_slot a.device_id b.device_id (cc);
      }
