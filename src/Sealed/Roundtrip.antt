-- ===== src/Sealed/Roundtrip.antt =====
-- What is sealed, and then opened.
use whatsvault.Base.{
  ℕ, zero, suc, ◌+◌, ◌^◌, ◌≡◌, refl, sym, ◌∙◌, ap, subst, true, false, Option, some, [], ◌∷◌, ◌++◌,
  inl, inr, arith,
}
use whatsvault.Base.Eq.{◌==◌, ==-refl, nat_eq, bytes_eq, ltb, Bool-cases, Option-cases}
use whatsvault.Base.Table.{length, length-append}
use whatsvault.Base.Bytes.{
  Bytes, take, drop, be_value, be_bytes, length-be_bytes, be_value-be_bytes,
}
use whatsvault.Sealed.{
  Primitives, Fields, fits, header_layout, header_bytes, sealed_tail, seal, slice, ct_length,
  ciphertext, read_fields, Header, parse_header, opened, open_sealed, magic,
}

drop_nil : (n : ℕ) → drop {A = ℕ} n [] ≡ []
drop_nil zero = refl
drop_nil (suc n) = refl

-- To drop `m` and then `n` is to drop their sum.
drop_more : (m n k : ℕ) (l : Bytes) → k ≡ m + n → drop k l ≡ drop n (drop m l)
drop_more zero n k l h = ap (λ j. drop j l) (omega arith)
drop_more (suc m) n zero l h = absurd (omega arith)
drop_more (suc m) n (suc k) [] h = sym (drop_nil n)
drop_more (suc m) n (suc k) (x ∷ l) h = drop_more m n k l (omega arith)

drop-append : (a b : Bytes) → drop (length a) (a ++ b) ≡ b
drop-append [] b = refl
drop-append (x ∷ a) b = drop-append a b

take-append : (a b : Bytes) → take (length a) (a ++ b) ≡ a
take-append [] b = refl
take-append (x ∷ a) b = ap (λ l. x ∷ l) (take-append a b)

take_all : (a : Bytes) → take (length a) a ≡ a
take_all [] = refl
take_all (x ∷ a) = ap (λ l. x ∷ l) (take_all a)

drop_part : (m : ℕ) (a b : Bytes) → length a ≡ m → drop m (a ++ b) ≡ b
drop_part m a b h = subst (λ k. drop k (a ++ b) ≡ b) h (drop-append a b)

take_part : (m : ℕ) (a b : Bytes) → length a ≡ m → take m (a ++ b) ≡ a
take_part m a b h = subst (λ k. take k (a ++ b) ≡ a) h (take-append a b)

-- The next part, once what stands before it was dropped.
next_part :
    (i n k : ℕ) (l a b : Bytes) → k ≡ i + n → drop i l ≡ a ++ b → length a ≡ n → drop k l ≡ b
next_part i n k l a b sum here size =
    drop_more i n k l sum ∙ ap (drop n) here ∙ drop_part n a b size

slice_part : (i n : ℕ) (l a b : Bytes) → drop i l ≡ a ++ b → length a ≡ n → slice i n l ≡ a
slice_part i n l a b here size = ap (take n) here ∙ take_part n a b size

append_assoc : (a b c : Bytes) → (a ++ b) ++ c ≡ a ++ (b ++ c)
append_assoc [] b c = refl
append_assoc (x ∷ a) b c = ap (λ l. x ∷ l) (append_assoc a b c)

-- An envelope part by part.
abbrev pub layout : Fields → Bytes → Bytes → Bytes → Bytes
layout f ephpub nonce ct =
    magic
    ++ f.envelope_version
      ∷ f.algorithm_id
      ∷ f.crypto_version
      ∷ (be_bytes 4 f.recipient_key_id
          ++ (f.event_id_hash ++ (ephpub ++ (nonce ++ (be_bytes 4 (length ct) ++ ct)))))

not_below : (n m : ℕ) → n ≡ 91 + m → ltb n 91 ≡ false
not_below n m h = ground arith

both_same : (x y z : ℕ) → x ≡ z → y ≡ z → (x == y) ≡ true
both_same x y z h k = ground arith

-- What `parse_header` goes by.
parsed :
    (pr : Primitives) (e : Bytes) (f : Fields) (ct : Bytes)
    → length e ≡ 91 + length ct
    → (take 4 e == magic) ≡ true
    → ct_length e ≡ length ct
    → ciphertext e ≡ ct
    → read_fields e ≡ f
    → parse_header pr e ≡ some (record { fields = f; ciphertext_sha256 = pr.hexdigest ct })
unfolding parse_header
parsed pr e f ct size begins counted kept fields =
    let long = not_below (length e) (length ct) size in
    let whole =
      both_same (length (ciphertext e)) (ct_length e) (length ct) (ap length kept) counted in
    rw (long, begins, whole, fields, kept) refl

module _ (f : Fields) (ephpub nonce ct : Bytes) (sound : fits f ≡ true)
    (eph_32 : length ephpub ≡ 32) (nonce_12 : length nonce ≡ 12)
    (short : ltb (length ct) (256 ^ 4) ≡ true) where
  abbrev env : Bytes
  env = layout f ephpub nonce ct

  hash_32 : length f.event_id_hash ≡ 32
  hash_32 = ground arith

  sealed_layout : header_layout f ++ sealed_tail ephpub nonce ct ≡ env
  sealed_layout =
      ap (λ (l : Bytes). magic ++ f.envelope_version ∷ f.algorithm_id ∷ f.crypto_version ∷ l)
        (append_assoc (be_bytes 4 f.recipient_key_id) f.event_id_hash (sealed_tail ephpub nonce ct))

  from_11 : drop 11 env ≡ f.event_id_hash ++ (ephpub ++ (nonce ++ (be_bytes 4 (length ct) ++ ct)))
  from_11 = drop_part 4 (be_bytes 4 f.recipient_key_id) _ (length-be_bytes 4 f.recipient_key_id)

  pub from_43 : drop 43 env ≡ ephpub ++ (nonce ++ (be_bytes 4 (length ct) ++ ct))
  from_43 = next_part 11 32 43 env f.event_id_hash _ (omega arith) from_11 hash_32

  pub from_75 : drop 75 env ≡ nonce ++ (be_bytes 4 (length ct) ++ ct)
  from_75 = next_part 43 32 75 env ephpub _ (omega arith) from_43 eph_32

  from_87 : drop 87 env ≡ be_bytes 4 (length ct) ++ ct
  from_87 = next_part 75 12 87 env nonce _ (omega arith) from_75 nonce_12

  from_91 : drop 91 env ≡ ct
  from_91 =
      next_part 87 4 91 env (be_bytes 4 (length ct)) ct (omega arith) from_87
        (length-be_bytes 4 (length ct))

  ct_length_lem : ct_length env ≡ length ct
  ct_length_lem =
      ap be_value
        (slice_part 87 4 env (be_bytes 4 (length ct)) ct from_87 (length-be_bytes 4 (length ct)))
      ∙ be_value-be_bytes 4 (length ct) (ground arith)

  ciphertext_lem : ciphertext env ≡ ct
  ciphertext_lem =
      ap (λ n. take n (drop 91 env)) ct_length_lem ∙ ap (take (length ct)) from_91 ∙ take_all ct

  byte : (b : ℕ) → be_value (b ∷ []) ≡ b
  unfolding be_value
  byte b = omega arith

  fields_eq :
      (g : Fields)
      → g.envelope_version ≡ f.envelope_version
      → g.algorithm_id ≡ f.algorithm_id
      → g.crypto_version ≡ f.crypto_version
      → g.recipient_key_id ≡ f.recipient_key_id
      → g.event_id_hash ≡ f.event_id_hash
      → g ≡ f
  fields_eq g a b c d e = cc

  read_fields_lem : read_fields env ≡ f
  read_fields_lem =
      let key = be_value-be_bytes 4 f.recipient_key_id (ground arith) in
      let key_slice =
        take_part 4 (be_bytes 4 f.recipient_key_id)
          (f.event_id_hash ++ (ephpub ++ (nonce ++ (be_bytes 4 (length ct) ++ ct))))
          (length-be_bytes 4 f.recipient_key_id) in
      fields_eq (read_fields env) (byte f.envelope_version) (byte f.algorithm_id)
        (byte f.crypto_version) (ap be_value key_slice ∙ key)
        (slice_part 11 32 env f.event_id_hash _ from_11 hash_32)

  size_env : length env ≡ 91 + length ct
  size_env = ground (
    arith,
    length-append (be_bytes 4 f.recipient_key_id)
        (f.event_id_hash ++ (ephpub ++ (nonce ++ (be_bytes 4 (length ct) ++ ct)))),
    length-append f.event_id_hash (ephpub ++ (nonce ++ (be_bytes 4 (length ct) ++ ct))),
    length-append ephpub (nonce ++ (be_bytes 4 (length ct) ++ ct)),
    length-append nonce (be_bytes 4 (length ct) ++ ct),
    length-append (be_bytes 4 (length ct)) ct,
    length-be_bytes 4 f.recipient_key_id,
    length-be_bytes 4 (length ct),
    hash_32,
  )

  header_43 : length (header_layout f) ≡ 43
  header_43 = ground (
    arith,
    length-append (be_bytes 4 f.recipient_key_id) f.event_id_hash,
    length-be_bytes 4 f.recipient_key_id,
    hash_32,
  )

  header_part : take 43 env ≡ header_layout f
  header_part =
      ap (take 43) (sym sealed_layout)
      ∙ take_part 43 (header_layout f) (sealed_tail ephpub nonce ct) header_43

  -- The envelope of these parts is read back as them.
  pub parse_header-layout :
      (pr : Primitives)
      → parse_header pr env ≡ some (record { fields = f; ciphertext_sha256 = pr.hexdigest ct })
  parse_header-layout pr =
      parsed pr env f ct size_env (==-refl magic) ct_length_lem ciphertext_lem read_fields_lem

-- What the theorem relies on of the primitives: the two sides of an exchange agree, where it does not
-- raise; keys have 32 bytes; and what was encrypted is decrypted with the same key, nonce and header.
pub record IsSound (pr : Primitives) : Type 0 where
  pub agrees :
      (a b shared : Bytes)
      → pr.exchange a (pr.public_key b) ≡ some shared
      → pr.exchange b (pr.public_key a) ≡ some shared
  pub key_32 : (a : Bytes) → length (pr.public_key a) ≡ 32
  pub opens :
      (key nonce pt aad : Bytes) → pr.decrypt key nonce (pr.encrypt key nonce pt aad) aad ≡ some pt

decrypt_parts :
    (pr : Primitives) (key n n' c c' a a' : Bytes)
    → n ≡ n'
    → c ≡ c'
    → a ≡ a'
    → pr.decrypt key n c a ≡ pr.decrypt key n' c' a'
decrypt_parts pr key n n' c c' a a' en ec ea = cc

-- What `open_sealed` goes by.
opened_by :
    (pr : Primitives) (key_lookup : ℕ → Option Bytes) (e priv shared pt : Bytes) (hdr : Header)
    → parse_header pr e ≡ some hdr
    → key_lookup hdr.fields.recipient_key_id ≡ some priv
    → pr.exchange priv (slice 43 32 e) ≡ some shared
    → pr.decrypt (pr.derive shared) (slice 75 12 e) (ciphertext e) (take 43 e) ≡ some pt
    → open_sealed pr key_lookup e ≡ opened pt hdr
unfolding open_sealed
opened_by pr key_lookup e priv shared pt hdr parse held agreed plain = ground arith

module _ (pr : Primitives) (law : IsSound pr) (eph nonce priv plaintext shared : Bytes) (f : Fields)
    (key_lookup : ℕ → Option Bytes) (nonce_12 : length nonce ≡ 12)
    (held : key_lookup f.recipient_key_id ≡ some priv)
    (agreed : pr.exchange eph (pr.public_key priv) ≡ some shared) (sound : fits f ≡ true) where
  abbrev ct : Bytes
  ct = pr.encrypt (pr.derive shared) nonce plaintext (header_layout f)

  abbrev whole : Bytes
  whole = layout f (pr.public_key eph) nonce ct

  opens_whole :
      ltb (length ct) (256 ^ 4) ≡ true
      → open_sealed pr key_lookup whole
        ≡ opened plaintext (record { fields = f; ciphertext_sha256 = pr.hexdigest ct })
  opens_whole short =
      let eph_32 = law.key_32 eph in
      let header =
        parse_header-layout f (pr.public_key eph) nonce ct sound eph_32 nonce_12 short pr in
      let key_part =
        slice_part 43 32 whole (pr.public_key eph) _
          (from_43 f (pr.public_key eph) nonce ct sound eph_32 nonce_12 short) eph_32 in
      let nonce_part =
        slice_part 75 12 whole nonce _
          (from_75 f (pr.public_key eph) nonce ct sound eph_32 nonce_12 short) nonce_12 in
      let ct_part = ciphertext_lem f (pr.public_key eph) nonce ct sound eph_32 nonce_12 short in
      let aad_part = header_part f (pr.public_key eph) nonce ct sound eph_32 nonce_12 short in
      opened_by pr key_lookup whole priv shared plaintext _ header held
        (ap (pr.exchange priv) key_part ∙ law.agrees eph priv shared agreed)
        (decrypt_parts pr (pr.derive shared) _ _ _ _ _ _ nonce_part ct_part aad_part
          ∙ law.opens (pr.derive shared) nonce plaintext (header_layout f))

-- An envelope that was sealed to a public key, with a nonce of 12 bytes, opens with its private key:
-- to the plaintext, and to a header with the fields that it was sealed under.
pub open_sealed-seal :
    (pr : Primitives) (eph nonce priv plaintext e : Bytes) (f : Fields)
    (key_lookup : ℕ → Option Bytes)
    → IsSound pr
    → length nonce ≡ 12
    → key_lookup f.recipient_key_id ≡ some priv
    → seal pr eph nonce (pr.public_key priv) plaintext f ≡ some e
    → (hdr : Header) × (hdr.fields ≡ f) × (open_sealed pr key_lookup e ≡ opened plaintext hdr)
unfolding seal header_bytes open_sealed
open_sealed-seal pr eph nonce priv plaintext e f key_lookup law size held sealed =
    elim (Option-cases (pr.exchange eph (pr.public_key priv))) [
      | inl low_order ↦ absurd (ground arith)
      | inr (shared, agreed) ↦ elim (Bool-cases (fits f)) [
        | inr unfit ↦ absurd (ground arith)
        | inl sound ↦
            let aead = pr.encrypt (pr.derive shared) nonce plaintext (header_layout f) in
            elim (Bool-cases (ltb (length aead) (256 ^ 4))) [
              | inr long ↦ absurd (ground arith)
              | inl short ↦
                  let same : header_layout f ++ sealed_tail (pr.public_key eph) nonce aead ≡ e =
                    ground arith in
                  let opens =
                    opens_whole pr law eph nonce priv plaintext shared f key_lookup size held agreed
                      sound short in
                  let parts =
                    sealed_layout f (pr.public_key eph) nonce aead sound (law.key_32 eph) size
                      short in
                  (
                    record { fields = f; ciphertext_sha256 = pr.hexdigest aead },
                    refl,
                    ap (open_sealed pr key_lookup) (sym same ∙ parts) ∙ opens,
                  )
            ]
      ]
    ]
