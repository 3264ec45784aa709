-- ===== src/Approval/Canonical/Injective.antt =====
-- The framing of the canonical bytes, and the slots that it is made of.
use mathlib.Core.List.{map, append_assoc}
use whatsvault.Base.{◌^◌, ◌<◌, ◌≡◌, refl, sym, ◌∙◌, ap, some, List, [], ◌∷◌, ◌++◌, inl, inr, arith}
use whatsvault.Base.Eq.{Option-cases}
use whatsvault.Base.Table.{length, All}
use whatsvault.Base.Bytes.{Bytes, be_bytes, length-be_bytes, be_bytes-injective, append-injective}
use whatsvault.Crypto.{Crypto}
use whatsvault.Approval.Canonical.{
  Slot, field_bytes, frame, encode_slots, DecisionFields, slots, encode, domain, version,
}

-- The parts of a framed list: the first content, its frame and the rest.
encode_slots-cons :
    (k : Crypto) (s : Slot) (ss : List Slot) (w : Bytes)
    → encode_slots k (s ∷ ss) ≡ some w
    → (b rest : Bytes) × (field_bytes k s ≡ some b)
      × (encode_slots k ss ≡ some rest)
      × (length b < 2 ^ 32)
      × (w ≡ be_bytes 4 (length b) ++ (b ++ rest))
unfolding encode_slots frame
encode_slots-cons k s ss w h = elim (Option-cases (field_bytes k s)) [
  | inl no_bytes ↦ ground arith
  | inr (b, eb) ↦ elim (Option-cases (encode_slots k ss)) [
    | inl no_rest ↦ ground arith
    | inr (rest, er) ↦
        (b, rest, eb, er, ground arith, ground (arith, append_assoc (be_bytes 4 (length b)) b rest))
  ]
]

framed-injective :
    (b c r q : Bytes)
    → length b < 2 ^ 32
    → length c < 2 ^ 32
    → be_bytes 4 (length b) ++ (b ++ r) ≡ be_bytes 4 (length c) ++ (c ++ q)
    → (b ≡ c) × (r ≡ q)
framed-injective b c r q hb hc e =
    let heads =
      append-injective (be_bytes 4 (length b)) (be_bytes 4 (length c)) (b ++ r) (c ++ q)
        (length-be_bytes 4 (length b) ∙ sym (length-be_bytes 4 (length c))) e in
    append-injective b c r q (be_bytes-injective 4 (length b) (length c) hb hc heads.0) heads.1

-- Slot lists of one length with the same bytes hold the same contents.
pub encode_slots-injective :
    (k : Crypto) (ss ts : List Slot) (w : Bytes)
    → length ss ≡ length ts
    → encode_slots k ss ≡ some w
    → encode_slots k ts ≡ some w
    → map (field_bytes k) ss ≡ map (field_bytes k) ts
encode_slots-injective k [] [] w h e f = refl
encode_slots-injective k [] (t ∷ ts) w h e f = absurd (omega arith)
encode_slots-injective k (s ∷ ss) [] w h e f = absurd (omega arith)
encode_slots-injective k (s ∷ ss) (t ∷ ts) w h e f =
    let (b, r, fb, er, sb, eb) = encode_slots-cons k s ss w e in
    let (c, q, fc, eq, sc, ec) = encode_slots-cons k t ts w f in
    let both = framed-injective b c r q sb sc (sym eb ∙ ec) in
    cc (
      both.0,
      fb,
      fc,
      encode_slots-injective k ss ts r (omega arith) er (eq ∙ ap some (sym both.1)),
    )

-- Every field of a list that encodes has bytes.
pub encode_slots-fits :
    (k : Crypto) (ss : List Slot) (w : Bytes)
    → encode_slots k ss ≡ some w
    → All (λ s. (b : Bytes) × (field_bytes k s ≡ some b)) ss
encode_slots-fits k [] w e = tt
encode_slots-fits k (s ∷ ss) w e =
    let (b, rest, eb, er, _, _) = encode_slots-cons k s ss w e in
    ((b, eb), encode_slots-fits k ss rest er)

pub encode_body :
    (k : Crypto) (f : DecisionFields) (w : Bytes)
    → encode k f ≡ some w
    → (body : Bytes) × (encode_slots k (slots f) ≡ some body)
      × (w ≡ (domain ++ be_bytes 2 version) ++ body)
unfolding encode
encode_body k f w h = elim (Option-cases (encode_slots k (slots f))) [
  | inl e ↦ ground arith
  | inr (body, e) ↦ (body, e, ground arith)
]
