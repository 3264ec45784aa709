-- ===== src/Import/Undo/Spares.antt =====
-- The undo of a batch, and the messages that others have brought.
use whatsvault.Base.{
  ℕ, String, ◌≡◌, refl, sym, ◌∙◌, ap, subst, Bool, true, false, not, ◌&&◌, some, List, [], ◌∷◌, ◌⊎◌,
  inl, inr, arith,
}
use whatsvault.Base.Eq.{if◌then◌else◌, ◌==◌, ==-sound, string_eq, Bool-cases, Option-cases}
use whatsvault.Base.Table.{find, select, any}
use whatsvault.Base.Conn.{Conn}
use whatsvault.Import.Batch.{Observation, ImportedMessage, ImportDb}
use mathlib.Core.List.{Memᴰ}
use mathlib.Core.List.Memᴰ.{head, tail, cases_cons}
use whatsvault.Import.Undo.{
  observed_by, observes, message_ids, is_orphan, undo_message, undo_messages, without_observations,
  undo_batch,
}

-- The primary key: two messages with one identifier are the same.
abbrev pub IsKeyed : List ImportedMessage → Type 0
IsKeyed l = (x y : ImportedMessage) → Memᴰ x l → Memᴰ y l → x.id ≡ y.id → x ≡ y

module _ {A : Type 0} (p : A → Bool) where
  Mem-select : (l : List A) (x : A) → Memᴰ x l → p x ≡ true → Memᴰ x (select p l)
  Mem-select [] x m h = elim m [ ]
  Mem-select (y ∷ l) x m h = elim (Bool-cases (p y)) [
    | inl keep ↦ elim (cases_cons m) [
      | inl e ↦ rw keep (head e)
      | inr later ↦ rw keep (tail (Mem-select l x later h))
    ]
    | inr gone ↦ elim (cases_cons m) [
      | inl e ↦ ground (arith, gone, h, ap p e)
      | inr later ↦ rw gone (Mem-select l x later h)
    ]
  ]

  Mem_of_select : (l : List A) (x : A) → Memᴰ x (select p l) → Memᴰ x l
  Mem_of_select [] x m = m
  Mem_of_select (y ∷ l) x m = elim (Bool-cases (p y)) [
    | inl keep ↦
        elim (cases_cons
          (subst (λ (b : Bool). Memᴰ x (if b then y ∷ select p l else select p l)) keep m)) [
            | inl e ↦ head e
            | inr later ↦ tail (Mem_of_select l x later)
          ]
    | inr gone ↦ tail (
        Mem_of_select l x
          (subst (λ (b : Bool). Memᴰ x (if b then y ∷ select p l else select p l)) gone m))
  ]

  find-Mem :
      (l : List A) (x : A)
      → Memᴰ x l
      → p x ≡ true
      → (y : A) × (find p l ≡ some y) × (p y ≡ true) × Memᴰ y l
  find-Mem [] x m h = elim m [ ]
  find-Mem (y ∷ l) x m h = elim (Bool-cases (p y)) [
    | inl first ↦ rw first (y, refl, first, head refl)
    | inr other ↦ elim (cases_cons m) [
      | inl e ↦ ground (arith, other, h, ap p e)
      | inr later ↦
          let (z, found, good, there) = find-Mem l x later h in
          rw other (z, found, good, tail there)
    ]
  ]

-- Another row observes the message, or it has come from the provider as well.
abbrev IsSpared : ImportedMessage → ImportDb → Type 0
IsSpared x db = (any (observes x.id) db.observations ≡ true) ⊎ ((w : String) × (x.wamid ≡ some w))

IsSpared-is_orphan :
    (x : ImportedMessage) (i : String) (db : ImportDb)
    → IsKeyed db.messages
    → Memᴰ x db.messages
    → IsSpared x db
    → is_orphan i db ≡ true
    → (x.id == i) ≡ false
IsSpared-is_orphan x i db keyed there spared orphan = elim (Bool-cases (x.id == i)) [
  | inr other ↦ other
  | inl same ↦
      let e = ==-sound x.id i same in
      elim spared [
        | inl observed ↦
            let still =
              subst (λ (j : String). any (observes j) db.observations ≡ true) e observed in
            ground (arith, orphan, still)
        | inr (w, wamid) ↦
            let (y, found, has_id, y_there) =
              find-Mem (λ (z : ImportedMessage). z.id == i) db.messages x there same in
            let one = keyed x y there y_there (e ∙ sym (==-sound y.id i has_id)) in
            let y_wamid = subst (λ (z : ImportedMessage). z.wamid ≡ some w) one wamid in
            ground (arith, orphan, found, y_wamid)
      ]
]

module _ (referenced : String → Bool) (x : ImportedMessage) where
  -- What the loop keeps of a message that is spared.
  record IsKept (db : ImportDb) : Type 0 where
    keyed : IsKeyed db.messages
    there : Memᴰ x db.messages
    spared : IsSpared x db

  undo_message-IsKept :
      (i : String) (db db' : ImportDb)
      → IsKept db
      → undo_message referenced i db ≡ some db'
      → IsKept db'
  undo_message-IsKept i db db' k h = elim (Bool-cases (is_orphan i db)) [
    | inr other ↦ subst IsKept (ground (arith, other, h)) k
    | inl orphan ↦ elim (Bool-cases (referenced i)) [
      | inl stops ↦ ground (arith, orphan, stops, h)
      | inr goes ↦
          let other = IsSpared-is_orphan x i db k.keyed k.there k.spared orphan in
          let keeps = λ (y : ImportedMessage). not (y.id == i) in
          let made : record db { messages = select keeps db.messages } ≡ db' =
            ground (arith, orphan, goes, h) in
          subst IsKept made (record {
            keyed = λ y z m m' e.
                k.keyed y z (Mem_of_select keeps db.messages y m)
                  (Mem_of_select keeps db.messages z m') e;
            there = Mem-select keeps db.messages x k.there (ground (arith, other));
            spared = k.spared;
          })
    ]
  ]

  undo_messages-IsKept :
      (l : List String) (db db' : ImportDb)
      → IsKept db
      → undo_messages referenced l db ≡ some db'
      → IsKept db'
  unfolding undo_messages
  undo_messages-IsKept [] db db' k h = subst IsKept (ground (arith, h)) k
  undo_messages-IsKept (i ∷ l) db db' k h = elim (Option-cases (undo_message referenced i db)) [
    | inl stopped ↦ ground (arith, stopped, h)
    | inr (mid, done) ↦
        undo_messages-IsKept l mid db' (undo_message-IsKept i db mid k done)
          (ground (arith, done, h))
  ]

-- Another batch has an observation of the message.
abbrev pub observed_elsewhere : String → String → ImportDb → Bool
observed_elsewhere batch i db =
    any (λ (o : Observation). not (observed_by batch o) && observes i o) db.observations

any-select :
    {A : Type 0} (p q : A → Bool) (l : List A)
    → any (λ x. p x && q x) l ≡ true
    → any q (select p l) ≡ true
any-select p q [] h = cc
any-select p q (x ∷ l) h = ground (arith, any-select p q l)

-- Undoing a batch keeps every message that another batch observes, or that has come from the provider,
-- whether it succeeds or not, where the primary key holds and nothing is pending.
pub undo_batch-spares :
    (referenced : String → Bool) (batch : String) (now : ℕ) (c : Conn ImportDb)
    (x : ImportedMessage)
    → c.work ≡ c.saved
    → IsKeyed c.saved.messages
    → Memᴰ x c.saved.messages
    → (observed_elsewhere batch x.id c.saved ≡ true) ⊎ ((w : String) × (x.wamid ≡ some w))
    → Memᴰ x (undo_batch referenced batch now c).saved.messages
unfolding undo_batch
undo_batch-spares referenced batch now c x quiet keyed there why =
    let others = λ (o : Observation). not (observed_by batch o) in
    let start = without_observations batch c.work in
    let l = message_ids (select (observed_by batch) c.work.observations) in
    let kept : IsKept referenced x start = record {
      keyed = subst (λ (db : ImportDb). IsKeyed db.messages) (sym quiet) keyed;
      there = subst (λ (db : ImportDb). Memᴰ x db.messages) (sym quiet) there;
      spared = elim why [
        | inl seen ↦ inl (
            any-select others (observes x.id) c.work.observations
              (subst (λ (db : ImportDb). observed_elsewhere batch x.id db ≡ true) (sym quiet) seen))
        | inr wamid ↦ inr wamid
      ];
    } in
    elim (Option-cases (undo_messages referenced l start)) [
      | inl stopped ↦ rw (undo_batch, stopped) there
      | inr (db, done) ↦
          rw (undo_batch, done) (undo_messages-IsKept referenced x l start db kept done).there
    ]
