-- ===== src/Ingest/Evidence/Rows.antt =====
-- What the rows of an atom do to the messages, and what that does to the evidence for windows.
use whatsvault.Base.{
  ℕ, max, subst, String, Bool, ◌≡◌, refl, sym, ◌∙◌, ap, Option, none, some, List, [], ◌∷◌, ◌++◌,
  inl, inr, arith,
}
use whatsvault.Base.Eq.{if◌then◌else◌, string_eq, nat_eq, Option-cases}
use whatsvault.Base.Int.{ℤ, pos, negsuc, at_least_0, max_ℤ}
use whatsvault.Ingest.Payload.{MessageRows, StatusRows}
use whatsvault.Ingest.Db.{StoredMessage, IngestDb}
use whatsvault.Ingest.Process.{
  Fresh, Applied, get_account, get_contact, get_conversation, insert_message, apply_message,
  apply_status,
}
use whatsvault.Ingest.Evidence.{is_evidence, max_evidence, latest_evidence}

-- The latest evidence as a window can show it, where a time before 1970 is 0.
abbrev pub shown : String → List StoredMessage → ℕ
shown i l = at_least_0 (latest_evidence i l)

at_least_0-max_ℤ : (a b : ℤ) → at_least_0 (max_ℤ a b) ≡ max (at_least_0 a) (at_least_0 b)
at_least_0-max_ℤ (pos a) (pos b) = refl
at_least_0-max_ℤ (pos a) (negsuc b) = omega arith
at_least_0-max_ℤ (negsuc a) (pos b) = omega arith
at_least_0-max_ℤ (negsuc a) (negsuc b) = refl

shown-cons :
    (i : String) (x : StoredMessage) (l : List StoredMessage)
    → shown i (x ∷ l)
      ≡ (if is_evidence i x then max (at_least_0 x.ts_lower_ms) (shown i l) else shown i l)
shown-cons i x l = elim (Option-cases (max_evidence i l)) [
  | inl e ↦ rw e (ground arith)
  | inr (t, e) ↦ rw e (ground (arith, at_least_0-max_ℤ x.ts_lower_ms t))
]

pub shown-append :
    (i : String) (l : List StoredMessage) (x : StoredMessage)
    → shown i (l ++ x ∷ [])
      ≡ (if is_evidence i x then max (shown i l) (at_least_0 x.ts_lower_ms) else shown i l)
shown-append i [] x = ground (arith, shown-cons i x [])
shown-append i (y ∷ l) x =
    subst
      (λ (n : ℕ). n ≡ (
        if is_evidence i x
        then max (shown i (y ∷ l)) (at_least_0 x.ts_lower_ms)
        else shown i (y ∷ l)))
      (sym (shown-cons i y (l ++ x ∷ [])))
      (later (is_evidence i y) (is_evidence i x) (shown i l) (shown i (l ++ x ∷ []))
        (shown i (y ∷ l)) (at_least_0 y.ts_lower_ms) (at_least_0 x.ts_lower_ms) (shown-cons i y l)
        (shown-append i l x))
  where
    later :
        (ey ex : Bool) (sl slx syl ty tx : ℕ)
        → syl ≡ (if ey then max ty sl else sl)
        → slx ≡ (if ex then max sl tx else sl)
        → (if ey then max ty slx else slx) ≡ (if ex then max syl tx else syl)
    later ey ex sl slx syl ty tx h g = ground (arith, h, g)

-- What `_apply_rows` does to the messages.
pub record OneMessage (m : MessageRows) (db db' : IngestDb) (applied : Applied) : Type 0 where
  pub row : StoredMessage
  pub messages : db'.messages ≡ db.messages ++ row ∷ []
  pub result : applied ≡ some (row.conversation_id, row.ts_lower_ms)
  pub direction : row.direction ≡ m.direction
  pub eligible : row.window_eligible ≡ m.window_eligible

get_account-messages :
    (i : String) (p : Option String) (db db' : IngestDb) (x : String)
    → get_account i p db ≡ some (x, db')
    → db'.messages ≡ db.messages
unfolding get_account
get_account-messages i none db db' x h = ground arith
get_account-messages i (some p) db db' x h = ground arith

get_contact-messages :
    (i : String) (w name : Option String) (db db' : IngestDb) (x : String)
    → get_contact i w name db ≡ some (x, db')
    → db'.messages ≡ db.messages
unfolding get_contact
get_contact-messages i none name db db' x h = ground arith
get_contact-messages i (some w) name db db' x h = ground arith

get_conversation-messages :
    (i a : String) (w : Option String) (db db' : IngestDb) (x : String)
    → get_conversation i a w db ≡ some (x, db')
    → db'.messages ≡ db.messages
unfolding get_conversation
get_conversation-messages i a none db db' x h = ground arith
get_conversation-messages i a (some w) db db' x h = ground arith

insert_message-OneMessage :
    (i a c v : String) (m : MessageRows) (db db' : IngestDb)
    → insert_message i a c v m db ≡ some db'
    → OneMessage m db db' (some (v, m.ts_lower_ms))
unfolding insert_message
insert_message-OneMessage i a c v m db db' h = elim (Option-cases m.kind) [
  | inl e ↦ ground (arith, e, h)
  | inr (kind, e) ↦ record {
    row = record {
      id = i;
      account_id = a;
      conversation_id = v;
      sender_contact_id = c;
      direction = m.direction;
      ts_lower_ms = m.ts_lower_ms;
      ts_upper_ms_exclusive = m.ts_upper_ms_exclusive;
      kind = kind;
      text_original = m.text_original;
      window_eligible = m.window_eligible;
      wamid = m.wamid;
    };
    messages = ground (arith, e, h);
    result = refl;
    direction = refl;
    eligible = refl;
  }
]

pub apply_message-OneMessage :
    (f : Fresh) (m : MessageRows) (db db' : IngestDb) (x : Applied)
    → apply_message f m db ≡ some (x, db')
    → OneMessage m db db' x
unfolding apply_message
apply_message-OneMessage f m db db' x h =
    elim (Option-cases (get_account f.account m.phone_number_id db)) [
      | inl e ↦ ground (arith, e, h)
      | inr ((i₁, db₁), e₁) ↦ elim (Option-cases (get_contact f.contact m.wa_id m.name db₁)) [
        | inl e ↦ ground (arith, e₁, e, h)
        | inr ((i₂, db₂), e₂) ↦
            elim (Option-cases (get_conversation f.conversation i₁ m.wa_id db₂)) [
              | inl e ↦ ground (arith, e₁, e₂, e, h)
              | inr ((i₃, db₃), e₃) ↦
                  elim (Option-cases (insert_message f.message i₁ i₂ i₃ m db₃)) [
                    | inl e ↦ ground (arith, e₁, e₂, e₃, e, h)
                    | inr (db₄, e₄) ↦
                        let same : (some (i₃, m.ts_lower_ms) ≡ x) × (db₄ ≡ db') =
                          ground (arith, e₁, e₂, e₃, e₄, h) in
                        let one = insert_message-OneMessage f.message i₁ i₂ i₃ m db₃ db₄ e₄ in
                        let before =
                          get_conversation-messages f.conversation i₁ m.wa_id db₂ db₃ i₃ e₃
                          ∙ get_contact-messages f.contact m.wa_id m.name db₁ db₂ i₂ e₂
                          ∙ get_account-messages f.account m.phone_number_id db db₁ i₁ e₁ in
                        record {
                          row = one.row;
                          messages =
                              sym (ap (λ (d : IngestDb). d.messages) same.1)
                              ∙ one.messages
                              ∙ ap (λ (l : List StoredMessage). l ++ one.row ∷ []) before;
                          result = sym same.0 ∙ one.result;
                          direction = one.direction;
                          eligible = one.eligible;
                        }
                  ]
            ]
      ]
    ]

pub apply_status-messages :
    (f : Fresh) (s : StatusRows) (db db' : IngestDb) (x : Applied)
    → apply_status f s db ≡ some (x, db')
    → (x ≡ none) × (db'.messages ≡ db.messages)
unfolding apply_status
apply_status-messages f s db db' x h = (ground arith, ground arith)
