-- ===== src/Ingest/Process/Keeps.antt =====
-- What the writes of one atom leave alone.
use whatsvault.Base.{String, ◌≡◌, ◌∙◌, subst, Option, none, some, inl, inr, arith}
use whatsvault.Base.Eq.{string_eq, Option-cases}
use whatsvault.Ingest.Payload.{Rows, message_rows, status_rows, no_rows, MessageRows, StatusRows}
use whatsvault.Ingest.Db.{IngestDb}
use whatsvault.Ingest.Process.{
  Fresh, Applied, get_account, get_contact, get_conversation, insert_message, apply_message,
  apply_status, apply_rows,
}

-- The ledger, the quarantine and the breaker are as they were.
pub record Keeps (a b : IngestDb) : Type 0 where
  pub events : b.events ≡ a.events
  pub dlq : b.dlq ≡ a.dlq
  pub circuit : b.circuit ≡ a.circuit

Keeps-trans : (a b c : IngestDb) → Keeps a b → Keeps b c → Keeps a c
Keeps-trans a b c h k = record {
  events = k.events ∙ h.events;
  dlq = k.dlq ∙ h.dlq;
  circuit = k.circuit ∙ h.circuit;
}

get_account-Keeps :
    (i : String) (p : Option String) (db db' : IngestDb) (x : String)
    → get_account i p db ≡ some (x, db')
    → Keeps db db'
unfolding get_account
get_account-Keeps i none db db' x h = record {
  events = ground arith;
  dlq = ground arith;
  circuit = ground arith;
}
get_account-Keeps i (some p) db db' x h = record {
  events = ground arith;
  dlq = ground arith;
  circuit = ground arith;
}

get_contact-Keeps :
    (i : String) (w n : Option String) (db db' : IngestDb) (x : String)
    → get_contact i w n db ≡ some (x, db')
    → Keeps db db'
unfolding get_contact
get_contact-Keeps i none n db db' x h = record {
  events = ground arith;
  dlq = ground arith;
  circuit = ground arith;
}
get_contact-Keeps i (some w) n db db' x h = record {
  events = ground arith;
  dlq = ground arith;
  circuit = ground arith;
}

get_conversation-Keeps :
    (i a : String) (w : Option String) (db db' : IngestDb) (x : String)
    → get_conversation i a w db ≡ some (x, db')
    → Keeps db db'
unfolding get_conversation
get_conversation-Keeps i a none db db' x h = record {
  events = ground arith;
  dlq = ground arith;
  circuit = ground arith;
}
get_conversation-Keeps i a (some w) db db' x h = record {
  events = ground arith;
  dlq = ground arith;
  circuit = ground arith;
}

insert_message-Keeps :
    (i a c v : String) (m : MessageRows) (db db' : IngestDb)
    → insert_message i a c v m db ≡ some db'
    → Keeps db db'
unfolding insert_message
insert_message-Keeps i a c v m db db' h = record {
  events = ground arith;
  dlq = ground arith;
  circuit = ground arith;
}

apply_message-Keeps :
    (f : Fresh) (m : MessageRows) (db db' : IngestDb) (x : Applied)
    → apply_message f m db ≡ some (x, db')
    → Keeps db db'
unfolding apply_message
apply_message-Keeps f m db db' x h =
    elim (Option-cases (get_account f.account m.phone_number_id db)) [
      | inl e ↦ absurd (ground arith)
      | inr ((i₁, db₁), e₁) ↦ elim (Option-cases (get_contact f.contact m.wa_id m.name db₁)) [
        | inl e ↦ absurd (ground arith)
        | inr ((i₂, db₂), e₂) ↦
            elim (Option-cases (get_conversation f.conversation i₁ m.wa_id db₂)) [
              | inl e ↦ absurd (ground arith)
              | inr ((i₃, db₃), e₃) ↦
                  elim (Option-cases (insert_message f.message i₁ i₂ i₃ m db₃)) [
                    | inl e ↦ absurd (ground arith)
                    | inr (db₄, e₄) ↦
                        let k₁ = get_account-Keeps f.account m.phone_number_id db db₁ i₁ e₁ in
                        let k₂ = get_contact-Keeps f.contact m.wa_id m.name db₁ db₂ i₂ e₂ in
                        let k₃ = get_conversation-Keeps f.conversation i₁ m.wa_id db₂ db₃ i₃ e₃ in
                        let k₄ = insert_message-Keeps f.message i₁ i₂ i₃ m db₃ db₄ e₄ in
                        let same : db₄ ≡ db' = ground arith in
                        subst (Keeps db) same (
                          Keeps-trans db db₃ db₄
                            (Keeps-trans db db₂ db₃ (Keeps-trans db db₁ db₂ k₁ k₂) k₃) k₄)
                  ]
            ]
      ]
    ]

apply_status-Keeps :
    (f : Fresh) (s : StatusRows) (db db' : IngestDb) (x : Applied)
    → apply_status f s db ≡ some (x, db')
    → Keeps db db'
unfolding apply_status
apply_status-Keeps f s db db' x h = record {
  events = ground arith;
  dlq = ground arith;
  circuit = ground arith;
}

-- The rows of an atom leave the ledger, the quarantine and the breaker alone.
pub apply_rows-Keeps :
    (f : Fresh) (r : Rows) (db db' : IngestDb) (x : Applied)
    → apply_rows f r db ≡ some (x, db')
    → Keeps db db'
unfolding apply_rows
apply_rows-Keeps f (message_rows m) db db' x h = apply_message-Keeps f m db db' x h
apply_rows-Keeps f (status_rows s) db db' x h = apply_status-Keeps f s db db' x h
apply_rows-Keeps f no_rows db db' x h = record {
  events = ground arith;
  dlq = ground arith;
  circuit = ground arith;
}
