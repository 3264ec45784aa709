-- ===== src/Approval/Grants/Target.antt =====
-- `mark_read`: its target, and the grant that it consumes.
use whatsvault.Base.{ℕ, String, ◌≡◌, ◌≢◌, ◌⊎◌, inl, inr, ◌&&◌, some, List, arith}
use whatsvault.Base.Eq.{◌==◌, string_eq, option_eq, Bool-cases, Option-cases}
use whatsvault.Base.Table.{find}
use whatsvault.Base.Conn.{Conn}
use whatsvault.Crypto.{Crypto}
use whatsvault.Approval.Schema.{ApprovalDb}
use whatsvault.Approval.Grants.{Message, marked, marked_if, verify_and_consume, mark_read}

module _ (k : Crypto) (messages : List Message) (conversation_id wamid account_id : String)
    (now : ℕ) (c : Conn ApprovalDb) where
  -- The message with this wamid and account is of the conversation, and inbound.
  pub record IsBound : Type 0 where
    pub message : Message
    pub found :
        find (λ (m : Message). m.wamid == some wamid && m.account_id == account_id) messages
        ≡ some message
    pub conversation : message.conversation_id ≡ conversation_id
    pub inbound : message.direction ≡ "in"

  -- Either the target is bound, and then the answer and the state are those of the use of a
  -- MARK_READ grant; or it is not, and then the answer is a refusal that names the reason and no
  -- grant is touched.
  pub mark_read-IsBound :
      (IsBound
        × (mark_read k messages conversation_id wamid account_id now c ≡ (
          marked_if (verify_and_consume k "MARK_READ" conversation_id now c).0,
          (verify_and_consume k "MARK_READ" conversation_id now c).1,
        )))
      ⊎ ((mark_read k messages conversation_id wamid account_id now c).0 ≢ marked)
        × ((mark_read k messages conversation_id wamid account_id now c).1 ≡ c)
  unfolding mark_read
  mark_read-IsBound =
      elim (Option-cases
        (find (λ (m : Message). m.wamid == some wamid && m.account_id == account_id) messages)) [
          | inl none_found ↦ inr (ground arith)
          | inr (m, found) ↦ elim (Bool-cases (m.conversation_id == conversation_id)) [
            | inr elsewhere ↦ inr (ground arith)
            | inl here ↦ elim (Bool-cases (m.direction == "in")) [
              | inr outbound ↦ inr (ground arith)
              | inl inbound ↦ inl (
                record {
                  message = m;
                  found = found;
                  conversation = ground arith;
                  inbound = ground arith;
                },
                ground arith,
              )
            ]
          ]
        ]
