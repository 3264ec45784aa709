-- ===== src/Mcp/Reads/Fence.antt =====
-- The reads of reads.py, and the conversations that are marked as local only.
use whatsvault.Base.{
  ℕ, String, ◌≡◌, refl, sym, ap, Bool, true, false, not, Option, none, some, List, [], ◌∷◌, inl,
  inr, arith,
}
use whatsvault.Base.Int.{ℤ}
use whatsvault.Base.Eq.{if◌then◌else◌, ◌==◌, ==-sound, string_eq, Bool-cases, Option-cases}
use whatsvault.Base.Table.{any, find, select, update}
use whatsvault.Base.Conn.{Conn}
use whatsvault.Mcp.Present.{Python, Row}
use whatsvault.Mcp.Acl.{
  Conversation, Vault, local_only, is_local_only, is_fenced, in_local_only, set_visibility,
}
use whatsvault.Mcp.Reads.{
  Sqlite, Limit, limited, clamp, chat, by_id, closed, in_interval, get_messages, is_listed,
  list_chats, get_message_status, get_conversation_window,
}

module _ {ℓ} {A : Type ℓ} (key : A → String) where
  abbrev has_key : String → A → Bool
  has_key i x = key x == i

  -- No two rows have one key.
  abbrev pub IsKeyed : List A → Type 0
  IsKeyed [] = Unit
  IsKeyed (x ∷ l) = (any (has_key (key x)) l ≡ false) × IsKeyed l

  abbrev kept : (A → Bool) → Option A → Option A
  kept q none = none
  kept q (some x) = if q x then some x else none

  find-select_absent :
      (q : A → Bool) (i : String) (l : List A)
      → any (has_key i) l ≡ false
      → find (has_key i) (select q l) ≡ none
  find-select_absent q i [] h = refl
  find-select_absent q i (x ∷ l) h = ground (arith, find-select_absent q i l)

  -- Where the key holds, a row is found among those selected if it is found and selected.
  find-select :
      (q : A → Bool) (i : String) (l : List A)
      → IsKeyed l
      → find (has_key i) (select q l) ≡ kept q (find (has_key i) l)
  find-select q i [] h = refl
  find-select q i (x ∷ l) h = elim (Bool-cases (has_key i x)) [
    | inr other ↦ ground (arith, find-select q i l h.1)
    | inl own ↦ elim (Bool-cases (q x)) [
      | inl stays ↦ ground arith
      | inr goes ↦ ground (arith, ==-sound (key x) i own, find-select_absent q i l)
    ]
  ]

  select-select :
      (p q : A → Bool) (l : List A)
      → ((x : A) → p x ≡ true → q x ≡ true)
      → select p (select q l) ≡ select p l
  select-select p q [] h = refl
  select-select p q (x ∷ l) h = ground (arith, h x, select-select p q l h)

abbrev conversation_key : Conversation → String
conversation_key x = x.id

abbrev message_key : Row → String
message_key m = m.id

-- The primary keys of conversations and messages.
pub record IsKeyedVault (v : Vault) : Type 0 where
  pub conversations : IsKeyed conversation_key v.conversations
  pub messages : IsKeyed message_key v.messages

abbrev is_public : Conversation → Bool
is_public x = not (is_local_only x.mcp_visibility)

abbrev is_open_message : Vault → Row → Bool
is_open_message v m = not (in_local_only v m.conversation_id)

-- The vault with every local-only conversation and all its messages taken out.
abbrev pub without_local : Vault → Vault
without_local v = record v {
  conversations = select is_public v.conversations;
  messages = select (is_open_message v) v.messages;
}

none_fenced : (i : String) (l : List Conversation) → any (is_fenced i) (select is_public l) ≡ false
none_fenced i [] = refl
none_fenced i (x ∷ l) = ground (arith, none_fenced i l)

absent_not_fenced :
    (i : String) (l : List Conversation) → any (by_id i) l ≡ false → any (is_fenced i) l ≡ false
absent_not_fenced i [] h = refl
absent_not_fenced i (x ∷ l) h = ground (arith, absent_not_fenced i l)

open_not_fenced :
    (i : String) (l : List Conversation)
    → IsKeyed conversation_key l
    → closed (find (by_id i) l) ≡ false
    → any (is_fenced i) l ≡ false
open_not_fenced i [] k h = refl
open_not_fenced i (x ∷ l) k h = elim (Bool-cases (by_id i x)) [
  | inr other ↦ ground (arith, open_not_fenced i l k.1)
  | inl own ↦ ground (arith, ==-sound x.id i own, absent_not_fenced i l)
]

closed_without : (o : Option Conversation) → closed (kept conversation_key is_public o) ≡ closed o
closed_without none = refl
closed_without (some x) = ground arith

-- The messages of a conversation are the same, for every caller and every limit, when the local-only
-- conversations and their messages are not in the vault at all, where the primary keys hold.
pub get_messages-without_local :
    (py : Python) (sql : Sqlite) (v : Vault) (i : String) (from_ms to_ms : Option ℤ) (limit : Limit)
    → IsKeyedVault v
    → get_messages py sql v i from_ms to_ms limit
      ≡ get_messages py sql (without_local v) i from_ms to_ms limit
unfolding get_messages in_local_only
get_messages-without_local py sql v i from_ms to_ms limit k =
    let same_row = find-select conversation_key is_public i v.conversations k.conversations in
    let same_test = closed_without (find (by_id i) v.conversations) in
    elim (Bool-cases (closed (find (by_id i) v.conversations))) [
      | inl shut ↦ ground (arith, same_row, same_test)
      | inr seen ↦
          let kept_rows =
            select-select message_key (in_interval i from_ms to_ms) (is_open_message v) v.messages
              (λ m h. ground (
                arith,
                open_not_fenced i v.conversations k.conversations seen,
                ==-sound m.conversation_id i,
              )) in
          ground (arith, same_row, same_test, kept_rows)
    ]

-- The list of chats is the same when the local-only conversations and their messages are not in the
-- vault at all.
pub list_chats-without_local :
    (sql : Sqlite) (v : Vault) (query : Option String) (limit : Limit)
    → list_chats sql v query limit ≡ list_chats sql (without_local v) query limit
unfolding list_chats
list_chats-without_local sql v query limit =
    ap (λ l. limited (clamp limit) chat (sql.by_activity l))
      (sym (
        select-select conversation_key (is_listed sql query) is_public v.conversations
          (λ x h. ground arith)))

-- The status of a message is the same, a message of a local-only conversation counting as unknown,
-- when the local-only conversations and their messages are not in the vault at all, where the primary
-- keys hold.
pub get_message_status-without_local :
    (v : Vault) (i : String)
    → IsKeyedVault v
    → get_message_status v i ≡ get_message_status (without_local v) i
unfolding get_message_status in_local_only
get_message_status-without_local v i k =
    let same_row = find-select message_key (is_open_message v) i v.messages k.messages in
    elim (Option-cases (find (has_key message_key i) v.messages)) [
      | inl unknown ↦ ground (arith, same_row)
      | inr (m, found) ↦ ground (arith, same_row, none_fenced m.conversation_id v.conversations)
    ]

-- The window of a local-only conversation looks as if it had never received a message.
pub get_conversation_window-idle :
    (v : Vault) (last : Option ℕ) (i : String) (now : ℕ)
    → in_local_only v i ≡ true
    → get_conversation_window v last i now ≡ get_conversation_window (without_local v) none i now
unfolding get_conversation_window in_local_only
get_conversation_window-idle v last i now fenced = ground (arith, none_fenced i v.conversations)

-- Of the rows that were marked, one that is found is local only.
marked_closed :
    (i : String) (l : List Conversation)
    → closed (find (by_id i) (update (by_id i) (λ x. record x { mcp_visibility = local_only }) l))
      ≡ true
marked_closed i [] = refl
marked_closed i (x ∷ l) = ground (arith, marked_closed i l)

-- Once a conversation is marked as local only, which is committed, no read of its messages returns any.
pub set_visibility-get_messages :
    (py : Python) (sql : Sqlite) (i : String) (from_ms to_ms : Option ℤ) (limit : Limit)
    (c c' : Conn Vault)
    → set_visibility i "LOCAL_ONLY" c ≡ some c'
    → get_messages py sql c'.saved i from_ms to_ms limit ≡ some []
unfolding set_visibility get_messages string_eq
set_visibility-get_messages py sql i from_ms to_ms limit c c' h =
    ground (arith, marked_closed i c.work.conversations)
