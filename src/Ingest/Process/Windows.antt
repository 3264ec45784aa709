-- ===== src/Ingest/Process/Windows.antt =====
-- What the projection of an inbound message does to the windows that the sender reads.
use whatsvault.Base.{
  ℕ, max, ◌+◌, String, ◌≡◌, refl, ◌∙◌, ap, true, false, ◌&&◌, ◌||◌, Option, none, some, List, [],
  ◌∷◌, ◌++◌, inl, inr, arith,
}
use whatsvault.Base.Eq.{if◌then◌else◌, ◌==◌, ==-sound, ltb, string_eq, Bool-cases, Option-cases}
use whatsvault.Base.Int.{ℤ, at_least_0}
use whatsvault.Base.Table.{find, any, update}
use whatsvault.Base.Conn.{Conn}
use whatsvault.Approval.Schema.{Window, ApprovalDb}
use whatsvault.Approval.Sender.{last_inbound, window_open, window_ms}
use whatsvault.Ingest.Process.{advance_window, upsert_window, new_window, window_of}

abbrev latest : Option Window → ℕ
latest none = 0
latest (some w) = w.last_inbound_ms

abbrev set_last : ℕ → Window → Window
set_last t w = record w { last_inbound_ms = t }

abbrev latest_of : String → List Window → ℕ
latest_of j l = latest (find (window_of j) l)

same_key : (x i j : String) → (x == i) ≡ true → (x == j) ≡ (i == j)
same_key x i j h = ap (λ (y : String). y == j) (==-sound x i h)

other_key : (x i j : String) → (x == i) ≡ false → (x == j) ≡ true → (i == j) ≡ false
other_key x i j n h = elim (Bool-cases (i == j)) [
  | inl same ↦ ground (arith, ap (λ (y : String). x == y) (==-sound i j same), n, h)
  | inr other ↦ other
]

module _ (i j : String) (t : ℕ) where
  latest_of-update :
      (l : List Window)
      → latest_of j (update (window_of i) (set_last t) l)
        ≡ (if i == j && any (window_of i) l then t else latest_of j l)
  latest_of-update [] = ground arith
  latest_of-update (w ∷ l) = elim (Bool-cases (window_of i w)) [
    | inl here ↦ ground (arith, here, same_key w.conversation_id i j here, latest_of-update l)
    | inr other ↦ elim (Bool-cases (window_of j w)) [
      | inl found ↦
          ground
            (arith, other, found, other_key w.conversation_id i j other found, latest_of-update l)
      | inr missing ↦ ground (arith, other, missing, latest_of-update l)
    ]
  ]

  latest_of-append :
      (l : List Window)
      → any (window_of i) l ≡ false
      → latest_of j (l ++ record { conversation_id = i; last_inbound_ms = t } ∷ [])
        ≡ (if i == j then t else latest_of j l)
  latest_of-append [] h = ground arith
  latest_of-append (w ∷ l) h = elim (Bool-cases (window_of i w)) [
    | inl here ↦ ground (arith, here)
    | inr other ↦ elim (Bool-cases (window_of j w)) [
      | inl found ↦ ground (arith, other, found, other_key w.conversation_id i j other found)
      | inr missing ↦ ground (arith, other, missing, latest_of-append l (ground (arith, h, other)))
    ]
  ]

  latest_of-upsert :
      (l : List Window) → latest_of j (upsert_window i t l) ≡ (if i == j then t else latest_of j l)
  latest_of-upsert l = elim (Bool-cases (any (window_of i) l)) [
    | inl there ↦ rw there (latest_of-update l ∙ ground (arith, there))
    | inr new ↦ rw new (latest_of-append l new)
  ]

last_inbound_lem : (db : ApprovalDb) (j : String) → last_inbound db j ≡ latest_of j db.windows
unfolding last_inbound
last_inbound_lem db j = elim (Option-cases (find (window_of j) db.windows)) [
  | inl missing ↦ ground (arith, missing)
  | inr (w, there) ↦ ground (arith, there)
]

new_window_lem : (x : Option Window) (t : ℤ) → new_window x t ≡ max (latest x) (at_least_0 t)
new_window_lem none t = omega arith
new_window_lem (some w) t = refl

-- The stored time of each conversation after an inbound message.
pub advance_window-last_inbound :
    (i : String) (t : ℤ) (c : Conn ApprovalDb) (j : String)
    → last_inbound (advance_window i t c).work j
      ≡ (if i == j then max (last_inbound c.work i) (at_least_0 t) else last_inbound c.work j)
unfolding advance_window
advance_window-last_inbound i t c j =
    let t' = new_window (find (window_of i) c.work.windows) t in
    let after =
      last_inbound_lem (advance_window i t c).work j ∙ latest_of-upsert i j t' c.work.windows in
    let later = new_window_lem (find (window_of i) c.work.windows) t in
    let own = last_inbound_lem c.work i in
    let before = last_inbound_lem c.work j in ground (arith, after, later, own, before)

-- After an inbound message of the time `t` in the conversation `i`, the window of a conversation is
-- open at a time exactly where it was open before, or the conversation is `i` and the message opens it
-- by itself, where a time before 1970 counts as 0: what is received late never closes a window. This is
-- committed.
pub advance_window-opens :
    (i : String) (t : ℤ) (c : Conn ApprovalDb) (j : String) (now : ℕ)
    → window_open (advance_window i t c).saved j now ≡ (
        window_open c.work j now
        || i == j && ltb 0 (at_least_0 t) && ltb now (at_least_0 t + window_ms))
unfolding advance_window window_open
advance_window-opens i t c j now =
    let db = (advance_window i t c).saved in
    let t' = new_window (find (window_of i) c.work.windows) t in
    let before = last_inbound_lem c.work j in
    let after = last_inbound_lem db j ∙ latest_of-upsert i j t' c.work.windows in
    let later = new_window_lem (find (window_of i) c.work.windows) t in
    elim (Bool-cases (i == j)) [
      | inl same ↦
          let one = ap (λ (x : String). latest_of x c.work.windows) (==-sound i j same) in
          ground (arith, before, after, later, same, one)
      | inr other ↦ ground (arith, before, after, other)
    ]
