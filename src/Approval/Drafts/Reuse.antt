-- ===== src/Approval/Drafts/Reuse.antt =====
-- A text that is prepared a second time.
use mathlib.Core.Path.{subst₂}
use whatsvault.Base.{
  String, ◌≡◌, ◌⊎◌, inl, inr, refl, sym, ◌∙◌, ap, subst, Bool, true, none, some, [], ◌∷◌, ◌++◌,
  arith,
}
use whatsvault.Base.Eq.{==-refl, string_eq, bytes_eq, option_eq, Bool-cases, Option-cases}
use whatsvault.Base.Table.{find, find-append_none}
use whatsvault.Base.Conn.{Conn, write, commit}
use whatsvault.Base.Bytes.{Bytes}
use whatsvault.Crypto.{Crypto}
use whatsvault.Approval.Schema.{Draft, is_pending, ApprovalDb}
use whatsvault.Approval.Policy.{evaluate, evaluate-refusal}
use whatsvault.Approval.Drafts.{
  Request, Prepared, prepared, prepare_context, body_digest, is_same_pending, draft_row,
  draft_admissible, insert_draft, prepare,
}

-- A draft with this body is pending in the conversation, first among such.
abbrev pub PendingText : Crypto → String → String → String → ApprovalDb → Type 0
PendingText k conversation_id text i db =
    (d : Draft) × (find (is_same_pending conversation_id (k.sha256 (k.utf8 text))) db.drafts
      ≡ some d)
    × (d.id ≡ i)

abbrev pub IsPending : Crypto → Request → String → ApprovalDb → Type 0
IsPending k r = PendingText k r.conversation_id r.text

module _ (k : Crypto) (r : Request) (i : String) (nonce : Bytes) (c : Conn ApprovalDb) where
  row_is_pending :
      is_same_pending r.conversation_id (body_digest k r) (draft_row k r i nonce) ≡ true
  row_is_pending = ground (arith, ==-refl r.conversation_id, ==-refl (some (body_digest k r)))

  inserted-IsPending :
      (j : String) (b : Bool)
      → find (is_same_pending r.conversation_id (body_digest k r)) c.work.drafts ≡ none
      → (insert_draft k r i nonce c).0 ≡ prepared j b
      → IsPending k r j (insert_draft k r i nonce c).1.work
  unfolding insert_draft
  inserted-IsPending j b absent h = (
    draft_row k r i nonce,
    ground (
      arith,
      row_is_pending,
      find-append_none (is_same_pending r.conversation_id (body_digest k r)) c.work.drafts
          (draft_row k r i nonce ∷ []),
    ),
    ground arith,
  )

  prepared-IsPending :
      (j : String) (b : Bool)
      → (prepare k r i nonce c).0 ≡ prepared j b
      → IsPending k r j (prepare k r i nonce c).1.work
  unfolding prepare
  prepared-IsPending j b h = elim (Bool-cases (evaluate (prepare_context r)).ok) [
    | inr stop ↦ let (x, xs, e) = evaluate-refusal (prepare_context r) stop in ground arith
    | inl pass ↦
        elim (Option-cases
          (find (is_same_pending r.conversation_id (body_digest k r)) c.work.drafts)) [
            | inr (d, found) ↦ (d, ground arith, ground arith)
            | inl absent ↦
                let same : prepare k r i nonce c ≡ insert_draft k r i nonce c = ground arith in
                subst (λ (x : Prepared × Conn ApprovalDb). IsPending k r j x.1.work) (sym same)
                  (inserted-IsPending j b absent
                    (ap (λ (x : Prepared × Conn ApprovalDb). x.0) (sym same) ∙ h))
          ]
  ]

again :
    (k : Crypto) (r : Request) (i j : String) (nonce : Bytes) (c : Conn ApprovalDb)
    → (evaluate (prepare_context r)).ok ≡ true
    → IsPending k r j c.work
    → prepare k r i nonce c ≡ (prepared j true, c)
unfolding prepare
again k r i j nonce c pass (d, found, named) = ground arith

-- Once a draft was prepared, a request with the same conversation and the same text that passes the
-- policy gets the identifier of that draft, marked as reused, and changes nothing, whatever its
-- other arguments.
pub prepare-again :
    (k : Crypto) (r r' : Request) (i i' j : String) (nonce nonce' : Bytes) (b : Bool)
    (c : Conn ApprovalDb)
    → (prepare k r i nonce c).0 ≡ prepared j b
    → r'.conversation_id ≡ r.conversation_id
    → r'.text ≡ r.text
    → (evaluate (prepare_context r')).ok ≡ true
    → prepare k r' i' nonce' (prepare k r i nonce c).1
      ≡ (prepared j true, (prepare k r i nonce c).1)
prepare-again k r r' i i' j nonce nonce' b c h conversation text pass =
    let pending = prepared-IsPending k r i nonce c j b h in
    again k r' i' j nonce' (prepare k r i nonce c).1 pass (
      subst₂ (λ cid text. PendingText k cid text j (prepare k r i nonce c).1.work)
        (sym conversation) (sym text) pending)

-- What a call of `prepare` may do to the database: nothing, or one pending draft more, committed.
abbrev pub OnlyPrepares : Conn ApprovalDb → Conn ApprovalDb → Type 0
OnlyPrepares c c' =
    (c' ≡ c)
    ⊎ ((d : Draft) × (is_pending d.state ≡ true)
        × (c' ≡ commit (write (record c.work { drafts = c.work.drafts ++ d ∷ [] }) c)))

insert_draft-OnlyPrepares :
    (k : Crypto) (r : Request) (i : String) (nonce : Bytes) (c : Conn ApprovalDb)
    → OnlyPrepares c (insert_draft k r i nonce c).1
unfolding insert_draft
insert_draft-OnlyPrepares k r i nonce c =
    elim (Bool-cases (draft_admissible c.work (draft_row k r i nonce))) [
      | inl fits ↦ inr (draft_row k r i nonce, refl, ground arith)
      | inr breaks ↦ inl (ground arith)
    ]

-- `prepare` writes no approval, nonce, attempt or grant, whatever it answers: it leaves the database
-- as it was, or adds one draft, which is pending approval, and commits.
pub prepare-OnlyPrepares :
    (k : Crypto) (r : Request) (i : String) (nonce : Bytes) (c : Conn ApprovalDb)
    → OnlyPrepares c (prepare k r i nonce c).1
unfolding prepare
prepare-OnlyPrepares k r i nonce c = elim (Bool-cases (evaluate (prepare_context r)).ok) [
  | inr stop ↦ inl (ground arith)
  | inl pass ↦
      elim (Option-cases
        (find (is_same_pending r.conversation_id (body_digest k r)) c.work.drafts)) [
          | inr (d, found) ↦ inl (ground arith)
          | inl absent ↦
              let same : prepare k r i nonce c ≡ insert_draft k r i nonce c = ground arith in
              subst (λ (x : Prepared × Conn ApprovalDb). OnlyPrepares c x.1) (sym same)
                (insert_draft-OnlyPrepares k r i nonce c)
        ]
]
