-- ===== src/Approval/Relay/Idempotent.antt =====
-- A signed decision that is delivered more than once.
use whatsvault.Base.{String, ◌≡◌, inl, inr, sym, ◌∙◌, ap, subst, true, none, some, [], ◌∷◌, arith}
use whatsvault.Base.Eq.{◌==◌, string_eq, bytes_eq, option_eq, nat_eq, Option-cases}
use whatsvault.Base.Table.{find, length, find-append_none}
use whatsvault.Base.Conn.{Conn}
use whatsvault.Base.Bytes.{Bytes}
use whatsvault.Approval.Schema.{Approval, ApprovalDb}
use whatsvault.Approval.Relay.{
  Envelope, Reply, accepted, is_filed, approval_row, insert_approval, file_envelope,
  device_is_active, draft_exists, is_decision, accept_envelope,
}

-- An envelope that names a device, a draft, a decision and a nonce.
abbrev pub named : String → String → String → Bytes → Bytes → Envelope
named device_id draft_id decision nonce signature = record {
  device_id = some device_id;
  draft_id = some draft_id;
  decision = some decision;
  signature = signature;
  nonce = some nonce;
}

module _ (device_id draft_id decision : String) (nonce signature : Bytes) where
  abbrev env : Envelope
  env = named device_id draft_id decision nonce signature

  -- The checks that stand before the slot.
  abbrev Passes : ApprovalDb → Type 0
  Passes db =
      (device_is_active db device_id ≡ true)
      × ((length signature == 64) ≡ true)
      × (is_decision decision ≡ true)
      × (draft_exists db draft_id ≡ true)

  abbrev IsFiled : String → ApprovalDb → Type 0
  IsFiled j db =
      (a : Approval) × (find (is_filed draft_id device_id decision (some nonce)) db.approvals
        ≡ some a)
      × (a.approval_id ≡ j)

  row_is_filed :
      (i : String)
      → is_filed draft_id device_id decision
          (some nonce)
          (approval_row i draft_id device_id decision env)
        ≡ true
  row_is_filed i = ground arith

  inserted_is_filed :
      (i j : String) (c : Conn ApprovalDb)
      → find (is_filed draft_id device_id decision (some nonce)) c.work.approvals ≡ none
      → (insert_approval i draft_id device_id decision env c).0 ≡ accepted j
      → IsFiled j (insert_approval i draft_id device_id decision env c).1.work
  inserted_is_filed i j c absent h = (
    approval_row i draft_id device_id decision env,
    ground (
      arith,
      row_is_filed i,
      find-append_none (is_filed draft_id device_id decision (some nonce)) c.work.approvals
          (approval_row i draft_id device_id decision env ∷ []),
    ),
    ground arith,
  )

  -- What is filed is a slot, and the checks still hold after it.
  filed :
      (i j : String) (c : Conn ApprovalDb)
      → Passes c.work
      → (file_envelope i draft_id device_id decision env c).0 ≡ accepted j
      → IsFiled j (file_envelope i draft_id device_id decision env c).1.work
        × Passes (file_envelope i draft_id device_id decision env c).1.work
  unfolding file_envelope
  filed i j c p h =
      elim (Option-cases
        (find (is_filed draft_id device_id decision (some nonce)) c.work.approvals)) [
          | inr (a, found) ↦ ((a, ground arith, ground arith), ground arith)
          | inl absent ↦
              let same : file_envelope i draft_id device_id decision env c
                  ≡ insert_approval i draft_id device_id decision env c =
                ground arith in
              (
                subst (λ (x : Reply × Conn ApprovalDb). IsFiled j x.1.work) (sym same)
                    (inserted_is_filed i j c absent
                      (ap (λ (x : Reply × Conn ApprovalDb). x.0) (sym same) ∙ h)),
                ground arith,
              )
        ]

  accepted-Passes :
      (i j : String) (c : Conn ApprovalDb)
      → (accept_envelope i env c).0 ≡ accepted j
      → Passes c.work
        × (accept_envelope i env c ≡ file_envelope i draft_id device_id decision env c)
  unfolding accept_envelope
  accepted-Passes i j c h = ground arith

  again :
      (i j : String) (c : Conn ApprovalDb)
      → Passes c.work
      → IsFiled j c.work
      → accept_envelope i env c ≡ (accepted j, c)
  unfolding accept_envelope file_envelope
  again i j c p (a, found, own) = ground arith

  -- An envelope with a nonce that was accepted is accepted again under the same identifier, and
  -- nothing is written the second time.
  pub accept_envelope-again :
      (i i' j : String) (c : Conn ApprovalDb)
      → (accept_envelope i (named device_id draft_id decision nonce signature) c).0 ≡ accepted j
      → accept_envelope i'
          (named device_id draft_id decision nonce signature)
          (accept_envelope i (named device_id draft_id decision nonce signature) c).1
        ≡ (accepted j, (accept_envelope i (named device_id draft_id decision nonce signature) c).1)
  accept_envelope-again i i' j c h =
      let (p, same) = accepted-Passes i j c h in
      let (slot, q) = filed i j c p (ap (λ (x : Reply × Conn ApprovalDb). x.0) (sym same) ∙ h) in
      rw same (again i' j (file_envelope i draft_id device_id decision env c).1 q slot)
