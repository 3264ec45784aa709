-- ===== src/Approval/Grants/Bounds.antt =====
-- The use of a grant, against the bounds that are signed with it.
use whatsvault.Base.{
  ℕ, ◌+◌, ◌<◌, ◌≤◌, String, ◌≡◌, ◌≢◌, ◌⊎◌, inl, inr, refl, sym, subst, Bool, true, false, Option,
  none, some, List, [], ◌∷◌, arith,
}
use whatsvault.Base.Eq.{◌==◌, ==-refl, string_eq, option_eq, nat_eq, Option-cases}
use whatsvault.Base.Table.{
  All, any, count, select, update, any-false-All, All-select, All-zip, All-map, count-none,
  update-All, select_sound,
}
use whatsvault.Base.Conn.{Conn}
use whatsvault.Base.Bytes.{Bytes}
use whatsvault.Crypto.{Crypto, verify}
use whatsvault.Approval.Schema.{Grant, ApprovalDb, Exn, Result, ok}
use whatsvault.Approval.Devices.{active_signing_key}
use whatsvault.Approval.Grants.{
  encode_grant, stored_fields, is_offered, has_expired, is_used_up, Check, skip, consume, stop,
  check_grant, is_row, use_once, consume_first, verify_and_consume,
}

-- The primary key of capability_grants.
abbrev same_id : Grant → Grant → Bool
same_id g x = x.capability_id == g.capability_id

abbrev pub IsKeyed : List Grant → Type 0
IsKeyed [] = Unit
IsKeyed (g ∷ l) = (any (same_id g) l ≡ false) × IsKeyed l

-- `g` is the one row that its UPDATE touches.
abbrev IsAlone : List Grant → Grant → Type 0
IsAlone l g = (count (is_row g) l ≡ 1) × All (λ x. is_row g x ≡ true → x ≡ g) l

other_row : (g x : Grant) → same_id g x ≡ false → is_row g x ≡ false
other_row g x h = ground arith

row_of_other : (g x : Grant) → same_id g x ≡ false → is_row x g ≡ false
row_of_other g x h = ground arith

keyed-IsAlone : (l : List Grant) → IsKeyed l → All (IsAlone l) l
keyed-IsAlone [] h = tt
keyed-IsAlone (g ∷ l) h =
    let others = any-false-All (same_id g) l h.0 in
    (
      (
        ground (arith, count-none (is_row g) l (All-map _ _ l (other_row g) others)),
        (λ e. refl, All-map _ _ l (λ x o e. absurd (cc (e, other_row g x o))) others),
      ),
      All-zip _ _ _ l
          (λ x o one.
            (ground (arith, row_of_other g x o), (λ e. absurd (cc (e, row_of_other g x o)), one.1)))
          others (keyed-IsAlone l h.1),
    )

-- Within the bound that the phone signed.
abbrev pub IsWithin : Grant → Type 0
IsWithin g = (m : ℕ) → g.max_actions ≡ some m → g.used_count ≤ m

-- A grant that authorises: offered for the action and the conversation, neither expired nor used
-- up, and signed by the key that its device has now.
pub record Usable (k : Crypto) (db : ApprovalDb) (action conversation_id : String) (now : ℕ)
    (g : Grant) : Type 0 where
  pub offered : is_offered action conversation_id g ≡ true
  pub unexpired : (e : ℕ) → g.expires_at_ms ≡ some e → now < e
  pub unused : (m : ℕ) → g.max_actions ≡ some m → g.used_count < m
  pub key : Bytes
  pub payload : Bytes
  pub key_active : active_signing_key db g.device_id ≡ some key
  pub encoded : encode_grant k (stored_fields action conversation_id g) ≡ some payload
  pub verified : verify k payload g.signature key ≡ true

-- One use of `g`, committed, and nothing else.
pub record UsedOnce (g : Grant) (c c' : Conn ApprovalDb) : Type 0 where
  pub alone : count (is_row g) c.work.grants ≡ 1
  pub only : All (λ x. is_row g x ≡ true → x ≡ g) c.work.grants
  pub grants : c'.work ≡ record c.work { grants = update (is_row g) use_once c.work.grants }
  pub durable : c'.saved ≡ c'.work

Check-cases : (ch : Check) → (ch ≡ skip) ⊎ ((ch ≡ consume) ⊎ ((e : Exn) × (ch ≡ stop e)))
Check-cases skip = inl refl
Check-cases consume = inr (inl refl)
Check-cases (stop e) = inr (inr (e, refl))

module _ (k : Crypto) (action conversation_id : String) (now : ℕ) where
  not_expired : (o : Option ℕ) → has_expired o now ≡ false → (e : ℕ) → o ≡ some e → now < e
  not_expired none h e q = cc
  not_expired (some d) h e q = ground arith

  not_used_up : (o : Option ℕ) (u : ℕ) → is_used_up o u ≡ false → (m : ℕ) → o ≡ some m → u < m
  not_used_up none u h m q = cc
  not_used_up (some d) u h m q = ground arith

  check_grant-Usable :
      (db : ApprovalDb) (g : Grant)
      → is_offered action conversation_id g ≡ true
      → check_grant k db action conversation_id now g ≡ consume
      → Usable k db action conversation_id now g
  unfolding check_grant
  check_grant-Usable db g offered h = elim (Option-cases (active_signing_key db g.device_id)) [
    | inl no_key ↦ ground arith
    | inr (key, active) ↦
        elim (Option-cases (encode_grant k (stored_fields action conversation_id g))) [
          | inl no_payload ↦ ground arith
          | inr (payload, encoded) ↦ record {
            offered = offered;
            unexpired = not_expired g.expires_at_ms (ground arith);
            unused = not_used_up g.max_actions g.used_count (ground arith);
            key = key;
            payload = payload;
            key_active = active;
            encoded = encoded;
            verified = ground arith;
          }
        ]
  ]

  abbrev pub Answer : Result Bool → Conn ApprovalDb → Conn ApprovalDb → Type 0
  Answer r c c' =
      ((r ≡ ok true)
        × ((g : Grant) × Usable k c.work action conversation_id now g × UsedOnce g c c'))
      ⊎ ((r ≢ ok true) × (c' ≡ c))

  consume_first_lem :
      (gs : List Grant) (c : Conn ApprovalDb)
      → All (λ g. is_offered action conversation_id g ≡ true) gs
      → All (IsAlone c.work.grants) gs
      → Answer
          (consume_first k action conversation_id now gs c).0
          c
          (consume_first k action conversation_id now gs c).1
  unfolding consume_first
  consume_first_lem [] c ho ha = inr (λ e. cc, refl)
  consume_first_lem (g ∷ gs) c ho ha =
      elim (Check-cases (check_grant k c.work action conversation_id now g)) [
        | inl e ↦ rw (e, consume_first) (consume_first_lem gs c ho.1 ha.1)
        | inr (inl e) ↦
            rw (e, consume_first, ha.0.0, ==-refl {A = ℕ} 1)
              (inl (
                refl,
                (
                  g,
                  check_grant-Usable c.work g ho.0 e,
                  record { alone = ha.0.0; only = ha.0.1; grants = refl; durable = refl },
                ),
              ))
        | inr (inr (x, e)) ↦ rw (e, consume_first) (inr (λ q. cc, refl))
      ]

  -- Where the primary key holds, a use of a grant is answered with true exactly when one usable
  -- grant's count is raised by one, and committed with nothing else changed; a use that is refused
  -- or raises changes nothing.
  pub verify_and_consume-UsedOnce :
      (c : Conn ApprovalDb)
      → IsKeyed c.work.grants
      → Answer
          (verify_and_consume k action conversation_id now c).0
          c
          (verify_and_consume k action conversation_id now c).1
  unfolding verify_and_consume
  verify_and_consume-UsedOnce c h =
      let offered = select (is_offered action conversation_id) c.work.grants in
      consume_first_lem offered c (select_sound (is_offered action conversation_id) c.work.grants) (
        All-select _ (is_offered action conversation_id) c.work.grants
          (keyed-IsAlone c.work.grants h))

-- One more use of one usable row stays within every row's bound.
used_once-IsWithin :
    (l : List Grant) (g : Grant)
    → ((m : ℕ) → g.max_actions ≡ some m → g.used_count < m)
    → All (λ x. is_row g x ≡ true → x ≡ g) l
    → All IsWithin l
    → All IsWithin (update (is_row g) use_once l)
used_once-IsWithin l g unused alone within =
    update-All IsWithin (is_row g) use_once l
      (All-map _ _ l
        (λ x only hit w m e.
          let same : x ≡ g = only hit in
          subst (λ (y : Grant). y.used_count + 1 ≤ m) (sym same)
            (omega (arith, unused m (subst (λ (y : Grant). y.max_actions ≡ some m) same e))))
        alone)
      within

-- A use of a grant, whatever its answer, keeps every grant within the number of actions that its
-- signature allows, where the primary key holds.
pub verify_and_consume-IsWithin :
    (k : Crypto) (action conversation_id : String) (now : ℕ) (c : Conn ApprovalDb)
    → IsKeyed c.work.grants
    → All IsWithin c.work.grants
    → All IsWithin (verify_and_consume k action conversation_id now c).1.work.grants
verify_and_consume-IsWithin k action conversation_id now c keyed within =
    elim (verify_and_consume-UsedOnce k action conversation_id now c keyed) [
      | inl (yes_used, (g, usable, once)) ↦
          subst (λ (db : ApprovalDb). All IsWithin db.grants) (sym once.grants)
            (used_once-IsWithin c.work.grants g usable.unused once.only within)
      | inr (not_used, same) ↦
          subst (λ (c' : Conn ApprovalDb). All IsWithin c'.work.grants) (sym same) within
    ]
