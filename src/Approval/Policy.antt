-- ===== src/Approval/Policy.antt =====
-- src/whatsvault/approval/policy.py: the checks P1 to P7 that prepare and send share.
use whatsvault.Base.{
  ℕ, ◌<◌, ◌≡◌, ◌↔◌, refl, Bool, true, false, not, ◌&&◌, Option, none, some, List, [], ◌∷◌, ◌++◌,
  String, arith,
}
use whatsvault.Base.Eq.{if◌then◌else◌, leb, ◌==◌, string_eq}

-- The dictionary `ctx`, with the value that the code reads where a key is missing.
pub record Context : Type 0 where
  pub recipient_wa_id : Option String
  pub kind : String
  pub account_ok : Bool
  pub now_ms : Option ℕ
  pub expires_at_ms : Option ℕ
  pub device_active : Bool
  pub rate_ok : Bool
  pub recipient_is_group : Bool
  pub window_open : Bool

pub data Reason : Type 0 where
  p1_recipient_unbound p2_window_closed p3_account_binding p4_expired : Reason
  p5_device_inactive p6_rate_limit p7_group_recipient : Reason

pub record PolicyResult : Type 0 where
  pub ok : Bool
  pub failed : List Reason

-- Python's truth of an optional text: neither `None` nor empty.
abbrev pub text_given : Option String → Bool
text_given none = false
text_given (some s) = not (s == "")

-- `now is not None and exp is not None and now >= exp`
abbrev pub is_expired : Option ℕ → Option ℕ → Bool
is_expired (some now) (some exp) = leb exp now
is_expired _ _ = false

abbrev pub fails : Bool → Reason → List Reason
fails test reason = if test then reason ∷ [] else []

abbrev is_nil : List Reason → Bool
is_nil [] = true
is_nil (r ∷ rs) = false

unfoldable pub failures : Context → List Reason
failures ctx =
    fails (not (text_given ctx.recipient_wa_id)) p1_recipient_unbound
    ++ (fails (ctx.kind == "text" && not ctx.window_open) p2_window_closed
        ++ (fails (not ctx.account_ok) p3_account_binding
            ++ (fails (is_expired ctx.now_ms ctx.expires_at_ms) p4_expired
                ++ (fails (not ctx.device_active) p5_device_inactive
                    ++ (fails (not ctx.rate_ok) p6_rate_limit
                        ++ fails ctx.recipient_is_group p7_group_recipient)))))

unfoldable pub evaluate : Context → PolicyResult
unfolding failures
evaluate ctx = let failed = failures ctx in record { ok = is_nil failed; failed = failed }

-- What a context that may send satisfies, independent of the order of the checks.
pub record MaySend (ctx : Context) : Type 0 where
  pub recipient : text_given ctx.recipient_wa_id ≡ true
  pub window : ctx.kind ≡ "text" → ctx.window_open ≡ true
  pub account : ctx.account_ok ≡ true
  pub unexpired : (now exp : ℕ) → ctx.now_ms ≡ some now → ctx.expires_at_ms ≡ some exp → now < exp
  pub device : ctx.device_active ≡ true
  pub rate : ctx.rate_ok ≡ true
  pub not_group : ctx.recipient_is_group ≡ false

not_expired :
    (now exp : Option ℕ)
    → ((n e : ℕ) → now ≡ some n → exp ≡ some e → n < e)
    → is_expired now exp ≡ false
not_expired none exp h = refl
not_expired (some n) none h = refl
not_expired (some n) (some e) h = ground (arith, h n e refl refl)

-- The policy passes exactly the contexts that may send: a bound recipient, an open window for
-- free text, an account, an unexpired draft, an active device, a rate in bounds, and no group.
pub evaluate-MaySend_iff : (ctx : Context) → ((evaluate ctx).ok ≡ true) ↔ MaySend ctx
unfolding evaluate
evaluate-MaySend_iff ctx = (
  ground arith,
  λ m. ground (
    arith,
    m.recipient,
    m.window,
    m.account,
    not_expired ctx.now_ms ctx.expires_at_ms m.unexpired,
    m.device,
    m.rate,
    m.not_group,
  ),
)

cons_of : (l : List Reason) → is_nil l ≡ false → (r : Reason) × (rs : List Reason) × (l ≡ r ∷ rs)
cons_of [] h = cc
cons_of (r ∷ rs) h = (r, rs, refl)

-- A refused context has a first reason, the one that the callers report.
pub evaluate-refusal :
    (ctx : Context)
    → (evaluate ctx).ok ≡ false
    → (r : Reason) × (rs : List Reason) × ((evaluate ctx).failed ≡ r ∷ rs)
unfolding evaluate
evaluate-refusal ctx h = cons_of (failures ctx) h
