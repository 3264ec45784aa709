-- ===== src/Mcp/Gate/Passes.antt =====
-- Which requests reach the tools.
use whatsvault.Base.{
  ℕ, String, ◌≡◌, ◌↔◌, refl, sym, ◌∙◌, ap, Bool, true, false, Option, none, some, List, [], ◌∷◌,
  ◌⊎◌, inl, inr,
}
use whatsvault.Base.Eq.{if◌then◌else◌, ◌==◌, ==-sound, ==-refl, bytes_eq, if_cases, Bool-cases}
use whatsvault.Base.Conn.{Conn}
use whatsvault.Base.Bytes.{Bytes, codes}
use whatsvault.Crypto.{Crypto}
use whatsvault.Oauth.Schema.{OauthDb}
use whatsvault.Oauth.Token.{Claims, validate_access_token, revoke_all}
use whatsvault.Oauth.Token.Family.{revoke_all-invalidates}
use whatsvault.Oauth.Http.{http, Scope}
use whatsvault.Mcp.Gate.{
  require_token, Gate, lower, authorizations, scheme_of, Presented, nothing, by_claims, by_control,
  by_token, token_of, by_value, by_values, presented, Passage, forwarded, served, is_unmounted,
  on_presented, guard, route,
}

-- An access token that is live in the control database of the deployment.
pub record IsLive (g : Gate) (now : ℕ) (token : String) : Type 0 where
  pub db : OauthDb
  pub has_control : g.control ≡ some db
  pub claims : Claims
  pub live : validate_access_token g.runtime db token now ≡ some claims

-- The static token, or an access token.
abbrev pub Credential : Gate → ℕ → String → Type 0
Credential g now token =
    (require_token g.runtime token g.token ≡ some true)
    ⊎ ((require_token g.runtime token g.token ≡ some false) × IsLive g now token)

-- Exactly one authorization header, of the bearer scheme, with a credential.
pub record Admitted (g : Gate) (now : ℕ) (s : Scope) : Type 0 where
  pub value : Bytes
  pub only : authorizations s.headers ≡ value ∷ []
  pub bearer : lower (scheme_of value) ≡ codes "bearer"
  pub credential : Credential g now (token_of g value)

abbrev Passes : Presented → Type 0
Passes p = on_presented p ≡ forwarded

module _ (g : Gate) (now : ℕ) where
  by_claims-Passes :
      (x : Option Claims) → Passes (by_claims x) → (claims : Claims) × (x ≡ some claims)
  by_claims-Passes none h = cc
  by_claims-Passes (some c) h = (c, refl)

  by_control-Passes :
      (token : String) (x : Option OauthDb)
      → g.control ≡ x
      → Passes (by_control g token now x)
      → IsLive g now token
  by_control-Passes token none e h = cc
  by_control-Passes token (some db) e h =
      let (claims, live) = by_claims-Passes (validate_access_token g.runtime db token now) h in
      record { db = db; has_control = e; claims = claims; live = live }

  by_token-Passes :
      (token : String) (x : Option Bool)
      → require_token g.runtime token g.token ≡ x
      → Passes (by_token g token now x)
      → Credential g now token
  by_token-Passes token none e h = cc
  by_token-Passes token (some true) e h = inl e
  by_token-Passes token (some false) e h = inr (e, by_control-Passes token g.control refl h)

  Credential-Passes :
      (token : String)
      → Credential g now token
      → Passes (by_token g token now (require_token g.runtime token g.token))
  Credential-Passes token (inl e) = rw e refl
  Credential-Passes token (inr (e, a)) = rw (e, a.has_control, a.live) refl

  by_value-Passes :
      (s : Scope) (value : Bytes)
      → authorizations s.headers ≡ value ∷ []
      → Passes (by_value g now value)
      → Admitted g now s
  by_value-Passes s value only h =
      let bearer = lower (scheme_of value) == codes "bearer" in
      let token = token_of g value in
      let found = by_token g token now (require_token g.runtime token g.token) in
      if_cases (λ (p : Presented). Passes p → Admitted g now s) bearer found nothing
        (λ same passes. record {
          value = value;
          only = only;
          bearer = ==-sound (lower (scheme_of value)) (codes "bearer") same;
          credential = by_token-Passes token (require_token g.runtime token g.token) refl passes;
        })
        (λ other passes. cc) h

  by_values-Passes :
      (s : Scope) (l : List Bytes)
      → authorizations s.headers ≡ l
      → Passes (by_values g now l)
      → Admitted g now s
  by_values-Passes s [] e h = cc
  by_values-Passes s (value ∷ []) e h = by_value-Passes s value e h
  by_values-Passes s (value ∷ other ∷ rest) e h = cc

  Admitted-Passes : (s : Scope) → Admitted g now s → Passes (presented g now s)
  unfolding presented
  Admitted-Passes s a =
      let token = token_of g a.value in
      let same = ap (λ (b : Bytes). b == codes "bearer") a.bearer ∙ ==-refl (codes "bearer") in
      let passes = Credential-Passes token a.credential in rw (a.only, same) passes

  route-ways :
      (k : Crypto) (s : Scope)
      → s.kind ≡ http
      → route k g now s ≡ (if is_unmounted k s then served else on_presented (presented g now s))
  unfolding route guard
  route-ways k s e = elim (Bool-cases (is_unmounted k s)) [
    | inl owned ↦ rw (e, owned) refl
    | inr free ↦ rw (e, free) refl
  ]

  -- A request passes the router and the gate of a public deployment to the tools exactly where neither
  -- its raw path nor its decoded path is of the authorization server, and it has exactly one
  -- authorization header, of the bearer scheme, with the static token or an access token that is live.
  pub route-Admitted_iff :
      (k : Crypto) (s : Scope)
      → s.kind ≡ http
      → (route k g now s ≡ forwarded) ↔ ((is_unmounted k s ≡ false) × Admitted g now s)
  unfolding presented
  route-Admitted_iff k s e =
      let ways = route-ways k s e in
      let admit = by_values-Passes s (authorizations s.headers) refl in
      (
        λ h.
            if_cases
              (λ (x : Passage). x ≡ forwarded → (is_unmounted k s ≡ false) × Admitted g now s)
              (is_unmounted k s) served (on_presented (presented g now s)) (λ owned passes. cc)
              (λ free passes. (free, admit passes)) (sym ways ∙ h),
        λ (free, a).
            ways
            ∙ ap (λ (b : Bool). if b then served else on_presented (presented g now s)) free
            ∙ Admitted-Passes s a,
      )

-- After revoke_all, which is committed, a request that passes the router and the gate of a public
-- deployment to the tools carries the static token, whenever it comes.
pub route-revoked :
    (k : Crypto) (g : Gate) (auditing : Bool) (then_ms now : ℕ) (c : Conn OauthDb) (s : Scope)
    → g.control ≡ some (revoke_all auditing then_ms c).1.saved
    → s.kind ≡ http
    → route k g now s ≡ forwarded
    → (value : Bytes) × (authorizations s.headers ≡ value ∷ [])
      × (require_token g.runtime (token_of g value) g.token ≡ some true)
route-revoked k g auditing then_ms now c s has e h =
    let (free, a) = (route-Admitted_iff g now k s e).0 h in
    elim a.credential [
      | inl static ↦ (a.value, a.only, static)
      | inr (other, oauth) ↦
          let token = token_of g a.value in
          let gone = (revoke_all-invalidates g.runtime auditing then_ms c token now).0 in
          let live = oauth.live in let has' = oauth.has_control in cc
    ]
