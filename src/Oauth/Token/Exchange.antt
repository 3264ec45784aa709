-- ===== src/Oauth/Token/Exchange.antt =====
-- The exchange of an authorization code for a pair of tokens.
use whatsvault.Base.{
  ℕ, ◌≤◌, String, ◌≡◌, refl, sym, subst, Bool, true, false, Option, none, some, inl, inr, arith,
}
use whatsvault.Base.Eq.{==-refl, string_eq, nat_eq, Option-cases}
use whatsvault.Base.Table.{find, find-update_at, update}
use whatsvault.Base.Conn.{Conn, write}
use whatsvault.Oauth.Schema.{
  Runtime, CodeRow, OauthDb, oauth_error, invalid_grant, Result-cases, ok, err, is_null, or_empty,
}
use whatsvault.Oauth.Token.{
  Secrets, Issued, issue, by_code, check_code, is_unspent, spend, redeem, exchange_code,
}

abbrev pub Same : Runtime → Type 0
Same rt = (a b : String) → rt.compare_digest a b ≡ some true → a ≡ b

-- What a code and the request that redeems it satisfy.
pub record Redeemable (rt : Runtime) (db : OauthDb)
    (code client_id redirect_uri verifier : Option String) (now : ℕ) (row : CodeRow) : Type 0 where
  pub found : find (by_code rt code) db.codes ≡ some row
  pub unspent : is_null row.consumed_ms ≡ true
  pub unexpired : now ≤ row.expires_ms
  pub own_client : or_empty client_id ≡ row.client_id
  pub own_redirect : or_empty redirect_uri ≡ row.redirect_uri
  pub pkce : rt.s256 (or_empty verifier) ≡ row.code_challenge

issue-codes :
    (rt : Runtime) (auditing : Bool) (s : Secrets) (client_id : String) (grant : Option String)
    (now : ℕ) (c : Conn OauthDb)
    → (issue rt auditing s client_id grant now c).1.work.codes ≡ c.work.codes
unfolding issue
issue-codes rt auditing s client_id grant now c = ground arith

check_code-Redeemable :
    (rt : Runtime) (db : OauthDb) (code client_id redirect_uri verifier : Option String) (now : ℕ)
    (row : CodeRow)
    → Same rt
    → check_code rt db code client_id redirect_uri verifier now ≡ ok row
    → Redeemable rt db code client_id redirect_uri verifier now row
unfolding check_code
check_code-Redeemable rt db code client_id redirect_uri verifier now row law h =
    elim (Option-cases (find (by_code rt code) db.codes)) [
      | inl unknown ↦ ground arith
      | inr (x, found) ↦ ground (
        arith,
        law (or_empty client_id) x.client_id,
        law (or_empty redirect_uri) x.redirect_uri,
        law (rt.s256 (or_empty verifier)) x.code_challenge,
      )
    ]

spent_code :
    (rt : Runtime) (auditing : Bool) (s : Secrets) (row : CodeRow) (now : ℕ) (c : Conn OauthDb)
    (t : Issued)
    → (redeem rt auditing s row now c).0 ≡ ok t
    → (redeem rt auditing s row now c).1.work.codes
      ≡ update (is_unspent row) (spend now) c.work.codes
unfolding redeem
spent_code rt auditing s row now c t h = ground (
  arith,
  issue-codes rt auditing s row.client_id none now
      (write (record c.work { codes = update (is_unspent row) (spend now) c.work.codes }) c),
)

-- A code that is consumed is refused, before its client or verifier is looked at.
exchange_code-consumed :
    (rt : Runtime) (auditing : Bool) (s : Secrets)
    (code client_id redirect_uri verifier : Option String) (now : ℕ) (c : Conn OauthDb)
    (x : CodeRow)
    → find (by_code rt code) c.work.codes ≡ some x
    → is_null x.consumed_ms ≡ false
    → (exchange_code rt auditing s code client_id redirect_uri verifier now c).0
      ≡ err (oauth_error invalid_grant)
unfolding exchange_code check_code
exchange_code-consumed rt auditing s code client_id redirect_uri verifier now c x found consumed =
    ground arith

hit : (row : CodeRow) → is_null row.consumed_ms ≡ true → is_unspent row row ≡ true
hit row h = ground (arith, ==-refl row.code_hash)

module _ (rt : Runtime) (law : Same rt) (auditing : Bool) (s : Secrets)
    (code client_id redirect_uri verifier : Option String) (now : ℕ) (c : Conn OauthDb) (t : Issued)
    (issued : (exchange_code rt auditing s code client_id redirect_uri verifier now c).0
      ≡ ok t) where
  redeemed :
      (row : CodeRow) × Redeemable rt c.work code client_id redirect_uri verifier now row
      × ((exchange_code rt auditing s code client_id redirect_uri verifier now c).1.work.codes
          ≡ update (is_unspent row) (spend now) c.work.codes)
  unfolding exchange_code
  redeemed = elim (Result-cases (check_code rt c.work code client_id redirect_uri verifier now)) [
    | inr (e, refused) ↦ ground arith
    | inl (row, checked) ↦ (
      row,
      check_code-Redeemable rt c.work code client_id redirect_uri verifier now row law checked,
      ground (arith, spent_code rt auditing s row now c t),
    )
  ]

  -- Tokens are issued only for a stored code that is unspent and not expired, to the client and with
  -- the redirect of its authorization, on the verifier of its PKCE challenge.
  pub exchange_code-Redeemable :
      (row : CodeRow) × Redeemable rt c.work code client_id redirect_uri verifier now row
  exchange_code-Redeemable = (redeemed.0, redeemed.1)

  -- Once a code bought tokens, every later exchange of it is refused as an invalid grant, whoever
  -- asks and when.
  pub exchange_code-once :
      (s' : Secrets) (client' redirect' verifier' : Option String) (later : ℕ)
      → (exchange_code rt auditing s' code client' redirect' verifier' later
          (exchange_code rt auditing s code client_id redirect_uri verifier now c).1).0
        ≡ err (oauth_error invalid_grant)
  exchange_code-once s' client' redirect' verifier' later =
      let (row, r, after) = redeemed in
      let c' = (exchange_code rt auditing s code client_id redirect_uri verifier now c).1 in
      exchange_code-consumed rt auditing s' code client' redirect' verifier' later c'
        (spend now row)
        (subst (λ l. find (by_code rt code) l ≡ some (spend now row)) (sym after)
          (find-update_at (by_code rt code) (is_unspent row) (spend now) c.work.codes row
            (λ y. refl) r.found (hit row r.unspent)))
        refl
