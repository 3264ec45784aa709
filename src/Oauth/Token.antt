-- ===== src/Oauth/Token.antt =====
-- Codes are exchanged for tokens, and tokens are refreshed, checked and revoked.
pub mod Exchange
pub mod Family
use whatsvault.Base.{
  ℕ, zero, suc, ◌+◌, ◌*◌, String, Bool, true, false, not, ◌&&◌, ◌||◌, Option, none, some, List, [],
  ◌∷◌, ◌++◌,
}
use whatsvault.Base.Eq.{if◌then◌else◌, ◌==◌, string_eq, option_eq, nat_eq, ltb}
use whatsvault.Base.Table.{find, update, count, any}
use whatsvault.Base.Conn.{Conn, write, commit}
use whatsvault.Oauth.Schema.{
  Runtime, CodeRow, TokenRow, TokenKind, is_access, is_refresh, ClientRow, OauthDb, Error,
  oauth_error, integrity_error, invalid_grant, Result, ok, err, ◌>>=◌, ◌>>◌, refuse_if,
  refuse_unless_same, some_or, is_null, or_empty, read_only_scope, audit,
}

-- 3_600_000 and 30 * 24 * 3_600_000
abbrev pub access_ttl_ms : ℕ
access_ttl_ms = 3600000

abbrev pub refresh_ttl_ms : ℕ
refresh_ttl_ms = 2592000000

-- The secrets that one call of `_issue` draws.
pub record Secrets : Type 0 where
  pub access : String
  pub refresh : String
  pub grant : String

pub record Issued : Type 0 where
  pub access_token : String
  pub refresh_token : String
  pub scope : String

abbrev pub token_row : Runtime → String → TokenKind → String → ℕ → ℕ → String → TokenRow
token_row rt token kind client_id now ttl grant = record {
  token_hash = rt.hash token;
  kind = kind;
  client_id = client_id;
  scope = read_only_scope;
  issued_ms = now;
  expires_ms = now + ttl;
  revoked_ms = none;
  grant_id = some grant;
}

-- The INSERT: the primary key. The client is referenced by the row that led here.
abbrev pub insert_token : TokenRow → Conn OauthDb → Result (Unit {0}) × Conn OauthDb
insert_token row c =
    if any (λ (x : TokenRow). x.token_hash == row.token_hash) c.work.tokens
    then (err integrity_error, c)
    else (ok tt, write (record c.work { tokens = c.work.tokens ++ row ∷ [] }) c)

-- `grant_id or "wvg_" + ...`
abbrev pub grant_or : Option String → String → String
grant_or none fresh = fresh
grant_or (some g) fresh = if g == "" then fresh else g

abbrev pub finish_issue :
    Bool → Secrets → ℕ → Result (Unit {0}) × Conn OauthDb → Result Issued × Conn OauthDb
finish_issue auditing s now (err e, c) = (err e, c)
finish_issue auditing s now (ok u, c) = (
  ok (record { access_token = s.access; refresh_token = s.refresh; scope = read_only_scope }),
  commit (audit auditing "oauth.token_issued" "ok" now c),
)

abbrev pub insert_pair :
    Runtime → Secrets → String → String → ℕ → Conn OauthDb → Result (Unit {0}) × Conn OauthDb
insert_pair rt s client_id grant now c =
    let (r, c') =
      insert_token (token_row rt s.access TokenKind.access client_id now access_ttl_ms grant) c in
    elim r [
      | err e ↦ (err e, c')
      | ok u ↦
          insert_token (token_row rt s.refresh TokenKind.refresh client_id now refresh_ttl_ms grant)
            c'
    ]

-- `_issue`
unfoldable pub issue :
    Runtime
    → Bool
    → Secrets
    → String
    → Option String
    → ℕ
    → Conn OauthDb
    → Result Issued × Conn OauthDb
issue rt auditing s client_id grant now c =
    finish_issue auditing s now (insert_pair rt s client_id (grant_or grant s.grant) now c)

-- `WHERE grant_id=? AND revoked_ms IS NULL`: a null grant matches no row.
abbrev pub is_family : Option String → TokenRow → Bool
is_family none t = false
is_family (some g) t = t.grant_id == some g && is_null t.revoked_ms

abbrev pub revoke_token : ℕ → TokenRow → TokenRow
revoke_token now t = record t { revoked_ms = some now }

abbrev pub revoke_rows : (TokenRow → Bool) → ℕ → OauthDb → OauthDb
revoke_rows p now db = record db { tokens = update p (revoke_token now) db.tokens }

-- `_revoke_family`
unfoldable pub revoke_family : Option String → ℕ → Conn OauthDb → ℕ × Conn OauthDb
revoke_family grant now c = (
  count (is_family grant) c.work.tokens,
  commit (write (revoke_rows (is_family grant) now c.work) c),
)

abbrev pub by_code : Runtime → Option String → CodeRow → Bool
by_code rt code x = x.code_hash == rt.hash (or_empty code)

-- The checks of `exchange_code` on the stored code.
unfoldable pub check_code :
    Runtime
    → OauthDb
    → Option String
    → Option String
    → Option String
    → Option String
    → ℕ
    → Result CodeRow
check_code rt db code client_id redirect_uri verifier now = do
  row ← some_or (find (by_code rt code) db.codes) invalid_grant
  refuse_if (not (is_null row.consumed_ms)) invalid_grant
  refuse_if (ltb row.expires_ms now) invalid_grant
  refuse_unless_same (rt.compare_digest (or_empty client_id) row.client_id) invalid_grant
  refuse_unless_same (rt.compare_digest (or_empty redirect_uri) row.redirect_uri) invalid_grant
  refuse_unless_same (rt.compare_digest (rt.s256 (or_empty verifier)) row.code_challenge)
      invalid_grant
  ok row

-- `WHERE code_hash=? AND consumed_ms IS NULL`
abbrev pub is_unspent : CodeRow → CodeRow → Bool
is_unspent row x = x.code_hash == row.code_hash && is_null x.consumed_ms

abbrev pub spend : ℕ → CodeRow → CodeRow
spend now x = record x { consumed_ms = some now }

-- The UPDATE that consumes the code, and the tokens. A row count other than one refuses, with the
-- change pending.
unfoldable pub redeem :
    Runtime → Bool → Secrets → CodeRow → ℕ → Conn OauthDb → Result Issued × Conn OauthDb
redeem rt auditing s row now c =
    let c' = write (record c.work { codes = update (is_unspent row) (spend now) c.work.codes }) c in
    if not (count (is_unspent row) c.work.codes == 1)
    then (err (oauth_error invalid_grant), c')
    else issue rt auditing s row.client_id none now c'

-- `exchange_code`
unfoldable pub exchange_code :
    Runtime
    → Bool
    → Secrets
    → Option String
    → Option String
    → Option String
    → Option String
    → ℕ
    → Conn OauthDb
    → Result Issued × Conn OauthDb
exchange_code rt auditing s code client_id redirect_uri verifier now c =
    elim (check_code rt c.work code client_id redirect_uri verifier now) [
      | err e ↦ (err e, c)
      | ok row ↦ redeem rt auditing s row now c
    ]

abbrev pub by_refresh : Runtime → Option String → TokenRow → Bool
by_refresh rt token x = x.token_hash == rt.hash (or_empty token) && is_refresh x.kind

-- A refresh token that was rotated away and comes back: its whole family is revoked.
unfoldable pub refuse_reuse : Bool → TokenRow → ℕ → Conn OauthDb → Result Issued × Conn OauthDb
refuse_reuse auditing row now c = (
  err (oauth_error invalid_grant),
  audit auditing "oauth.refresh_reuse_detected" "revoked" now (revoke_family row.grant_id now c).1,
)

-- The checks of `refresh` on a token that is not revoked.
unfoldable pub check_refresh : Runtime → TokenRow → Option String → ℕ → Result (Unit {0})
check_refresh rt row client_id now = do
  refuse_if (ltb row.expires_ms now) invalid_grant
  refuse_unless_same (rt.compare_digest (or_empty client_id) row.client_id) invalid_grant

-- Rotation: the family is revoked, and a new pair issued in it.
unfoldable pub rotate :
    Runtime → Bool → Secrets → TokenRow → ℕ → Conn OauthDb → Result Issued × Conn OauthDb
rotate rt auditing s row now c =
    issue rt auditing s row.client_id row.grant_id now
      (write (revoke_rows (is_family row.grant_id) now c.work) c)

abbrev pub refresh_row :
    Runtime
    → Bool
    → Secrets
    → Option String
    → ℕ
    → TokenRow
    → Conn OauthDb
    → Result Issued × Conn OauthDb
refresh_row rt auditing s client_id now row c =
    if not (is_null row.revoked_ms)
    then refuse_reuse auditing row now c
    else elim (check_refresh rt row client_id now) [
      | err e ↦ (err e, c)
      | ok u ↦ rotate rt auditing s row now c
    ]

-- `refresh`
unfoldable pub refresh :
    Runtime
    → Bool
    → Secrets
    → Option String
    → Option String
    → ℕ
    → Conn OauthDb
    → Result Issued × Conn OauthDb
refresh rt auditing s token client_id now c = elim (find (by_refresh rt token) c.work.tokens) [
  | none ↦ (err (oauth_error invalid_grant), c)
  | some row ↦ refresh_row rt auditing s client_id now row c
]

pub record Claims : Type 0 where
  pub client_id : String
  pub scope : String

abbrev pub is_blank : Runtime → String → Bool
is_blank rt token = rt.strip token == ""

abbrev pub by_access : Runtime → String → TokenRow → Bool
by_access rt token x = x.token_hash == rt.hash token && is_access x.kind

abbrev pub is_usable : ℕ → TokenRow → Bool
is_usable now t = is_null t.revoked_ms && not (ltb t.expires_ms now)

-- `validate_access_token`
unfoldable pub validate_access_token : Runtime → OauthDb → String → ℕ → Option Claims
validate_access_token rt db token now =
    if is_blank rt token then none else elim (find (by_access rt token) db.tokens) [
      | none ↦ none
      | some t ↦
          if is_usable now t
          then some (record { client_id = t.client_id; scope = t.scope })
          else none
    ]

abbrev pub is_unrevoked : TokenRow → Bool
is_unrevoked t = is_null t.revoked_ms

-- `revoke_all`
unfoldable pub revoke_all : Bool → ℕ → Conn OauthDb → ℕ × Conn OauthDb
revoke_all auditing now c = (
  count is_unrevoked c.work.tokens,
  commit
      (audit auditing "oauth.revoke_all" "ok" now (write (revoke_rows is_unrevoked now c.work) c)),
)
