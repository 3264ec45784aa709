-- ===== src/Oauth/Schema.antt =====
-- The OAuth tables, src/whatsvault/db/migrations/control/0004_oauth.sql and 0005, and what the module
-- takes from Python's runtime.
use whatsvault.Base.{
  ℕ, String, ◌≡◌, refl, ◌⊎◌, inl, inr, Bool, true, false, Option, none, some, List, [], ◌∷◌, ◌++◌,
}
use whatsvault.Base.Conn.{Conn, write, commit}

-- What `oauth.py` takes from the standard library.
pub record Runtime : Type 0 where
  -- `hashlib.sha256(value.encode()).hexdigest()`
  pub hash : String → String
  -- base64url of the SHA-256 of the verifier's ASCII characters, with no padding
  pub s256 : String → String
  pub upper : String → String
  pub strip : String → String
  -- `hmac.compare_digest`; `none` is the `TypeError` that it raises on text that is not ASCII
  pub compare_digest : String → String → Option Bool

pub record ClientRow : Type 0 where
  pub client_id : String
  pub client_name : String
  pub redirect_uris : List String

pub record PendingRow : Type 0 where
  pub request_id : String
  pub user_code : String
  pub client_id : String
  pub redirect_uri : String
  pub state : Option String
  pub code_challenge : String
  pub scope : String
  pub created_ms : ℕ
  pub expires_ms : ℕ
  pub approved_ms : Option ℕ
  pub collected_ms : Option ℕ

pub record CodeRow : Type 0 where
  pub code_hash : String
  pub client_id : String
  pub redirect_uri : String
  pub code_challenge : String
  pub scope : String
  pub issued_ms : ℕ
  pub expires_ms : ℕ
  pub consumed_ms : Option ℕ

pub data TokenKind : Type 0 where
  access refresh : TokenKind

abbrev pub is_access : TokenKind → Bool
is_access TokenKind.access = true
is_access TokenKind.refresh = false

abbrev pub is_refresh : TokenKind → Bool
is_refresh TokenKind.access = false
is_refresh TokenKind.refresh = true

pub record TokenRow : Type 0 where
  pub token_hash : String
  pub kind : TokenKind
  pub client_id : String
  pub scope : String
  pub issued_ms : ℕ
  pub expires_ms : ℕ
  pub revoked_ms : Option ℕ
  pub grant_id : Option String

-- A row of audit_log; its HMAC of the arguments is left out.
pub record AuditRow : Type 0 where
  pub tool : String
  pub outcome : String
  pub ts_ms : ℕ

pub record OauthDb : Type 0 where
  pub clients : List ClientRow
  pub pending : List PendingRow
  pub codes : List CodeRow
  pub tokens : List TokenRow
  pub audit_log : List AuditRow

-- The `code` of an `OAuthError`.
pub data ErrorCode : Type 0 where
  invalid_request invalid_client invalid_redirect_uri invalid_grant : ErrorCode
  expired_token temporarily_unavailable : ErrorCode

pub data Error : Type 0 where
  oauth_error : ErrorCode → Error
  type_error integrity_error : Error

pub data Result {ℓ} (A : Type ℓ) : Type ℓ where
  ok : A → Result A
  err : Error → Result A

abbrev pub ◌>>=◌ {ℓ₁ ℓ₂} : {X : Type ℓ₁} {Y : Type ℓ₂} → Result X → (X → Result Y) → Result Y
err refusal >>= next = err refusal
ok x >>= next = next x

-- A check with no value, and what comes after it.
abbrev pub ◌>>◌ {ℓ₁} : {Y : Type ℓ₁} → Result (Unit {0}) → Result Y → Result Y
err refusal >> after = err refusal
ok u >> after = after

infixl 5 ◌>>=◌ ◌>>◌
pub Result-cases {ℓ₁} :
    {X : Type ℓ₁} (r : Result X) → ((x : X) × (r ≡ ok x)) ⊎ ((why : Error) × (r ≡ err why))
Result-cases (err why) = inr (why, refl)
Result-cases (ok x) = inl (x, refl)

-- `if bad: raise OAuthError(code)`
abbrev pub refuse_if : Bool → ErrorCode → Result (Unit {0})
refuse_if true code = err (oauth_error code)
refuse_if false code = ok tt

abbrev pub some_or {ℓ} : {A : Type ℓ} → Option A → ErrorCode → Result A
some_or none code = err (oauth_error code)
some_or (some a) code = ok a

-- `if not hmac.compare_digest(a, b): raise OAuthError(code)`
abbrev pub refuse_unless_same : Option Bool → ErrorCode → Result (Unit {0})
refuse_unless_same none code = err type_error
refuse_unless_same (some true) code = ok tt
refuse_unless_same (some false) code = err (oauth_error code)

abbrev pub is_null {ℓ} : {A : Type ℓ} → Option A → Bool
is_null none = true
is_null (some a) = false

-- `str(value or "")`
abbrev pub or_empty : Option String → String
or_empty none = ""
or_empty (some s) = s

-- "whatsvault.read"
abbrev pub read_only_scope : String
read_only_scope = "whatsvault.read"

-- `_audit`: a row where a key is configured, and its commit.
abbrev pub audit : Bool → String → String → ℕ → Conn OauthDb → Conn OauthDb
audit false tool outcome now c = c
audit true tool outcome now c = commit (
    write
      (record c.work {
        audit_log = c.work.audit_log ++ record { tool = tool; outcome = outcome; ts_ms = now } ∷ [];
      })
      c)
