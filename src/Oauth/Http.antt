-- ===== src/Oauth/Http.antt =====
-- src/whatsvault/mcp/oauth_http.py: the endpoints of the authorization server, between a request and the
-- answer to it.
pub mod Answers
use whatsvault.Base.{
  ℕ, ◌+◌, ◌*◌, String, Bool, true, false, not, ◌&&◌, ◌||◌, Option, none, some, List, [], ◌∷◌, ◌++◌,
}
use whatsvault.Base.Eq.{if◌then◌else◌, ◌==◌, ltb, nat_eq, string_eq, bytes_eq, option_eq}
use whatsvault.Base.Table.{any, find, length}
use whatsvault.Base.Conn.{Conn}
use whatsvault.Base.Bytes.{Bytes, codes}
use whatsvault.Crypto.{Crypto}
use whatsvault.Mcp.Present.{append}
use whatsvault.Oauth.Schema.{
  Runtime, ClientRow, PendingRow, OauthDb, ErrorCode, invalid_redirect_uri, Error, oauth_error,
  type_error, integrity_error, Result, ok, err,
}
use whatsvault.Oauth.Clients.{starts_with, register_client}
use whatsvault.Oauth.Authorize.{AuthorizationRequest, Begun, begin_authorization, HandedCode}
use whatsvault.Oauth.Authorize as Authorize
use whatsvault.Oauth.Token.{Secrets, Issued, exchange_code}
use whatsvault.Oauth.Token as Token

pub data ScopeKind : Type 0 where
  lifespan http other_kind : ScopeKind

-- What is read of an ASGI scope, and the bodies of the messages that `receive` gives.
pub record Scope : Type 0 where
  pub kind : ScopeKind
  pub raw_path : Option Bytes
  pub path : String
  pub method : String
  pub query_string : Bytes
  pub headers : List (Bytes × Bytes)
  pub chunks : List Bytes

-- What `json.loads` makes of a registration: `redirect_uris` has no value where it is not a list.
pub data Parsed : Type 0 where
  not_json not_object : Parsed
  object : Option String → Option (List String) → Parsed

-- What is taken from the standard library besides the runtime of the server.
pub record Web : Type 0 where
  pub parse_qsl : Bytes → List (String × String)
  pub urlencode : List (String × String) → String
  pub loads : Bytes → Parsed
  -- `b.decode("latin-1")`
  pub latin1 : Bytes → String

-- The identifiers and secrets that the server draws.
pub record WebDraws : Type 0 where
  pub client_id : String
  pub request_id : String
  pub user_code : String
  pub code : String
  pub secrets : Secrets

-- `scope.get("raw_path") or scope.get("path", "").encode()`
abbrev pub raw_of : Crypto → Scope → Bytes
raw_of k s = elim s.raw_path [
  | none ↦ k.utf8 s.path
  | some b ↦ if b == [] then k.utf8 s.path else b
]

-- `path.split("?", 1)[0]`
abbrev pub before_query : Bytes → Bytes
before_query [] = []
before_query (b ∷ rest) = if b == b'?' then [] else b ∷ before_query rest

-- `owns`
abbrev pub is_owned : Bytes → Bool
is_owned path = starts_with (codes "/oauth/") path || starts_with (codes "/.well-known/") path

-- The loop of `_read_body`, after `total` bytes: it stops at the chunk with which more than 64 KiB were read.
abbrev pub read_from : ℕ → List Bytes → Bytes
read_from total [] = []
read_from total (chunk ∷ rest) =
    let more = read_from (total + length chunk) rest in
    if ltb 65536 (total + length chunk) then chunk else chunk ++ more

abbrev pub read_body : List Bytes → Bytes
read_body chunks = read_from 0 chunks

-- `dict(pairs).get(key)`: of two pairs with one key the later counts.
abbrev pub get : String → List (String × String) → Option String
get key [] = none
get key (x ∷ rest) = elim (get key rest) [
  | some v ↦ some v
  | none ↦ if x.0 == key then some x.1 else none
]

-- The `error` of an answer.
pub data ErrorText : Type 0 where
  oauth_code : ErrorCode → ErrorText
  invalid_client_metadata unsupported_response_type unsupported_grant_type not_found : ErrorText

pub data Body : Type 0 where
  error : ErrorText → Body
  as_metadata pr_metadata not_ready : Body
  registered : ClientRow → Body
  consent : Begun → Body
  ready : String → Body
  tokens : Issued → Body

pub record Response : Type 0 where
  pub status : ℕ
  pub body : Body

-- An answer, or an exception that no handler names.
pub data WebAnswer : Type 0 where
  response : Response → WebAnswer
  raised : WebAnswer

abbrev pub respond : ℕ → Body → WebAnswer
respond status body = response (record { status = status; body = body })

-- `except oauth.OAuthError`
abbrev pub refusal : Error → WebAnswer
refusal (oauth_error code) = respond 400 (error (oauth_code code))
refusal type_error = raised
refusal integrity_error = raised

abbrev pub answer_of {ℓ} : {A : Type ℓ} → (A → WebAnswer) → Result A → WebAnswer
answer_of f (ok a) = f a
answer_of f (err e) = refusal e

abbrev pub register_uris :
    WebDraws → Option String → Option (List String) → Conn OauthDb → WebAnswer × Conn OauthDb
register_uris o name none c = (respond 400 (error (oauth_code invalid_redirect_uri)), c)
register_uris o name (some uris) c =
    let (r, c') = register_client o.client_id name uris c in
    (answer_of (λ row. respond 201 (registered row)) r, c')

abbrev pub register_parsed : WebDraws → Parsed → Conn OauthDb → WebAnswer × Conn OauthDb
register_parsed o not_json c = (respond 400 (error invalid_client_metadata), c)
register_parsed o not_object c = (respond 400 (error invalid_client_metadata), c)
register_parsed o (object name uris) c = register_uris o name uris c

-- `_post_register`
unfoldable pub post_register : Web → WebDraws → Scope → Conn OauthDb → WebAnswer × Conn OauthDb
post_register w o s c = register_parsed o (w.loads (read_body s.chunks)) c

abbrev pub asked_by : List (String × String) → AuthorizationRequest
asked_by query = record {
  client_id = get "client_id" query;
  redirect_uri = get "redirect_uri" query;
  code_challenge = get "code_challenge" query;
  code_challenge_method = get "code_challenge_method" query;
  state = get "state" query;
}

abbrev pub consented : Result Begun × Conn OauthDb → WebAnswer × Conn OauthDb
consented (r, c) = (answer_of (λ b. respond 200 (consent b)) r, c)

-- `_get_authorize`
unfoldable pub get_authorize :
    Runtime → WebDraws → ℕ → List (String × String) → Conn OauthDb → WebAnswer × Conn OauthDb
get_authorize rt o now query c =
    if get "response_type" query == some "code"
    then consented (begin_authorization rt (asked_by query) o.request_id o.user_code now c)
    else (respond 400 (error unsupported_response_type), c)

abbrev pub code_params : HandedCode → List (String × String)
code_params h = elim h.state [
  | none ↦ ("code", h.code) ∷ []
  | some state ↦ ("code", h.code) ∷ ("state", state) ∷ []
]

abbrev pub separator : String → String
separator uri = if any (λ (c : ℕ). c == b'?') (codes uri) then "&" else "?"

abbrev pub poll_answer : Web → Option HandedCode → WebAnswer
poll_answer w none = respond 200 not_ready
poll_answer w (some h) = respond 200 (
    ready (append h.redirect_uri (append (separator h.redirect_uri) (w.urlencode (code_params h)))))

-- `_get_poll`
unfoldable pub get_poll :
    Runtime → Web → WebDraws → ℕ → List (String × String) → Conn OauthDb → WebAnswer × Conn OauthDb
get_poll rt w o now query c =
    let (r, c') = Authorize.poll rt o.code (get "request_id" query) now c in
    (answer_of (poll_answer w) r, c')

abbrev pub granted : Result Issued × Conn OauthDb → WebAnswer × Conn OauthDb
granted (r, c) = (answer_of (λ t. respond 200 (tokens t)) r, c)

abbrev pub exchange_form :
    Runtime
    → Bool
    → WebDraws
    → ℕ
    → List (String × String)
    → Conn OauthDb
    → Result Issued × Conn OauthDb
exchange_form rt auditing o now form c =
    exchange_code rt auditing o.secrets (get "code" form) (get "client_id" form)
      (get "redirect_uri" form) (get "code_verifier" form) now c

abbrev pub refresh_form :
    Runtime
    → Bool
    → WebDraws
    → ℕ
    → List (String × String)
    → Conn OauthDb
    → Result Issued × Conn OauthDb
refresh_form rt auditing o now form c =
    Token.refresh rt auditing o.secrets (get "refresh_token" form) (get "client_id" form) now c

-- `_post_token`, after the form was parsed
unfoldable pub post_form :
    Runtime → Bool → WebDraws → ℕ → List (String × String) → Conn OauthDb → WebAnswer × Conn OauthDb
post_form rt auditing o now form c =
    if get "grant_type" form == some "authorization_code"
    then granted (exchange_form rt auditing o now form c)
    else if get "grant_type" form == some "refresh_token"
    then granted (refresh_form rt auditing o now form c)
    else (respond 400 (error unsupported_grant_type), c)

pub data Route : Type 0 where
  as_metadata_route pr_metadata_route register_route authorize_route poll_route token_route : Route

abbrev pub routes : List (String × String × Route)
routes =
    ("GET", "/.well-known/oauth-authorization-server", as_metadata_route)
    ∷ ("GET", "/.well-known/oauth-protected-resource", pr_metadata_route)
    ∷ ("GET", "/.well-known/oauth-protected-resource/mcp", pr_metadata_route)
    ∷ ("POST", "/oauth/register", register_route)
    ∷ ("GET", "/oauth/authorize", authorize_route)
    ∷ ("GET", "/oauth/poll", poll_route)
    ∷ ("POST", "/oauth/token", token_route)
    ∷ []

abbrev pub has_path : Bytes → String × String × Route → Bool
has_path path r = codes r.1 == path

-- `routes.get((method, path))`
unfoldable pub route_of : String → Bytes → Option (String × String × Route)
route_of method path = find (λ r. r.0 == method && has_path path r) routes

-- The server: `OAuthApp`, with what it was made with and what it draws.
pub record Server : Type 0 where
  pub runtime : Runtime
  pub web : Web
  pub auditing : Bool

-- The handler of a route.
unfoldable pub handle_route :
    Server → WebDraws → ℕ → Scope → Route → Conn OauthDb → WebAnswer × Conn OauthDb
handle_route v o now s as_metadata_route c = (respond 200 as_metadata, c)
handle_route v o now s pr_metadata_route c = (respond 200 pr_metadata, c)
handle_route v o now s register_route c = post_register v.web o s c
handle_route v o now s authorize_route c =
    get_authorize v.runtime o now (v.web.parse_qsl s.query_string) c
handle_route v o now s poll_route c =
    get_poll v.runtime v.web o now (v.web.parse_qsl s.query_string) c
handle_route v o now s token_route c =
    post_form v.runtime v.auditing o now (v.web.parse_qsl (read_body s.chunks)) c

abbrev pub unrouted : Bytes → WebAnswer
unrouted path = respond (if any (has_path path) routes then 405 else 404) (error not_found)

abbrev pub dispatch :
    Server
    → WebDraws
    → ℕ
    → Scope
    → Bytes
    → Option (String × String × Route)
    → Conn OauthDb
    → WebAnswer × Conn OauthDb
dispatch v o now s path none c = (unrouted path, c)
dispatch v o now s path (some r) c = handle_route v o now s r.2 c

-- `OAuthApp.__call__`
unfoldable pub serve :
    Crypto → Server → WebDraws → ℕ → Scope → Conn OauthDb → WebAnswer × Conn OauthDb
serve k v o now s c =
    let path = before_query (raw_of k s) in
    dispatch v o now s path (route_of (v.runtime.upper s.method) path) c
