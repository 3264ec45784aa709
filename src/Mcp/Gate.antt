-- ===== src/Mcp/Gate.antt =====
-- src/whatsvault/mcp/http_auth.py and mcp/auth.py: what stands between a request and the tools.
pub mod Passes
use whatsvault.Base.{
  ℕ, ◌+◌, String, Bool, true, false, not, ◌&&◌, ◌||◌, Option, none, some, List, [], ◌∷◌,
}
use whatsvault.Base.Eq.{if◌then◌else◌, ◌==◌, leb, nat_eq, string_eq, bytes_eq}
use whatsvault.Base.Table.{any, select}
use whatsvault.Base.Bytes.{Bytes, codes}
use whatsvault.Crypto.{Crypto}
use whatsvault.Oauth.Schema.{Runtime, OauthDb}
use whatsvault.Oauth.Token.{Claims, validate_access_token}
use whatsvault.Oauth.Http.{
  ScopeKind, lifespan, http, other_kind, Scope, raw_of, before_query, is_owned,
}

-- `auth.require_token`: none is the exception of `compare_digest`.
unfoldable pub require_token : Runtime → String → String → Option Bool
require_token rt provided expected =
    if provided == "" || expected == "" then some false else rt.compare_digest provided expected

-- `BearerAuthMiddleware`, as far as it decides: `_token`, and what `_control` has.
pub record Gate : Type 0 where
  pub runtime : Runtime
  pub latin1 : Bytes → String
  pub token : String
  pub control : Option OauthDb

-- `bytes.lower`
abbrev lower_byte : ℕ → ℕ
lower_byte b = if leb 65 b && leb b 90 then b + 32 else b

abbrev pub lower : Bytes → Bytes
lower [] = []
lower (b ∷ rest) = lower_byte b ∷ lower rest

abbrev pub values : List (Bytes × Bytes) → List Bytes
values [] = []
values (h ∷ rest) = h.1 ∷ values rest

abbrev pub is_authorization : Bytes × Bytes → Bool
is_authorization h = lower h.0 == codes "authorization"

-- The values of the authorization headers.
abbrev pub authorizations : List (Bytes × Bytes) → List Bytes
authorizations headers = values (select is_authorization headers)

-- `text.partition(" ")`
abbrev pub scheme_of : Bytes → Bytes
scheme_of [] = []
scheme_of (b ∷ rest) = if b == b' ' then [] else b ∷ scheme_of rest

abbrev pub after_scheme : Bytes → Bytes
after_scheme [] = []
after_scheme (b ∷ rest) = if b == b' ' then rest else after_scheme rest

-- What `str.strip` drops of Latin-1.
abbrev is_space : ℕ → Bool
is_space b = leb 9 b && leb b 13 || (leb 28 b && leb b 32 || (b == 133 || b == 160))

abbrev drop_left : Bytes → Bytes
drop_left [] = []
drop_left (b ∷ rest) = if is_space b then drop_left rest else b ∷ rest

abbrev drop_right : Bytes → Bytes
drop_right [] = []
drop_right (b ∷ rest) =
    let others = drop_right rest in if is_space b && others == [] then [] else b ∷ others

abbrev pub strip : Bytes → Bytes
strip text = drop_right (drop_left text)

-- What `_presented` returns, or the exception of the comparison.
pub data Presented : Type 0 where
  by_static by_oauth nothing fault : Presented

abbrev pub by_claims : Option Claims → Presented
by_claims none = nothing
by_claims (some c) = by_oauth

abbrev pub by_control : Gate → String → ℕ → Option OauthDb → Presented
by_control g presented now none = nothing
by_control g presented now (some db) = by_claims (validate_access_token g.runtime db presented now)

abbrev pub by_token : Gate → String → ℕ → Option Bool → Presented
by_token g presented now none = fault
by_token g presented now (some true) = by_static
by_token g presented now (some false) = by_control g presented now g.control

-- The token of the one header.
abbrev pub token_of : Gate → Bytes → String
token_of g value = g.latin1 (strip (after_scheme value))

abbrev pub by_value : Gate → ℕ → Bytes → Presented
by_value g now value =
    if lower (scheme_of value) == codes "bearer"
    then by_token g (token_of g value) now (require_token g.runtime (token_of g value) g.token)
    else nothing

abbrev pub by_values : Gate → ℕ → List Bytes → Presented
by_values g now [] = nothing
by_values g now (value ∷ []) = by_value g now value
by_values g now (value ∷ other ∷ rest) = nothing

-- `_presented`
unfoldable pub presented : Gate → ℕ → Scope → Presented
presented g now s = by_values g now (authorizations s.headers)

-- Where a scope ends: at the application behind the gate, at the authorization server, with an answer of
-- the gate, or with an exception.
pub data Passage : Type 0 where
  forwarded served not_found rejected failed : Passage

-- `path.startswith(_UNMOUNTED_PREFIXES)`, of the raw path or of the decoded one
abbrev pub is_unmounted : Crypto → Scope → Bool
is_unmounted k s = is_owned (before_query (raw_of k s)) || is_owned (codes s.path)

abbrev pub on_presented : Presented → Passage
on_presented by_static = forwarded
on_presented by_oauth = forwarded
on_presented nothing = rejected
on_presented fault = failed

-- `BearerAuthMiddleware.__call__`, by the kind of the scope
abbrev pub guard_kind : Crypto → Gate → ℕ → Scope → ScopeKind → Passage
guard_kind k g now s lifespan = forwarded
guard_kind k g now s other_kind = failed
guard_kind k g now s http = if is_unmounted k s then not_found else on_presented (presented g now s)

unfoldable pub guard : Crypto → Gate → ℕ → Scope → Passage
guard k g now s = guard_kind k g now s s.kind

abbrev pub route_kind : Crypto → Gate → ℕ → Scope → ScopeKind → Passage
route_kind k g now s lifespan = guard k g now s
route_kind k g now s other_kind = failed
route_kind k g now s http = if is_unmounted k s then served else guard k g now s

-- `PublicRouter.__call__`
unfoldable pub route : Crypto → Gate → ℕ → Scope → Passage
route k g now s = route_kind k g now s s.kind
