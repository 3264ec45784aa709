-- ===== src/Mcp/Tests/Gate.antt =====
-- Requests at the gate.
use whatsvault.Base.{◌≡◌, ◌↔◌, refl, true, false, none, some, [], ◌∷◌, ◌++◌}
use whatsvault.Base.Eq.{if◌then◌else◌, ◌==◌, string_eq, nat_eq, bytes_eq}
use whatsvault.Base.Conn.{Conn}
use whatsvault.Base.Bytes.{Bytes, codes}
use whatsvault.Crypto.{Crypto}
use whatsvault.Oauth.Schema.{Runtime, OauthDb, access}
use whatsvault.Oauth.Token.{validate_access_token, revoke_all}
use whatsvault.Oauth.Http.{http, Scope}
use whatsvault.Mcp.Gate.{
  require_token, Gate, authorizations, token_of, presented, forwarded, served, not_found, rejected,
  is_unmounted, guard, route,
}
use whatsvault.Mcp.Gate.Passes.{Admitted, route-Admitted_iff, route-revoked}

abbrev crypto : Crypto
crypto = record {
  utf8 = codes;
  decode_utf8 = λ b. none;
  sha256 = λ b. b;
  hex = λ b. "digest";
  ecdsa_verify = λ key r s payload. true;
}

abbrev rt : Runtime
rt = record {
  hash = λ s. s;
  s256 = λ s. s;
  upper = λ s. s;
  strip = λ s. s;
  compare_digest = λ a b. some (a == b);
}

abbrev tables : OauthDb
tables = record {
  clients = [];
  pending = [];
  codes = [];
  tokens =
      record {
        token_hash = "oauth";
        kind = access;
        client_id = "wvc_1";
        scope = "whatsvault.read";
        issued_ms = 1000;
        expires_ms = 9000;
        revoked_ms = none;
        grant_id = none;
      }
      ∷ [];
  audit_log = [];
}

abbrev conn : Conn OauthDb
conn = record { work = tables; saved = tables }

-- Of the stand-in for Latin-1 only two texts are used.
abbrev gate : OauthDb → Gate
gate db = record {
  runtime = rt;
  latin1 =
      λ b. if b == codes "secret" then "secret" else if b == codes "oauth" then "oauth" else "";
  token = "secret";
  control = some db;
}

abbrev bearing : Bytes → Scope
bearing value = record {
  kind = http;
  raw_path = some (codes "/mcp");
  path = "/mcp";
  method = "POST";
  query_string = [];
  headers = (codes "Authorization", value) ∷ [];
  chunks = [];
}

abbrev by_secret : Scope
by_secret = bearing (codes "Bearer  secret ")

abbrev by_token : Scope
by_token = bearing (codes "bearer oauth")

-- Either token passes, no token is rejected, a second header is rejected, and the prefix is not the
-- application's, with or without a token.
route-ways_run :
    (route crypto (gate tables) 2000 by_secret ≡ forwarded)
    × (route crypto (gate tables) 2000 by_token ≡ forwarded)
    × (route crypto (gate tables) 2000 (record by_token { headers = [] }) ≡ rejected)
    × (route crypto
          (gate tables)
          2000
          (record by_token { headers = by_token.headers ++ by_token.headers })
        ≡ rejected)
    × (route crypto
          (gate tables)
          2000
          (record by_secret { raw_path = some (codes "/oauth/../mcp") })
        ≡ served)
    × (guard crypto
          (gate tables)
          2000
          (record by_secret { raw_path = some (codes "/oauth/../mcp") })
        ≡ not_found)
unfolding route guard presented require_token validate_access_token bytes_eq nat_eq string_eq
route-ways_run = (refl, refl, refl, refl, refl, refl)

route-Admitted_iff_example :
    (route crypto (gate tables) 2000 by_token ≡ forwarded)
    ↔ ((is_unmounted crypto by_token ≡ false) × Admitted (gate tables) 2000 by_token)
route-Admitted_iff_example = route-Admitted_iff (gate tables) 2000 crypto by_token refl

route-revoked_example :
    (value : Bytes) × (authorizations by_secret.headers ≡ value ∷ [])
    × (require_token rt (token_of (gate (revoke_all true 1500 conn).1.saved) value) "secret"
        ≡ some true)
unfolding route guard presented require_token validate_access_token bytes_eq nat_eq string_eq
route-revoked_example =
    route-revoked crypto (gate (revoke_all true 1500 conn).1.saved) true 1500 2000 conn by_secret
      refl refl refl
