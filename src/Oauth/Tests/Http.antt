-- ===== src/Oauth/Tests/Http.antt =====
-- A request for tokens at the endpoints.
use whatsvault.Base.{String, ◌≡◌, refl, true, none, some, List, [], ◌∷◌}
use whatsvault.Base.Eq.{string_eq, nat_eq, bytes_eq, option_eq}
use whatsvault.Base.Bytes.{codes}
use whatsvault.Crypto.{Crypto}
use whatsvault.Oauth.Clients.{
  register_client, check_registration, check_uris, check_uri, insert_client, client, check_redirect,
  any_same,
}
use whatsvault.Oauth.Authorize.{
  begin_authorization, collect_expired, begin_checked, check_request, insert_pending, approve,
  check_approval, poll, hand_over,
}
use whatsvault.Oauth.Token.{exchange_code, check_code, redeem, issue}
use whatsvault.Oauth.Tests.{rt, rt-Same, callback, challenge, polled, first_pair, issued}
use whatsvault.Oauth.Http.{
  http, Scope, not_object, WebDraws, Server, error, not_found, respond, post_form, route_of,
  handle_route, serve,
}
use whatsvault.Oauth.Http.Answers.{Earned, serve-Earned}

abbrev crypto : Crypto
crypto = record {
  utf8 = codes;
  decode_utf8 = λ b. none;
  sha256 = λ b. b;
  hex = λ b. "digest";
  ecdsa_verify = λ key r s payload. true;
}

abbrev form : List (String × String)
form =
    ("grant_type", "authorization_code")
    ∷ ("code", "wvo_1")
    ∷ ("client_id", "wvc_1")
    ∷ ("redirect_uri", callback)
    ∷ ("code_verifier", challenge)
    ∷ []

abbrev server : Server
server = record {
  runtime = rt;
  web = record {
    parse_qsl = λ b. form;
    urlencode = λ l. "code=wvo_1";
    loads = λ b. not_object;
    latin1 = λ b. "";
  };
  auditing = true;
}

abbrev draws : WebDraws
draws = record {
  client_id = "wvc_2";
  request_id = "wvr_2";
  user_code = "IJKL-MNOP";
  code = "wvo_2";
  secrets = first_pair;
}

abbrev ask : Scope
ask = record {
  kind = http;
  raw_path = some (codes "/oauth/token?x=1");
  path = "/oauth/token";
  method = "POST";
  query_string = [];
  headers = [];
  chunks = codes "form" ∷ [];
}

-- The wrong method on a path of the server, and a path that climbs out of it.
serve-unrouted :
    ((serve crypto server draws 4000 (record ask { method = "GET" }) polled.1).0
      ≡ respond 405 (error not_found))
    × ((serve crypto server draws 4000
          (record ask { raw_path = some (codes "/oauth/../mcp") })
          polled.1).0
        ≡ respond 404 (error not_found))
unfolding serve route_of bytes_eq nat_eq string_eq
serve-unrouted = (refl, refl)

serve-Earned_example :
    (ask.method ≡ "POST")
    × (codes "/oauth/token" ≡ codes "/oauth/token")
    × Earned rt form 4000 polled.1.work (serve crypto server draws 4000 ask polled.1).1.saved issued
unfolding serve route_of handle_route post_form bytes_eq string_eq nat_eq register_client
    check_registration check_uris check_uri insert_client begin_authorization collect_expired
    begin_checked check_request client check_redirect any_same insert_pending approve check_approval
    poll hand_over exchange_code check_code redeem issue option_eq
serve-Earned_example = serve-Earned server rt-Same draws 4000 polled.1 crypto ask issued refl
