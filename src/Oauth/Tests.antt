-- ===== src/Oauth/Tests.antt =====
-- One authorization, end to end, and the theorems on it at concrete inputs.
mod Http
use whatsvault.Base.{
  ◌+◌, ◌≤◌, String, ◌≡◌, refl, Bool, true, Option, none, some, [], ◌∷◌, ◌++◌, arith,
}
use whatsvault.Base.Eq.{◌==◌, ==-sound, string_eq, option_eq, nat_eq}
use whatsvault.Base.Table.{All, any, count}
use whatsvault.Base.Conn.{Conn}
use whatsvault.Oauth.Schema.{
  Runtime, ClientRow, PendingRow, CodeRow, TokenRow, OauthDb, TokenKind, oauth_error, invalid_grant,
  Result, ok, err, or_empty, read_only_scope,
}
use whatsvault.Oauth.Clients.{
  IsSafe, text_length, max_redirect_uris, check_uri, check_uris, check_registration, insert_client,
  register_client, client, any_same, check_redirect, register_client-IsSafe,
  check_redirect-Registered,
}
use whatsvault.Oauth.Authorize.{
  AuthorizationRequest, is_live, max_pending, min_challenge_len, max_challenge_len, pending_ttl_ms,
  collect_expired, check_request, insert_pending, begin_checked, Begun, begin_authorization,
  check_approval, approve, hand_over, poll, HandedCode,
}
use whatsvault.Oauth.Authorize.Pending.{
  begin_authorization-max_pending, Filed, begin_authorization-request,
}
use whatsvault.Oauth.Authorize.Collect.{Collected, poll-Collected, poll-once}
use whatsvault.Oauth.Token.{
  Secrets, Issued, issue, check_code, redeem, exchange_code, is_family, is_unrevoked, check_refresh,
  rotate, refresh, validate_access_token, revoke_all,
}
use whatsvault.Oauth.Token.Exchange.{Same, Redeemable, exchange_code-Redeemable, exchange_code-once}
use whatsvault.Oauth.Token.Family.{Rotated, refresh-reuse, refresh-Rotated, revoke_all-invalidates}

-- Stand-ins for the standard library: a digest that changes nothing, and ASCII of one case.
abbrev rt : Runtime
rt = record {
  hash = λ s. s;
  s256 = λ s. s;
  upper = λ s. s;
  strip = λ s. s;
  compare_digest = λ a b. some (a == b);
}

some-true : (b : Bool) → some b ≡ some true → b ≡ true
some-true b h = cc

rt-Same : Same rt
rt-Same a b h = ==-sound a b (some-true (a == b) h)

abbrev empty : Conn OauthDb
empty =
    let db : OauthDb = record {
      clients = [];
      pending = [];
      codes = [];
      tokens = [];
      audit_log = [];
    } in
    record { work = db; saved = db }

abbrev callback : String
callback = "https://client/cb"

abbrev challenge : String
challenge = "abcdefghijklmnopqrstuvwxyzabcdefghijklmnopqrstuvwxyz"

abbrev registered : Conn OauthDb
registered = (register_client "wvc_1" (some "client") (callback ∷ []) empty).1

abbrev request : AuthorizationRequest
request = record {
  client_id = some "wvc_1";
  redirect_uri = some callback;
  code_challenge = some challenge;
  code_challenge_method = some "S256";
  state = some "xyz";
}

abbrev begun : Conn OauthDb
begun = (begin_authorization rt request "wvr_1" "ABCD-EFGH" 1000 registered).1

abbrev approved : Conn OauthDb
approved = (approve rt true (some "ABCD-EFGH") 2000 begun).1

abbrev polled : Result (Option HandedCode) × Conn OauthDb
polled = poll rt "wvo_1" (some "wvr_1") 3000 approved

abbrev handed : HandedCode
handed = record {
  code = "wvo_1";
  state = some "xyz";
  redirect_uri = callback;
  scope = read_only_scope;
}

abbrev first_pair : Secrets
first_pair = record { access = "wva_1"; refresh = "wvf_1"; grant = "wvg_1" }

abbrev second_pair : Secrets
second_pair = record { access = "wva_2"; refresh = "wvf_2"; grant = "wvg_2" }

abbrev exchanged : Result Issued × Conn OauthDb
exchanged =
    exchange_code rt true first_pair (some "wvo_1") (some "wvc_1") (some callback) (some challenge)
      4000 polled.1

abbrev refreshed : Result Issued × Conn OauthDb
refreshed = refresh rt true second_pair (some "wvf_1") (some "wvc_1") 5000 exchanged.1

abbrev issued : Issued
issued = record { access_token = "wva_1"; refresh_token = "wvf_1"; scope = read_only_scope }

abbrev issued_again : Issued
issued_again = record { access_token = "wva_2"; refresh_token = "wvf_2"; scope = read_only_scope }

-- Every step of the flow succeeds.
flow :
    (polled.0 ≡ ok (some handed))
    × (exchanged.0 ≡ ok issued)
    × (refreshed.0 ≡ ok issued_again)
    × (validate_access_token rt refreshed.1.work "wva_1" 6000 ≡ none)
unfolding string_eq nat_eq register_client check_registration check_uris check_uri insert_client
    begin_authorization collect_expired begin_checked check_request client check_redirect any_same
    insert_pending approve check_approval poll hand_over exchange_code check_code redeem issue
    refresh check_refresh rotate option_eq validate_access_token
flow = (refl, refl, refl, refl)

abbrev own_row : ClientRow
own_row = record { client_id = "wvc_1"; client_name = "client"; redirect_uris = callback ∷ [] }

check_redirect-Registered_example :
    (callback ≡ or_empty (some callback))
    × (any (λ (x : String). x == callback) own_row.redirect_uris ≡ true)
unfolding check_redirect any_same string_eq
check_redirect-Registered_example =
    check_redirect-Registered rt own_row (some callback) callback rt-Same refl

begin_authorization-max_pending_example :
    count
      (is_live 1500)
      (begin_authorization rt request "wvr_1" "ABCD-EFGH" 1000 registered).1.work.pending
    ≤ 25
unfolding register_client check_registration check_uris check_uri insert_client string_eq nat_eq
begin_authorization-max_pending_example =
    begin_authorization-max_pending rt request "wvr_1" "ABCD-EFGH" 1000 1500 registered
      (omega arith) (omega arith)

abbrev told : Begun
told = record {
  request_id = "wvr_1";
  user_code = "ABCD-EFGH";
  client_name = "client";
  expires_ms = 601000;
  scope = read_only_scope;
}

begin_authorization-request_example :
    Filed rt request 1000 told (collect_expired 1000 registered).1.work begun
unfolding string_eq nat_eq register_client check_registration check_uris check_uri insert_client
    begin_authorization collect_expired begin_checked check_request client check_redirect any_same
    insert_pending
begin_authorization-request_example =
    begin_authorization-request rt request "wvr_1" "ABCD-EFGH" 1000 registered told rt-Same refl

poll-Collected_example : Collected rt "wvo_1" (some "wvr_1") 3000 handed approved polled.1
poll-Collected_example = poll-Collected rt "wvo_1" (some "wvr_1") 3000 approved handed flow.0

poll-once_example : poll rt "wvo_2" (some "wvr_1") 3001 polled.1 ≡ (ok none, polled.1)
poll-once_example = poll-once rt "wvo_1" (some "wvr_1") 3000 approved handed "wvo_2" 3001 flow.0

exchange_code-Redeemable_example :
    (row : CodeRow) × Redeemable rt polled.1.work
      (some "wvo_1")
      (some "wvc_1")
      (some callback)
      (some challenge)
      4000
      row
exchange_code-Redeemable_example =
    exchange_code-Redeemable rt rt-Same true first_pair (some "wvo_1") (some "wvc_1")
      (some callback) (some challenge) 4000 polled.1 issued flow.1

exchange_code-once_example :
    (exchange_code rt true second_pair
      (some "wvo_1")
      (some "wvc_1")
      (some callback)
      (some challenge)
      4001
      exchanged.1).0
    ≡ err (oauth_error invalid_grant)
exchange_code-once_example =
    exchange_code-once rt rt-Same true first_pair (some "wvo_1") (some "wvc_1") (some callback)
      (some challenge) 4000 polled.1 issued flow.1 second_pair (some "wvc_1") (some callback)
      (some challenge) 4001

refresh-Rotated_example :
    (row : TokenRow) × Rotated rt
      (some "wvf_1")
      (some "wvc_1")
      5000
      exchanged.1.work
      refreshed.1.saved
      issued_again
      row
refresh-Rotated_example =
    refresh-Rotated rt true second_pair (some "wvf_1") (some "wvc_1") 5000 exchanged.1 issued_again
      flow.2

abbrev rotated_away : TokenRow
rotated_away = record {
  token_hash = "wvf_1";
  kind = TokenKind.refresh;
  client_id = "wvc_1";
  scope = read_only_scope;
  issued_ms = 4000;
  expires_ms = 2592004000;
  revoked_ms = some 5000;
  grant_id = some "wvg_1";
}

refresh-reuse_example :
    ((refresh rt true second_pair (some "wvf_1") (some "wvc_1") 6000 refreshed.1).0
      ≡ err (oauth_error invalid_grant))
    × (count
          (is_family rotated_away.grant_id)
          (refresh rt true second_pair
            (some "wvf_1")
            (some "wvc_1")
            6000
            refreshed.1).1.saved.tokens
        ≡ 0)
unfolding string_eq nat_eq register_client check_registration check_uris check_uri insert_client
    begin_authorization collect_expired begin_checked check_request client check_redirect any_same
    insert_pending approve check_approval poll hand_over exchange_code check_code redeem issue
    refresh check_refresh rotate option_eq
refresh-reuse_example =
    refresh-reuse rt true second_pair (some "wvf_1") (some "wvc_1") 6000 refreshed.1 rotated_away
      refl refl

revoke_all-invalidates_example :
    (validate_access_token rt (revoke_all true 7000 refreshed.1).1.saved "wva_2" 7001 ≡ none)
    × (count is_unrevoked (revoke_all true 7000 refreshed.1).1.saved.tokens ≡ 0)
revoke_all-invalidates_example = revoke_all-invalidates rt true 7000 refreshed.1 "wva_2" 7001
