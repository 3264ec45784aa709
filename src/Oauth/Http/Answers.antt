-- ===== src/Oauth/Http/Answers.antt =====
-- What the answers of the endpoints rest on.
use whatsvault.Base.{
  ℕ, String, ◌≡◌, refl, sym, ◌∙◌, ap, true, ◌&&◌, Option, none, some, List, arith,
}
use whatsvault.Base.Eq.{
  if◌then◌else◌, either_way, ◌==◌, ==-sound, string_eq, bytes_eq, option_eq, if_cases,
}
use whatsvault.Base.Table.{All, find-All, find_sound}
use whatsvault.Base.Conn.{Conn}
use whatsvault.Base.Bytes.{Bytes, codes}
use whatsvault.Crypto.{Crypto}
use whatsvault.Oauth.Schema.{
  Runtime, CodeRow, TokenRow, OauthDb, Error, oauth_error, type_error, integrity_error, Result, ok,
  err,
}
use whatsvault.Oauth.Clients.{register_client}
use whatsvault.Oauth.Authorize.{HandedCode, begin_authorization}
use whatsvault.Oauth.Authorize as Authorize
use whatsvault.Oauth.Token.{Issued}
use whatsvault.Oauth.Token.Exchange.{Same, Redeemable, exchange_code-Redeemable}
use whatsvault.Oauth.Token.Family.{Rotated, refresh-Rotated}
use whatsvault.Oauth.Http.{
  as_metadata_route, pr_metadata_route, register_route, authorize_route, poll_route, registered,
  Parsed, not_json, not_object, object, asked_by, consent, consented, unsupported_response_type,
  Scope, WebDraws, raw_of, before_query, read_body, get, Body, error, tokens, WebAnswer, response,
  raised, refusal, respond, unsupported_grant_type, answer_of, granted, exchange_form, refresh_form,
  post_form, Route, token_route, routes, has_path, route_of, Server, handle_route, dispatch, serve,
  register_parsed, register_uris, post_register, get_authorize, get_poll, poll_answer,
}

abbrev pub in_body : Body → Option Issued
in_body (tokens t) = some t
in_body _ = none

-- The tokens of an answer.
abbrev pub tokens_in : WebAnswer → Option Issued
tokens_in (response r) = in_body r.body
tokens_in raised = none

-- What a form that gets tokens satisfies.
pub data Earned (rt : Runtime) (form : List (String × String)) (now : ℕ) (before after : OauthDb)
    (t : Issued) : Type 0 where
  by_code :
      get "grant_type" form ≡ some "authorization_code"
      → (row : CodeRow)
      → Redeemable rt before
          (get "code" form)
          (get "client_id" form)
          (get "redirect_uri" form)
          (get "code_verifier" form)
          now
          row
      → Earned rt form now before after t
  by_refresh :
      get "grant_type" form ≡ some "refresh_token"
      → (row : TokenRow)
      → Rotated rt (get "refresh_token" form) (get "client_id" form) now before after t row
      → Earned rt form now before after t

refusal-no_tokens : (e : Error) → tokens_in (refusal e) ≡ none
refusal-no_tokens (oauth_error code) = refl
refusal-no_tokens type_error = refl
refusal-no_tokens integrity_error = refl

answer_of-no_tokens :
    {A : Type 0} (f : A → WebAnswer) (r : Result A)
    → ((a : A) → tokens_in (f a) ≡ none)
    → tokens_in (answer_of f r) ≡ none
answer_of-no_tokens f (ok a) h = h a
answer_of-no_tokens f (err e) h = refusal-no_tokens e

granted-tokens :
    (r : Result Issued × Conn OauthDb) (t : Issued) → tokens_in (granted r).0 ≡ some t → r.0 ≡ ok t
granted-tokens (ok t', c) t h = cc
granted-tokens (err e, c) t h = ground (arith, refusal-no_tokens e, h)

module _ (v : Server) (law : Same v.runtime) (o : WebDraws) (now : ℕ) (c : Conn OauthDb) where
  -- Tokens that an answer hands out were earned by the form.
  abbrev IsEarned : List (String × String) → WebAnswer × Conn OauthDb → Type 0
  IsEarned form x =
      (t : Issued) → tokens_in x.0 ≡ some t → Earned v.runtime form now c.work x.1.saved t

  post_form-Earned :
      (form : List (String × String)) → IsEarned form (post_form v.runtime v.auditing o now form c)
  unfolding post_form
  post_form-Earned form =
      let by_exchange = granted (exchange_form v.runtime v.auditing o now form c) in
      let by_rotation = granted (refresh_form v.runtime v.auditing o now form c) in
      let refused : WebAnswer × Conn OauthDb = (respond 400 (error unsupported_grant_type), c) in
      let is_refresh = get "grant_type" form == some "refresh_token" in
      if_cases (IsEarned form) (get "grant_type" form == some "authorization_code") by_exchange
        (if is_refresh then by_rotation else refused)
        (λ asked t h.
          let (row, redeemable) =
            exchange_code-Redeemable v.runtime law v.auditing o.secrets (get "code" form)
              (get "client_id" form) (get "redirect_uri" form) (get "code_verifier" form) now c t
              (granted-tokens (exchange_form v.runtime v.auditing o now form c) t h) in
          by_code (==-sound (get "grant_type" form) (some "authorization_code") asked) row
            redeemable)
        (λ other.
          if_cases (IsEarned form) is_refresh by_rotation refused
            (λ asked t h.
              let (row, rotated) =
                refresh-Rotated v.runtime v.auditing o.secrets (get "refresh_token" form)
                  (get "client_id" form) now c t
                  (granted-tokens (refresh_form v.runtime v.auditing o now form c) t h) in
              by_refresh (==-sound (get "grant_type" form) (some "refresh_token") asked) row
                rotated)
            (λ no_grant t h. cc))

  register_uris-no_tokens :
      (name : Option String) (uris : Option (List String))
      → tokens_in (register_uris o name uris c).0 ≡ none
  register_uris-no_tokens name none = refl
  register_uris-no_tokens name (some uris) =
      answer_of-no_tokens (λ row. respond 201 (registered row))
        (register_client o.client_id name uris c).0 (λ row. refl)

  register_parsed-no_tokens : (p : Parsed) → tokens_in (register_parsed o p c).0 ≡ none
  register_parsed-no_tokens not_json = refl
  register_parsed-no_tokens not_object = refl
  register_parsed-no_tokens (object name uris) = register_uris-no_tokens name uris

  get_authorize-no_tokens :
      (query : List (String × String)) → tokens_in (get_authorize v.runtime o now query c).0 ≡ none
  unfolding get_authorize
  get_authorize-no_tokens query =
      let r = begin_authorization v.runtime (asked_by query) o.request_id o.user_code now c in
      either_way (λ (x : WebAnswer × Conn OauthDb). tokens_in x.0 ≡ none)
        (get "response_type" query == some "code") (consented r)
        (respond 400 (error unsupported_response_type), c)
        (answer_of-no_tokens (λ row. respond 200 (consent row)) r.0 (λ row. refl)) refl

  poll_answer-no_tokens : (h : Option HandedCode) → tokens_in (poll_answer v.web h) ≡ none
  poll_answer-no_tokens none = refl
  poll_answer-no_tokens (some h) = refl

  get_poll-no_tokens :
      (query : List (String × String)) → tokens_in (get_poll v.runtime v.web o now query c).0 ≡ none
  unfolding get_poll
  get_poll-no_tokens query =
      answer_of-no_tokens (poll_answer v.web)
        (Authorize.poll v.runtime o.code (get "request_id" query) now c).0 poll_answer-no_tokens

  abbrev form_of : Scope → List (String × String)
  form_of s = v.web.parse_qsl (read_body s.chunks)

  handle_route-Earned :
      (s : Scope) (r : Route) (t : Issued)
      → tokens_in (handle_route v o now s r c).0 ≡ some t
      → (r ≡ token_route)
        × Earned v.runtime (form_of s) now c.work (handle_route v o now s r c).1.saved t
  unfolding handle_route post_register
  handle_route-Earned s as_metadata_route t h = cc
  handle_route-Earned s pr_metadata_route t h = cc
  handle_route-Earned s register_route t h =
      ground (arith, h, register_parsed-no_tokens (v.web.loads (read_body s.chunks)))
  handle_route-Earned s authorize_route t h =
      ground (arith, h, get_authorize-no_tokens (v.web.parse_qsl s.query_string))
  handle_route-Earned s poll_route t h =
      ground (arith, h, get_poll-no_tokens (v.web.parse_qsl s.query_string))
  handle_route-Earned s token_route t h = (refl, post_form-Earned (form_of s) t h)

  abbrev IsTokenRoute : String × String × Route → Type 0
  IsTokenRoute r = r.2 ≡ token_route → (r.0 ≡ "POST") × (r.1 ≡ "/oauth/token")

  routes-IsTokenRoute : All IsTokenRoute routes
  routes-IsTokenRoute =
      (λ h. cc, (λ h. cc, (λ h. cc, (λ h. cc, (λ h. cc, (λ h. cc, (λ h. (refl, refl), tt)))))))

  route_of_sound :
      (method : String) (path : Bytes) (r : String × String × Route)
      → route_of method path ≡ some r
      → ((r.0 == method && has_path path r) ≡ true) × IsTokenRoute r
  unfolding route_of
  route_of_sound method path r h =
      let matches = λ (x : String × String × Route). x.0 == method && has_path path x in
      (find_sound matches routes r h, find-All IsTokenRoute matches routes r routes-IsTokenRoute h)

  dispatch-Earned :
      (s : Scope) (method : String) (path : Bytes) (t : Issued)
      (x : Option (String × String × Route))
      → route_of method path ≡ x
      → tokens_in (dispatch v o now s path x c).0 ≡ some t
      → (method ≡ "POST")
        × (path ≡ codes "/oauth/token")
        × Earned v.runtime (form_of s) now c.work (dispatch v o now s path x c).1.saved t
  dispatch-Earned s method path t none e h = cc
  dispatch-Earned s method path t (some r) e h =
      let (there, only) = route_of_sound method path r e in
      let (is_token, earned) = handle_route-Earned s r.2 t h in
      let (post, at) = only is_token in
      let same_method = ==-sound r.0 method (ground (arith, there)) in
      let same_path = ==-sound (codes r.1) path (ground (arith, there)) in
      (sym same_method ∙ post, sym same_path ∙ ap codes at, earned)

  -- An answer hands out tokens only to a POST on /oauth/token, whose form has a code that is unspent and
  -- not expired, with the client, the redirect and the verifier of its authorization, or else a refresh
  -- token that is not revoked and not expired, of that client, whose family is replaced by the new
  -- pair: where two texts that compare as the same are the same.
  pub serve-Earned :
      (k : Crypto) (s : Scope) (t : Issued)
      → tokens_in (serve k v o now s c).0 ≡ some t
      → (v.runtime.upper s.method ≡ "POST")
        × (before_query (raw_of k s) ≡ codes "/oauth/token")
        × Earned v.runtime
            (v.web.parse_qsl (read_body s.chunks))
            now
            c.work
            (serve k v o now s c).1.saved
            t
  unfolding serve
  serve-Earned k s t h =
      let path = before_query (raw_of k s) in
      let method = v.runtime.upper s.method in
      dispatch-Earned s method path t (route_of method path) refl h
