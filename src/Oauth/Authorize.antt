-- ===== src/Oauth/Authorize.antt =====
-- The authorization requests: begun by a client, approved at the terminal, and collected.
pub mod Pending
pub mod Collect
use whatsvault.Base.{
  ℕ, ◌+◌, String, Bool, true, false, not, ◌&&◌, ◌||◌, Option, none, some, List, [], ◌∷◌, ◌++◌,
}
use whatsvault.Base.Eq.{if◌then◌else◌, ◌==◌, string_eq, nat_eq, ltb, leb}
use whatsvault.Base.Table.{find, select, update, count, any}
use whatsvault.Base.Conn.{Conn, write, commit}
use whatsvault.Oauth.Schema.{
  Runtime, ClientRow, PendingRow, CodeRow, TokenRow, OauthDb, Error, oauth_error, integrity_error,
  type_error, invalid_request, expired_token, temporarily_unavailable, Result, ok, err, ◌>>=◌, ◌>>◌,
  refuse_if, some_or, is_null, or_empty, read_only_scope, audit,
}
use whatsvault.Oauth.Clients.{text_length, client, check_redirect}

-- 60_000 and 600_000
abbrev pub code_ttl_ms : ℕ
code_ttl_ms = 60000

abbrev pub pending_ttl_ms : ℕ
pending_ttl_ms = 600000

abbrev pub max_state_len : ℕ
max_state_len = 512

abbrev pub max_challenge_len : ℕ
max_challenge_len = 128

abbrev pub min_challenge_len : ℕ
min_challenge_len = 43

abbrev pub max_pending : ℕ
max_pending = 25

abbrev pub unexpired_pending : ℕ → PendingRow → Bool
unexpired_pending now r = ltb now r.expires_ms

abbrev pub unexpired_code : ℕ → CodeRow → Bool
unexpired_code now r = ltb now r.expires_ms

abbrev pub unexpired_token : ℕ → TokenRow → Bool
unexpired_token now r = ltb now r.expires_ms

-- `collect_expired`: the rows deleted, and the connection after it.
unfoldable pub collect_expired : ℕ → Conn OauthDb → ℕ × Conn OauthDb
collect_expired now c = (
  count (λ r. not (unexpired_pending now r)) c.work.pending
      + count (λ r. not (unexpired_code now r)) c.work.codes
      + count (λ r. not (unexpired_token now r)) c.work.tokens,
  commit (
      write
        (record c.work {
          pending = select (unexpired_pending now) c.work.pending;
          codes = select (unexpired_code now) c.work.codes;
          tokens = select (unexpired_token now) c.work.tokens;
        })
        c),
)

-- `WHERE approved_ms IS NULL AND expires_ms > ?`
abbrev pub is_live : ℕ → PendingRow → Bool
is_live now r = is_null r.approved_ms && ltb now r.expires_ms

-- The arguments of `begin_authorization`; the scope asked for is read nowhere.
pub record AuthorizationRequest : Type 0 where
  pub client_id : Option String
  pub redirect_uri : Option String
  pub code_challenge : Option String
  pub code_challenge_method : Option String
  pub state : Option String

abbrev pub state_too_long : Option String → Bool
state_too_long none = false
state_too_long (some s) = ltb max_state_len (text_length s)

-- The checks between the cap on pending requests and the INSERT: the client, the redirect and the
-- challenge.
unfoldable pub check_request :
    Runtime → OauthDb → AuthorizationRequest → Result (ClientRow × String × String)
check_request rt db r = do
  row ← client db r.client_id
  redirect ← check_redirect rt row r.redirect_uri
  refuse_if (state_too_long r.state) invalid_request
  let challenge = or_empty r.code_challenge
  refuse_if (text_length challenge == 0) invalid_request
  refuse_if (ltb max_challenge_len (text_length challenge)) invalid_request
  refuse_if (ltb (text_length challenge) min_challenge_len) invalid_request
  refuse_if (not (rt.upper (or_empty r.code_challenge_method) == "S256")) invalid_request
  ok (row, redirect, challenge)

abbrev pub pending_row : String → String → String → String → Option String → String → ℕ → PendingRow
pending_row request_id user_code client_id redirect state challenge now = record {
  request_id = request_id;
  user_code = user_code;
  client_id = client_id;
  redirect_uri = redirect;
  state = state;
  code_challenge = challenge;
  scope = read_only_scope;
  created_ms = now;
  expires_ms = now + pending_ttl_ms;
  approved_ms = none;
  collected_ms = none;
}

-- What `begin_authorization` returns.
pub record Begun : Type 0 where
  pub request_id : String
  pub user_code : String
  pub client_name : String
  pub expires_ms : ℕ
  pub scope : String

-- The INSERT, with the primary key and the UNIQUE user code, and the answer. The client was just found.
unfoldable pub insert_pending : String → PendingRow → Conn OauthDb → Result Begun × Conn OauthDb
insert_pending client_name row c =
    if any (λ (x : PendingRow). x.request_id == row.request_id || x.user_code == row.user_code)
      c.work.pending
    then (err integrity_error, c)
    else (
      ok (record {
        request_id = row.request_id;
        user_code = row.user_code;
        client_name = client_name;
        expires_ms = row.expires_ms;
        scope = row.scope;
      }),
      commit (write (record c.work { pending = c.work.pending ++ row ∷ [] }) c),
    )

unfoldable pub begin_checked :
    Runtime
    → AuthorizationRequest
    → String
    → String
    → ℕ
    → Conn OauthDb
    → Result Begun × Conn OauthDb
begin_checked rt r request_id user_code now c = elim (check_request rt c.work r) [
  | err e ↦ (err e, c)
  | ok (row, redirect, challenge) ↦
      insert_pending row.client_name
        (pending_row request_id user_code row.client_id redirect r.state challenge now) c
]

-- `begin_authorization`, with the request identifier and the user code that it draws.
unfoldable pub begin_authorization :
    Runtime
    → AuthorizationRequest
    → String
    → String
    → ℕ
    → Conn OauthDb
    → Result Begun × Conn OauthDb
begin_authorization rt r request_id user_code now c =
    let c' = (collect_expired now c).1 in
    if leb max_pending (count (is_live now) c'.work.pending)
    then (err (oauth_error temporarily_unavailable), c')
    else begin_checked rt r request_id user_code now c'

-- `approve`
unfoldable pub check_approval : Runtime → OauthDb → Option String → ℕ → Result PendingRow
check_approval rt db user_code now = do
  row ←
      some_or
        (find (λ (x : PendingRow). x.user_code == rt.upper (rt.strip (or_empty user_code)))
          db.pending)
        invalid_request
  refuse_if (not (is_null row.approved_ms)) invalid_request
  refuse_if (ltb row.expires_ms now) expired_token
  ok row

abbrev pub mark_approved : ℕ → PendingRow → PendingRow
mark_approved now r = record r { approved_ms = some now }

unfoldable pub approve :
    Runtime → Bool → Option String → ℕ → Conn OauthDb → Result PendingRow × Conn OauthDb
approve rt auditing user_code now c = elim (check_approval rt c.work user_code now) [
  | err e ↦ (err e, c)
  | ok row ↦ (
    ok row,
    commit (
        audit auditing "oauth.approve" "ok" now (
          write
            (record c.work {
              pending =
                  update (λ (x : PendingRow). x.request_id == row.request_id) (mark_approved now)
                    c.work.pending;
            })
            c)),
  )
]

-- `poll` hands over a code, and with it what the client must present.
pub record HandedCode : Type 0 where
  pub code : String
  pub state : Option String
  pub redirect_uri : String
  pub scope : String

abbrev pub is_ready : ℕ → PendingRow → Bool
is_ready now r =
    not (is_null r.approved_ms) && (is_null r.collected_ms && not (ltb r.expires_ms now))

abbrev pub code_row : Runtime → String → PendingRow → ℕ → CodeRow
code_row rt code r now = record {
  code_hash = rt.hash code;
  client_id = r.client_id;
  redirect_uri = r.redirect_uri;
  code_challenge = r.code_challenge;
  scope = r.scope;
  issued_ms = now;
  expires_ms = now + code_ttl_ms;
  consumed_ms = none;
}

abbrev pub mark_collected : ℕ → PendingRow → PendingRow
mark_collected now r = record r { collected_ms = some now }

-- The INSERT of the code, and the mark on the request.
unfoldable pub hand_over :
    Runtime → String → PendingRow → ℕ → Conn OauthDb → Result (Option HandedCode) × Conn OauthDb
hand_over rt code r now c =
    if any (λ (x : CodeRow). x.code_hash == rt.hash code) c.work.codes
    then (err integrity_error, c)
    else (
      ok (
          some (record {
            code = code;
            state = r.state;
            redirect_uri = r.redirect_uri;
            scope = r.scope;
          })),
      commit (
          write
            (record c.work {
              codes = c.work.codes ++ code_row rt code r now ∷ [];
              pending =
                  update (λ (x : PendingRow). x.request_id == r.request_id) (mark_collected now)
                    c.work.pending;
            })
            c),
    )

abbrev pub by_request : Option String → OauthDb → Option PendingRow
by_request request_id db = find (λ (x : PendingRow). x.request_id == or_empty request_id) db.pending

-- `poll`, with the code that `_new_secret` draws.
unfoldable pub poll :
    Runtime → String → Option String → ℕ → Conn OauthDb → Result (Option HandedCode) × Conn OauthDb
poll rt code request_id now c = elim (by_request request_id c.work) [
  | none ↦ (ok none, c)
  | some r ↦ if is_ready now r then hand_over rt code r now c else (ok none, c)
]
