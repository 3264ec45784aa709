-- ===== src/Oauth/Authorize/Pending.antt =====
-- `begin_authorization`: the requests that wait for approval, and the row of a new one.
use whatsvault.Base.{
  ℕ, ◌+◌, ◌≤◌, String, ◌≡◌, inl, inr, refl, sym, subst, true, none, some, List, [], ◌∷◌, ◌++◌,
  arith,
}
use whatsvault.Base.Eq.{◌==◌, string_eq, nat_eq, leb, Bool-cases}
use whatsvault.Base.Table.{count, any, count-append, count-select-le}
use whatsvault.Base.Conn.{Conn}
use whatsvault.Oauth.Schema.{
  Runtime, ClientRow, PendingRow, OauthDb, Result, Result-cases, ok, err, or_empty,
}
use whatsvault.Oauth.Clients.{text_length, client, check_redirect, check_redirect-Registered}
use whatsvault.Oauth.Authorize.{
  collect_expired, is_live, unexpired_pending, AuthorizationRequest, Begun, check_request,
  pending_row, insert_pending, begin_checked, begin_authorization, max_pending, max_challenge_len,
  min_challenge_len,
}

live_later :
    (now t : ℕ) (l : List PendingRow) → now ≤ t → count (is_live t) l ≤ count (is_live now) l
live_later now t [] h = omega arith
live_later now t (r ∷ l) h = ground (arith, live_later now t l h)

abbrev live : ℕ → Conn OauthDb → ℕ
live now c = count (is_live now) c.work.pending

live-insert_pending :
    (now : ℕ) (name : String) (row : PendingRow) (c : Conn OauthDb)
    → live now (insert_pending name row c).1 ≤ live now c + 1
unfolding insert_pending
live-insert_pending now name row c =
    ground (arith, count-append (is_live now) c.work.pending (row ∷ []))

live-begin_checked :
    (rt : Runtime) (r : AuthorizationRequest) (i u : String) (now : ℕ) (c : Conn OauthDb)
    → live now (begin_checked rt r i u now c).1 ≤ live now c + 1
unfolding begin_checked
live-begin_checked rt r i u now c = split (check_request rt c.work r) refl
  where
    split :
        (x : Result (ClientRow × String × String))
        → check_request rt c.work r ≡ x
        → live now (begin_checked rt r i u now c).1 ≤ live now c + 1
    split (err e) h = rw (h, begin_checked) (omega arith)
    split (ok (row, redirect, challenge)) h =
        rw (h, begin_checked)
          (live-insert_pending now row.client_name
            (pending_row i u row.client_id redirect r.state challenge now) c)

collect_live : (now : ℕ) (c : Conn OauthDb) → live now (collect_expired now c).1 ≤ live now c
unfolding collect_expired
collect_live now c = count-select-le (is_live now) (unexpired_pending now) c.work.pending

begin_live :
    (rt : Runtime) (r : AuthorizationRequest) (i u : String) (now : ℕ) (c : Conn OauthDb)
    → live now c ≤ max_pending
    → live now (begin_authorization rt r i u now c).1 ≤ max_pending
unfolding begin_authorization
begin_live rt r i u now c h =
    ground (arith, collect_live now c, live-begin_checked rt r i u now (collect_expired now c).1)

-- `begin_authorization` keeps the live unapproved requests at no more than 25, now and at every later
-- time, whatever it answers, if there were no more before it.
pub begin_authorization-max_pending :
    (rt : Runtime) (r : AuthorizationRequest) (i u : String) (now t : ℕ) (c : Conn OauthDb)
    → count (is_live now) c.work.pending ≤ 25
    → now ≤ t
    → count (is_live t) (begin_authorization rt r i u now c).1.work.pending ≤ 25
begin_authorization-max_pending rt r i u now t c h later = omega (
  arith,
  begin_live rt r i u now c h,
  live_later now t (begin_authorization rt r i u now c).1.work.pending later,
)

abbrev ChecksOut : Runtime → OauthDb → AuthorizationRequest → ClientRow → String → String → Type 0
ChecksOut rt db r row redirect challenge =
    (client db r.client_id ≡ ok row)
    × (check_redirect rt row r.redirect_uri ≡ ok redirect)
    × (challenge ≡ or_empty r.code_challenge)
    × (min_challenge_len ≤ text_length challenge)
    × (text_length challenge ≤ max_challenge_len)
    × (rt.upper (or_empty r.code_challenge_method) ≡ "S256")

check_request-ChecksOut :
    (rt : Runtime) (db : OauthDb) (r : AuthorizationRequest) (row : ClientRow)
    (redirect challenge : String)
    → check_request rt db r ≡ ok (row, redirect, challenge)
    → ChecksOut rt db r row redirect challenge
unfolding check_request
check_request-ChecksOut rt db r row redirect challenge h =
    elim (Result-cases (client db r.client_id)) [
      | inr (e, unknown) ↦ ground arith
      | inl (row', known) ↦ elim (Result-cases (check_redirect rt row' r.redirect_uri)) [
        | inr (e, refused) ↦ ground arith
        | inl (uri, matched) ↦ ground arith
      ]
    ]

abbrev BeginReply : Type 0
BeginReply = Result Begun × Conn OauthDb

-- What a request that was begun leaves: the row that is added to the requests, and what the answer says
-- of it.
pub record Filed (rt : Runtime) (r : AuthorizationRequest) (now : ℕ) (b : Begun) (before : OauthDb)
    (c' : Conn OauthDb) : Type 0 where
  pub row : PendingRow
  pub stored : c'.saved ≡ record before { pending = before.pending ++ row ∷ [] }
  pub read_only : row.scope ≡ "whatsvault.read"
  pub s256 : rt.upper (or_empty r.code_challenge_method) ≡ "S256"
  pub challenge : row.code_challenge ≡ or_empty r.code_challenge
  pub long_enough : 43 ≤ text_length row.code_challenge
  pub short_enough : text_length row.code_challenge ≤ 128
  pub state : row.state ≡ r.state
  pub unapproved : row.approved_ms ≡ none
  pub uncollected : row.collected_ms ≡ none
  pub ten_minutes : row.expires_ms ≡ now + 600000
  -- the client, as it is registered
  pub asker : ClientRow
  pub known : client before r.client_id ≡ ok asker
  pub own : row.client_id ≡ asker.client_id
  pub redirect : row.redirect_uri ≡ or_empty r.redirect_uri
  pub registered : any (λ (x : String). x == row.redirect_uri) asker.redirect_uris ≡ true
  -- the answer
  pub told_id : b.request_id ≡ row.request_id
  pub told_code : b.user_code ≡ row.user_code
  pub told_name : b.client_name ≡ asker.client_name
  pub told_expiry : b.expires_ms ≡ row.expires_ms
  pub told_scope : b.scope ≡ row.scope

module _ (rt : Runtime) (r : AuthorizationRequest) (i u : String) (now : ℕ) where
  insert_pending-Filed :
      (asker : ClientRow) (redirect challenge : String) (c : Conn OauthDb) (b : Begun)
      → ((x y : String) → rt.compare_digest x y ≡ some true → x ≡ y)
      → ChecksOut rt c.work r asker redirect challenge
      → (insert_pending asker.client_name
          (pending_row i u asker.client_id redirect r.state challenge now)
          c).0
        ≡ ok b
      → Filed rt r now b c.work
          (insert_pending asker.client_name
            (pending_row i u asker.client_id redirect r.state challenge now)
            c).1
  unfolding insert_pending
  insert_pending-Filed asker redirect challenge c b law (known, matched, same, long, short, s256)
        h =
      let registered = check_redirect-Registered rt asker r.redirect_uri redirect law matched in
      record {
        row = pending_row i u asker.client_id redirect r.state challenge now;
        stored = ground arith;
        read_only = refl;
        s256 = s256;
        challenge = same;
        long_enough = long;
        short_enough = short;
        state = refl;
        unapproved = refl;
        uncollected = refl;
        ten_minutes = refl;
        asker = asker;
        known = known;
        own = refl;
        redirect = registered.0;
        registered = registered.1;
        told_id = ground arith;
        told_code = ground arith;
        told_name = ground arith;
        told_expiry = ground arith;
        told_scope = ground arith;
      }

  begin_checked-Filed :
      (c : Conn OauthDb) (b : Begun)
      → ((x y : String) → rt.compare_digest x y ≡ some true → x ≡ y)
      → (begin_checked rt r i u now c).0 ≡ ok b
      → Filed rt r now b c.work (begin_checked rt r i u now c).1
  unfolding begin_checked
  begin_checked-Filed c b law h = elim (Result-cases (check_request rt c.work r)) [
    | inr (e, refused) ↦ ground arith
    | inl ((asker, redirect, challenge), checked) ↦
        let after =
          insert_pending asker.client_name
            (pending_row i u asker.client_id redirect r.state challenge now) c in
        let same : begin_checked rt r i u now c ≡ after = rw (begin_checked, checked) refl in
        subst (λ (x : BeginReply). Filed rt r now b c.work x.1) (sym same)
          (insert_pending-Filed asker redirect challenge c b law
            (check_request-ChecksOut rt c.work r asker redirect challenge checked)
            (subst (λ (x : BeginReply). x.0 ≡ ok b) same h))
  ]

-- Where `begin_authorization` succeeds, exactly one row is committed beyond what the collection of the
-- expired leaves. Its scope is the read-only one, its redirect is the one asked for and one that its
-- client registered, its challenge is the client's own, of S256 and 43 to 128 characters, and it is
-- unapproved, uncollected and good for ten minutes. The answer has the identifier, the user code, the
-- expiry and the scope of that row, and the name of its client.
pub begin_authorization-request :
    (rt : Runtime) (r : AuthorizationRequest) (i u : String) (now : ℕ) (c : Conn OauthDb)
    (b : Begun)
    → ((x y : String) → rt.compare_digest x y ≡ some true → x ≡ y)
    → (begin_authorization rt r i u now c).0 ≡ ok b
    → Filed rt r now b (collect_expired now c).1.work (begin_authorization rt r i u now c).1
unfolding begin_authorization
begin_authorization-request rt r i u now c b law h =
    let c' = (collect_expired now c).1 in
    elim (Bool-cases (leb max_pending (count (is_live now) c'.work.pending))) [
      | inl full ↦ ground arith
      | inr room ↦
          let same : begin_authorization rt r i u now c ≡ begin_checked rt r i u now c' =
            rw (begin_authorization, room) refl in
          subst (λ (x : BeginReply). Filed rt r now b c'.work x.1) (sym same)
            (begin_checked-Filed rt r i u now c' b law
              (subst (λ (x : BeginReply). x.0 ≡ ok b) same h))
    ]
