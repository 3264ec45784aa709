-- ===== src/Oauth/Token/Family.antt =====
-- Rotation and reuse, among the tokens of one grant.
use whatsvault.Base.{
  ℕ, ◌≤◌, String, ◌≡◌, refl, Bool, true, false, Option, none, some, List, [], ◌∷◌, ◌++◌, inl, inr,
  arith,
}
use whatsvault.Base.Eq.{string_eq, option_eq, nat_eq, Option-cases}
use whatsvault.Base.Table.{find, find-All, update, count, All, All-of_count, count-append}
use whatsvault.Base.Conn.{Conn, write}
use whatsvault.Oauth.Schema.{
  Runtime, TokenRow, OauthDb, oauth_error, invalid_grant, TokenKind, Result-cases, ok, err, is_null,
  or_empty,
}
use whatsvault.Oauth.Token.{
  Secrets, Issued, issue, is_family, revoke_token, revoke_rows, revoke_family, by_refresh,
  by_access, refuse_reuse, check_refresh, rotate, refresh, token_row, access_ttl_ms, refresh_ttl_ms,
  grant_or, is_unrevoked, validate_access_token, revoke_all,
}

family_gone :
    (grant : Option String) (now : ℕ) (l : List TokenRow)
    → count (is_family grant) (update (is_family grant) (revoke_token now) l) ≡ 0
family_gone none now [] = refl
family_gone none now (t ∷ l) = ground (arith, family_gone none now l)
family_gone (some g) now [] = refl
family_gone (some g) now (t ∷ l) = ground (arith, family_gone (some g) now l)

all_gone :
    (now : ℕ) (l : List TokenRow)
    → count is_unrevoked (update is_unrevoked (revoke_token now) l) ≡ 0
all_gone now [] = refl
all_gone now (t ∷ l) = ground (arith, all_gone now l)

-- A token that is valid was found among rows of which one is unrevoked.
validate-All_revoked :
    (rt : Runtime) (db : OauthDb) (token : String) (t : ℕ)
    → All (λ x. is_unrevoked x ≡ false) db.tokens
    → validate_access_token rt db token t ≡ none
unfolding validate_access_token
validate-All_revoked rt db token t gone =
    elim (Option-cases (find (by_access rt token) db.tokens)) [
      | inl unknown ↦ ground arith
      | inr (x, found) ↦ ground (
        arith,
        find-All (λ x. is_unrevoked x ≡ false) (by_access rt token) db.tokens x gone found,
      )
    ]

-- The tokens that `revoke_all` commits.
revoke_all-tokens :
    (auditing : Bool) (now : ℕ) (c : Conn OauthDb)
    → (revoke_all auditing now c).1.saved.tokens
      ≡ update is_unrevoked (revoke_token now) c.work.tokens
unfolding revoke_all
revoke_all-tokens true now c = refl
revoke_all-tokens false now c = refl

revoke_all-count :
    (auditing : Bool) (now : ℕ) (c : Conn OauthDb)
    → count is_unrevoked (revoke_all auditing now c).1.saved.tokens ≡ 0
revoke_all-count auditing now c = rw (revoke_all-tokens auditing now c) (all_gone now c.work.tokens)

-- After `revoke_all` no access token is valid, at any time, and this is committed.
pub revoke_all-invalidates :
    (rt : Runtime) (auditing : Bool) (now : ℕ) (c : Conn OauthDb) (token : String) (t : ℕ)
    → (validate_access_token rt (revoke_all auditing now c).1.saved token t ≡ none)
      × (count is_unrevoked (revoke_all auditing now c).1.saved.tokens ≡ 0)
revoke_all-invalidates rt auditing now c token t =
    let none_left = revoke_all-count auditing now c in
    let db = (revoke_all auditing now c).1.saved in
    (validate-All_revoked rt db token t (All-of_count is_unrevoked db.tokens none_left), none_left)

refuse_reuse-gone :
    (auditing : Bool) (row : TokenRow) (now : ℕ) (c : Conn OauthDb)
    → count (is_family row.grant_id) (refuse_reuse auditing row now c).1.saved.tokens ≡ 0
unfolding refuse_reuse revoke_family
refuse_reuse-gone true row now c = family_gone row.grant_id now c.work.tokens
refuse_reuse-gone false row now c = family_gone row.grant_id now c.work.tokens

-- When a refresh token comes back after it was rotated away or revoked, the call is refused, and no
-- token of its grant is left unrevoked, which is committed.
pub refresh-reuse :
    (rt : Runtime) (auditing : Bool) (s : Secrets) (token client_id : Option String) (now : ℕ)
    (c : Conn OauthDb) (row : TokenRow)
    → find (by_refresh rt token) c.work.tokens ≡ some row
    → is_null row.revoked_ms ≡ false
    → ((refresh rt auditing s token client_id now c).0 ≡ err (oauth_error invalid_grant))
      × (count (is_family row.grant_id) (refresh rt auditing s token client_id now c).1.saved.tokens
          ≡ 0)
unfolding refresh refuse_reuse
refresh-reuse rt auditing s token client_id now c row found reused =
    ground (arith, refuse_reuse-gone auditing row now c)

-- The pair that a call issued, as rows.
abbrev pub IsPair : Runtime → Issued → TokenRow → TokenRow → Type 0
IsPair rt t a b = (a.token_hash ≡ rt.hash t.access_token) × (b.token_hash ≡ rt.hash t.refresh_token)

-- What a refresh that succeeds went by, and the tokens that it leaves: the family of the row revoked,
-- and then the new pair.
pub record Rotated (rt : Runtime) (token client_id : Option String) (now : ℕ)
    (before after : OauthDb) (t : Issued) (row : TokenRow) : Type 0 where
  pub found : find (by_refresh rt token) before.tokens ≡ some row
  pub unrevoked : is_null row.revoked_ms ≡ true
  pub unexpired : now ≤ row.expires_ms
  pub own_client : rt.compare_digest (or_empty client_id) row.client_id ≡ some true
  pub pair :
      (a b : TokenRow) × IsPair rt t a b
      × (after.tokens
          ≡ (update (is_family row.grant_id) (revoke_token now) before.tokens ++ a ∷ []) ++ b ∷ [])
  pub family : count (is_family row.grant_id) after.tokens ≤ 2

-- `_issue` adds the rows of one pair.
issue-tokens :
    (rt : Runtime) (auditing : Bool) (s : Secrets) (client_id : String) (grant : Option String)
    (now : ℕ) (c : Conn OauthDb) (t : Issued)
    → (issue rt auditing s client_id grant now c).0 ≡ ok t
    → (a b : TokenRow) × IsPair rt t a b
      × ((issue rt auditing s client_id grant now c).1.saved.tokens
          ≡ (c.work.tokens ++ a ∷ []) ++ b ∷ [])
unfolding issue
issue-tokens rt true s client_id grant now c t h = (
  token_row rt s.access TokenKind.access client_id now access_ttl_ms (grant_or grant s.grant),
  token_row rt s.refresh TokenKind.refresh client_id now refresh_ttl_ms (grant_or grant s.grant),
  ground arith,
  ground arith,
)
issue-tokens rt false s client_id grant now c t h = (
  token_row rt s.access TokenKind.access client_id now access_ttl_ms (grant_or grant s.grant),
  token_row rt s.refresh TokenKind.refresh client_id now refresh_ttl_ms (grant_or grant s.grant),
  ground arith,
  ground arith,
)

rotate-family :
    (rt : Runtime) (auditing : Bool) (s : Secrets) (row : TokenRow) (now : ℕ) (c : Conn OauthDb)
    (t : Issued)
    → (rotate rt auditing s row now c).0 ≡ ok t
    → count (is_family row.grant_id) (rotate rt auditing s row now c).1.saved.tokens ≤ 2
unfolding rotate
rotate-family rt auditing s row now c t h =
    let old = update (is_family row.grant_id) (revoke_token now) c.work.tokens in
    let (a, b, own, e) =
      issue-tokens rt auditing s row.client_id row.grant_id now
        (write (revoke_rows (is_family row.grant_id) now c.work) c) t h in
    ground (
      arith,
      e,
      family_gone row.grant_id now c.work.tokens,
      count-append (is_family row.grant_id) old (a ∷ []),
      count-append (is_family row.grant_id) (old ++ a ∷ []) (b ∷ []),
    )

rotate-IsPair :
    (rt : Runtime) (auditing : Bool) (s : Secrets) (row : TokenRow) (now : ℕ) (c : Conn OauthDb)
    (t : Issued)
    → (rotate rt auditing s row now c).0 ≡ ok t
    → (a b : TokenRow) × IsPair rt t a b
      × ((rotate rt auditing s row now c).1.saved.tokens
          ≡ (update (is_family row.grant_id) (revoke_token now) c.work.tokens ++ a ∷ []) ++ b ∷ [])
unfolding rotate
rotate-IsPair rt auditing s row now c t h =
    issue-tokens rt auditing s row.client_id row.grant_id now
      (write (revoke_rows (is_family row.grant_id) now c.work) c) t h

-- A refresh that succeeds went by a stored refresh token that is not revoked, not expired and of that
-- client; it commits the tokens with its family revoked and the new pair added, and no more than two
-- tokens of the family are then unrevoked.
pub refresh-Rotated :
    (rt : Runtime) (auditing : Bool) (s : Secrets) (token client_id : Option String) (now : ℕ)
    (c : Conn OauthDb) (t : Issued)
    → (refresh rt auditing s token client_id now c).0 ≡ ok t
    → (row : TokenRow) × Rotated rt token client_id now c.work
        (refresh rt auditing s token client_id now c).1.saved
        t
        row
unfolding refresh check_refresh refuse_reuse
refresh-Rotated rt auditing s token client_id now c t h =
    elim (Option-cases (find (by_refresh rt token) c.work.tokens)) [
      | inl unknown ↦ ground arith
      | inr (row, found) ↦ elim (Result-cases (check_refresh rt row client_id now)) [
        | inr (e, refused) ↦ ground arith
        | inl (u, checked) ↦ (
          row,
          record {
            found = found;
            unrevoked = ground arith;
            unexpired = ground arith;
            own_client = ground arith;
            pair =
                let (a, b, own, e) = rotate-IsPair rt auditing s row now c t (ground arith) in
                (a, b, own, ground (arith, e));
            family = ground (arith, rotate-family rt auditing s row now c t);
          },
        )
      ]
    ]
