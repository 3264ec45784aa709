-- ===== src/Oauth/Authorize/Collect.antt =====
-- `poll`: the codes that it hands over, and what is stored of them.
use whatsvault.Base.{
  ℕ, ◌+◌, ◌≤◌, String, ◌≡◌, inl, inr, refl, true, false, Option, none, some, [], ◌∷◌, ◌++◌, arith,
}
use whatsvault.Base.Eq.{◌==◌, ==-sound, string_eq, Option-cases}
use whatsvault.Base.Table.{find_sound, find-update}
use whatsvault.Base.Conn.{Conn}
use whatsvault.Oauth.Schema.{Runtime, PendingRow, CodeRow, OauthDb, ok, is_null, or_empty}
use whatsvault.Oauth.Authorize.{HandedCode, by_request, mark_collected, code_row, hand_over, poll}

-- What stands behind a code that is handed over.
pub record Collected (rt : Runtime) (code : String) (request_id : Option String) (now : ℕ)
    (h : HandedCode) (c c' : Conn OauthDb) : Type 0 where
  pub row : PendingRow
  pub approved_at : ℕ
  pub found : by_request request_id c.work ≡ some row
  pub approved : row.approved_ms ≡ some approved_at
  pub uncollected : row.collected_ms ≡ none
  pub unexpired : now ≤ row.expires_ms
  pub drawn : h.code ≡ code
  pub state : h.state ≡ row.state
  pub redirect : h.redirect_uri ≡ row.redirect_uri
  pub scope : h.scope ≡ row.scope
  -- the row that is added to the codes
  pub new : CodeRow
  pub stored : c'.saved.codes ≡ c.work.codes ++ new ∷ []
  pub hashed : new.code_hash ≡ rt.hash h.code
  pub own_client : new.client_id ≡ row.client_id
  pub own_redirect : new.redirect_uri ≡ h.redirect_uri
  pub own_challenge : new.code_challenge ≡ row.code_challenge
  pub own_scope : new.scope ≡ h.scope
  pub unspent : new.consumed_ms ≡ none
  pub short_lived : new.expires_ms ≡ now + 60000

module _ (rt : Runtime) (code : String) (request_id : Option String) (now : ℕ)
    (c : Conn OauthDb) where
  approval_time : (o : Option ℕ) → is_null o ≡ false → (t : ℕ) × (o ≡ some t)
  approval_time none h = cc
  approval_time (some t) h = (t, refl)

  null_time : (o : Option ℕ) → is_null o ≡ true → o ≡ none
  null_time none h = refl
  null_time (some t) h = cc

  -- `poll` hands over a code only for a request that was approved, is not expired and was not collected.
  -- What it hands over is the code that was drawn, with the state, the redirect and the scope of the
  -- request. One row is added to the committed codes: it has the hash of that code, the client, the
  -- redirect, the challenge and the scope of the request, is unspent, and is good for a minute.
  pub poll-Collected :
      (h : HandedCode)
      → (poll rt code request_id now c).0 ≡ ok (some h)
      → Collected rt code request_id now h c (poll rt code request_id now c).1
  unfolding poll hand_over
  poll-Collected h e = elim (Option-cases (by_request request_id c.work)) [
    | inl unknown ↦ ground arith
    | inr (r, found) ↦
        let (t, et) = approval_time r.approved_ms (ground arith) in
        record {
          row = r;
          approved_at = t;
          found = found;
          approved = et;
          uncollected = null_time r.collected_ms (ground arith);
          unexpired = ground arith;
          drawn = ground arith;
          state = ground arith;
          redirect = ground arith;
          scope = ground arith;
          new = code_row rt code r now;
          stored = ground arith;
          hashed = ground arith;
          own_client = refl;
          own_redirect = ground arith;
          own_challenge = refl;
          own_scope = ground arith;
          unspent = refl;
          short_lived = refl;
        }
  ]

  -- Once a code was handed over, every later poll of that request, at any time, hands over nothing
  -- and changes nothing.
  pub poll-once :
      (h : HandedCode) (code' : String) (later : ℕ)
      → (poll rt code request_id now c).0 ≡ ok (some h)
      → poll rt code' request_id later (poll rt code request_id now c).1
        ≡ (ok none, (poll rt code request_id now c).1)
  unfolding poll hand_over
  poll-once h code' later e = elim (Option-cases (by_request request_id c.work)) [
    | inl unknown ↦ ground arith
    | inr (r, found) ↦
        let own : r.request_id ≡ or_empty request_id = ==-sound r.request_id (or_empty request_id) (
          find_sound (λ (x : PendingRow). x.request_id == or_empty request_id) c.work.pending r
            found) in
        let marked =
          find-update (λ (x : PendingRow). x.request_id == or_empty request_id) (mark_collected now)
            c.work.pending r (λ y q. q) found in
        ground (arith, own, marked)
  ]
