-- ===== src/Oauth/Clients.antt =====
-- Registration of clients, and the exact match of a redirect URI.
use whatsvault.Base.{
  ℕ, zero, suc, ◌≤◌, String, ◌≡◌, Bool, true, false, not, ◌&&◌, Option, none, some, List, [], ◌∷◌,
  ◌++◌, arith,
}
use whatsvault.Base.Eq.{if◌then◌else◌, ◌==◌, string_eq, nat_eq, ltb}
use whatsvault.Base.Table.{All, find, any, length}
use whatsvault.Base.Conn.{Conn, write, commit}
use whatsvault.Base.Bytes.{Bytes, codes}
use whatsvault.Oauth.Schema.{
  Runtime, ClientRow, OauthDb, integrity_error, type_error, invalid_client, invalid_request,
  invalid_redirect_uri, Result, ok, err, ◌>>=◌, ◌>>◌, refuse_if, some_or, or_empty,
}

abbrev pub max_redirect_len : ℕ
max_redirect_len = 512

abbrev pub max_redirect_uris : ℕ
max_redirect_uris = 10

abbrev pub max_client_name_len : ℕ
max_client_name_len = 200

-- `len(text)`: the number of code points.
abbrev pub text_length : String → ℕ
text_length s = length (codes s)

abbrev pub starts_with : Bytes → Bytes → Bool
starts_with [] s = true
starts_with (p ∷ ps) [] = false
starts_with (p ∷ ps) (c ∷ s) = p == c && starts_with ps s

abbrev pub is_https : String → Bool
is_https uri = starts_with (codes "https://") (codes uri)

abbrev pub has_fragment : String → Bool
has_fragment uri = any (λ (c : ℕ). c == b'#') (codes uri)

-- One round of the loop over the URIs. The length is refused as `invalid_request`, by `_bounded`.
unfoldable pub check_uri : String → Result (Unit {0})
check_uri uri = do
  refuse_if (ltb max_redirect_len (text_length uri)) invalid_request
  refuse_if (not (is_https uri)) invalid_redirect_uri
  refuse_if (has_fragment uri) invalid_redirect_uri

unfoldable pub check_uris : List String → Result (Unit {0})
check_uris [] = ok tt
check_uris (u ∷ us) = do check_uri u; check_uris us

unfoldable pub check_registration : List String → Result (Unit {0})
check_registration uris = do
  refuse_if (length uris == 0) invalid_redirect_uri
  refuse_if (ltb max_redirect_uris (length uris)) invalid_redirect_uri
  check_uris uris

-- `s[:n]`
abbrev pub cut : ℕ → String → String
cut zero s = String.[]
cut (suc n) String.[] = String.[]
cut (suc n) (String.◌∷◌ c s) = String.◌∷◌ c (cut n s)

abbrev pub client_row : String → Option String → List String → ClientRow
client_row client_id name uris = record {
  client_id = client_id;
  client_name = cut max_client_name_len (or_empty name);
  redirect_uris = uris;
}

unfoldable pub insert_client : ClientRow → Conn OauthDb → Result ClientRow × Conn OauthDb
insert_client row c =
    if any (λ (x : ClientRow). x.client_id == row.client_id) c.work.clients
    then (err integrity_error, c)
    else (ok row, commit (write (record c.work { clients = c.work.clients ++ row ∷ [] }) c))

-- `register_client`, with the identifier that it draws.
unfoldable pub register_client :
    String → Option String → List String → Conn OauthDb → Result ClientRow × Conn OauthDb
register_client client_id name uris c = elim (check_registration uris) [
  | err e ↦ (err e, c)
  | ok u ↦ insert_client (client_row client_id name uris) c
]

-- `_client`
unfoldable pub client : OauthDb → Option String → Result ClientRow
client db client_id =
    some_or (find (λ (x : ClientRow). x.client_id == or_empty client_id) db.clients) invalid_client

-- `any(hmac.compare_digest(provided, known) for known in registered)`, which stops at the first match.
unfoldable pub any_same : Runtime → String → List String → Result Bool
any_same rt provided [] = ok false
any_same rt provided (known ∷ rest) =
    let later = any_same rt provided rest in
    elim (rt.compare_digest provided known) [
      | none ↦ err type_error
      | some same ↦ if same then ok true else later
    ]

-- `_check_redirect`
unfoldable pub check_redirect : Runtime → ClientRow → Option String → Result String
check_redirect rt row redirect_uri = do
  let provided = or_empty redirect_uri
  same ← any_same rt provided row.redirect_uris
  refuse_if (not same) invalid_redirect_uri
  ok provided

-- A URI that may be registered: short, https, and with no fragment.
abbrev pub IsSafe : String → Type 0
IsSafe uri =
    (text_length uri ≤ max_redirect_len) × (is_https uri ≡ true) × (has_fragment uri ≡ false)

check_uri-IsSafe : (uri : String) → check_uri uri ≡ ok tt → IsSafe uri
unfolding check_uri
check_uri-IsSafe uri h = ground arith

check_uris-IsSafe : (uris : List String) → check_uris uris ≡ ok tt → All IsSafe uris
unfolding check_uris
check_uris-IsSafe [] h = tt
check_uris-IsSafe (u ∷ us) h =
    (check_uri-IsSafe u (ground arith), check_uris-IsSafe us (ground arith))

-- A client that is registered has between one and ten redirect URIs, all of them the ones asked
-- for, and each is https, has no fragment and at most 512 characters; its row is committed.
pub register_client-IsSafe :
    (client_id : String) (name : Option String) (uris : List String) (c : Conn OauthDb)
    (row : ClientRow)
    → (register_client client_id name uris c).0 ≡ ok row
    → (row.redirect_uris ≡ uris)
      × (1 ≤ length uris)
      × (length uris ≤ max_redirect_uris)
      × All IsSafe uris
      × ((register_client client_id name uris c).1.saved.clients ≡ c.work.clients ++ row ∷ [])
unfolding register_client check_registration insert_client
register_client-IsSafe client_id name uris c row h =
    (ground arith, ground arith, ground arith, check_uris-IsSafe uris (ground arith), ground arith)

any_same-Registered :
    (rt : Runtime) (provided : String) (l : List String)
    → ((a b : String) → rt.compare_digest a b ≡ some true → a ≡ b)
    → any_same rt provided l ≡ ok true
    → any (λ (u : String). u == provided) l ≡ true
unfolding any_same
any_same-Registered rt provided [] law h = cc
any_same-Registered rt provided (known ∷ rest) law h =
    ground (arith, law provided known, any_same-Registered rt provided rest law)

-- A redirect that is let through is, character for character, one of the client's registered URIs.
pub check_redirect-Registered :
    (rt : Runtime) (row : ClientRow) (redirect_uri : Option String) (u : String)
    → ((a b : String) → rt.compare_digest a b ≡ some true → a ≡ b)
    → check_redirect rt row redirect_uri ≡ ok u
    → (u ≡ or_empty redirect_uri) × (any (λ (x : String). x == u) row.redirect_uris ≡ true)
unfolding check_redirect
check_redirect-Registered rt row redirect_uri u law h =
    ground (arith, any_same-Registered rt (or_empty redirect_uri) row.redirect_uris law)
