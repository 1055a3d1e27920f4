-- ===== src/Oauth/Session.antt =====
-- vstutils/oauth2/authorization_server.py: the claims of access tokens, refresh tokens and their
-- sessions, and the password grant. Signing is the JOSE library's, the session store Django's, and
-- what the user objects answer the project's: `Jwt`, `Store` and `Users` are parameters, with what
-- they document as laws.
pub mod Revoke
pub mod Lifecycle
use vstutils.Base.{
  ◌≡◌, ℕ, ◌≤◌, Bool, true, false, not, ◌&&◌, List, [], ◌∷◌, Option, none, some, if◌then◌else◌, ◌==◌,
  text_eq, text_beq, eqb, Assoc, lookup, insert, merge,
}
use vstutils.Base.Text.{Text, codes}
pub use vstutils.Base.{◌>>=◌}

-- The values of claims; `null` is `None`.
pub data Claim : Type 0 where
  null : Claim
  str : Text → Claim
  num : ℕ → Claim
  flag : Bool → Claim

abbrev pub Claims : Type 0
Claims = Assoc Text Claim

abbrev pub claim_beq : Claim → Claim → Bool
claim_beq null null = true
claim_beq (str s) (str t) = text_beq s t
claim_beq (num a) (num b) = eqb a b
claim_beq (flag a) (flag b) = if a then b else not b
claim_beq _ _ = false

abbrev pub is_truthy : Claim → Bool
is_truthy null = false
is_truthy (str []) = false
is_truthy (str (c ∷ s)) = true
is_truthy (num n) = not (eqb n 0)
is_truthy (flag b) = b

-- An entry of `claims_options`: an essential claim, and the value that it must have, if any.
abbrev pub Rule : Type 0
Rule = Text × Option Claim

abbrev fits : Option Claim → Claim → Bool
fits none c = true
fits (some v) c = claim_beq c v

-- The documented meaning of the rules: each claim is there, is not empty, and has the value.
abbrev pub satisfies : List Rule → Claims → Bool
satisfies [] claims = true
satisfies ((name, value) ∷ rules) claims =
    elim (lookup name claims) [ none ↦ false | some c ↦ is_truthy c && fits value c ]
    && satisfies rules claims

-- `jwt.encode` and `jwt.decode` with the server's key, over signed texts `T`, and `claims.validate`, at
-- a time.
pub record Jwt (T : Type 0) : Type 0 where
  pub encode : Claims → T
  pub verify : T → Option Claims
  pub is_timely : ℕ → Claims → Bool
  pub validate : List Rule → ℕ → Claims → Bool

-- A token that was signed is read back; validation applies the rules and looks at the times that the
-- claims name, of which `iat` must not be later than now.
pub record JwtLaws {T : Type 0} (jwt : Jwt T) : Type 0 where
  pub verify-encode : (c : Claims) → jwt.verify (jwt.encode c) ≡ some c
  pub validate-rules :
      (rules : List Rule) (now : ℕ) (c : Claims)
      → jwt.validate rules now c ≡ (jwt.is_timely now c && satisfies rules c)
  pub issued-timely :
      (c : Claims) (issued now : ℕ)
      → lookup (codes "iat") c ≡ some (num issued)
      → lookup (codes "exp") c ≡ none
      → lookup (codes "nbf") c ≡ none
      → issued ≤ now
      → jwt.is_timely now c ≡ true

-- The session store in state `S`; `login` moves to a new key where Django's does, `user_of` is
-- `get_user` of a request with the session.
pub record Store (S U : Type 0) : Type 0 where
  pub exists : Text → S → Bool
  pub user_of : Text → S → Option U
  pub save_new : S → Text × S
  pub login : Text → U → S → Text × S
  pub delete : Text → S → S

pub record StoreLaws {S U : Type 0} (store : Store S U) : Type 0 where
  pub exists-delete :
      (k j : Text) (s : S)
      → store.exists j (store.delete k s) ≡ (if k == j then false else store.exists j s)
  pub user_of-delete :
      (k j : Text) (s : S)
      → (k == j) ≡ false
      → store.user_of j (store.delete k s) ≡ store.user_of j s
  pub exists-login :
      (k : Text) (u : U) (s : S) → store.exists (store.login k u s).0 (store.login k u s).1 ≡ true
  pub user_of-login :
      (k : Text) (u : U) (s : S)
      → store.user_of (store.login k u s).0 (store.login k u s).1 ≡ some u
  pub login-named : (k : Text) (u : U) (s : S) → is_truthy (str (store.login k u s).0) ≡ true

-- `UserWrapper`, and `OAUTH_SERVER_JWT_EXTRA_CLAIMS_PROVIDER`.
pub record Users (U : Type 0) : Type 0 where
  pub is_anon : U → Bool
  pub get_access_token_claims : U → Claims
  pub extra_claims_provider : U → Claims
  pub second_factor_required : U → Bool
  pub validate_second_factor : U → Option Text → Bool

-- The session key of the request at hand, and the claims of the refresh token in it.
pub record Request : Type 0 where
  pub session_key : Option Text
  pub refresh_token : Claims

module _ {T S U : Type 0} (jwt : Jwt T) (store : Store S U) (users : Users U) (issuer : Text) where
  -- `DjangoOAuth2Request.ensure_session`
  unfoldable pub ensure_session : Request → S → Text × S
  ensure_session r s = elim r.session_key [
    | none ↦ store.save_new s
    | some [] ↦ store.save_new s
    | some (c ∷ k) ↦ (c ∷ k, s)
  ]

  -- The session of a new token, for any grant but `refresh_token`.
  unfoldable pub open_session : U → Request → S → Text × S
  unfolding ensure_session
  open_session u r s =
      let (k, s') = ensure_session r s in if users.is_anon u then (k, s') else store.login k u s'

  unfoldable pub common_claims : U → Claim → Claims
  common_claims u jti =
      let claims = (codes "jti", jti) ∷ [] in
      let named = if users.is_anon u then insert (codes "anon") (flag true) claims else claims in
      merge (merge named (users.get_access_token_claims u)) (users.extra_claims_provider u)

  -- `JWTBearerTokenGenerator.get_extra_claims`: the claims, the request and the store after it. `none`:
  -- the refresh token has no `jti`.
  unfoldable pub get_extra_claims :
      (grant_type : Text) → U → Request → S → Option (Claims × Request × S)
  unfolding open_session common_claims
  get_extra_claims grant_type u r s =
      if grant_type == codes "refresh_token"
      then (elim (lookup (codes "jti") r.refresh_token) [
        | none ↦ none
        | some jti ↦ some (common_claims u jti, r, s)
      ])
      else let (k, s') = open_session u r s in
        some (common_claims u (str k), record r { session_key = some k }, s')

  -- `JWTSessionRefreshTokenGenerator.__call__`
  unfoldable pub refresh_claims : (client : Text) → U → (scope : Claim) → ℕ → Request → Claims
  refresh_claims client u scope now r =
      let token_data =
        (codes "iss", str issuer)
        ∷ (codes "client_id", str client)
        ∷ (codes "iat", num now)
        ∷ (codes "scope", scope)
        ∷ (codes "refresh", flag true)
        ∷ (codes "jti", elim r.session_key [ none ↦ null | some k ↦ str k ])
        ∷ [] in
      if users.is_anon u then insert (codes "anon") (flag true) token_data else token_data

  unfoldable pub generate_refresh_token : Text → U → Claim → ℕ → Request → T
  unfolding refresh_claims
  generate_refresh_token client u scope now r = jwt.encode (refresh_claims client u scope now r)

  abbrev pub claims_options : List Rule
  claims_options =
      (codes "iss", some (str issuer))
      ∷ (codes "client_id", none)
      ∷ (codes "jti", none)
      ∷ (codes "refresh", some (flag true))
      ∷ []

  -- `JWTSessionRefreshToken.decode`
  unfoldable pub decode : ℕ → T → Option Claims
  decode now token = elim (jwt.verify token) [
    | none ↦ none
    | some c ↦ if jwt.validate claims_options now c then some c else none
  ]

  -- `_session`: the key of the session, if it exists; a `jti` that is no text is no key.
  unfoldable pub session_of : Claims → S → Option Text
  session_of claims s = elim (lookup (codes "jti") claims) [
    | some (str k) ↦ if store.exists k s then some k else none
    | _ ↦ none
  ]

  -- `JWTSessionRefreshToken.get_user`
  unfoldable pub get_user : Claims → S → Option U
  unfolding session_of
  get_user claims s = elim (session_of claims s) [ none ↦ none | some k ↦ store.user_of k s ]

  -- `JWTSessionRefreshToken.revoke`
  unfoldable pub revoke : Claims → S → S
  unfolding session_of
  revoke claims s = elim (session_of claims s) [ none ↦ s | some k ↦ store.delete k s ]

  unfoldable pub check_client : (client : Text) → Claims → Bool
  check_client client claims = elim (lookup (codes "client_id") claims) [
    | some (str c) ↦ client == c
    | _ ↦ false
  ]

  -- The user of a refresh token that the client sends, and the revocation endpoint.
  unfoldable pub refresh : ℕ → T → S → Option U
  unfolding decode get_user
  refresh now token s = do claims ← decode now token; get_user claims s

  unfoldable pub revocation_endpoint : ℕ → T → S → S
  unfolding decode revoke
  revocation_endpoint now token s = elim (decode now token) [ none ↦ s | some c ↦ revoke c s ]

-- The end of the password grant's `authenticate_user`.
pub data Login (U : Type 0) : Type 0 where
  refused : Login U
  second_factor_error : Login U
  accepted : U → Login U

module _ {U : Type 0} (users : Users U) (authenticate : Text → Text → Option U) where
  -- `ResourceOwnerPasswordCredentialsGrant.authenticate_user`
  unfoldable pub authenticate_user : (username password : Text) → (code : Option Text) → Login U
  authenticate_user username password code = elim (authenticate username password) [
    | none ↦ refused
    | some u ↦
        if users.second_factor_required u && not (users.validate_second_factor u code)
        then second_factor_error
        else accepted u
  ]
