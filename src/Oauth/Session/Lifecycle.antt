-- ===== src/Oauth/Session/Lifecycle.antt =====
-- vstutils/oauth2/authorization_server.py: a session and its tokens, from their issue to the refresh.
use vstutils.Base.{
  ◌≡◌, ℕ, ◌≤◌, refl, ◌∙◌, true, false, [], ◌∷◌, Option, none, some, if◌then◌else◌, ◌==◌, text_eq,
  beq_refl, arith, lookup, insert, merge, lookup-insert, Bool-cases, inl, inr,
}
use vstutils.Base.Text.{Text, codes}
use vstutils.Oauth.Session.Revoke.{get_user-jti}
use vstutils.Oauth.Session.{
  Claim, str, num, flag, Claims, is_truthy, satisfies, Jwt, JwtLaws, Store, StoreLaws, Users,
  Request, ensure_session, open_session, common_claims, get_extra_claims, refresh_claims,
  generate_refresh_token, claims_options, decode, refresh, ◌>>=◌,
}

module _ {T S U : Type 0} (jwt : Jwt T) (store : Store S U) (users : Users U) (issuer : Text)
    (jwt_laws : JwtLaws jwt) (store_laws : StoreLaws store) where
  merge-lookup-none :
      (j : Text) (old new : Claims) → lookup j new ≡ none → lookup j (merge old new) ≡ lookup j old
  unfolding lookup merge
  merge-lookup-none j old [] h = refl
  merge-lookup-none j old ((k, v) ∷ new) h = elim (Bool-cases (k == j)) [
    | inl e ↦ ground (arith, e, h)
    | inr e ↦
        merge-lookup-none j (insert k v old) new (ground (arith, e, h))
        ∙ lookup-insert k j v old
        ∙ rw e refl
  ]

  -- No claim of the user or of the provider is named `jti`.
  abbrev pub KeepsJti : U → Type 0
  KeepsJti u =
      (lookup (codes "jti") (users.get_access_token_claims u) ≡ none)
      × (lookup (codes "jti") (users.extra_claims_provider u) ≡ none)

  own :
      (u : U) (jti : Claim)
      → lookup (codes "jti") (
          if users.is_anon u
          then insert (codes "anon") (flag true) ((codes "jti", jti) ∷ [])
          else (codes "jti", jti) ∷ [])
        ≡ some jti
  unfolding lookup insert
  own u jti = elim (Bool-cases (users.is_anon u)) [ inl e ↦ rw e refl | inr e ↦ rw e refl ]

  common_claims-jti :
      (u : U) (jti : Claim)
      → KeepsJti u
      → lookup (codes "jti") (common_claims jwt store users issuer u jti) ≡ some jti
  unfolding common_claims
  common_claims-jti u jti h =
      merge-lookup-none (codes "jti") _ (users.extra_claims_provider u) h.1
      ∙ merge-lookup-none (codes "jti") _ (users.get_access_token_claims u) h.0
      ∙ own u jti

  -- What the token generator does: the claims of the access token, then the refresh token.
  abbrev pub issue :
      (grant_type client : Text)
      → U
      → (scope : Claim) → (now : ℕ) → Request
      → S
      → Option (Claims × T × S)
  issue grant_type client u scope now r s = do
    (claims, r', s') ← get_extra_claims jwt store users issuer grant_type u r s
    some (claims, generate_refresh_token jwt store users issuer client u scope now r', s')

  -- The claims of a refresh token for a user who is logged in.
  abbrev signed : (client : Text) (scope : Claim) (now : ℕ) (k : Text) → Claims
  signed client scope now k =
      (codes "iss", str issuer)
      ∷ (codes "client_id", str client)
      ∷ (codes "iat", num now)
      ∷ (codes "scope", scope)
      ∷ (codes "refresh", flag true)
      ∷ (codes "jti", str k)
      ∷ []

  lookup-signed :
      (client : Text) (scope : Claim) (now : ℕ) (k : Text)
      → lookup (codes "jti") (signed client scope now k) ≡ some (str k)
  unfolding lookup
  lookup-signed client scope now k = refl

  generate_refresh_token-signed :
      (client : Text) (u : U) (scope : Claim) (now : ℕ) (k : Text) (r : Request)
      → users.is_anon u ≡ false
      → generate_refresh_token jwt store users issuer client u scope now
          (record r { session_key = some k })
        ≡ jwt.encode (signed client scope now k)
  unfolding generate_refresh_token refresh_claims
  generate_refresh_token-signed client u scope now k r a = rw (a, generate_refresh_token) refl

  satisfies-signed :
      (client : Text) (scope : Claim) (now : ℕ) (k : Text)
      → is_truthy (str issuer) ≡ true
      → is_truthy (str client) ≡ true
      → is_truthy (str k) ≡ true
      → satisfies (claims_options jwt store users issuer) (signed client scope now k) ≡ true
  unfolding lookup
  satisfies-signed client scope now k i c n = rw (i, c, n, beq_refl issuer) refl

  decode-encode :
      (client : Text) (scope : Claim) (now later : ℕ) (k : Text)
      → is_truthy (str issuer) ≡ true
      → is_truthy (str client) ≡ true
      → is_truthy (str k) ≡ true
      → now ≤ later
      → decode jwt store users issuer later (jwt.encode (signed client scope now k))
        ≡ some (signed client scope now k)
  unfolding decode lookup
  decode-encode client scope now later k i c n h =
      let valid : jwt.validate (claims_options jwt store users issuer) later
            (signed client scope now k)
          ≡ true =
        jwt_laws.validate-rules (claims_options jwt store users issuer) later
          (signed client scope now k)
        ∙ ground (
          arith,
          satisfies-signed client scope now k i c n,
          jwt_laws.issued-timely (signed client scope now k) now later refl refl refl h,
        ) in
      rw (jwt_laws.verify-encode (signed client scope now k), valid, decode) refl

  -- The key of the session that a login opens, and the store with it.
  abbrev opened : U → Request → S → Text × S
  opened u r s = let (k, s') = ensure_session jwt store users issuer r s in store.login k u s'

  issue_lem :
      (grant_type client : Text) (u : U) (scope : Claim) (now : ℕ) (r : Request) (s : S)
      → (grant_type == codes "refresh_token") ≡ false
      → users.is_anon u ≡ false
      → issue grant_type client u scope now r s
        ≡ some (
          common_claims jwt store users issuer u (str (opened u r s).0),
          jwt.encode (signed client scope now (opened u r s).0),
          (opened u r s).1,
        )
  unfolding get_extra_claims open_session
  issue_lem grant_type client u scope now r s g a =
      rw (g, a, generate_refresh_token-signed client u scope now (opened u r s).0 r a) refl

  refresh-opened :
      (client : Text) (u : U) (scope : Claim) (now later : ℕ) (r : Request) (s : S)
      → is_truthy (str issuer) ≡ true
      → is_truthy (str client) ≡ true
      → now ≤ later
      → refresh jwt store users issuer later
          (jwt.encode (signed client scope now (opened u r s).0))
          (opened u r s).1
        ≡ some u
  unfolding refresh
  refresh-opened client u scope now later r s i c h =
      let (k, s') = ensure_session jwt store users issuer r s in
      let valid =
        decode-encode client scope now later (opened u r s).0 i c (store_laws.login-named k u s')
          h in
      rw valid (
        rw
          (
            get_user-jti jwt store users issuer store_laws
                (signed client scope now (opened u r s).0) (opened u r s).0 (opened u r s).1
                (lookup-signed client scope now (opened u r s).0),
            store_laws.exists-login k u s',
          )
          (store_laws.user_of-login k u s'))

  -- For a user who is logged in by any grant but `refresh_token`, the access token is given the key of a
  -- session, and the refresh token, at any later time and while the store is as it was left, gives back
  -- the user.
  pub refresh-issue :
      (grant_type client : Text) (u : U) (scope : Claim) (now later : ℕ) (r : Request) (s : S)
      → (grant_type == codes "refresh_token") ≡ false
      → users.is_anon u ≡ false
      → KeepsJti u
      → is_truthy (str issuer) ≡ true
      → is_truthy (str client) ≡ true
      → now ≤ later
      → (claims : Claims) × (token : T) × (s' : S) × (k : Text) × (issue grant_type client u scope
            now r s
          ≡ some (claims, token, s'))
        × (lookup (codes "jti") claims ≡ some (str k))
        × (refresh jwt store users issuer later token s' ≡ some u)
  refresh-issue grant_type client u scope now later r s g a j i c h = (
    common_claims jwt store users issuer u (str (opened u r s).0),
    jwt.encode (signed client scope now (opened u r s).0),
    (opened u r s).1,
    (opened u r s).0,
    issue_lem grant_type client u scope now r s g a,
    common_claims-jti u (str (opened u r s).0) j,
    refresh-opened client u scope now later r s i c h,
  )
