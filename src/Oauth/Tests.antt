-- ===== src/Oauth/Tests.antt =====
-- vstutils/oauth2: a signature that hides nothing, a session store that keeps a list, and the theorems
-- at inputs.
use vstutils.Base.{
  ◌≡◌, ℕ, refl, Bool, true, false, ◌&&◌, [], ◌∷◌, Option, none, some, ◌==◌, text_eq, Assoc, lookup,
  insert, remove, merge, lookup-insert, lookup-remove, leb, arith, Bool-cases, inl, inr, beq_refl,
  le→leb,
}
use vstutils.Base.Text.{Text, codes}
use vstutils.Oauth.Client.{
  ClientData, SimpleClient, Post, query_simple_client, check_client_secret, check_found,
  check_named, same_origin_client_secret_post,
}
use vstutils.Oauth.Session.{
  Claim, null, str, num, flag, Claims, satisfies, is_truthy, Jwt, JwtLaws, Store, StoreLaws, Users,
  Request, decode, refresh, revocation_endpoint, get_user, session_of, revoke, refresh_claims,
  get_extra_claims, generate_refresh_token, common_claims, open_session, ensure_session, refused,
  second_factor_error, accepted, authenticate_user,
}
use vstutils.Oauth.Session.Lifecycle.{issue, refresh-issue}
use vstutils.Oauth.Session.Revoke.{refresh-revocation_endpoint}
use vstutils.Oauth.Code.{
  save, delete, query, query_authorization_code, save_authorization_code, get_cache_key,
}

abbrev is_before : ℕ → Option Claim → Bool
is_before now (some (num i)) = leb i now
is_before now _ = true

abbrev timely : ℕ → Claims → Bool
timely now c = is_before now (lookup (codes "iat") c)

abbrev jwt : Jwt Claims
jwt = record {
  encode = λ c. c;
  verify = λ c. some c;
  is_timely = timely;
  validate = λ rules now c. timely now c && satisfies rules c;
}

jwt_laws : JwtLaws jwt
jwt_laws = record {
  verify-encode = λ c. refl;
  validate-rules = λ rules now c. refl;
  issued-timely = λ c issued now i e n h. rw i (le→leb issued now h);
}

-- A user is its name.
abbrev Sessions : Type 0
Sessions = Assoc Text Text

abbrev key_of : Text → Text
key_of [] = codes "new"
key_of (c ∷ k) = c ∷ k

abbrev is_here : Option Text → Bool
is_here none = false
is_here (some u) = true

abbrev store : Store Sessions Text
store = record {
  exists = λ k s. is_here (lookup k s);
  user_of = λ k s. lookup k s;
  save_new = λ s. (codes "new", insert (codes "new") [] s);
  login = λ k u s. (key_of k, insert (key_of k) u s);
  delete = λ k s. remove k s;
}

named : (k : Text) → is_truthy (str (key_of k)) ≡ true
named [] = refl
named (c ∷ k) = refl

store_laws : StoreLaws store
store_laws = record {
  exists-delete = λ k j s.
      rw (lookup-remove k j s)
        (elim (Bool-cases (k == j)) [ inl e ↦ rw e refl | inr e ↦ rw e refl ]);
  user_of-delete = λ k j s h. rw (lookup-remove k j s, h) refl;
  exists-login = λ k u s. rw (lookup-insert (key_of k) (key_of k) u s, beq_refl (key_of k)) refl;
  user_of-login = λ k u s. rw (lookup-insert (key_of k) (key_of k) u s, beq_refl (key_of k)) refl;
  login-named = λ k u s. named k;
}

abbrev users : Users Text
users = record {
  is_anon = λ u. false;
  get_access_token_claims = λ u. (codes "role", str (codes "admin")) ∷ [];
  extra_claims_provider = λ u. [];
  second_factor_required = λ u. u == codes "careful";
  validate_second_factor = λ u code. elim code [ none ↦ false | some c ↦ c == codes "123" ];
}

abbrev request : Request
request = record { session_key = none; refresh_token = [] }

abbrev token : (session : Text) → Claims
token session =
    (codes "iss", str (codes "site"))
    ∷ (codes "client_id", str (codes "app"))
    ∷ (codes "iat", num 10)
    ∷ (codes "scope", null)
    ∷ (codes "refresh", flag true)
    ∷ (codes "jti", str session)
    ∷ []

oauth : Unit {0}
unfolding lookup insert remove merge decode refresh revocation_endpoint get_user session_of revoke
    refresh_claims get_extra_claims generate_refresh_token common_claims open_session ensure_session
    authenticate_user query_simple_client check_client_secret check_found check_named
    same_origin_client_secret_post save delete query query_authorization_code
    save_authorization_code get_cache_key
oauth = tt

-- The session that a login opens, and the end of it.
login_and_out :
    (issue jwt store users
        (codes "site")
        jwt_laws
        store_laws
        (codes "password")
        (codes "app")
        (codes "ann")
        null
        10
        request
        []
      ≡ some (
        (codes "jti", str (codes "new")) ∷ (codes "role", str (codes "admin")) ∷ [],
        token (codes "new"),
        (codes "new", codes "ann") ∷ [],
      ))
    × (refresh jwt store users
          (codes "site")
          20
          (token (codes "new"))
          ((codes "new", codes "ann") ∷ [])
        ≡ some (codes "ann"))
    × (revocation_endpoint jwt store users
          (codes "site")
          20
          (token (codes "new"))
          ((codes "new", codes "ann") ∷ [])
        ≡ [])
    × (refresh jwt store users
          (codes "other")
          20
          (token (codes "new"))
          ((codes "new", codes "ann") ∷ [])
        ≡ none)
unfolding oauth
login_and_out = (refl, refl, refl, refl)

second_factor :
    (authenticate_user users (λ u p. some u) (codes "careful") [] (some (codes "123"))
      ≡ accepted (codes "careful"))
    × (authenticate_user users (λ u p. some u) (codes "careful") [] none ≡ second_factor_error)
    × (authenticate_user users (λ u p. none) (codes "ann") [] none ≡ refused)
unfolding oauth
second_factor = (refl, refl, refl)

refresh-issue_example :
    (claims : Claims) × (t : Claims) × (s' : Sessions) × (k : Text) × (issue jwt store users
        (codes "site")
        jwt_laws
        store_laws
        (codes "password")
        (codes "app")
        (codes "ann")
        null
        10
        request
        []
      ≡ some (claims, t, s'))
    × (lookup (codes "jti") claims ≡ some (str k))
    × (refresh jwt store users (codes "site") 20 t s' ≡ some (codes "ann"))
unfolding lookup
refresh-issue_example =
    refresh-issue jwt store users (codes "site") jwt_laws store_laws (codes "password")
      (codes "app") (codes "ann") null 10 20 request [] refl refl (refl, refl) refl refl
      (omega arith)

refresh-revocation_endpoint_example :
    refresh jwt store users (codes "site") 30 (token (codes "b")) (
      revocation_endpoint jwt store users
        (codes "site")
        20
        (token (codes "a"))
        ((codes "a", codes "ann") ∷ (codes "b", codes "bob") ∷ []))
    ≡ some (codes "bob")
unfolding oauth
refresh-revocation_endpoint_example =
    refresh-revocation_endpoint jwt store users (codes "site") store_laws 20 30 (token (codes "a"))
      (token (codes "b")) (token (codes "a")) (token (codes "b")) (codes "a") (codes "b")
      ((codes "a", codes "ann") ∷ (codes "b", codes "bob") ∷ []) refl refl refl refl

abbrev clients : Assoc Text ClientData
clients =
    (
      codes "app",
      record {
        allowed_grant_types = codes "password" ∷ [];
        secret = some (codes "s3");
        allowed_redirect_uris = none;
        allowed_response_types = none;
        token_endpoint_auth_methods = none;
        default_redirect_uri = none;
      },
    )
    ∷ []

abbrev app : SimpleClient
app = record {
  id = codes "app";
  allowed_grant_types = codes "password" ∷ [];
  secret = some (codes "s3");
  allowed_redirect_uris = [];
  allowed_response_types = [];
  token_endpoint_auth_methods = [];
  default_redirect_uri = none;
}

abbrev sent : Post
sent = record {
  fetch_site = some (codes "same-origin");
  form = (codes "client_id", codes "app") ∷ (codes "client_secret", codes "s3") ∷ [];
  basic = (none, none);
}
