-- ===== src/Oauth/Code/Tests.antt =====
-- vstutils/oauth2/authorization_code.py: a cache that keeps a list, and the theorems at inputs.
use vstutils.Base.{
  ◌≡◌, ℕ, ◌+◌, refl, [], ◌∷◌, Option, none, some, if◌then◌else◌, ◌==◌, text_eq, Assoc, lookup,
  insert, remove, lookup-insert, lookup-remove, ltb, Bool-cases, inl, inr,
}
use vstutils.Base.Text.{Text, codes, has_char}
use vstutils.Oauth.Code.{
  AuthorizationCode, CodeCache, CacheLaws, save, delete, query, query_authorization_code,
  save_authorization_code, get_cache_key, unexpired, is_expired, authenticate_code_user, failed,
}

exchange : Unit {0}
unfolding lookup insert remove save delete query query_authorization_code save_authorization_code
    get_cache_key unexpired is_expired has_char authenticate_code_user
exchange = tt

-- A list of the codes with the times at which they are gone.
abbrev Codes : Type 0
Codes = Assoc Text (AuthorizationCode × ℕ)

abbrev live : ℕ → Option (AuthorizationCode × ℕ) → Option AuthorizationCode
live now none = none
live now (some (c, end)) = if ltb now end then some c else none

abbrev code_cache : CodeCache Codes
code_cache = record {
  get = λ now k s. live now (lookup k s);
  set = λ now k c t s. insert k (c, now + t) s;
  delete = λ k s. remove k s;
}

code_laws : CacheLaws code_cache
code_laws = record {
  get-set = λ now later k j c t s h.
      rw (lookup-insert k j (c, now + t) s)
        (elim (Bool-cases (k == j)) [ inl e ↦ rw e refl | inr e ↦ rw e refl ]);
  get-delete = λ now k j s.
      rw (lookup-remove k j s)
        (elim (Bool-cases (k == j)) [ inl e ↦ rw e refl | inr e ↦ rw e refl ]);
}

abbrev code : AuthorizationCode
code = record {
  code = codes "xyz";
  client_id = codes "app";
  redirect_uri = none;
  response_type = codes "code";
  scope = none;
  user_id = codes "1";
  auth_time = 10;
  code_challenge = none;
  code_challenge_method = none;
  auth_backend_path = codes "ldap";
}

saved_code :
    save_authorization_code code_cache 10
      (codes "xyz")
      (record {
        client_id = codes "app";
        redirect_uri = none;
        response_type = codes "code";
        scope = none;
        code_challenge = none;
        code_challenge_method = none;
        user = record { user_id = codes "1"; backend = some (codes "ldap") };
      })
      []
    ≡ some (code, (codes "auth-code:xyz-app", (code, 310)) ∷ [])
unfolding exchange
saved_code = refl

-- A user who is gone by then is an error, not a refused grant.
gone_user : authenticate_code_user (λ b i. none) code ≡ failed
unfolding exchange
gone_user = refl
