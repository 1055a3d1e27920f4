-- ===== src/Oauth/Code.antt =====
-- vstutils/oauth2/authorization_code.py: authorization codes, over Django's cache, a parameter with
-- its documented laws. The users of an authentication backend are a parameter too.
pub mod Exchange
pub mod Tests
use vstutils.Base.{
  ◌≡◌, ℕ, ◌+◌, ◌≤◌, ◌++◌, Bool, true, false, List, [], ◌∷◌, Option, none, some, if◌then◌else◌, ◌==◌,
  text_eq, ltb,
}
use vstutils.Base.Text.{Text, codes}

pub record AuthorizationCode : Type 0 where
  pub code : Text
  pub client_id : Text
  pub redirect_uri : Option Text
  pub response_type : Text
  pub scope : Option Text
  pub user_id : Text
  pub auth_time : ℕ
  pub code_challenge : Option Text
  pub code_challenge_method : Option Text
  pub auth_backend_path : Text

-- `_auth_code_ttl`, in seconds
abbrev pub auth_code_ttl : ℕ
auth_code_ttl = 300

-- The cache in state `C`, at a time.
pub record CodeCache (C : Type 0) : Type 0 where
  pub get : (now : ℕ) → Text → C → Option AuthorizationCode
  pub set : (now : ℕ) → Text → AuthorizationCode → (timeout : ℕ) → C → C
  pub delete : Text → C → C

-- An entry is read until its timeout, and not afterwards; writes and deletions change one key.
pub record CacheLaws {C : Type 0} (cache : CodeCache C) : Type 0 where
  pub get-set :
      (now later : ℕ) (k j : Text) (v : AuthorizationCode) (t : ℕ) (s : C)
      → now ≤ later
      → cache.get later j (cache.set now k v t s)
        ≡ (if k == j then if ltb later (now + t) then some v else none else cache.get later j s)
  pub get-delete :
      (now : ℕ) (k j : Text) (s : C)
      → cache.get now j (cache.delete k s) ≡ (if k == j then none else cache.get now j s)

-- A user as a backend knows it: its id and, once it has logged in, the path of the backend.
pub record CodeUser : Type 0 where
  pub user_id : Text
  pub backend : Option Text

-- What the grant reads of the authorization request, with its client's id and its user.
pub record CodeRequest : Type 0 where
  pub client_id : Text
  pub redirect_uri : Option Text
  pub response_type : Text
  pub scope : Option Text
  pub code_challenge : Option Text
  pub code_challenge_method : Option Text
  pub user : CodeUser

-- The end of `authenticate_user`: an exception, or a user.
pub data Exchanged : Type 0 where
  failed : Exchanged
  logged_in : CodeUser → Exchanged

unfoldable pub get_cache_key : (code client_id : Text) → Text
get_cache_key code client_id = codes "auth-code:" ++ (code ++ b'-' ∷ client_id)

unfoldable pub is_expired : ℕ → AuthorizationCode → Bool
is_expired now c = ltb (c.auth_time + auth_code_ttl) now

abbrev pub get_scope : AuthorizationCode → Text
get_scope c = elim c.scope [ none ↦ [] | some s ↦ s ]

unfoldable pub unexpired : ℕ → Option AuthorizationCode → Option AuthorizationCode
unfolding is_expired
unexpired now none = none
unexpired now (some c) = if is_expired now c then none else some c

module _ {C : Type 0} (cache : CodeCache C) where
  unfoldable pub query : ℕ → (code client_id : Text) → C → Option AuthorizationCode
  unfolding get_cache_key
  query now code client_id s = cache.get now (get_cache_key code client_id) s

  unfoldable pub save : ℕ → AuthorizationCode → C → C
  unfolding get_cache_key
  save now c s = cache.set now (get_cache_key c.code c.client_id) c auth_code_ttl s

  unfoldable pub delete : AuthorizationCode → C → C
  unfolding get_cache_key
  delete c s = cache.delete (get_cache_key c.code c.client_id) s

  -- `none`: the user has no backend, which is a `ValueError`.
  unfoldable pub save_authorization_code :
      ℕ → Text → CodeRequest → C → Option (AuthorizationCode × C)
  unfolding save
  save_authorization_code now code r s = elim r.user.backend [
    | none ↦ none
    | some [] ↦ none
    | some (b ∷ path) ↦
        let c : AuthorizationCode = record {
          code = code;
          client_id = r.client_id;
          redirect_uri = r.redirect_uri;
          response_type = r.response_type;
          scope = r.scope;
          user_id = r.user.user_id;
          auth_time = now;
          code_challenge = r.code_challenge;
          code_challenge_method = r.code_challenge_method;
          auth_backend_path = b ∷ path;
        } in
        some (c, save now c s)
  ]

  unfoldable pub query_authorization_code :
      ℕ → (code client_id : Text) → C → Option AuthorizationCode
  unfolding query
  query_authorization_code now code client_id s = unexpired now (query now code client_id s)

-- Over the users of each backend; without the user the assignment of `backend` raises.
unfoldable pub authenticate_code_user :
    (Text → Text → Option CodeUser) → AuthorizationCode → Exchanged
authenticate_code_user get_user c = elim (get_user c.auth_backend_path c.user_id) [
  | none ↦ failed
  | some u ↦ logged_in (record u { backend = some c.auth_backend_path })
]
