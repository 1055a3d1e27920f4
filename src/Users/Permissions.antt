-- ===== src/Users/Permissions.antt =====
-- vstutils/api/permissions.py and `ChangePasswordPermission` of vstutils/api/auth.py. The base classes
-- are those of Django REST framework: IsAuthenticated asks whether the user is authenticated.
use vstutils.Base.{
  Bool, true, false, ◌||◌, [], ◌∷◌, ◌++◌, Option, none, some, if◌then◌else◌, ◌==◌, text_eq, ℕ, any,
}
use vstutils.Base.Text.{Text, codes, starts_with}
use vstutils.Users.Account.{
  Account, User, anonymous, known, is_authenticated, is_staff, is_superuser, is_own,
}

pub record Request : Type 0 where
  pub user : User
  pub method : Text
  pub path : Text
  pub version : Text

-- What a view says when it is asked: whether the model of its queryset is a model of users, `none` where
-- asking raises, and the `pk` of the URL, if there is one.
pub record View : Type 0 where
  pub model_is_user : Option Bool
  pub pk : Option Text

-- `permissions.SAFE_METHODS`
abbrev pub is_safe : Text → Bool
is_safe method = any (λ m. method == m) (codes "GET" ∷ codes "HEAD" ∷ codes "OPTIONS" ∷ [])

module _ (api_url : Text) where
  unfoldable pub is_openapi_request : Request → Bool
  unfolding starts_with
  is_openapi_request r =
      starts_with r.path (codes "/" ++ (api_url ++ codes "/openapi/"))
      || starts_with r.path (codes "/" ++ (api_url ++ codes "/endpoint/"))
      || r.path == (codes "/" ++ (api_url ++ (codes "/" ++ (r.version ++ codes "/_openapi/"))))

  -- `IsAuthenticatedOpenApiRequest.has_permission`
  unfoldable pub may_read_openapi : Request → Bool
  unfolding is_openapi_request
  may_read_openapi r = is_openapi_request r || is_authenticated r.user

  module _ (str : ℕ → Text) where
    -- `str(request.user.pk)`
    abbrev pub str_pk : User → Text
    str_pk anonymous = codes "None"
    str_pk (known a) = str a.pk

    abbrev pub is_own_url : User → Text → Bool
    is_own_url user pk = pk == str_pk user || pk == codes "profile"

    -- The block under `raise_context`; a query or a `pk` that raises is suppressed.
    abbrev pub asks_for_self : Request → View → Option Bool
    asks_for_self r v = elim v.model_is_user [
      | none ↦ none
      | some false ↦ some false
      | some true ↦ elim v.pk [ none ↦ none | some pk ↦ some (is_own_url r.user pk) ]
    ]

    -- `SuperUserPermission.has_permission`
    unfoldable pub has_permission : Request → View → Bool
    unfolding is_openapi_request
    has_permission r v =
        if is_staff r.user || is_superuser r.user || is_safe r.method
        then is_authenticated r.user
        else elim (asks_for_self r v) [ none ↦ is_openapi_request r | some b ↦ b ]

-- `SuperUserPermission.has_object_permission`; `none` is an object that is no user.
unfoldable pub has_object_permission : Request → Option Account → Bool
has_object_permission r obj =
    if is_superuser r.user then true else elim obj [ none ↦ false | some a ↦ is_own a r.user ]

-- `ChangePasswordPermission.has_object_permission`, where the model of the request's user is that of the
-- objects; an anonymous user's class is another one, of which no object is an instance.
unfoldable pub may_change_password : Request → Account → Bool
may_change_password r obj = is_superuser r.user || is_own obj r.user
