-- ===== src/Users/Views.antt =====
-- vstutils/api/auth.py: `UserSerializer`, `CreateUserSerializer` and the operations of `UserViewSet` on
-- accounts. What Django REST framework makes of the data of a request is a parameter.
use vstutils.Base.{
  Bool, true, false, not, ◌&&◌, ◌||◌, [], ◌∷◌, ◌++◌, Option, none, some, if◌then◌else◌, ◌==◌,
  text_eq, ℕ, ◌⊎◌, inl, inr,
}
use vstutils.Base.Text.{Text, codes}
use vstutils.Users.Account.{
  Account, is_staff, is_superuser, is_own, own_pk, Table, find, save, delete,
}
use vstutils.Users.Permissions.{Request, View, has_permission, has_object_permission}

-- `validated_data` of an update: the fields that came with the request.
pub record Changes : Type 0 where
  pub username : Option Text
  pub email : Option Text
  pub first_name : Option Text
  pub last_name : Option Text
  pub is_active : Option Bool
  pub is_staff : Option Bool

-- `validated_data` of a creation.
pub record NewUser : Type 0 where
  pub changes : Changes
  pub password : Text
  pub password2 : Option Text

-- What the views get from the framework, for the data `D` of requests.
pub record Rest (D : Type 0) : Type 0 where
  -- the settings API_URL and ENABLE_USER_SELF_REMOVE
  pub api_url : Text
  pub enable_user_self_remove : Bool
  pub str : ℕ → Text
  -- what the primary key's field makes of the text of a URL
  pub parse : Text → Option ℕ
  -- whether the filters of the request let an account through
  pub visible : Request → Account → Bool
  -- `is_valid`, given whether `is_staff` may be written; `none` raises
  pub validate : (staff_writable partial : Bool) → Account → D → Option Changes
  pub validate_new : (staff_writable : Bool) → D → Option NewUser
  pub make_password : Text → Text
  -- the key of a new row
  pub new_pk : Table → ℕ

pub data Response : Type 0 where
  ok : Account → Response
  created : Account → Response
  no_content : Response
  conflict : Response
  not_found : Response
  denied : Response
  bad_request : Response

-- `validated_data.get(name, instance.name)`
abbrev pub get_or {ℓ} : {A : Type ℓ} → Option A → A → A
get_or none a = a
get_or (some b) a = b

-- `is_staff_or_super`
abbrev pub is_staff_or_super : Request → Bool
is_staff_or_super r = is_staff r.user || is_superuser r.user

-- `get_fields`: whether `is_staff` may be written
abbrev pub staff_writable : Request → Bool
staff_writable r = is_superuser r.user

-- `UserSerializer.update`, without the test of who asks
unfoldable pub changed : Account → Changes → Account
changed instance c = record instance {
  username = get_or c.username instance.username;
  is_active = get_or c.is_active instance.is_active;
  email = get_or c.email instance.email;
  first_name = get_or c.first_name instance.first_name;
  last_name = get_or c.last_name instance.last_name;
  is_staff = get_or c.is_staff instance.is_staff;
}

-- `UserSerializer.update`
unfoldable pub update_instance : Request → Account → Changes → Table → Table × Response
unfolding changed save
update_instance r instance c t =
    if not (is_staff_or_super r) && not (is_own instance r.user)
    then (t, denied)
    else (save (changed instance c) t, ok (changed instance c))

-- `validated_data['password'] == validated_data.pop('password2', None)`
abbrev pub is_repeated : Text → Option Text → Bool
is_repeated password none = false
is_repeated password (some again) = password == again

-- The view of the list has no key in its URL.
abbrev pub no_pk : View
no_pk = record { model_is_user = some true; pk = none }

-- The object permission of `UserViewSet`, on users.
abbrev pub user_permits : Request → Account → Bool
user_permits r a = has_object_permission r (some a)

module _ {D : Type 0} (rest : Rest D) where
  -- The key that `get_object` looks up: the user's own one for the name `profile`.
  abbrev pub key : Request → Text → Option ℕ
  key r pk = if pk == codes "profile" then own_pk r.user else rest.parse pk

  unfoldable pub pick : (Request → Account → Bool) → Request → Account → Account ⊎ Response
  pick permits r a =
      if not (rest.visible r a) then inr not_found else if permits r a then inl a else inr denied

  -- `get_object`, and the check of the object's permissions in it
  unfoldable pub get_object :
      (permits : Request → Account → Bool) → Request → Option ℕ → Table → Account ⊎ Response
  unfolding find pick
  get_object permits r none t = inr not_found
  get_object permits r (some k) t = elim (find k t) [
    | none ↦ inr not_found
    | some a ↦ pick permits r a
  ]

  abbrev pub view_at : Text → View
  view_at pk = record { model_is_user = some true; pk = some pk }

  -- The request is dispatched: the permissions of the view are checked first.
  unfoldable pub dispatch : Request → View → (Table → Table × Response) → Table → Table × Response
  unfolding has_permission
  dispatch r v handler t =
      if has_permission rest.api_url rest.str r v then handler t else (t, denied)

  -- `update` and `partial_update`
  unfoldable pub update_object :
      (partial : Bool) → Request → D → Account ⊎ Response → Table → Table × Response
  unfolding update_instance
  update_object partial r d (inr e) t = (t, e)
  update_object partial r d (inl a) t = elim (rest.validate (staff_writable r) partial a d) [
    | none ↦ (t, bad_request)
    | some c ↦ update_instance r a c t
  ]

  unfoldable pub update : (partial : Bool) → Request → Text → D → Table → Table × Response
  unfolding dispatch update_object get_object
  update partial r pk d =
      dispatch r (view_at pk)
        (λ t. update_object partial r d (get_object user_permits r (key r pk) t) t)

  -- `destroy`; the one of the framework looks the object up again.
  unfoldable pub destroy_object : Request → Option ℕ → Account ⊎ Response → Table → Table × Response
  unfolding get_object delete
  destroy_object r k (inr e) t = (t, e)
  destroy_object r k (inl a) t =
      if is_own a r.user && not rest.enable_user_self_remove
      then (t, conflict)
      else elim (get_object user_permits r k t) [
        | inr e ↦ (t, e)
        | inl b ↦ (delete b.pk t, no_content)
      ]

  unfoldable pub destroy : Request → Text → Table → Table × Response
  unfolding dispatch destroy_object
  destroy r pk =
      dispatch r (view_at pk)
        (λ t. destroy_object r (key r pk) (get_object user_permits r (key r pk) t) t)

  -- A new row with the model's defaults.
  unfoldable pub new_account : Changes → (password : Text) → Table → Account
  new_account c password t = record {
    pk = rest.new_pk t;
    username = get_or c.username [];
    email = get_or c.email [];
    first_name = get_or c.first_name [];
    last_name = get_or c.last_name [];
    password = password;
    is_active = get_or c.is_active true;
    is_staff = get_or c.is_staff false;
    is_superuser = false;
  }

  -- `CreateUserSerializer.run_validation` after the fields, and `UserSerializer.create`
  unfoldable pub create_instance : Request → NewUser → Table → Table × Response
  unfolding new_account
  create_instance r u t =
      if not (is_repeated u.password u.password2)
      then (t, bad_request)
      else if not (is_staff_or_super r)
      then (t, denied)
      else (
        t ++ new_account u.changes (rest.make_password u.password) t ∷ [],
        created (new_account u.changes (rest.make_password u.password) t),
      )

  unfoldable pub create : Request → D → Table → Table × Response
  unfolding dispatch create_instance
  create r d = dispatch r no_pk λ t. elim (rest.validate_new (staff_writable r) d) [
    | none ↦ (t, bad_request)
    | some u ↦ create_instance r u t
  ]
