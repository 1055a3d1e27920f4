-- ===== src/Api/Etag/Defs.antt =====
-- The value of an entity tag, and the conditional requests that compare it. The hashes of hashlib are
-- parameters; `none` is an exception.
use vstutils.Base.{
  Bool, true, false, not, ◌||◌, List, [], ◌∷◌, ◌++◌, Option, none, some, if◌then◌else◌, ◌==◌,
  text_eq, any, map, Assoc, lookup,
}
use vstutils.Base.Text.{Text, codes, join}
use vstutils.Utils.Headers.{check_request_etag}

-- `EtagDependency`
pub record Dependencies : Type 0 where
  pub on_user : Bool
  pub on_session : Bool
  pub on_lang : Bool

-- A model with a method `get_etag_value`, which takes a key that may be null, or another class, by what
-- `str` makes of it.
pub data Model : Type 0 where
  cached : (name : Text) → (Option Text → Text) → Dependencies → Model
  plain : (name : Text) → Model

abbrev pub name_of : Model → Text
name_of (cached name value d) = name
name_of (plain name) = name

-- What the tag takes from a request: the language cookie, `request.user.id or 0`, and the key of the
-- session, if there is one.
pub record Request : Type 0 where
  pub lang_cookie : Option Text
  pub user_id : Text
  pub session_key : Option Text

-- The settings FULL_VERSION and LANGUAGE_CODE, and `hexdigest` of blake2s with 8 and 4 bytes.
pub record Settings : Type 0 where
  pub version : Text
  pub language_code : Text
  pub hash8 : Text → Text
  pub hash4 : Text → Text

abbrev pub get_or {ℓ} : {A : Type ℓ} → Option A → A → A
get_or none a = a
get_or (some b) a = b

-- `f'_{text}'` behind the value, where the flag holds
abbrev pub suffix : Bool → Text → Text
suffix false t = []
suffix true t = b'_' ∷ t

-- `session := getattr(request, 'session', None)`
abbrev pub session_suffix : Bool → Option Text → Text
session_suffix on none = []
session_suffix on (some key) = suffix on key

abbrev pub is_true : Bool → Option Text → Bool
is_true on none = false
is_true on (some key) = on

-- `pk or view.kwargs.get(...)`: no key, and one that is false, as 0, make way for the key of the URL.
abbrev pub pk_or : Option Text → Option Text → Option Text
pk_or none url = url
pk_or (some pk) url = if pk == codes "" || pk == codes "0" then url else some pk

module _ (s : Settings) where
  unfoldable pub get_single : (url_pk : Option Text) → Request → Model → Option Text → Text
  get_single url_pk r (plain name) pk = name ++ (b'_' ∷ s.hash4 s.version)
  get_single url_pk r (cached name value d) pk =
      let etag =
        value (pk_or pk url_pk)
        ++ (suffix d.on_lang (get_or r.lang_cookie s.language_code)
            ++ (suffix d.on_user r.user_id ++ session_suffix d.on_session r.session_key)) in
      if d.on_user || is_true d.on_session r.session_key
      then s.hash8 (etag ++ (b'_' ∷ s.version))
      else etag

  -- `get_etag_value`; the models of a list stand by their keys in `pks`, or get 0.
  unfoldable pub get_many :
      (url_pk : Option Text) → Request → List Model → (pks : Assoc Text Text) → Text
  unfolding get_single lookup join
  get_many url_pk r models pks = s.hash8 (
      join (b'_' ∷ []) (
        map (λ m. get_single url_pk r m (some (get_or (lookup (name_of m) pks) (codes "0"))))
          models))

-- `check_etag`: it passes, or raises one of its two exceptions, or `check_request_etag` raises.
pub data Verdict : Type 0 where
  passes : Verdict
  not_modified : Verdict
  precondition_failed : Verdict
  fails : Verdict

abbrev pub is_reading : Text → Bool
is_reading method = method == codes "GET" || method == codes "HEAD"

-- `should_check_action`, given `etag_match_methods`
abbrev pub should_check_action : Option (List Text) → Text → Bool
should_check_action none method = true
should_check_action (some methods) method = any (λ m. method == m) methods

abbrev pub verdict : Verdict → Option (Text × Bool) → Verdict
verdict exception none = fails
verdict exception (some (tag, match)) = if match then exception else passes

unfoldable pub check_etag :
    (etag_match_methods : Option (List Text))
    → (method : Text) → (headers : Text → Option Text) → (value : Text) → Verdict
check_etag methods method headers value =
    if is_reading method
    then verdict not_modified
        (check_request_etag (λ e h. e == h) (headers (codes "If-None-Match")) value)
    else if should_check_action methods method
    then verdict precondition_failed
        (check_request_etag (λ e h. not (e == h)) (headers (codes "If-Match")) value)
    else passes

-- `finalize_response`: the header ETag of the response, given what it is already.
unfoldable pub finalize_response :
    (is_main_action : Bool) → Option Text → (value : Text) → Option Text
finalize_response main (some tag) value = some tag
finalize_response false none value = none
finalize_response true none value = some (b'"' ∷ value ++ b'"' ∷ [])
