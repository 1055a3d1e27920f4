-- ===== src/Api/Nested/Names.antt =====
-- The actions, paths and subactions of nested views, and the helpers of the decorators.
use vstutils.Base.{
  Bool, true, false, not, ◌&&◌, List, [], ◌∷◌, ◌++◌, Option, none, some, if◌then◌else◌, ◌==◌,
  text_eq, any, keep,
}
use vstutils.Base.Text.{Text, codes, lower}

-- `get_action_name`
unfoldable pub get_action_name : (nested_detail : Bool) → Text → Option Text
unfolding lower
get_action_name nested_detail method =
    let m = lower method in
    if m == codes "post"
    then some (codes "create")
    else if m == codes "get" && not nested_detail
    then some (codes "list")
    else if m == codes "get" && nested_detail
    then some (codes "retrieve")
    else if m == codes "put"
    then some (codes "update")
    else if m == codes "patch"
    then some (codes "partial_update")
    else if m == codes "delete"
    then some (codes "destroy")
    else none

-- `__get_nested_path`; an argument that is empty is as none.
unfoldable pub get_nested_path : (name arg arg_regexp : Text) → (empty_arg : Bool) → Text
get_nested_path name [] arg_regexp empty_arg = name
get_nested_path name (c ∷ arg) arg_regexp empty_arg =
    name
    ++ codes "/?(?P<"
    ++ (c ∷ arg)
    ++ codes ">"
    ++ arg_regexp
    ++ (if empty_arg then codes "*" else codes "+")
    ++ codes ")"

-- `_get_nested_subpath`
unfoldable pub get_nested_subpath :
    (sub_path name arg arg_regexp : Text) → (empty_arg : Bool) → Text
unfolding get_nested_path
get_nested_subpath [] name arg arg_regexp empty_arg = get_nested_path name arg arg_regexp empty_arg
get_nested_subpath (c ∷ sub_path) name arg arg_regexp empty_arg =
    get_nested_path name arg arg_regexp empty_arg ++ codes "/" ++ c ∷ sub_path

-- An extra action of a view class: its name, and whether it is one of a single object.
pub record Extra : Type 0 where
  pub name : Text
  pub detail : Bool

abbrev names_of : List Extra → List Text
names_of [] = []
names_of (x ∷ xs) = x.name ∷ names_of xs

-- `_get_subs_from_view`, with the `filter_subs` of the class
unfoldable pub get_subs_from_view : (arg : Option Text) → List Extra → List Text
get_subs_from_view arg extras =
    keep (λ name. not (name == codes "filter"))
      (names_of (elim arg [ none ↦ keep (λ x. not x.detail) extras | some a ↦ extras ]))

abbrev pub is_one : Text → List Text → Bool
is_one name names = any (λ n. n == name) names

-- `get_subs`, as a list for the set
unfoldable pub get_subs :
    (arg : Option Text) → (allowed_subs : Option (List Text)) → List Extra → List Text
unfolding get_subs_from_view
get_subs arg none extras = []
get_subs arg (some []) extras = get_subs_from_view arg extras
get_subs arg (some (n ∷ names)) extras =
    let subs = get_subs_from_view arg extras in keep (λ name. is_one name subs) (n ∷ names)

-- `_filter_methods`, as a list for the set
unfoldable pub filter_methods : (methods allowed_methods : List Text) → List Text
filter_methods methods allowed = keep (λ m. is_one m methods) allowed

-- The filters of `queryset_filters` that can be called, one after the other, on the queryset that the
-- filter of deep views may have narrowed
abbrev apply_filters : {Q : Type 0} → List (Option (Q → Q)) → Q → Q
apply_filters [] q = q
apply_filters (none ∷ fs) q = apply_filters fs q
apply_filters (some f ∷ fs) q = apply_filters fs (f q)

-- `get_queryset`
unfoldable pub get_queryset :
    {Q : Type 0} → (has_deep : Bool) → (deep : Q → Q) → List (Option (Q → Q)) → (all : Q) → Q
get_queryset has_deep deep filters all = apply_filters filters (if has_deep then deep all else all)

abbrev items_of : {A : Type 0} → Option (List A) → List A
items_of none = []
items_of (some xs) = xs

-- `extend_viewset_attribute`: the value of the attribute, given what it was
unfoldable pub extended :
    {A : Type 0} → (override : Bool) → Option (List A) → (value : Option (List A)) → Option (List A)
extended true old new = new
extended false old new = some (items_of old ++ items_of new)
