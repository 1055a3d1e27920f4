-- ===== src/Api/Action/Defs.antt =====
-- The declaration of an action, as `Action` and `SimpleAction` make it, and what of it goes to the schema.
use vstutils.Base.{
  Bool, false, not, ◌&&◌, ◌||◌, List, [], ◌∷◌, ◌++◌, Option, none, some, if◌then◌else◌, ◌==◌,
  text_eq, any, map,
}
use vstutils.Base.Text.{Text, codes, upper}

-- The fields of an action that its operations read.
pub record Action : Type 0 where
  pub methods : List Text
  pub multi : Bool
  pub is_list : Bool
  pub edit_only : Bool

abbrev pub has_method : Text → List Text → Bool
has_method m methods = any (λ n. n == m) methods

-- `list(map(str.upper, methods or ['POST']))`
unfoldable pub init_methods : List Text → List Text
unfolding upper
init_methods [] = codes "POST" ∷ []
init_methods (m ∷ ms) = map upper (m ∷ ms)

-- `kwargs.setdefault('methods', ['GET'])` of a simple action
unfoldable pub init_simple : Option (List Text) → List Text
unfolding init_methods
init_simple none = init_methods (codes "GET" ∷ [])
init_simple (some methods) = init_methods methods

abbrev pub is_page : Action → Bool
is_page a = has_method (codes "GET") a.methods

-- `len(set(self.methods) - {'DELETE', 'GET'})`, as a truth value
abbrev pub has_other : List Text → Bool
has_other ms = any (λ m. not (m == codes "DELETE" || m == codes "GET")) ms

-- `get_extra_path_data`: whether it says x-edit-only
unfoldable pub is_edit_only : Action → Text → Bool
unfolding upper
is_edit_only a method =
    upper method == codes "GET"
    && (not a.is_list && (a.edit_only && (is_page a && has_other a.methods)))

-- `swagger_kwargs['x-multiaction']`
unfoldable pub multiaction : Action → Bool
multiaction a = if is_page a then false else a.multi

-- `setter` adds the methods of a change, if there is none of them yet.
unfoldable pub with_setter : Action → Action
with_setter a =
    if has_method (codes "PATCH") a.methods || has_method (codes "PUT") a.methods
    then a
    else record a { methods = a.methods ++ codes "PATCH" ∷ codes "PUT" ∷ [] }

-- `deleter` adds its method.
unfoldable pub with_deleter : Action → Action
with_deleter a =
    if has_method (codes "DELETE") a.methods
    then a
    else record a { methods = a.methods ++ codes "DELETE" ∷ [] }
