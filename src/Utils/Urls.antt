-- ===== src/Utils/Urls.antt =====
-- vstutils/utils.py: `URLHandlers.get_object`. An entry is a dict, not the name of another one; its
-- `view_args` is a list and its `view_kwargs` a dict. The cache of the loaded backends is left out.
use vstutils.Base.{
  ◌≡◌, refl, Bool, true, false, not, ◌||◌, List, [], ◌∷◌, Option, none, some, text_eq, Assoc,
  lookup, insert, remove, merge, lookup-insert, beq_refl,
}
use vstutils.Base.Text.{Text, codes, has_char}
use vstutils.Utils.Handlers.{Load, unknown_type, none_backend, class_of}
use vstutils.Utils.Handlers.Loaded.{load_path}

-- `OPTIONS`, or the arguments that override them: what `get_object` takes out, and the others.
pub record Options (W : Type 0) : Type 0 where
  pub view_args : Option (List W)
  pub view_kwargs : Option (Assoc Text W)
  pub others : Assoc Text W

pub record UrlEntry (W : Type 0) : Type 0 where
  pub backend_path : Option Text
  pub options : Option (Options W)
  pub csrf_enable : Option Bool

abbrev pub no_options : {W : Type 0} → Options W
no_options = record { view_args = none; view_kwargs = none; others = [] }

abbrev pub first_of : {A : Type 0} → Option A → Option A → Option A
first_of none o = o
first_of (some a) o = some a

abbrev pub or_value : {A : Type 0} → Option A → A → A
or_value none a = a
or_value (some b) a = b

-- `options.update(kwargs)`
unfoldable pub update : {W : Type 0} → Options W → Options W → Options W
update options kwargs = record {
  view_args = first_of kwargs.view_args options.view_args;
  view_kwargs = first_of kwargs.view_kwargs options.view_kwargs;
  others = merge options.others kwargs.others;
}

-- What a backend is: a class of views, a module with `urlpatterns` and `app_name`, or something else.
pub data ViewKind : Type 0 where
  view_class url_module url_list : ViewKind

-- A call of `path` or `re_path`: on a view with its arguments, or on the URLs of a module or a list.
pub data Url (W C : Type 0) : Type 0 where
  view_url :
      (is_regexp : Bool)
      → Text
      → C
      → (view_kwargs : Assoc Text W) → (csrf_exempt : Bool) → (args : List W)
      → (options : Assoc Text W) → Url W C
  include_url :
      (is_regexp : Bool)
      → Text
      → C
      → (in_gui : Bool) → (namespace : Option W) → (args : List W) → (kwargs : Assoc Text W)
      → Url W C

pub data UrlEnd (W C : Type 0) : Type 0 where
  key_error : UrlEnd W C
  not_loaded : Load C → UrlEnd W C
  url_made : Url W C → UrlEnd W C

abbrev pub is_regexp : Text → Bool
is_regexp name =
    has_char b'^' name || (has_char b'$' name || (has_char b'(' name || has_char b'?' name))

module _ {W C : Type 0} (import_string : Text → Option C) (kind : C → ViewKind)
    (default_namespace : Option W) where
  unfoldable pub url_for :
      (name : Text)
      → Option Bool
      → C
      → (args : List W) → (view_kwargs options : Assoc Text W) → Url W C
  url_for name csrf_enable c args view_kwargs options =
      let rest = remove (codes "namespace") view_kwargs in
      let namespace = first_of (lookup (codes "namespace") view_kwargs) default_namespace in
      elim (kind c) [
        | view_class ↦
            view_url (is_regexp name) name c rest (not (or_value csrf_enable true)) args options
        | url_module ↦ include_url (is_regexp name) name c false none args rest
        | url_list ↦ include_url (is_regexp name) name c true namespace args rest
      ]

  abbrev pub end_with : Load C → (C → Url W C) → UrlEnd W C
  end_with (class_of c) url = url_made (url c)
  end_with unknown_type url = not_loaded unknown_type
  end_with none_backend url = not_loaded none_backend

  -- What is left in the entry's own dict, if it has one.
  abbrev pub left_over : Option (Options W) → Options W → Option (Options W)
  left_over none options = none
  left_over (some old) options = some (record no_options { others = options.others })

  unfoldable pub get_known_url :
      (name : Text)
      → (argv : List W) → Options W
      → Option (UrlEntry W)
      → Assoc Text (UrlEntry W)
      → UrlEnd W C × Assoc Text (UrlEntry W)
  unfolding url_for update
  get_known_url name argv kwargs none entries = (key_error, entries)
  get_known_url name argv kwargs (some e) entries =
      let options = update (or_value e.options no_options) kwargs in
      (
        end_with (load_path import_string e.backend_path) (λ c.
            url_for name e.csrf_enable c (or_value options.view_args argv)
              (or_value options.view_kwargs []) options.others),
        insert name (record e { options = left_over e.options options }) entries,
      )

  unfoldable pub get_url :
      (name : Text)
      → (argv : List W) → Options W
      → Assoc Text (UrlEntry W)
      → UrlEnd W C × Assoc Text (UrlEntry W)
  unfolding get_known_url
  get_url name argv kwargs entries = get_known_url name argv kwargs (lookup name entries) entries

  -- `urls`, over the names that `list` has
  unfoldable pub urls :
      List Text → Assoc Text (UrlEntry W) → List (UrlEnd W C) × Assoc Text (UrlEntry W)
  unfolding get_url
  urls [] entries = ([], entries)
  urls (name ∷ names) entries =
      let (u, entries1) = get_url name [] no_options entries in
      let (us, entries2) = urls names entries1 in (u ∷ us, entries2)

  -- The second URL made from a known entry that has options and a class that can be imported gets
  -- neither the view arguments nor the view's keyword arguments of the entry, which the first takes out.
  pub get_url_again :
      (name : Text) (argv : List W) (e : UrlEntry W) (o : Options W) (c : C)
      (entries : Assoc Text (UrlEntry W))
      → lookup name entries ≡ some e
      → e.options ≡ some o
      → load_path import_string e.backend_path ≡ class_of c
      → ((get_url name argv no_options entries).0
          ≡ url_made (
              url_for name e.csrf_enable c
                (or_value o.view_args argv)
                (or_value o.view_kwargs [])
                o.others))
        × ((get_url name argv no_options (get_url name argv no_options entries).1).0
            ≡ url_made (url_for name e.csrf_enable c argv [] o.others))
  unfolding get_url get_known_url update merge
  get_url_again name argv e o c entries h q l = (
    rw (h, q, l) refl,
    rw
        (
          h,
          q,
          lookup-insert name name
              (record e { options = some (record no_options { others = o.others }) }) entries,
          beq_refl name,
          l,
        )
        refl,
  )
