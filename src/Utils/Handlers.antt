-- ===== src/Utils/Handlers.antt =====
-- vstutils/utils.py: `ObjectHandlers`, `ModelHandlers` and `URLHandlers`, over a dict of the settings.
-- `list` keeps the dict itself, so what a call changes in an entry's `OPTIONS` stays changed, for the
-- settings too. `import_string` is a parameter. An entry of `URLHandlers` is a dict here, not the name
-- of another one.
pub mod Loaded
pub mod Again
use vstutils.Base.{
  ◌≡◌, Bool, true, false, not, ◌||◌, List, [], ◌∷◌, Option, none, some, if◌then◌else◌, ◌==◌,
  text_eq, Assoc, lookup, insert, remove, merge, any, eqb,
}
use vstutils.Base.Text.{Text, codes, has_char}

-- An entry of the settings: `BACKEND`, `OPTIONS` and `CSRF_ENABLE`, where they are given.
pub record Entry (V : Type 0) : Type 0 where
  pub backend_path : Option Text
  pub options : Option (Assoc Text V)
  pub csrf_enable : Option Bool

-- The settings, and the backends that are loaded.
pub record Handlers (V C : Type 0) : Type 0 where
  pub entries : Assoc Text (Entry V)
  pub loaded : Assoc Text C

-- What `backend` ends with: `UnknownTypeException`, `VSTUtilsException`, or a class.
pub data Load (C : Type 0) : Type 0 where
  unknown_type : Load C
  none_backend : Load C
  class_of : C → Load C

-- What `get_object` ends with: a `KeyError`, one of the above, or the call of a class.
pub data Made (V C : Type 0) : Type 0 where
  key_error : Made V C
  not_loaded : Load C → Made V C
  call : C → Assoc Text V → Made V C

module _ {V C : Type 0} (import_string : Text → Option C) where
  unfoldable pub import_backend : Text → Option C → Handlers V C → Load C × Handlers V C
  import_backend path none h = (unknown_type, h)
  import_backend path (some c) h = (class_of c, record h { loaded = insert path c h.loaded })

  -- `_get_backend`, with its `ImportError` made an `UnknownTypeException` by `backend`
  unfoldable pub find_backend : Text → Option C → Handlers V C → Load C × Handlers V C
  unfolding import_backend
  find_backend path (some c) h = (class_of c, h)
  find_backend path none h = import_backend path (import_string path) h

  unfoldable pub load_at : Option Text → Handlers V C → Load C × Handlers V C
  unfolding find_backend
  load_at none h = (none_backend, h)
  load_at (some path) h = find_backend path (lookup path h.loaded) h

  unfoldable pub load_entry : Option (Entry V) → Handlers V C → Load C × Handlers V C
  unfolding load_at
  load_entry none h = (unknown_type, h)
  load_entry (some e) h = load_at e.backend_path h

  unfoldable pub backend : Text → Handlers V C → Load C × Handlers V C
  unfolding load_entry
  backend name h = load_entry (lookup name h.entries) h

  unfoldable pub made : Assoc Text V → Load C × Handlers V C → Made V C × Handlers V C
  made options (class_of c, h) = (call c options, h)
  made options (unknown_type, h) = (not_loaded unknown_type, h)
  made options (none_backend, h) = (not_loaded none_backend, h)

  -- `opts`, where the entry is known
  abbrev pub opts_of : Option (Assoc Text V) → Assoc Text V
  opts_of none = []
  opts_of (some o) = o

  -- What is written into the entry's own dict, if it has one.
  abbrev pub changed : Option (Assoc Text V) → Assoc Text V → Option (Assoc Text V)
  changed none o = none
  changed (some old) o = some o

  abbrev pub with_options : Assoc Text V → Entry V → Entry V
  with_options o e = record e { options = changed e.options o }

  abbrev pub write : Text → Entry V → Handlers V C → Handlers V C
  write name e h = record h { entries = insert name e h.entries }

  unfoldable pub get_known :
      Text → (kwargs : Assoc Text V) → Option (Entry V) → Handlers V C → Made V C × Handlers V C
  unfolding backend made
  get_known name kwargs none h = (key_error, h)
  get_known name kwargs (some e) h =
      let options = merge (opts_of e.options) kwargs in
      made options (backend name (write name (with_options options e) h))

  -- `get_object`, with the arguments that override the options
  unfoldable pub get_object :
      Text → (kwargs : Assoc Text V) → Handlers V C → Made V C × Handlers V C
  unfolding get_known
  get_object name kwargs h = get_known name kwargs (lookup name h.entries) h

  -- `ModelHandlers.get_object`, which loads the class before it reads the options
  unfoldable pub get_model_object : Text → Handlers V C → Made V C × Handlers V C
  unfolding backend made
  get_model_object name h = elim (lookup name h.entries) [
    | none ↦ (not_loaded unknown_type, h)
    | some e ↦ made (opts_of e.options) (backend name h)
  ]
