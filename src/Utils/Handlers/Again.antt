-- ===== src/Utils/Handlers/Again.antt =====
-- vstutils/utils.py: objects made one after another from one entry.
use mathlib.Core.Path.{subst}
use vstutils.Base.{
  ◌≡◌, refl, sym, ap, ◌∙◌, Option, none, some, text_eq, Assoc, lookup, merge, lookup-insert,
  beq_refl,
}
use vstutils.Base.Text.{Text}
use vstutils.Utils.Handlers.{
  Entry, Handlers, Load, class_of, Made, call, import_backend, find_backend, load_at, load_entry,
  backend, made, opts_of, with_options, write, changed, get_known, get_object,
}
use vstutils.Utils.Handlers.Loaded.{IsLoaded, load_plain, IsLoaded-backend}

module _ {V C : Type 0} (import_string : Text → Option C) where
  import_backend-entries :
      (path : Text) (o : Option C) (h : Handlers V C)
      → (import_backend import_string path o h).1.entries ≡ h.entries
  unfolding import_backend
  import_backend-entries path none h = refl
  import_backend-entries path (some c) h = refl

  find_backend-entries :
      (path : Text) (o : Option C) (h : Handlers V C)
      → (find_backend import_string path o h).1.entries ≡ h.entries
  unfolding find_backend
  find_backend-entries path none h = import_backend-entries path (import_string path) h
  find_backend-entries path (some c) h = refl

  load_at-entries :
      (o : Option Text) (h : Handlers V C) → (load_at import_string o h).1.entries ≡ h.entries
  unfolding load_at
  load_at-entries none h = refl
  load_at-entries (some path) h = find_backend-entries path (lookup path h.loaded) h

  load_entry-entries :
      (o : Option (Entry V)) (h : Handlers V C)
      → (load_entry import_string o h).1.entries ≡ h.entries
  unfolding load_entry
  load_entry-entries none h = refl
  load_entry-entries (some e) h = load_at-entries e.backend_path h

  made-class :
      (options : Assoc Text V) (c : C) (r : Load C × Handlers V C)
      → r.0 ≡ class_of c
      → made import_string options r ≡ (call c options, r.1)
  unfolding made
  made-class options c r h = rw h refl

  -- A call for a known entry with a class: what is made, and what is left.
  abbrev Makes : Text → Entry V → Assoc Text V → C → Made V C × Handlers V C → Type 0
  Makes name e options c r =
      (r.0 ≡ call c options)
      × (lookup name r.1.entries ≡ some (with_options import_string options e))
      × IsLoaded import_string r.1

  backend-entries :
      (name : Text) (h : Handlers V C) → (backend import_string name h).1.entries ≡ h.entries
  unfolding backend
  backend-entries name h = load_entry-entries (lookup name h.entries) h

  get_object-Makes :
      (name : Text) (kwargs : Assoc Text V) (e : Entry V) (c : C) (h : Handlers V C)
      → lookup name h.entries ≡ some e
      → IsLoaded import_string h
      → load_plain import_string (some e) ≡ class_of c
      → Makes name e
          (merge (opts_of import_string e.options) kwargs)
          c
          (get_object import_string name kwargs h)
  unfolding get_object get_known
  get_object-Makes name kwargs e c h k i l =
      let options = merge (opts_of import_string e.options) kwargs in
      let h' = write import_string name (with_options import_string options e) h in
      let written : lookup name h'.entries ≡ some (with_options import_string options e) =
        lookup-insert name name (with_options import_string options e) h.entries
        ∙ rw (beq_refl name) refl in
      let loads = IsLoaded-backend import_string name h' i in
      let found : (backend import_string name h').0 ≡ class_of c = loads.0 ∙ rw written l in
      let makes : get_object import_string name kwargs h
          ≡ (call c options, (backend import_string name h').1) =
        rw k (made-class options c (backend import_string name h') found) in
      subst (Makes name e options c) (sym makes)
        (refl, ap (λ l. lookup name l) (backend-entries name h') ∙ written, loads.1)

  -- Two objects made one after another from a known entry whose class can be imported, over a cache
  -- that is true: the first is made with the options and its own arguments. Where the entry has
  -- options, the second is made with the arguments of the first call too, under its own; where it has
  -- none, with its own alone.
  pub get_object_again :
      (name : Text) (first second : Assoc Text V) (e : Entry V) (c : C) (h : Handlers V C)
      → lookup name h.entries ≡ some e
      → IsLoaded import_string h
      → load_plain import_string (some e) ≡ class_of c
      → ((get_object import_string name first h).0
          ≡ call c (merge (opts_of import_string e.options) first))
        × ((get_object import_string name second (get_object import_string name first h).1).0
            ≡ call c (
                merge
                  (opts_of import_string (
                    changed import_string e.options
                      (merge (opts_of import_string e.options) first)))
                  second))
  get_object_again name first second e c h k i l =
      let options = merge (opts_of import_string e.options) first in
      let (made_first, entry, loaded) = get_object-Makes name first e c h k i l in
      (
        made_first,
        (get_object-Makes name second (with_options import_string options e) c
            (get_object import_string name first h).1 entry loaded l).0,
      )
