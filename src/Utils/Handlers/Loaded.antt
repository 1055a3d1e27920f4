-- ===== src/Utils/Handlers/Loaded.antt =====
-- vstutils/utils.py: the cache of loaded backends.
use vstutils.Base.{
  ◌≡◌, refl, sym, ap, ◌∙◌, Option, none, some, ◌==◌, text_eq, Assoc, lookup, insert, lookup-insert,
  Option-cases, Bool-cases, inl, inr, text_beq_iff, arith,
}
use vstutils.Base.Text.{Text}
use vstutils.Utils.Handlers.{
  Entry, Handlers, Load, unknown_type, none_backend, class_of, import_backend, find_backend,
  load_at, load_entry, backend,
}

-- What loading gives without the cache.
abbrev pub imported : {C : Type 0} → Option C → Load C
imported none = unknown_type
imported (some c) = class_of c

abbrev pub load_path : {C : Type 0} → (Text → Option C) → Option Text → Load C
load_path import_string none = none_backend
load_path import_string (some path) = imported (import_string path)

abbrev pub load_plain : {V C : Type 0} → (Text → Option C) → Option (Entry V) → Load C
load_plain import_string none = unknown_type
load_plain import_string (some e) = load_path import_string e.backend_path

lookup-kept :
    {C : Type 0} (import_string : Text → Option C) (path p : Text) (c d : C) (l : Assoc Text C)
    → import_string path ≡ some c
    → (lookup p l ≡ some d → import_string p ≡ some d)
    → lookup p (insert path c l) ≡ some d
    → import_string p ≡ some d
lookup-kept import_string path p c d l e i k = elim (Bool-cases (path == p)) [
  | inl same ↦
      ap import_string (sym ((text_beq_iff path p).0 same))
      ∙ e
      ∙ ground (arith, k, same, lookup-insert path p c l)
  | inr other ↦ i (ground (arith, k, other, lookup-insert path p c l))
]

module _ {V C : Type 0} (import_string : Text → Option C) where
  -- Every backend that is kept is what importing its path gives.
  abbrev pub IsLoaded : Handlers V C → Type 0
  IsLoaded h = (path : Text) (c : C) → lookup path h.loaded ≡ some c → import_string path ≡ some c

  IsLoaded-import_backend :
      (path : Text) (h : Handlers V C) (o : Option C)
      → IsLoaded h
      → import_string path ≡ o
      → ((import_backend import_string path o h).0 ≡ imported o)
        × IsLoaded (import_backend import_string path o h).1
  unfolding import_backend
  IsLoaded-import_backend path h none i e = (refl, i)
  IsLoaded-import_backend path h (some c) i e =
      (refl, λ p d k. lookup-kept import_string path p c d h.loaded e (i p d) k)

  IsLoaded-find_backend :
      (path : Text) (h : Handlers V C) (o : Option C)
      → IsLoaded h
      → lookup path h.loaded ≡ o
      → ((find_backend import_string path o h).0 ≡ imported (import_string path))
        × IsLoaded (find_backend import_string path o h).1
  unfolding find_backend
  IsLoaded-find_backend path h none i e = IsLoaded-import_backend path h (import_string path) i refl
  IsLoaded-find_backend path h (some c) i e = (rw (i path c e) refl, i)

  IsLoaded-load_at :
      (o : Option Text) (h : Handlers V C)
      → IsLoaded h
      → ((load_at import_string o h).0 ≡ load_path import_string o)
        × IsLoaded (load_at import_string o h).1
  unfolding load_at
  IsLoaded-load_at none h i = (refl, i)
  IsLoaded-load_at (some path) h i = IsLoaded-find_backend path h (lookup path h.loaded) i refl

  -- A backend is what importing its path gives, whatever was loaded before it, and the cache stays
  -- true to what importing gives.
  pub IsLoaded-backend :
      (name : Text) (h : Handlers V C)
      → IsLoaded h
      → ((backend import_string name h).0 ≡ load_plain import_string (lookup name h.entries))
        × IsLoaded (backend import_string name h).1
  unfolding backend load_entry
  IsLoaded-backend name h i = elim (Option-cases (lookup name h.entries)) [
    | inl e ↦ rw e (refl, i)
    | inr (x, e) ↦ rw e (IsLoaded-load_at x.backend_path h i)
  ]
