-- ===== src/Api/Nested/Tests.antt =====
-- A nested view over a table of keys, and the theorems at concrete inputs.
use vstutils.Base.{
  ℕ, suc, ◌+◌, ◌≡◌, refl, sym, ◌↔◌, true, false, not, ◌||◌, List, [], ◌∷◌, ◌++◌, map, Option, none,
  some, if◌then◌else◌, eqb, keep, All, All-weaken, length, Eq, Assoc, Bool-cases, inl, inr, eqb_iff,
  eqb_refl,
}
use mathlib.Core.List.{Memᴰ}
use vstutils.Base.Text.{Text, codes, lower_char}
use vstutils.Base.Members.{Mem-append_right, Mem_of_keep, has}
use vstutils.Api.Run.{Outcome, ok, raised, Run, return, each, ok_injective, Keeps}
use vstutils.Api.Nested.Defs.{
  Parts, by_field, create, append_create, create_by, perform_create_nested, perform_destroy,
  purge_nested, dispatch_route, data_create, ensure_is_object,
}
use vstutils.Api.Nested.Names.{
  get_action_name, get_nested_subpath, Extra, get_subs, filter_methods, get_queryset, extended,
}
use vstutils.Api.Nested.Links.{Laws, Grows}
use vstutils.Api.Nested.Naming.{Left}
use vstutils.Api.Nested.Append.{append_create-Linked, perform_create_nested_refused}
use vstutils.Api.Nested.Destroy.{perform_destroy_lem}
use vstutils.Api.Nested.Destroy

instance abbrev nat_eq : Eq ℕ
nat_eq = record { is_same = eqb; is_same_iff = eqb_iff }

-- The keys of the table, and those that are linked to the parent
abbrev World : Type 0
World = List ℕ × List ℕ

abbrev given : List (Option ℕ) → List ℕ
given [] = []
given (none ∷ ks) = given ks
given (some k ∷ ks) = k ∷ given ks

abbrev key_or_error : Option ℕ → Outcome ℕ ℕ
key_or_error none = raised 1
key_or_error (some n) = ok n

abbrev checked : ℕ → Run World ℕ (Unit {0})
checked n s = if eqb n 3 then (raised 403, s) else (ok tt, s)

abbrev created : Assoc Text ℕ → Run World ℕ ℕ
created v s = let n = suc (length s.0) in (ok n, (n ∷ s.0, n ∷ s.1))

-- A value is the key that it names; the object 3 is not permitted.
abbrev parts : Parts World ℕ (Option ℕ) ℕ ℕ ℕ (List ℕ)
parts = record {
  as_text = λ d. none;
  loads = λ t. raised 2;
  as_list = λ d. none;
  get = λ d. ok d;
  handler = ok key_or_error;
  manager = by_field (codes "parent") 7;
  find = λ ks s. (ok (keep (λ r. has r (given ks)) s.0), s);
  check_object_permissions = checked;
  get_valid = λ d. return [];
  perform_create = created;
  add = λ os s. (ok tt, (s.0, os ++ s.1));
  remove = λ o s. (ok tt, (s.0, keep (λ n. not (eqb o n)) s.1));
  delete = λ o s. (ok tt, (keep (λ n. not (eqb o n)) s.0, keep (λ n. not (eqb o n)) s.1));
  pk = λ o. o;
  append_value = λ o. o;
  notify_clients = λ os. return tt;
  notify_parent = return tt;
  select = λ ks. return ks;
  does_not_exist = 404;
  multiple_objects_returned = 500;
  respond = λ many os. return os;
  check_permissions = return tt;
  check_throttles = return tt;
  check_etag = λ s. (raised 412, s);
  call = λ action with_id. return [];
  finalize_response = λ r. return r;
}

abbrev world : World
world = (1 ∷ 2 ∷ 3 ∷ [], 1 ∷ [])

-- The value 2 is appended, the others are created.
posts :
    append_create parts (none ∷ some 2 ∷ some 8 ∷ []) world
    ≡ (ok (2 ∷ 4 ∷ 5 ∷ []), (5 ∷ 4 ∷ 1 ∷ 2 ∷ 3 ∷ [], 5 ∷ 4 ∷ 2 ∷ 1 ∷ []))
unfolding append_create data_create create_by
posts = refl

create_tests :
    (create parts false (some 9) world ≡ (ok (4 ∷ []), (4 ∷ 1 ∷ 2 ∷ 3 ∷ [], 4 ∷ 1 ∷ [])))
    × (create parts true (some 3) world ≡ (raised 403, world))
    × (perform_destroy parts true none 1 world ≡ (ok tt, (1 ∷ 2 ∷ 3 ∷ [], [])))
    × (perform_destroy parts true (some (codes "true")) 1 world ≡ (ok tt, (2 ∷ 3 ∷ [], [])))
    × (dispatch_route parts true [] false (codes "get") world ≡ (raised 412, world))
    × (dispatch_route parts false [] false (codes "get") world ≡ (ok [], world))
unfolding create data_create create_by append_create perform_destroy dispatch_route
create_tests = (refl, refl, refl, refl, refl, refl)

-- What the view keeps to
abbrev IsLinked : World → ℕ → Type 0
IsLinked s o = Memᴰ o s.1

All-added : (os ns : List ℕ) → All (λ o. Memᴰ o (os ++ ns)) os
All-added [] ns = tt
All-added (o ∷ os) ns = (
  Memᴰ.head refl,
  All-weaken (λ x. Memᴰ x (os ++ ns)) (λ x. Memᴰ x (o ∷ os ++ ns)) os (λ x m. Memᴰ.tail m)
      (All-added os ns),
)

check-Keeps : (o : ℕ) → Keeps (checked o)
check-Keeps o s = elim (Bool-cases (eqb o 3)) [ inl e ↦ rw e refl | inr e ↦ rw e refl ]

laws : Laws parts IsLinked
laws = record {
  apart = tt;
  find-Keeps = λ ks s. refl;
  check-Keeps = check-Keeps;
  get_valid-Keeps = λ d s. refl;
  add-Linked = λ os s s' h.
      let (e, es) = ok_injective tt tt _ s' h in
      rw (sym es) (All-added os s.1, λ x m. Mem-append_right x os s.1 m);
  create-Linked = λ v o s s' h.
      let (e, es) = ok_injective _ o _ s' h in
      rw (sym es) ((λ owned. Memᴰ.head (sym e)), λ x m. Memᴰ.tail m);
  notify-Linked = λ os s x m. m;
}

append_create-Linked_example :
    (handler : (Option ℕ → Outcome ℕ ℕ)) × (new : List ℕ) × (left : List (Option ℕ)) × Left parts
      handler
      (2 ∷ [])
      (none ∷ some 2 ∷ some 8 ∷ [])
      left
    × (parts.handler ≡ ok handler)
    × (2 ∷ 4 ∷ 5 ∷ [] ≡ map parts.pk (2 ∷ []) ++ map parts.append_value new)
    × (length new ≡ length left)
    × ((t : World) × (t' : World) × (data_create parts left t
          ≡ (ok (map parts.append_value new), t')))
    × All (λ o. checked o world ≡ (ok tt, world)) (2 ∷ [])
    × All (IsLinked (5 ∷ 4 ∷ 1 ∷ 2 ∷ 3 ∷ [], 5 ∷ 4 ∷ 2 ∷ 1 ∷ [])) ((2 ∷ []) ++ new)
    × Grows IsLinked world (5 ∷ 4 ∷ 1 ∷ 2 ∷ 3 ∷ [], 5 ∷ 4 ∷ 2 ∷ 1 ∷ [])
unfolding each ensure_is_object
append_create-Linked_example =
    append_create-Linked parts IsLinked laws (none ∷ some 2 ∷ some 8 ∷ [])
      (none ∷ some 2 ∷ some 8 ∷ []) (none ∷ some 2 ∷ some 8 ∷ []) (2 ∷ []) (2 ∷ 4 ∷ 5 ∷ []) world
      (5 ∷ 4 ∷ 1 ∷ 2 ∷ 3 ∷ [], 5 ∷ 4 ∷ 2 ∷ 1 ∷ []) refl refl refl posts

perform_create_nested_refused_example :
    (e : ℕ) × (perform_create_nested parts true (none ∷ some 3 ∷ []) true world ≡ (raised e, world))
unfolding each ensure_is_object
perform_create_nested_refused_example =
    perform_create_nested_refused parts IsLinked laws (none ∷ some 3 ∷ []) (none ∷ some 3 ∷ [])
      (none ∷ some 3 ∷ []) (3 ∷ []) 3 true world 403 refl refl refl (Memᴰ.head refl) refl

gone : (o : ℕ) (ns : List ℕ) → ¬ Memᴰ o (keep (λ n. not (eqb o n)) ns)
gone o ns m =
    let (a, e) = Mem_of_keep (λ n. not (eqb o n)) o ns m in
    (let f : false ≡ true = rw (eqb_refl o) at e in cc)

removal_laws : Destroy.Laws parts IsLinked (λ s o. Memᴰ o s.0)
removal_laws = record {
  removed = λ o s s' h. let (e, es) = ok_injective tt tt _ s' h in rw (sym es) (gone o s.1, λ m. m);
  deleted =
      λ o s s' h. let (e, es) = ok_injective tt tt _ s' h in rw (sym es) (gone o s.1, gone o s.0);
  notified = λ os s. refl;
  notified_parent = λ s. refl;
}

destroyed : perform_destroy parts true none 1 world ≡ (ok tt, (1 ∷ 2 ∷ 3 ∷ [], []))
unfolding perform_destroy
destroyed = refl

perform_destroy_lem_example :
    ¬ Memᴰ {A = ℕ} 1 []
    × ((Memᴰ {A = ℕ} 1 (1 ∷ 2 ∷ 3 ∷ [])) ↔ ((not true || purge_nested parts none) ≡ false))
perform_destroy_lem_example =
    perform_destroy_lem parts IsLinked (λ s o. Memᴰ o s.0) removal_laws true none 1 world
      (1 ∷ 2 ∷ 3 ∷ [], []) (Memᴰ.head refl) destroyed

abbrev extras : List Extra
extras =
    record { name = codes "filter"; detail = false }
    ∷ record { name = codes "copy"; detail = true }
    ∷ record { name = codes "all"; detail = false }
    ∷ []

name_tests :
    (get_action_name false (codes "GET") ≡ some (codes "list"))
    × (get_action_name true (codes "GET") ≡ some (codes "retrieve"))
    × (get_action_name true (codes "HEAD") ≡ none)
    × (get_nested_subpath (codes "copy") (codes "hosts") (codes "id") (codes "[0-9]") false
        ≡ codes "hosts/?(?P<id>[0-9]+)/copy")
    × (get_subs none (some []) extras ≡ codes "all" ∷ [])
    × (get_subs (some (codes "id")) (some (codes "copy" ∷ codes "x" ∷ [])) extras
        ≡ codes "copy" ∷ [])
    × (get_subs none none extras ≡ [])
    × (filter_methods (codes "get" ∷ codes "put" ∷ []) (codes "get" ∷ codes "post" ∷ [])
        ≡ codes "get" ∷ [])
    × (get_queryset true (λ n. n + 1) (none ∷ some (λ n. n + n) ∷ []) 3 ≡ 8)
    × (extended {A = ℕ} false none (some (1 ∷ [])) ≡ some (1 ∷ []))
unfolding get_action_name get_nested_subpath get_subs filter_methods get_queryset extended
    lower_char
name_tests = (refl, refl, refl, refl, refl, refl, refl, refl, refl, refl)
