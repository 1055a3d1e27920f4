-- ===== src/Cache/Tests.antt =====
-- vstutils/drivers/cache.py: a space of association lists, sample runs, and the theorems at inputs.
use vstutils.Base.{
  ℕ, ◌≡◌, refl, String, true, false, Option, none, some, arith, ◌==◌, string_eq, eq_iff, Assoc,
  lookup, insert, remove, lookup-insert, lookup-remove, if◌then◌else◌, [], ◌∷◌,
}
use vstutils.Base.Int.{ℤ, pos}
use vstutils.Cache.Space.{Row, SpaceOps, SpaceLaws, Codec, with_exp}
use vstutils.Cache.{
  default, seconds, deadline, get_backend_timeout, is_past, add, get, set, build_tuple,
}
use vstutils.Cache.Times.{Reads}
use vstutils.Cache.View.{get-set}

insert_new : String → Row ℕ → Option (Row ℕ) → Assoc String (Row ℕ) → Option (Assoc String (Row ℕ))
insert_new k r none s = some (insert k r s)
insert_new k r (some q) s = none

update_old : String → ℤ → Option (Row ℕ) → Assoc String (Row ℕ) → Assoc String (Row ℕ)
update_old k e none s = s
update_old k e (some r) s = insert k (record r { exp = e }) s

abbrev space : SpaceOps (Assoc String (Row ℕ)) ℕ
space = record {
  select = λ s k. lookup k s;
  insert = λ s k r. insert_new k r (lookup k s) s;
  replace = λ s k r. insert k r s;
  update_exp = λ s k e. update_old k e (lookup k s) s;
  delete = λ s k. remove k s;
}

update_old-lookup :
    (k j : String) (e : ℤ) (s : Assoc String (Row ℕ)) (o : Option (Row ℕ))
    → lookup k s ≡ o
    → lookup j (update_old k e (lookup k s) s)
      ≡ (if k == j then with_exp e (lookup k s) else lookup j s)
unfolding update_old
update_old-lookup k j e s none h = rw h (ground (arith, eq_iff k j))
update_old-lookup k j e s (some r) h = rw h (lookup-insert k j (record r { exp = e }) s)

space_laws : SpaceLaws space
unfolding insert_new update_old
space_laws = record {
  insert_free = λ s k r e. (insert k r s, ground arith);
  insert_taken = λ s k r q e. ground arith;
  select-insert = λ s t k j r e. ground (arith, lookup-insert k j r s);
  select-replace = λ s k j r. lookup-insert k j r s;
  select-update_exp = λ s k j e. update_old-lookup k j e s (lookup k s) refl;
  select-delete = λ s k j. lookup-remove k j s;
}

abbrev same : Codec ℕ ℕ
same = record { dumps = λ v. v; loads = λ v. v }

abbrev key : String → String
key k = k

-- A write at 100.0 s for 30 s, read at 130.0 s and at 130.5 s: the deadline is at 130 s.
abbrev stored : Assoc String (Row ℕ)
stored = ("a", record { value = 7; exp = pos 130 }) ∷ []

set_test : set space same key (some (pos 300)) 100000 "a" 7 (seconds (pos 30)) [] ≡ stored
unfolding set build_tuple deadline get_backend_timeout insert
set_test = refl

get_test :
    (get space same key (some (pos 300)) 130000 "a" stored ≡ (some 7, stored))
    × (get space same key (some (pos 300)) 130500 "a" stored ≡ (none, []))
unfolding get lookup is_past remove
get_test = (refl, refl)

add_test :
    (add space same key (some (pos 300)) 100000 "a" 9 default stored ≡ (false, stored))
    × ((add space same key (some (pos 300)) 100000 "b" 9 default []).0 ≡ true)
unfolding add lookup insert_new
add_test = (refl, refl)

get-set_example :
    ((get space same key none 120000 "b"
        (set space same key none 100000 "a" 7 (seconds (pos 30)) [])).0
      ≡ (if key "a" == "b"
          then (get space same key none 120000 "a"
              (set space same key none 100000 "a" 7 (seconds (pos 30)) [])).0
          else (get space same key none 120000 "b" []).0))
    × Reads 100000 120000 7
        (some 30)
        (get space same key none 120000 "a"
          (set space same key none 100000 "a" 7 (seconds (pos 30)) [])).0
get-set_example =
    get-set space same key none space_laws (λ v. refl) (λ k j e. e) 100000 120000 "a" "b" 7
      (seconds (pos 30)) []
