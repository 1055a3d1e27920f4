-- ===== src/Lock/Tests.antt =====
-- vstutils/utils.py: a cache of association lists, sample runs, and the theorems at inputs.
use native.Mathlib.Decide.{ℕ_discrete}
use vstutils.Base.{
  ℕ, zero, suc, ap, length, String, ◌≡◌, refl, Bool, true, false, Option, none, some, arith,
  string_eq, ◌≢◌, [], ◌∷◌, map, Assoc, lookup, insert, remove, lookup-insert, lookup-remove,
}
use vstutils.Lock.Shared.{CacheOps, CacheLaws}
use vstutils.Lock.Exchange.{KvExchanger, make}
use vstutils.Lock.Acquire.{
  Lock, quiet, acquired, raised, undecided, acquire, attempt, release, acquire-holds, acquire_ends,
  acquire_taken,
}
use vstutils.Lock.Race.{trying, held, World, call, Reach, here, later, next_call}
use vstutils.Lock.Race.Exclusion.{mutual_exclusion}
use vstutils.Lock.Decorator.{lock_on, execute_with, execute, ran, execute_locked}

add_new : String → String → Option String → Assoc String String → Bool × Assoc String String
add_new k v none s = (true, insert k v s)
add_new k v (some u) s = (false, s)

abbrev memory : CacheOps (Assoc String String) String
memory = record {
  add = λ s k v ttl. add_new k v (lookup k s) s;
  get = λ s k. lookup k s;
  touch = λ s k ttl. s;
  delete = λ s k. remove k s;
}

memory_laws : CacheLaws memory
unfolding add_new
memory_laws = record {
  add_free = λ s k v ttl h e. ground arith;
  get-add = λ s k j v ttl h e. ground (arith, lookup-insert k j v s);
  add_taken = λ s k v u ttl e. ground arith;
  get-touch = λ s k j ttl. refl;
  get-delete = λ s k j. lookup-remove k j s;
}

abbrev backup : KvExchanger
backup = record { key = "app_lock_backup"; timeout = 86400 }

abbrev first : Lock
first = record { exchange = backup; payload = "uuid-1_1"; id = none }

make_test : make "app_lock_" 86400 "backup" none ≡ backup
unfolding make
make_test = refl

-- A free key: the first turn wins. A taken key: the third reading is past one second.
acquire_test :
    (acquire memory first "backup" 1000 (quiet 0 ∷ []) []
      ≡ acquired (record first { id = some "backup" }) (("app_lock_backup", "uuid-1_1") ∷ []))
    × (acquire memory first "backup" 1000
          (quiet 0 ∷ quiet 700 ∷ quiet 1100 ∷ [])
          (("app_lock_backup", "uuid-9_1") ∷ [])
        ≡ raised (("app_lock_backup", "uuid-9_1") ∷ []))
unfolding acquire attempt add_new lookup insert
acquire_test = (refl, refl)

acquire-holds_example :
    (lookup {K = String} {V = String} "app_lock_backup" (("app_lock_backup", "uuid-1_1") ∷ [])
      ≡ some "uuid-1_1")
    × (record first { id = some "backup" } ≡ record first { id = some "backup" })
acquire-holds_example =
    acquire-holds memory first (record first { id = some "backup" }) "backup" 1000 (quiet 0 ∷ []) []
      (("app_lock_backup", "uuid-1_1") ∷ []) acquire_test.0

acquire_ends_example :
    acquire memory first "backup" 1000 (quiet 500 ∷ quiet 1001 ∷ []) [] ≢ undecided []
acquire_ends_example =
    acquire_ends memory first "backup" 1000 (quiet 500 ∷ quiet 1001 ∷ []) [] [] refl

acquire_taken_example :
    acquire memory first "backup" 1000
      (map quiet (0 ∷ 700 ∷ 1100 ∷ []))
      (("app_lock_backup", "uuid-9_1") ∷ [])
    ≡ raised (("app_lock_backup", "uuid-9_1") ∷ [])
unfolding lookup
acquire_taken_example =
    acquire_taken memory memory_laws first "backup" "uuid-9_1" 1000 (0 ∷ 700 ∷ 1100 ∷ [])
      (("app_lock_backup", "uuid-9_1") ∷ []) refl refl

-- Payloads that differ from one another: "", "a", "aa", and so on.
marks : ℕ → String
marks zero = String.[]
marks (suc n) = String.◌∷◌ "a" (marks n)

marks_injective : (i j : ℕ) → marks i ≡ marks j → i ≡ j
unfolding marks
marks_injective zero zero h = refl
marks_injective zero (suc j) h = cc
marks_injective (suc i) zero h = cc
marks_injective (suc i) (suc j) h = ap suc (marks_injective i j (cc))

abbrev rivals : ℕ → Lock
rivals i = record { exchange = backup; payload = marks i; id = none }

abbrev start : World (Assoc String String)
start = record { cache = []; phase = λ i. trying }

-- Object 0 sends and confirms.
one_holder :
    (w : World (Assoc String String)) × Reach memory (λ i. "backup") rivals start w
    × (w.phase 0 ≡ held)
unfolding next_call add_new lookup insert marks ℕ_discrete
one_holder = (_, later (later here (call 0)) (call 0), refl)

mutual_exclusion_example : ◌≡◌ {A = ℕ} 0 0
mutual_exclusion_example =
    mutual_exclusion memory memory_laws (λ i. "backup") rivals (λ i. omega arith) marks_injective
      (λ i. refl) one_holder.1 0 0 one_holder.2 one_holder.2 refl

-- A function that counts the keys it sees runs under the lock.
abbrev probe : Assoc String String → ℕ × Assoc String String
probe s = (length s, s)

-- The lock on an id, of which the prefix and the payload are given.
abbrev locks : String → Lock
locks = lock_on "app_lock_" "uuid-1_1" none

execute_test : execute memory (some "backup") (λ k. k) locks 1000 (quiet 0 ∷ []) probe [] ≡ ran 1 []
unfolding execute execute_with lock_on make acquire attempt add_new lookup insert remove release
execute_test = refl

execute_locked_example :
    (before : Assoc String String) × (lookup "app_lock_backup" before ≡ some "uuid-1_1")
    × ((probe before).0 ≡ 1)
    × (lookup {K = String} {V = String} "app_lock_backup" [] ≡ none)
unfolding lock_on make
execute_locked_example =
    execute_locked memory memory_laws "backup" "backup" (λ k. k) locks 1000 (quiet 0 ∷ []) probe []
      [] 1 refl execute_test
