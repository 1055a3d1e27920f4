-- ===== src/Cache/Space.antt =====
-- What vstutils/drivers/cache.py relies on: a Tarantool space with the format (id, value, exp) and a
-- unique index on `id`, and the serializer of Django's Redis backend.
use vstutils.Base.{String, ◌≡◌, Option, none, some, ◌==◌, string_eq, if◌then◌else◌}
use vstutils.Base.Int.{ℤ}

pub record Row (Raw : Type 0) : Type 0 where
  pub value : Raw
  pub exp : ℤ

-- `insert` gives `none` for a `DatabaseError`; the others raise nothing on a missing key.
pub record SpaceOps (S Raw : Type 0) : Type 0 where
  pub select : S → String → Option (Row Raw)
  pub insert : S → String → Row Raw → Option S
  pub replace : S → String → Row Raw → S
  pub update_exp : S → String → ℤ → S
  pub delete : S → String → S

-- `dumps` and `loads`
pub record Codec (V Raw : Type 0) : Type 0 where
  pub dumps : V → Raw
  pub loads : Raw → V

abbrev pub with_exp : {Raw : Type 0} → ℤ → Option (Row Raw) → Option (Row Raw)
with_exp e none = none
with_exp e (some r) = some (record r { exp = e })

-- The documented behaviour of the space.
pub record SpaceLaws {S Raw : Type 0} (db : SpaceOps S Raw) : Type 0 where
  pub insert_free :
      (s : S) (k : String) (r : Row Raw)
      → db.select s k ≡ none
      → (t : S) × (db.insert s k r ≡ some t)
  pub insert_taken :
      (s : S) (k : String) (r q : Row Raw) → db.select s k ≡ some q → db.insert s k r ≡ none
  pub select-insert :
      (s t : S) (k j : String) (r : Row Raw)
      → db.insert s k r ≡ some t
      → db.select t j ≡ (if k == j then some r else db.select s j)
  pub select-replace :
      (s : S) (k j : String) (r : Row Raw)
      → db.select (db.replace s k r) j ≡ (if k == j then some r else db.select s j)
  pub select-update_exp :
      (s : S) (k j : String) (e : ℤ)
      → db.select (db.update_exp s k e) j
        ≡ (if k == j then with_exp e (db.select s k) else db.select s j)
  pub select-delete :
      (s : S) (k j : String)
      → db.select (db.delete s k) j ≡ (if k == j then none else db.select s j)
