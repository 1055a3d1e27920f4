-- ===== src/Cache.antt =====
-- vstutils/drivers/cache.py: `TarantoolCache`, Django's cache interface over one Tarantool space.
-- The space and the serializer are third-party code, so they are the parameters `SpaceOps` and
-- `Codec`. The clock is read in milliseconds; an expiry time is stored in whole seconds.
pub mod Space
pub mod Times
pub mod View
pub mod Tests
use vstutils.Base.{
  ℕ, ◌+◌, ◌*◌, ◌/◌, String, Bool, true, false, Option, none, some, ltb, if◌then◌else◌,
}
use vstutils.Base.Int.{ℤ, pos, negsuc, pos_part}
use Space.{Row, SpaceOps, Codec}

-- The `timeout` argument: `DEFAULT_TIMEOUT`, `None`, or a number of seconds.
pub data Timeout : Type 0 where
  default never : Timeout
  seconds : ℤ → Timeout

-- `-1 if timeout is None else max(0, int(timeout))`
abbrev clamp_timeout : Option ℤ → ℤ
clamp_timeout none = negsuc 0
clamp_timeout (some n) = pos (pos_part n)

-- `get_backend_timeout`; the first argument is `self.default_timeout`.
unfoldable pub get_backend_timeout : Option ℤ → Timeout → ℤ
get_backend_timeout standard default = clamp_timeout standard
get_backend_timeout standard never = clamp_timeout none
get_backend_timeout standard (seconds n) = clamp_timeout (some n)

-- `int(time.time() + timeout + 0.5)`; the only negative timeout is -1, which stays.
unfoldable pub deadline : ℕ → ℤ → ℤ
deadline now (pos n) = pos ((now + n * 1000 + 500) / 1000)
deadline now (negsuc n) = negsuc n

-- `exp < time.time()`, the test of `get`
unfoldable pub is_past : ℕ → ℤ → Bool
is_past now (pos n) = ltb (n * 1000) now
is_past now (negsuc n) = true

-- `make_key` is `make_and_validate_key` at the version in use.
module _ {S V Raw : Type 0} (db : SpaceOps S Raw) (codec : Codec V Raw) (make_key : String → String)
    (standard : Option ℤ) where
  -- `_build_tuple`, without the key
  unfoldable pub build_tuple : ℕ → V → Timeout → Row Raw
  unfolding deadline get_backend_timeout
  build_tuple now v t = record {
    value = codec.dumps v;
    exp = deadline now (get_backend_timeout standard t);
  }

  -- After the insertion `timeout` is the deadline, so the test `timeout == 0` is on that.
  settle_add : String → ℤ → Option S → S → Bool × S
  settle_add k e none s = (false, s)
  settle_add k (pos ℕ.zero) (some t) s = (true, db.delete t k)
  settle_add k e (some t) s = (true, t)

  unfoldable pub add : ℕ → String → V → Timeout → S → Bool × S
  unfolding settle_add build_tuple
  add now k v t s =
      let row = build_tuple now v t in
      settle_add (make_key k) row.exp (db.insert s (make_key k) row) s

  -- The clean-up of an expired row is part of the read.
  read_row : ℕ → String → Option (Row Raw) → S → Option V × S
  unfolding is_past
  read_row now k none s = (none, s)
  read_row now k (some r) s =
      if is_past now r.exp then (none, db.delete s k) else (some (codec.loads r.value), s)

  -- `get`; `none` stands for the caller's `default`.
  unfoldable pub get : ℕ → String → S → Option V × S
  unfolding read_row
  get now k s = read_row now (make_key k) (db.select s (make_key k)) s

  unfoldable pub set : ℕ → String → V → Timeout → S → S
  unfolding build_tuple
  set now k v t s = db.replace s (make_key k) (build_tuple now v t)

  -- An update of a missing key raises nothing, so the answer is always `True`.
  unfoldable pub touch : ℕ → String → Timeout → S → Bool × S
  unfolding deadline get_backend_timeout
  touch now k t s =
      (true, db.update_exp s (make_key k) (deadline now (get_backend_timeout standard t)))

  pub loaded : Option (Row Raw) → Option V
  loaded none = none
  loaded (some r) = some (codec.loads r.value)

  -- `delete` answers with the value that it removed.
  unfoldable pub delete : String → S → Option V × S
  unfolding loaded
  delete k s = (loaded (db.select s (make_key k)), db.delete s (make_key k))

  unfoldable pub has_key : String → S → Bool
  has_key k s = elim (db.select s (make_key k)) [ none ↦ false | some r ↦ true ]
