-- ===== src/Cache/View.antt =====
-- vstutils/drivers/cache.py: what the readers of the cache see, as the clock goes on.
use vstutils.Base.{
  ℕ, ap, sym, ◌∙◌, ◌≤◌, ◌<◌, ◌≡◌, refl, ◌⊎◌, ◌≢◌, String, true, false, Option, none, some, arith,
  ◌==◌, string_eq, eq_iff, eq_refl, if◌then◌else◌, Option-cases, Bool-cases, inl, inr,
}
use vstutils.Base.Int.{ℤ, pos}
use vstutils.Cache.Times.{Reads, duration, deadline-Reads}
use vstutils.Cache.Space.{Row, SpaceOps, SpaceLaws, Codec}
use vstutils.Cache.{
  Timeout, never, get_backend_timeout, deadline, is_past, build_tuple, add, settle_add, read_row,
  get, set, touch, delete, loaded, has_key,
}

-- An expired row stays expired.
is_past_mono : (now later : ℕ) (e : ℤ) → now ≤ later → is_past now e ≡ true → is_past later e ≡ true
unfolding is_past
is_past_mono now later (pos n) h p = ground arith
is_past_mono now later _ h p = refl

module _ {S V Raw : Type 0} (db : SpaceOps S Raw) (codec : Codec V Raw) (make_key : String → String)
    (standard : Option ℤ) (laws : SpaceLaws db) where
  -- A read may delete its expired row; whoever reads any key at the same or a later time sees what
  -- they would have seen without that read.
  pub get-get :
      (now later : ℕ) (k j : String) (s : S)
      → now ≤ later
      → (get db codec make_key standard later j (get db codec make_key standard now k s).1).0
        ≡ (get db codec make_key standard later j s).0
  unfolding get
  get-get now later k j s h = elim (Option-cases (db.select s (make_key k))) [
    | inl e ↦ ground arith
    | inr (r, e) ↦ elim (Bool-cases (is_past now r.exp)) [
      | inl p ↦ ground (
        arith,
        is_past_mono now later r.exp h p,
        laws.select-delete s (make_key k) (make_key j),
        eq_iff (make_key k) (make_key j),
      )
      | inr p ↦ ground arith
    ]
  ]

  add_taken :
      (now : ℕ) (k : String) (v : V) (t : Timeout) (s : S) (r : Row Raw)
      → db.select s (make_key k) ≡ some r
      → add db codec make_key standard now k v t s ≡ (false, s)
  unfolding add
  add_taken now k v t s r e =
      ground
        (arith, laws.insert_taken s (make_key k) (build_tuple db codec make_key standard now v t) r)

  settle_add-select :
      (later : ℕ) (k j : String) (row : Row Raw) (s u : S)
      → 0 < later
      → db.insert s k row ≡ some u
      → ((settle_add db codec make_key standard k row.exp (some u) s).0 ≡ true)
        × ((read_row db codec make_key standard later j
              (db.select (settle_add db codec make_key standard k row.exp (some u) s).1 j)
              (settle_add db codec make_key standard k row.exp (some u) s).1).0
            ≡ (read_row db codec make_key standard later j
                (db.select (db.replace s k row) j)
                (db.replace s k row)).0)
  unfolding settle_add read_row
  settle_add-select later k j row s u h f = ground (
    arith,
    laws.select-insert s u k j row f,
    laws.select-replace s k j row,
    laws.select-delete u k j,
  )

  add_free :
      (now later : ℕ) (k j : String) (v : V) (t : Timeout) (s u : S)
      → 0 < later
      → db.insert s (make_key k) (build_tuple db codec make_key standard now v t) ≡ some u
      → ((add db codec make_key standard now k v t s).0 ≡ true)
        × ((get db codec make_key standard later j (add db codec make_key standard now k v t s).1).0
            ≡ (get db codec make_key standard later j
                (set db codec make_key standard now k v t s)).0)
  unfolding add get set
  add_free now later k j v t s u h f = rw f (
      settle_add-select later (make_key k) (make_key j)
        (build_tuple db codec make_key standard now v t) s u h f)

  -- `add` succeeds exactly on a key without a row, and then reads as after `set`; otherwise it
  -- changes nothing.
  pub add_lem :
      (now later : ℕ) (k j : String) (v : V) (t : Timeout) (s : S)
      → 0 < later
      → ((db.select s (make_key k) ≡ none)
          × ((add db codec make_key standard now k v t s).0 ≡ true)
          × ((get db codec make_key standard later j
                (add db codec make_key standard now k v t s).1).0
              ≡ (get db codec make_key standard later j
                  (set db codec make_key standard now k v t s)).0))
        ⊎ ((db.select s (make_key k) ≢ none)
            × (add db codec make_key standard now k v t s ≡ (false, s)))
  add_lem now later k j v t s h = elim (Option-cases (db.select s (make_key k))) [
    | inl e ↦
        let row = build_tuple db codec make_key standard now v t in
        let (u, f) = laws.insert_free s (make_key k) row e in
        let done = add_free now later k j v t s u h f in inl (e, done.0, done.1)
    | inr (r, e) ↦ inr (ground arith, add_taken now k v t s r e)
  ]

  -- A row whose time is past, and that the server has not collected yet: it reads as absent, and
  -- `add` still refuses the key and `has_key` still reports it.
  pub add_expired :
      (now : ℕ) (k : String) (v : V) (t : Timeout) (s : S) (r : Row Raw)
      → db.select s (make_key k) ≡ some r
      → is_past now r.exp ≡ true
      → ((get db codec make_key standard now k s).0 ≡ none)
        × (add db codec make_key standard now k v t s ≡ (false, s))
        × (has_key db codec make_key standard k s ≡ true)
  unfolding get has_key
  add_expired now k v t s r e p = ground (arith, add_taken now k v t s r)

  -- A key stored with the timeout `None` is gone at the first read, at every time.
  pub get-set_never :
      (now later : ℕ) (k : String) (v : V) (s : S)
      → (get db codec make_key standard later k (set db codec make_key standard now k v never s)).0
        ≡ none
  unfolding get set is_past
  get-set_never now later k v s = ground (
    arith,
    laws.select-replace s (make_key k) (make_key k)
        (build_tuple db codec make_key standard now v never),
    eq_refl (make_key k),
  )

  -- `touch` always answers `True`. On a key with a row it moves the deadline, also that of a row whose
  -- time was past, which readers then see again; on a key without a row, and for every other key, it
  -- changes nothing that a reader sees.
  pub touch_lem :
      (now later : ℕ) (k j : String) (t : Timeout) (s : S)
      → (make_key k ≡ make_key j → k ≡ j)
      → ((touch db codec make_key standard now k t s).0 ≡ true)
        × ((get db codec make_key standard later j (touch db codec make_key standard now k t s).1).0
            ≡ (if k == j
                then (if is_past later (deadline now (get_backend_timeout standard t))
                    then none
                    else loaded db codec make_key standard (db.select s (make_key k)))
                else (get db codec make_key standard later j s).0))
  unfolding touch get loaded
  touch_lem now later k j t s inj = ground (
    arith,
    laws.select-update_exp s (make_key k) (make_key j)
        (deadline now (get_backend_timeout standard t)),
    eq_iff k j,
    eq_iff (make_key k) (make_key j),
  )

  -- `delete` answers with the stored value, past its time or not, and removes that key alone.
  pub get-delete :
      (later : ℕ) (k j : String) (s : S)
      → (make_key k ≡ make_key j → k ≡ j)
      → ((delete db codec make_key standard k s).0
          ≡ loaded db codec make_key standard (db.select s (make_key k)))
        × ((get db codec make_key standard later j (delete db codec make_key standard k s).1).0
            ≡ (if k == j then none else (get db codec make_key standard later j s).0))
  unfolding delete get loaded
  get-delete later k j s inj = ground (
    arith,
    laws.select-delete s (make_key k) (make_key j),
    eq_iff k j,
    eq_iff (make_key k) (make_key j),
  )

  module _ (loads-dumps : (v : V) → codec.loads (codec.dumps v) ≡ v)
      (make_key_injective : (k j : String) → make_key k ≡ make_key j → k ≡ j) where
    -- By the deadline that the code computes
    get-set_deadline :
        (now later : ℕ) (k j : String) (v : V) (t : Timeout) (s : S)
        → (get db codec make_key standard later j (set db codec make_key standard now k v t s)).0
          ≡ (if k == j
              then (if is_past later (deadline now (get_backend_timeout standard t))
                  then none
                  else some v)
              else (get db codec make_key standard later j s).0)
    unfolding get set
    get-set_deadline now later k j v t s = ground (
      arith,
      laws.select-replace s (make_key k) (make_key j)
          (build_tuple db codec make_key standard now v t),
      eq_iff k j,
      eq_iff (make_key k) (make_key j),
      make_key_injective k j,
      loads-dumps v,
    )

    -- After a write every other key reads as before. A key written with the timeout `None`, or by default
    -- where that is `None`, reads as absent at every time. With a number of seconds, where a negative one
    -- counts as 0, it gives the value up to and at a full second, the one nearest to the time of the
    -- write and these seconds (the later one of two), and reads as absent afterwards.
    pub get-set :
        (now later : ℕ) (k j : String) (v : V) (t : Timeout) (s : S)
        → ((get db codec make_key standard later j (set db codec make_key standard now k v t s)).0
            ≡ (if k == j
                then (get db codec make_key standard later k
                    (set db codec make_key standard now k v t s)).0
                else (get db codec make_key standard later j s).0))
          × Reads now later v
              (duration standard t)
              (get db codec make_key standard later k
                (set db codec make_key standard now k v t s)).0
    get-set now later k j v t s =
        let at_j = get-set_deadline now later k j v t s in
        let at_k : (get db codec make_key standard later k
              (set db codec make_key standard now k v t s)).0
            ≡ (if is_past later (deadline now (get_backend_timeout standard t))
                then none
                else some v) =
          get-set_deadline now later k k v t s ∙ rw (eq_refl k) refl in
        (
          at_j
              ∙ ap (λ x. if k == j then x else (get db codec make_key standard later j s).0)
                  (sym at_k),
          rw at_k (deadline-Reads now later v standard t),
        )
