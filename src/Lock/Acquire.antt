-- ===== src/Lock/Acquire.antt =====
-- vstutils/utils.py: `Lock`, one holder at a time of a key of the shared cache.
use vstutils.Base.{
  ℕ, String, ◌≡◌, ◌≢◌, Bool, true, false, ◌||◌, ◌&&◌, Option, none, some, arith, ◌==◌, string_eq,
  eq_iff, leb, ltb, if◌then◌else◌, List, [], ◌∷◌, map,
}
use vstutils.Lock.Shared.{CacheOps, CacheLaws}
use vstutils.Lock.Exchange.{KvExchanger, or_else, send}

-- `id` is set when the lock is acquired, and stays set.
pub record Lock : Type 0 where
  pub exchange : KvExchanger
  pub payload : String
  pub id : Option String

abbrev pub is_some {ℓ} : {A : Type ℓ} → Option A → Bool
is_some none = false
is_some (some a) = true

-- `self.get() == self.payload_data`
abbrev pub holds_payload : Option String → String → Bool
holds_payload none p = false
holds_payload (some q) p = q == p

pub holds_payload-eq : (o : Option String) (p : String) → holds_payload o p ≡ true → o ≡ some p
holds_payload-eq none p h = cc
holds_payload-eq (some q) p h = ground (arith, eq_iff q p)

and-true : (a b : Bool) → (a && b) ≡ true → b ≡ true
and-true a b h = ground arith

-- One turn of the loop in `__init__`: the reading of `time.time() - start` in milliseconds, what the
-- others do to the cache in the sleep between `send` and `get`, and in the sleep at the end.
pub record Turn (S : Type 0) : Type 0 where
  pub elapsed : ℕ
  pub between : S → S
  pub after : S → S

-- `raised` is `AcquireLockException`; `undecided` is a run that is cut off with the loop going on.
pub data Outcome (S : Type 0) : Type 0 where
  acquired : Lock → S → Outcome S
  raised : S → Outcome S
  undecided : S → Outcome S

-- A turn in which the others leave the cache alone.
abbrev pub quiet : {S : Type 0} → ℕ → Turn S
quiet n = record { elapsed = n; between = λ s. s; after = λ s. s }

-- Some reading is past `repeat`.
abbrev pub passes : {S : Type 0} → ℕ → List (Turn S) → Bool
passes repeat [] = false
passes repeat (t ∷ ts) = ltb repeat t.elapsed || passes repeat ts

module _ {S : Type 0} (cache : CacheOps S String) where
  -- The condition of the loop's `if`, and the cache after it.
  unfoldable pub attempt : Lock → Turn S → S → Bool × S
  unfolding send
  attempt l t s =
      let (added, s₁) = send cache l.exchange l.payload none s in
      let s₂ = if added then t.between s₁ else s₁ in
      (added && holds_payload (cache.get s₂ l.exchange.key) l.payload, s₂)

  -- The loop of `__init__`; `repeat` is in milliseconds.
  unfoldable pub acquire : Lock → (name : String) (repeat : ℕ) → List (Turn S) → S → Outcome S
  acquire l name repeat [] s = undecided s
  acquire l name repeat (t ∷ ts) s =
      let (won, s₂) = attempt l t s in
      let again = acquire l name repeat ts (t.after s₂) in
      if leb t.elapsed repeat
      then (if won then acquired (record l { id = some name }) s₂ else again)
      else raised s

  -- `release`, which `__exit__` and `__del__` call
  unfoldable pub release : (force : Bool) → Lock → S → S
  release force l s = if force || is_some l.id then cache.delete s l.exchange.key else s

  attempt-holds :
      (l : Lock) (t : Turn S) (s : S)
      → (attempt l t s).0 ≡ true
      → cache.get (attempt l t s).1 l.exchange.key ≡ some l.payload
  unfolding attempt
  attempt-holds l t s h = holds_payload-eq _ l.payload (and-true _ _ h)

  -- `acquire` returns a lock only over a cache that holds its payload under its key; the lock is the
  -- given one with the `id` set.
  pub acquire-holds :
      (l l' : Lock) (name : String) (repeat : ℕ) (ts : List (Turn S)) (s s' : S)
      → acquire l name repeat ts s ≡ acquired l' s'
      → (cache.get s' l.exchange.key ≡ some l.payload) × (l' ≡ record l { id = some name })
  unfolding acquire
  acquire-holds l l' name repeat [] s s' h = cc
  acquire-holds l l' name repeat (t ∷ ts) s s' h =
      ground (
        arith,
        acquire-holds l l' name repeat ts (t.after (attempt l t s).1) s',
        attempt-holds l t s,
      )

  -- With a reading past `repeat` the loop ends: it returns the lock or raises.
  pub acquire_ends :
      (l : Lock) (name : String) (repeat : ℕ) (ts : List (Turn S)) (s s' : S)
      → passes repeat ts ≡ true
      → acquire l name repeat ts s ≢ undecided s'
  unfolding acquire
  acquire_ends l name repeat [] s s' h = cc
  acquire_ends l name repeat (t ∷ ts) s s' h =
      ground (arith, acquire_ends l name repeat ts (t.after (attempt l t s).1) s')

  -- While any payload stands under the key and nobody touches the cache, the constructor raises
  -- at the first reading past `repeat`, and leaves the cache as it was.
  pub acquire_taken :
      CacheLaws cache
      → (l : Lock) (name other : String) (repeat : ℕ) (ts : List ℕ) (s : S)
      → cache.get s l.exchange.key ≡ some other
      → passes repeat (map (quiet {S = S}) ts) ≡ true
      → acquire l name repeat (map quiet ts) s ≡ raised s
  unfolding acquire attempt send
  acquire_taken laws l name other repeat [] s e h = cc
  acquire_taken laws l name other repeat (t ∷ ts) s e h = ground (
    arith,
    laws.add_taken s l.exchange.key l.payload other (or_else none l.exchange.timeout) e,
    acquire_taken laws l name other repeat ts s e,
  )
