-- ===== src/Lock/Decorator.antt =====
-- vstutils/utils.py: `__LockAbstractDecorator` and `model_lock_decorator`, a function under a lock.
use vstutils.Base.{ℕ, String, ◌≡◌, refl, false, Option, none, some, arith, List, eq_refl}
use vstutils.Lock.Shared.{CacheOps, CacheLaws}
use vstutils.Lock.Exchange.{make}
use vstutils.Lock.Acquire.{
  Lock, Turn, Outcome, acquired, raised, undecided, acquire, release, acquire-holds,
}

-- `Lock.__init__` before its loop, with `TIMEOUT` as the default
unfoldable pub lock_on : (prefix payload : String) → Option ℕ → (id : String) → Lock
unfolding make
lock_on prefix payload timeout id = record {
  exchange = make prefix 86400 id timeout;
  payload = payload;
  id = none;
}

-- What a call of the decorated function comes to: it ran, `AcquireLockException` was raised before
-- it, or the constructor's loop is still going on.
pub data Guarded (A S : Type 0) : Type 0 where
  ran : A → S → Guarded A S
  refused : S → Guarded A S
  waiting : S → Guarded A S

module _ {S A : Type 0} (cache : CacheOps S String) where
  -- The body of `with Lock(…)`, and `__exit__`. `A` is the result of the function, an exception
  -- included, so the lock is released after both.
  run_locked : (S → A × S) → Outcome S → Guarded A S
  run_locked func (acquired l s) = let (a, s') = func s in ran a (release cache false l s')
  run_locked func (raised s) = refused s
  run_locked func (undecided s) = waiting s

  -- `__LockAbstractDecorator.execute`, by the key that it reads in `_lock_key`
  unfoldable pub execute_with :
      (Option String)
      → (lock : String → Lock) (repeat : ℕ) → List (Turn S)
      → (S → A × S)
      → S
      → Guarded A S
  unfolding run_locked
  execute_with none lock repeat ts func s = let (a, s') = func s in ran a s'
  execute_with (some key) lock repeat ts func s =
      run_locked func (acquire cache (lock key) key repeat ts s)

  -- `model_lock_decorator.execute`, given `kwargs.get('pk', None)`. All calls of a decorated function share
  -- `_lock_key`: `others` is what the other calls make of it, from when this one has set it until it is
  -- read. `lock` is `Lock` for an id, before its loop.
  unfoldable pub execute :
      (pk : Option String)
      → (others : Option String → Option String) (lock : String → Lock) (repeat : ℕ) → List (Turn S)
      → (S → A × S)
      → S
      → Guarded A S
  unfolding execute_with
  execute pk others lock repeat ts func s = execute_with (others pk) lock repeat ts func s

  module _ (laws : CacheLaws cache) where
    run_locked_lem :
        (l : Lock) (pk : String) (repeat : ℕ) (ts : List (Turn S)) (func : S → A × S) (s s' : S)
        (a : A) (o : Outcome S)
        → acquire cache l pk repeat ts s ≡ o
        → run_locked func o ≡ ran a s'
        → (before : S) × (cache.get before l.exchange.key ≡ some l.payload)
          × ((func before).0 ≡ a)
          × (cache.get s' l.exchange.key ≡ none)
    unfolding run_locked release
    run_locked_lem l pk repeat ts func s s' a (acquired l' t) e h =
        let (holds, same) = acquire-holds cache l l' pk repeat ts s t e in
        (
          t,
          holds,
          ground arith,
          ground (
            arith,
            laws.get-delete (func t).1 l.exchange.key l.exchange.key,
            eq_refl l.exchange.key,
          ),
        )
    run_locked_lem l pk repeat ts func s s' a (raised t) e h = cc
    run_locked_lem l pk repeat ts func s s' a (undecided t) e h = cc

    -- A call that has written its `pk` into `_lock_key`, reads a key there (which is the `pk`, unless another
    -- call of the same decorated function has written between the two), and ran, has run on a cache where
    -- the payload of the lock on that key stood under the lock's key, and has left the lock's key free.
    pub execute_locked :
        (pk key : String) (others : Option String → Option String) (lock : String → Lock)
        (repeat : ℕ) (ts : List (Turn S)) (func : S → A × S) (s s' : S) (a : A)
        → others (some pk) ≡ some key
        → execute (some pk) others lock repeat ts func s ≡ ran a s'
        → (before : S) × (cache.get before (lock key).exchange.key ≡ some (lock key).payload)
          × ((func before).0 ≡ a)
          × (cache.get s' (lock key).exchange.key ≡ none)
    unfolding execute execute_with
    execute_locked pk key others lock repeat ts func s s' a read h =
        run_locked_lem (lock key) key repeat ts func s s' a
          (acquire cache (lock key) key repeat ts s) refl (rw (read, execute, execute_with) at h)
