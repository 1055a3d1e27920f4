-- ===== src/Lock/Race.antt =====
-- vstutils/utils.py: several `Lock` objects over one shared cache, their cache calls interleaved in
-- any order. Every object makes its calls in the order of `__init__` and `release`; the two calls of
-- a turn of the loop, `send` and `get`, are separate steps.
pub mod Exclusion
use mathlib.Core.Logic.{ite}
use native.Mathlib.Decide.{ℕ_discrete}
use vstutils.Base.{ℕ, String, ◌≡◌, Bool, true, false, Option, none, some, if◌then◌else◌}
use vstutils.Lock.Shared.{CacheOps}
use vstutils.Lock.Exchange.{send}
use vstutils.Lock.Acquire.{Lock, holds_payload, release}

-- Where a lock object stands: before `send`, before the `get` that follows a successful `send`,
-- between the constructor and `release`, after `release`, or after `AcquireLockException`.
pub data Phase : Type 0 where
  trying sent held released failed : Phase

abbrev pub update {ℓ} : {A : Type ℓ} → (ℕ → A) → ℕ → A → ℕ → A
update f i a j = ite (ℕ_discrete i j) a (f j)

-- `id` is set from the end of the constructor on, and no method clears it.
unfoldable pub lock_at : (ℕ → String) → (ℕ → Lock) → ℕ → Phase → Lock
lock_at names locks i held = record (locks i) { id = some (names i) }
lock_at names locks i released = record (locks i) { id = some (names i) }
lock_at names locks i _ = record (locks i) { id = none }

pub record World (S : Type 0) : Type 0 where
  pub cache : S
  pub phase : ℕ → Phase

module _ {S : Type 0} (ops : CacheOps S String) (names : ℕ → String) (locks : ℕ → Lock) where
  -- The next cache call of object `i`, with the phase after it.
  unfoldable pub next_call : ℕ → Phase → S → Phase × S
  unfolding lock_at send
  next_call i trying s =
      let (added, s') = send ops (locks i).exchange (locks i).payload none s in
      (if added then sent else trying, s')
  next_call i sent s = (
    if holds_payload (ops.get s (locks i).exchange.key) (locks i).payload then held else trying,
    s,
  )
  next_call i held s = (released, release ops false (lock_at names locks i held) s)
  next_call i released s = (released, s)
  next_call i failed s = (failed, s)

  -- `call` runs object `i` on; `give_up` is the loop test failing, and `prolong` keeps a key alive.
  pub data Step (w : World S) : World S → Type 0 where
    call :
        (i : ℕ)
        → Step w (record {
          cache = (next_call i (w.phase i) w.cache).1;
          phase = update w.phase i (next_call i (w.phase i) w.cache).0;
        })
    give_up : (i : ℕ) → w.phase i ≡ trying → Step w (record w { phase = update w.phase i failed })
    prolong :
        (i : ℕ) (ttl : ℕ)
        → Step w (record w { cache = ops.touch w.cache (locks i).exchange.key ttl })

  pub data Reach (w : World S) : World S → Type 0 where
    here : Reach w w
    later : {u v : World S} → Reach w u → Step u v → Reach w v
