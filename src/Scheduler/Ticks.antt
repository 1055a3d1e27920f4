-- ===== src/Scheduler/Ticks.antt =====
-- The ticks of a scheduler from its start.
use vstutils.Base.{◌≡◌, refl, Bool, true, false, List, [], ◌∷◌, map, ap}
use vstutils.Scheduler.Defs.{Scheduler, Tick, discards, waits, runs, start, tick}

-- What the ticks do, given whether the lock can be had at each
unfoldable pub ticks : List Bool → Scheduler → List Tick
unfolding tick
ticks [] s = []
ticks (acquired ∷ rest) s = let (did, t) = tick acquired s in did ∷ ticks rest t

-- Waiting until the lock can be had, and running from then on
abbrev pub waits_then_runs : List Bool → List Tick
waits_then_runs [] = []
waits_then_runs (false ∷ rest) = waits ∷ waits_then_runs rest
waits_then_runs (true ∷ rest) = runs ∷ map (λ b. runs) rest

ticks_with_lock :
    (outcomes : List Bool)
    → ticks outcomes (record { discarding_overdue_tasks = false; has_lock = true })
      ≡ map (λ b. runs) outcomes
unfolding ticks
ticks_with_lock [] = refl
ticks_with_lock (acquired ∷ rest) = ap (◌∷◌ runs) (ticks_with_lock rest)

ticks_without_lock :
    (outcomes : List Bool)
    → ticks outcomes (record { discarding_overdue_tasks = false; has_lock = false })
      ≡ waits_then_runs outcomes
unfolding ticks
ticks_without_lock [] = refl
ticks_without_lock (false ∷ rest) = ap (◌∷◌ waits) (ticks_without_lock rest)
ticks_without_lock (true ∷ rest) = ap (◌∷◌ runs) (ticks_with_lock rest)

-- From the start, the first tick discards what is overdue and runs nothing, whether or not the lock can be
-- had; the next ones wait as long as it can not; and the first for which it can be had, and each one after
-- it, runs.
pub ticks_lem :
    (first : Bool) (outcomes : List Bool)
    → ticks (first ∷ outcomes) start ≡ discards ∷ waits_then_runs outcomes
unfolding ticks start
ticks_lem first outcomes = ap (◌∷◌ discards) (ticks_without_lock outcomes)
