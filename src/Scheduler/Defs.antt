-- ===== src/Scheduler/Defs.antt =====
-- `SingletonDatabaseScheduler`. What it inherits of Celery is a parameter: when a task is due, the next entry of a
-- task, the writing of the schedule, and a tick of its own. The heap of heapq is a list in order.
use vstutils.Base.{
  ℕ, zero, suc, Bool, true, false, ◌&&◌, ◌||◌, List, [], ◌∷◌, Option, none, some, if◌then◌else◌,
  ltb, eqb, length,
}

-- `event_t`
pub record Event (T : Type 0) : Type 0 where
  pub time : ℕ
  pub priority : ℕ
  pub entry : T

abbrev pub is_before : {T : Type 0} → Event T → Event T → Bool
is_before a b = ltb a.time b.time || (eqb a.time b.time && ltb a.priority b.priority)

-- `heappush`
unfoldable pub push_event : {T : Type 0} → Event T → List (Event T) → List (Event T)
push_event e [] = e ∷ []
push_event e (f ∷ heap) =
    let rest = push_event e heap in if is_before e f then e ∷ f ∷ heap else f ∷ rest

-- What is inherited, in each round of a loop; the times are those of the clock then.
pub record Inherited (T : Type 0) : Type 0 where
  -- `is_due`, and the time to the next run
  pub is_due : (round : ℕ) → T → Bool × ℕ
  pub reserve : (round : ℕ) → T → T
  pub when : (round : ℕ) → T → (next_time_to_run : ℕ) → ℕ
  -- `should_sync`, by the tasks since the last sync, and that number after `_do_sync`
  pub should_sync : (round : ℕ) → ℕ → Bool
  pub do_sync : ℕ → ℕ
  -- The heap that `populate_heap` makes of the schedule
  pub populate_heap : List (Event T)
  pub max_interval : ℕ

module _ {T : Type 0} (i : Inherited T) where
  -- The heap and the tasks since the last sync
  abbrev pub Heap : Type 0
  Heap = List (Event T) × ℕ

  abbrev pub synced : (round since_sync : ℕ) → ℕ
  synced round since_sync =
      if i.should_sync round (suc since_sync) then i.do_sync (suc since_sync) else suc since_sync

  -- What the event becomes
  abbrev pub next_event : (round : ℕ) → Event T → (next_time_to_run : ℕ) → Event T
  next_event round e next =
      let next_entry = i.reserve round e.entry in
      record { time = i.when round next_entry next; priority = e.priority; entry = next_entry }

  -- The rounds of the loop that are left. `heappop` pops the head, the very object that was read before it,
  -- as nothing else changes the heap between the two; so `verify is event` holds in every round.
  unfoldable pub discard : (rounds : ℕ) → List (Event T) → (since_sync : ℕ) → Heap
  unfolding push_event
  discard zero heap since_sync = (heap, since_sync)
  discard (suc rounds) [] since_sync = ([], since_sync)
  discard (suc rounds) (e ∷ heap) since_sync =
      let (due, next) = i.is_due rounds e.entry in
      let rest =
        discard rounds (push_event (next_event rounds e next) heap) (synced rounds since_sync) in
      if due then rest else (e ∷ heap, since_sync)

  -- The heap, which is made anew where there is none or the schedule has changed
  abbrev pub current : Option (List (Event T)) → (changed : Bool) → List (Event T)
  current none changed = i.populate_heap
  current (some heap) changed = if changed then i.populate_heap else heap

  abbrev pub discard_all : List (Event T) → (since_sync : ℕ) → ℕ × Heap
  discard_all [] since_sync = (i.max_interval, ([], since_sync))
  discard_all (e ∷ heap) since_sync = (0, discard (length (e ∷ heap)) (e ∷ heap) since_sync)

  -- `_discard_overdue_tasks`: the delay, and the heap
  unfoldable pub discard_overdue_tasks :
      Option (List (Event T)) → (changed : Bool) → (since_sync : ℕ) → ℕ × Heap
  unfolding discard
  discard_overdue_tasks heap changed since_sync = discard_all (current heap changed) since_sync

-- The fields of the scheduler that `tick` reads and sets
pub record Scheduler : Type 0 where
  pub discarding_overdue_tasks : Bool
  pub has_lock : Bool

-- What a call of `tick` does
pub data Tick : Type 0 where
  discards : Tick
  -- It waits for 60 seconds.
  waits : Tick
  -- It prolongs the lock, and runs the tick of Celery.
  runs : Tick

unfoldable pub start : Scheduler
start = record { discarding_overdue_tasks = true; has_lock = false }

-- `tick`; `acquired` tells whether the lock can be had, if it is asked for.
unfoldable pub tick : (acquired : Bool) → Scheduler → Tick × Scheduler
tick acquired s =
    if s.discarding_overdue_tasks
    then (discards, record s { discarding_overdue_tasks = false })
    else if s.has_lock
    then (runs, s)
    else if acquired
    then (runs, record s { has_lock = true })
    else (waits, s)

-- `close`: whether it releases the lock
unfoldable pub close : Scheduler → Bool
close s = s.has_lock
