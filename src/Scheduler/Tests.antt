-- ===== src/Scheduler/Tests.antt =====
-- A scheduler of three tasks, and the theorems at concrete inputs.
use vstutils.Base.{ℕ, ◌+◌, ◌≡◌, refl, true, false, List, [], ◌∷◌, some, ltb, eqb}
use vstutils.Scheduler.Defs.{
  Event, Inherited, discard_overdue_tasks, current, discards, waits, runs, start, close,
}
use vstutils.Scheduler.Discard.{tally, tally-discard_overdue_tasks}
use vstutils.Scheduler.Ticks.{ticks, ticks_lem}

-- A task is its number and the time of its last run; it is due every 10 seconds, at the time 20.
abbrev inherited : Inherited (ℕ × ℕ)
inherited = record {
  is_due = λ round t. (ltb (t.1 + 10) 21, 10);
  reserve = λ round t. (t.0, 20);
  when = λ round t next. t.1 + next;
  should_sync = λ round n. false;
  do_sync = λ n. 0;
  populate_heap = [];
  max_interval = 5;
}

abbrev event : (number last time : ℕ) → Event (ℕ × ℕ)
event number last time = record { time = time; priority = 5; entry = (number, last) }

abbrev heap : List (Event (ℕ × ℕ))
heap = event 1 0 10 ∷ event 2 5 15 ∷ event 3 15 25 ∷ []

discard_tests :
    (discard_overdue_tasks inherited (some heap) false 0
      ≡ (0, (event 3 15 25 ∷ event 1 20 30 ∷ event 2 20 30 ∷ [], 2)))
    × (discard_overdue_tasks inherited (some heap) true 0 ≡ (5, ([], 0)))
    × (close start ≡ false)
unfolding discard_overdue_tasks close start
discard_tests = (refl, refl, refl)

tally-discard_overdue_tasks_example :
    tally (λ t. eqb t.0 2) (discard_overdue_tasks inherited (some heap) false 0).1.0
    ≡ tally (λ t. eqb t.0 2) (current inherited (some heap) false)
tally-discard_overdue_tasks_example =
    tally-discard_overdue_tasks inherited (λ t. eqb t.0 2) (some heap) false 0 (λ round t. refl)

ticks_lem_example :
    ticks (true ∷ false ∷ true ∷ false ∷ []) start ≡ discards ∷ waits ∷ runs ∷ runs ∷ []
ticks_lem_example = ticks_lem true (false ∷ true ∷ false ∷ [])
