-- ===== src/Scheduler/Discard.antt =====
-- The tasks in the heap, before and after the first tick.
use vstutils.Base.{
  ℕ, zero, suc, ◌+◌, ◌≡◌, refl, ◌∙◌, Bool, List, [], ◌∷◌, Option, if◌then◌else◌, arith, Bool-cases,
  inl, inr, length,
}
use vstutils.Scheduler.Defs.{
  Event, is_before, push_event, Inherited, synced, next_event, discard, current, discard_all,
  discard_overdue_tasks,
}

-- How many events have a task of some kind
abbrev pub tally : {T : Type 0} → (T → Bool) → List (Event T) → ℕ
tally p [] = 0
tally p (e ∷ heap) = (if p e.entry then 1 else 0) + tally p heap

tally-push_event :
    {T : Type 0} (p : T → Bool) (e : Event T) (heap : List (Event T))
    → tally p (push_event e heap) ≡ (if p e.entry then 1 else 0) + tally p heap
unfolding push_event
tally-push_event p e [] = refl
tally-push_event p e (f ∷ heap) = elim (Bool-cases (is_before e f)) [
  | inl h ↦ rw h refl
  | inr h ↦ rw h (omega (arith, tally-push_event p e heap))
]

module _ {T : Type 0} (i : Inherited T) where
  tally-discard :
      (p : T → Bool)
      → ((round : ℕ) (t : T) → p (i.reserve round t) ≡ p t)
      → (rounds : ℕ) (heap : List (Event T)) (since_sync : ℕ)
      → tally p (discard i rounds heap since_sync).0 ≡ tally p heap
  unfolding discard
  tally-discard p same zero heap since_sync = refl
  tally-discard p same (suc rounds) [] since_sync = refl
  tally-discard p same (suc rounds) (e ∷ heap) since_sync =
      elim (Bool-cases (i.is_due rounds e.entry).0) [
        | inr h ↦ rw h refl
        | inl h ↦
            let next = next_event i rounds e (i.is_due rounds e.entry).1 in
            rw h (
              tally-discard p same rounds (push_event next heap) (synced i rounds since_sync)
              ∙ (tally-push_event p next heap ∙ rw (same rounds e.entry) refl))
      ]

  -- Where a next entry is of the same kind as the entry: the first tick leaves each kind of task in the
  -- heap as often as it was there.
  pub tally-discard_overdue_tasks :
      (p : T → Bool) (heap : Option (List (Event T))) (changed : Bool) (since_sync : ℕ)
      → ((round : ℕ) (t : T) → p (i.reserve round t) ≡ p t)
      → tally p (discard_overdue_tasks i heap changed since_sync).1.0
        ≡ tally p (current i heap changed)
  unfolding discard_overdue_tasks
  tally-discard_overdue_tasks p heap changed since_sync same = all_kept (current i heap changed)
    where
      all_kept :
          (events : List (Event T)) → tally p (discard_all i events since_sync).1.0 ≡ tally p events
      all_kept [] = refl
      all_kept (e ∷ events) = tally-discard p same (length (e ∷ events)) (e ∷ events) since_sync
