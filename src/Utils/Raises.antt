-- ===== src/Utils/Raises.antt =====
-- vstutils/utils.py: `assertRaises`, `raise_context` and `raise_context_decorator_with_default`. A
-- context is one object for all calls of the function that it decorates: the flag that it sets is state
-- that a call inside the call shares.
use vstutils.Base.{
  ◌≡◌, refl, Bool, true, false, not, ◌&&◌, ◌||◌, Option, none, some, if◌then◌else◌, Bool-cases, inl,
  inr,
}

-- How a call ends. `info` is the tuple that stands for a suppressed exception.
pub data Outcome (A E : Type 0) : Type 0 where
  returned : A → Outcome A E
  info : E → Outcome A E
  raised : E → Outcome A E

-- A context: `issubclass` of an exception for its classes, and `exclude`.
pub record Context (E : Type 0) : Type 0 where
  pub is_listed : E → Bool
  pub exclude : Bool

-- The flag `__failed`, and whatever else the function changes.
pub record State (S : Type 0) : Type 0 where
  pub failed : Bool
  pub rest : S

unfoldable pub mark_as_failed : {S : Type 0} → State S → State S
mark_as_failed s = record s { failed = true }

unfoldable pub cleanup_fails : {S : Type 0} → State S → State S
cleanup_fails s = record s { failed = false }

-- `__exit__`: whether the exception, if any, is suppressed.
unfoldable pub exit : {E : Type 0} → Context E → Option E → Bool
exit context none = false
exit context (some e) =
    (not context.exclude && not (context.is_listed e)) || (context.exclude && context.is_listed e)

-- What the decorated function should give back, from the end of the call.
unfoldable pub expected : {A E : Type 0} → Context E → A → Outcome A E → Outcome A E
unfolding exit
expected context default (returned a) = returned a
expected context default (info e) = info e
expected context default (raised e) = if exit context (some e) then returned default else raised e

module _ {A E S : Type 0} (context : Context E) where
  -- The `with` block of `execute`, around the end of the call.
  unfoldable pub leave : Outcome A E × State S → Outcome A E × State S
  unfolding exit mark_as_failed
  leave (returned a, s) = (returned a, s)
  leave (info e, s) = (info e, s)
  leave (raised e, s) =
      if exit context (some e) then (info e, mark_as_failed s) else (raised e, mark_as_failed s)

  -- `raise_context.execute`
  unfoldable pub execute : (State S → Outcome A E × State S) → State S → Outcome A E × State S
  unfolding leave cleanup_fails
  execute func s = leave (func (cleanup_fails s))

-- The end of `raise_context_decorator_with_default.execute`
unfoldable pub or_default : {A E S : Type 0} → A → Outcome A E × State S → Outcome A E × State S
or_default default (raised e, s) = (raised e, s)
or_default default (returned a, s) = if s.failed then (returned default, s) else (returned a, s)
or_default default (info e, s) = if s.failed then (returned default, s) else (info e, s)

module _ {A E S : Type 0} (context : Context E) where
  -- `raise_context_decorator_with_default.execute`
  unfoldable pub execute_with_default :
      A → (State S → Outcome A E × State S) → State S → Outcome A E × State S
  unfolding execute or_default
  execute_with_default default func s = or_default default (execute context func s)

  or_default-leave :
      (default : A) (o : Outcome A E) (s : State S)
      → s.failed ≡ false
      → (or_default default (leave context (o, s))).0 ≡ expected context default o
  unfolding or_default leave mark_as_failed expected
  or_default-leave default (returned a) s h = rw h refl
  or_default-leave default (info e) s h = rw h refl
  or_default-leave default (raised e) s h = elim (Bool-cases (exit context (some e))) [
    | inl x ↦ rw x refl
    | inr x ↦ rw x refl
  ]

  -- A function that leaves the flag unset is answered for as it ended: by what it returned, by the
  -- default value for an exception that the context suppresses, by its exception for another.
  pub execute_with_default_lem :
      (default : A) (func : State S → Outcome A E × State S) (s : State S)
      → (func (cleanup_fails s)).1.failed ≡ false
      → (execute_with_default default func s).0
        ≡ expected context default (func (cleanup_fails s)).0
  unfolding execute_with_default execute
  execute_with_default_lem default func s h =
      or_default-leave default (func (cleanup_fails s)).0 (func (cleanup_fails s)).1 h

  -- A call that returns while the flag is set, as a failed call inside it leaves it, is answered by the
  -- default value, whatever it returned.
  pub execute_with_default_nested :
      (default a : A) (func : State S → Outcome A E × State S) (s after : State S)
      → func (cleanup_fails s) ≡ (returned a, mark_as_failed after)
      → (execute_with_default default func s).0 ≡ returned default
  unfolding execute_with_default execute leave or_default mark_as_failed
  execute_with_default_nested default a func s after h = rw h refl
