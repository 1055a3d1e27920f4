-- ===== src/Fields/Crontab/Defs.antt =====
-- `CrontabField.make_validation` and `CrontabField.to_internal_value`.
use vstutils.Base.{
  ℕ, zero, suc, ◌+◌, ◌/◌, ◌%◌, Bool, false, List, [], ◌∷◌, ◌++◌, map, if◌then◌else◌, ◌==◌, text_eq,
  ltb, take, any, all,
}
use vstutils.Base.Text.{Text, codes, has_char, join}
use vstutils.Base.Split.{split, count}

pub data Interval : Type 0 where
  minute : Interval
  hour : Interval
  day : Interval
  month : Interval
  weekday : Interval

-- `str(n)` for a number below 100
unfoldable pub str : ℕ → Text
str n = if ltb n 10 then (b'0' + n) ∷ [] else (b'0' + n / 10) ∷ (b'0' + n % 10) ∷ []

-- `n` numbers from the first on.
abbrev pub range_from : ℕ → ℕ → List ℕ
range_from first zero = []
range_from first (suc n) = first ∷ range_from (first + 1) n

-- `CrontabField.intervals`
unfoldable pub intervals : Interval → List Text
unfolding str
intervals minute = map str (range_from 0 60)
intervals hour = map str (range_from 0 24)
intervals day = map str (range_from 1 31)
intervals month = map str (range_from 1 12)
intervals weekday = map str (range_from 0 7)

-- `s in texts`
abbrev pub is_one_of : Text → List Text → Bool
is_one_of s texts = any (λ t. s == t) texts

-- The validation errors; `not_unpacked` is Python's ValueError at a split with too many parts.
pub data Fault : Type 0 where
  invalid : Fault
  invalid_delimiter : Interval → Fault
  invalid_time_range : Interval → Fault
  to_many_columns : Fault
  not_unpacked : Fault

-- `stuck` says that the fuel was too little.
pub data Check : Type 0 where
  passed : Check
  failed : Fault → Check
  stuck : Check

-- The second check runs if the first one does not raise.
abbrev pub and_then : Check → Check → Check
and_then passed k = k
and_then (failed f) k = failed f
and_then stuck k = stuck

abbrev pub check_each : (Text → Check) → List Text → Check
check_each check [] = passed
check_each check (t ∷ ts) = and_then (check t) (check_each check ts)

abbrev pub rounds : ℕ
rounds = 4

-- `except Exception as err`: what is not a validation error becomes one.
abbrev pub as_validation_error : Check → Check
as_validation_error (failed not_unpacked) = failed invalid
as_validation_error other = other

abbrev pub names : List Interval
names = minute ∷ hour ∷ day ∷ month ∷ weekday ∷ []

pub data Parsed : Type 0 where
  accepted : Text → Parsed
  error : Fault → Parsed
  unfinished : Parsed

abbrev pub parsed : Check → Text → Parsed
parsed passed t = accepted t
parsed (failed f) t = error f
parsed stuck t = unfinished

-- The columns, filled up with stars.
unfoldable pub columns : Text → List Text
columns text = let star = codes "*" in take 5 (split b' ' text ++ (star ∷ star ∷ star ∷ star ∷ []))

-- `minimal, maximal = value.split('-')` and what follows
unfoldable pub check_span : (again : Text → Check) → List Text → Check
check_span again (minimal ∷ maximal ∷ []) = and_then (again minimal) (again maximal)
check_span again _ = failed not_unpacked

module _ (is_digit : ℕ → Bool) where
  -- `s.isdigit()`
  abbrev pub is_digits : Text → Bool
  is_digits [] = false
  is_digits (c ∷ s) = all is_digit (c ∷ s)

  -- `value, delimeter = value.split('/')` and what follows
  unfoldable pub check_step : (again : Text → Check) → Interval → List Text → Check
  check_step again interval (value ∷ delimeter ∷ []) =
      if is_digits delimeter then again value else failed (invalid_delimiter interval)
  check_step again interval _ = failed not_unpacked

  -- What follows the tests of the whole value.
  unfoldable pub check_parts : (again : Text → Check) → Interval → Text → Check
  unfolding check_step check_span
  check_parts again interval value =
      if has_char b',' value
      then check_each again (split b',' value)
      else if has_char b'/' value
      then check_step again interval (split b'/' value)
      else if has_char b'-' value
      then check_span again (split b'-' value)
      else if is_one_of value (intervals interval)
      then passed
      else failed (invalid_time_range interval)

  unfoldable pub check_value : (again : Text → Check) → Interval → Text → Check
  unfolding check_parts
  check_value again interval value =
      if value == codes "*"
      then passed
      else if is_one_of value (codes "" ∷ codes "-" ∷ codes "/" ∷ codes "," ∷ [])
      then failed invalid
      else check_parts again interval value

  -- Each recursion is on parts that lack one more of the three delimiters.
  unfoldable pub make_validation : (fuel : ℕ) → Interval → Text → Check
  unfolding check_value
  make_validation zero interval value = stuck
  make_validation (suc fuel) interval value =
      check_value (make_validation fuel interval) interval value

  -- The loop over the intervals; a missing column has no check.
  unfoldable pub check_columns : List Interval → List Text → Check
  unfolding make_validation
  check_columns (i ∷ is) (v ∷ vs) =
      and_then (as_validation_error (make_validation rounds i v)) (check_columns is vs)
  check_columns _ _ = passed

  unfoldable pub to_internal_value : Text → Parsed
  unfolding check_columns columns
  to_internal_value text =
      if ltb 4 (count b' ' text)
      then error to_many_columns
      else parsed (check_columns names (columns text)) (join (b' ' ∷ []) (columns text))
