-- ===== src/Cache/Times.antt =====
-- vstutils/drivers/cache.py: how long a value is read, by the timeout that it was written with.
use vstutils.Base.{
  ℕ, ◌+◌, ◌*◌, ◌/◌, leb, ◌≤◌, ◌<◌, ◌≡◌, refl, Option, none, some, arith, string_eq, if◌then◌else◌,
}
use vstutils.Base.Int.{ℤ, pos, negsuc}
use vstutils.Cache.{Timeout, default, never, seconds, get_backend_timeout, deadline, is_past}

-- For how many seconds a value is stored; none for `None`.
abbrev pub seconds_of : Option ℤ → Option ℕ
seconds_of none = none
seconds_of (some (pos n)) = some n
seconds_of (some (negsuc n)) = some 0

abbrev pub duration : (standard : Option ℤ) → Timeout → Option ℕ
duration standard default = seconds_of standard
duration standard never = none
duration standard (seconds n) = seconds_of (some n)

-- What is read of a value that was written for some seconds, at times in milliseconds
abbrev pub Reads : {V : Type 0} → (now later : ℕ) → V → Option ℕ → Option V → Type 0
Reads now later v none read = read ≡ none
Reads now later v (some n) read =
    (second : ℕ) × (1000 * second ≤ now + 1000 * n + 500)
    × (now + 1000 * n + 500 < 1000 * second + 1000)
    × (read ≡ (if leb later (1000 * second) then some v else none))

number-Reads :
    {V : Type 0} (now later n : ℕ) (v : V)
    → Reads now later v (some n) (if is_past later (deadline now (pos n)) then none else some v)
unfolding is_past deadline
number-Reads now later n v = ((now + n * 1000 + 500) / 1000, omega arith, omega arith, ground arith)

pub deadline-Reads :
    {V : Type 0} (now later : ℕ) (v : V) (standard : Option ℤ) (t : Timeout)
    → Reads now later v
        (duration standard t)
        (if is_past later (deadline now (get_backend_timeout standard t)) then none else some v)
unfolding is_past deadline get_backend_timeout
deadline-Reads now later v none default = refl
deadline-Reads now later v (some (pos n)) default = number-Reads now later n v
deadline-Reads now later v (some (negsuc n)) default = number-Reads now later 0 v
deadline-Reads now later v standard never = refl
deadline-Reads now later v standard (seconds (pos n)) = number-Reads now later n v
deadline-Reads now later v standard (seconds (negsuc n)) = number-Reads now later 0 v
