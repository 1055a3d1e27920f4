-- ===== src/Middleware/Timing.antt =====
-- vstutils/middleware.py: the Server-Timing header of `ExecuteTimeHeadersMiddleware`. Numbers come as
-- Python prints them.
use vstutils.Base.{Bool, List, [], ◌∷◌, ◌++◌, if◌then◌else◌, Assoc}
use vstutils.Base.Text.{Text, codes, has_char, join}

-- The value of a timing: a list or another iterable, a number, a text, or one that is false.
mutual
  pub data Timing : Type 0 where
    several : Timings → Timing
    duration : Text → Timing
    description : Text → Timing
    nothing : Timing

  pub data Timings : Type 0 where
    end : Timings
    next : Timing → Timings → Timings

-- `f';desc={value}'`, in quotes if there is a space in it
unfoldable pub described : Text → Text
described [] = []
described (c ∷ s) =
    codes ";desc=" ++ (if has_char b' ' (c ∷ s) then b'"' ∷ (c ∷ s) ++ b'"' ∷ [] else c ∷ s)

unfoldable mutual
  unfolding described

  -- `__duration_handler`, after the key
  pub duration_text : Timing → Text
  duration_text (several ts) = joined_texts ts
  duration_text (duration n) = codes ";dur=" ++ n
  duration_text (description s) = described s
  duration_text nothing = []

  pub joined_texts : Timings → Text
  joined_texts end = []
  joined_texts (next t ts) = duration_text t ++ joined_texts ts

unfoldable pub duration_handler : Text → Timing → Text
unfolding duration_text described
duration_handler key value = key ++ duration_text value

abbrev pub entries_of : Assoc Text Timing → List Text
entries_of [] = []
entries_of ((key, value) ∷ timings) = duration_handler key value ∷ entries_of timings

-- The header's value, from the total time and the time of the queries, as numbers are printed.
unfoldable pub server_timing : (total db : Text) → (timings : Assoc Text Timing) → Text
unfolding duration_handler
server_timing total db timings =
    let listed : Text = elim timings [
      | [] ↦ []
      | t ∷ ts ↦ codes ", " ++ join (codes ", ") (entries_of (t ∷ ts))
    ] in
    codes "total_app;dur=" ++ (total ++ (listed ++ (codes ", db_execution_time;dur=" ++ db)))

-- The two headers: a bulk request has its time alone.
pub data TimeHeader : Type 0 where
  response_time : Text → TimeHeader
  server_timing_header : Text → TimeHeader

unfoldable pub time_header : (is_bulk : Bool) → (total db : Text) → Assoc Text Timing → TimeHeader
unfolding server_timing
time_header is_bulk total db timings =
    if is_bulk then response_time total else server_timing_header (server_timing total db timings)
