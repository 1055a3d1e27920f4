-- ===== src/Utils/Executor.antt =====
-- vstutils/utils.py: `Executor`, with the default `write_output`. The process is a parameter: from its
-- environment, the lines that it writes, `none` for one that is not UTF-8, and the return code that
-- asyncio has when the output has ended, `none` where it has none yet. The periodic handler does
-- nothing by default, so its interleaving with the reading is left out.
use vstutils.Base.{
  ◌≡◌, refl, sym, ap, ◌∙◌, Bool, true, false, List, [], ◌∷◌, ◌++◌, Option, none, some,
  if◌then◌else◌, Assoc, text_eq, merge, eqb,
}
use mathlib.Core.List.{append_assoc, append-nil}
use vstutils.Base.Int.{ℤ, pos, negsuc}
use vstutils.Base.Text.{Text}

-- What happens around a process: the hooks, and its start with an environment.
pub data Event : Type 0 where
  pre_execute : Event
  started : Assoc Text Text → Event
  post_execute : Option ℤ → Event

-- How an execution ends; `CalledProcessError` has the code and the output.
pub data End : Type 0 where
  finished : Text → End
  called_process_error : ℤ → Text → End
  decode_error : End

-- The attributes of the executor, and what has happened.
pub record Executor : Type 0 where
  pub output : Text
  pub own_env : Assoc Text Text
  pub events : List Event

unfoldable pub write_output : Text → Executor → Executor
write_output line x = record x { output = x.output ++ line }

abbrev pub happen : Event → Executor → Executor
happen e x = record x { events = x.events ++ e ∷ [] }

-- `_unbuffered_read`: whether every line could be decoded.
unfoldable pub unbuffered_read : List (Option Text) → Executor → Bool × Executor
unfolding write_output
unbuffered_read [] x = (true, x)
unbuffered_read (none ∷ lines) x = (false, x)
unbuffered_read (some line ∷ lines) x = unbuffered_read lines (write_output line x)

-- A code that is not 0 is an error; none is like 0.
abbrev pub is_zero : ℤ → Bool
is_zero (pos n) = eqb n 0
is_zero (negsuc n) = false

unfoldable pub end_of : Option ℤ → Text → End
end_of none output = finished output
end_of (some code) output =
    if is_zero code then finished output else called_process_error code output

abbrev pub merged_env :
    Assoc Text Text → Assoc Text Text → Option (Assoc Text Text) → Assoc Text Text
merged_env environ own none = merge environ own
merged_env environ own (some extra) = merge (merge environ own) extra

unfoldable pub finish : Option ℤ → Bool × Executor → End × Executor
unfolding end_of
finish code (false, x) = (decode_error, x)
finish code (true, x) = (end_of code x.output, happen (post_execute code) x)

-- `aexecute` with `_run_subprocess`; `environ` is `os.environ`.
unfoldable pub aexecute :
    (run : Assoc Text Text → List (Option Text) × Option ℤ)
    → (environ : Assoc Text Text) → (env : Option (Assoc Text Text)) → Executor
    → End × Executor
unfolding unbuffered_read finish
aexecute run environ env x =
    let merged = merged_env environ x.own_env env in
    let begun : Executor = record (happen (started merged) (happen pre_execute x)) {
      output = [];
    } in
    let (lines, code) = run merged in finish code (unbuffered_read lines begun)

-- The lines that were decoded, one after another.
abbrev pub whole : List Text → List (Option Text)
whole [] = []
whole (l ∷ ls) = some l ∷ whole ls

abbrev pub text_of : List Text → Text
text_of [] = []
text_of (l ∷ ls) = l ++ text_of ls

unbuffered_read-whole :
    (lines : List Text) (x : Executor)
    → unbuffered_read (whole lines) x ≡ (true, record x { output = x.output ++ text_of lines })
unfolding unbuffered_read write_output
unbuffered_read-whole [] x = ap (λ t. (true, record x { output = t })) (sym (append-nil x.output))
unbuffered_read-whole (l ∷ ls) x =
    unbuffered_read-whole ls (record x { output = x.output ++ l })
    ∙ ap (λ t. (true, record x { output = t })) (append_assoc x.output l (text_of ls))

-- Where every line can be decoded, an execution runs the hook before it, starts the process in the
-- merged environment, and runs the hook after it with the code that it saw, whether it is an error or
-- not; what it returns, or the error holds, is all lines of this process, whatever was in the output
-- before, and it is an error just when the code is seen and is not 0.
pub aexecute_lem :
    (run : Assoc Text Text → List (Option Text) × Option ℤ) (environ : Assoc Text Text)
    (env : Option (Assoc Text Text)) (x : Executor) (lines : List Text) (code : Option ℤ)
    → run (merged_env environ x.own_env env) ≡ (whole lines, code)
    → aexecute run environ env x ≡ (
      end_of code (text_of lines),
      record x {
        output = text_of lines;
        events =
            ((x.events ++ pre_execute ∷ []) ++ started (merged_env environ x.own_env env) ∷ [])
            ++ post_execute code ∷ [];
      },
    )
unfolding aexecute finish
aexecute_lem run environ env x lines code h = rw (h, unbuffered_read-whole lines) refl
