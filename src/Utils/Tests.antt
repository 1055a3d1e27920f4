-- ===== src/Utils/Tests.antt =====
-- vstutils/utils.py: small ciphers, contexts, headers and handlers, and the theorems at inputs.
use vstutils.Base.{
  ◌>>=◌, List, Option, Assoc, ◌≡◌, ℕ, refl, true, false, [], ◌∷◌, Option, none, some, ◌==◌, text_eq,
  lookup, insert, merge, eqb,
}
use vstutils.Base.Text.{Text, codes, lower, join}
use vstutils.Utils.Cipher.{encode, decode, encode_from, decode_from, key_char, minus_mod}
use vstutils.Utils.Raises.{
  Outcome, returned, raised, Context, State, exit, leave, execute, expected, or_default,
  execute_with_default, mark_as_failed, cleanup_fails,
}
use vstutils.Utils.Headers.{
  check_request_etag, without_weak, quoted, compare_tags, add_in_vary, not_empty,
}
use vstutils.Base.Int.{ℤ, pos}
use vstutils.Utils.Urls.{Options, UrlEntry, ViewKind, view_class}
use vstutils.Utils.Pickle.{Codecs, dumps, loads}
use vstutils.Utils.Executor.{
  Executor, pre_execute, started, finished, end_of, finish, unbuffered_read, aexecute, whole,
}
use vstutils.Utils.Handlers.{
  Entry, Handlers, get_object, get_known, backend, load_entry, load_at, find_backend,
  import_backend, made, get_model_object,
}

utils : Unit {0}
unfolding encode decode encode_from decode_from key_char minus_mod exit leave execute expected
    or_default execute_with_default mark_as_failed cleanup_fails check_request_etag without_weak
    quoted compare_tags add_in_vary not_empty lower join get_object get_known backend load_entry
    load_at find_backend import_backend made get_model_object lookup insert merge
utils = tt

abbrev plain_encode : (key clear : Text) → Option Text
plain_encode = encode (λ t. t) (λ t. some t)

encoded : plain_encode (codes "key") (codes "text") ≡ some (223 ∷ 202 ∷ 241 ∷ 223 ∷ [])
unfolding utils
encoded = refl

-- Exceptions are numbers; the context lets 1 through.
abbrev context : Context ℕ
context = record { is_listed = λ e. eqb e 1; exclude = false }

abbrev unset : State Unit
unset = record { failed = false; rest = tt }

fails : ℕ → State Unit → Outcome ℕ ℕ × State Unit
fails e s = (raised e, s)

passed_on :
    ((execute_with_default context 0 (fails 1) unset).0 ≡ raised 1)
    × ((execute_with_default context 0 (fails 2) unset).0 ≡ returned 0)
unfolding utils fails
passed_on = (refl, refl)

-- A function that calls itself through the decorator, and returns 5 after that call has failed.
nested : State Unit → Outcome ℕ ℕ × State Unit
unfolding utils fails
nested s = (returned 5, (execute_with_default context 0 (fails 2) s).1)

tags :
    (check_request_etag (λ e h. e == h) (some (codes "W/\"1\"")) (codes "1")
      ≡ some (codes "\"1\"", true))
    × (check_request_etag (λ e h. e == h) (some (codes "2")) (codes "1")
        ≡ some (codes "\"1\"", false))
    × (check_request_etag (λ e h. e == h) (some (codes "W/")) (codes "1") ≡ none)
unfolding utils
tags = (refl, refl, refl)

vary_kept :
    (add_in_vary (λ t. t ∷ []) (some (codes "Cookie")) (codes "cookie") ≡ some (codes "Cookie"))
    × (add_in_vary (λ t. t ∷ []) (some (codes "Cookie")) (codes "Accept")
        ≡ some (codes "cookie, Accept"))
unfolding utils
vary_kept = (refl, refl)

-- Every path can be imported, and is its own class.
abbrev import_string : Text → Option Text
import_string p = some p

abbrev entry : Entry ℕ
entry = record {
  backend_path = some (codes "app.Ldap");
  options = some ((codes "port", 1) ∷ []);
  csrf_enable = none;
}

abbrev handlers : Handlers ℕ Text
handlers = record { entries = (codes "ldap", entry) ∷ []; loaded = [] }

abbrev process : Assoc Text Text → List (Option Text) × Option ℤ
process env = (whole (codes "out" ∷ codes "put" ∷ []), some (pos 3))

abbrev executor : Executor
executor = record { output = codes "old"; own_env = (codes "A", codes "1") ∷ []; events = [] }

-- A line that is not UTF-8 ends the execution without the hook after it, and a code that has not come
-- in yet is taken for success.
unusual :
    ((aexecute (λ env. (none ∷ [], some (pos 0))) [] none executor).1.events
      ≡ pre_execute ∷ started ((codes "A", codes "1") ∷ []) ∷ [])
    × ((aexecute (λ env. ([], none)) [] none executor).0 ≡ finished [])
unfolding aexecute finish unbuffered_read end_of merge insert
unusual = (refl, refl)

-- Texts that are their own pickles.
abbrev codecs : Codecs Text Text
codecs = record {
  pickle = λ t. t;
  unpickle = λ t. some t;
  to_base64 = λ t. t;
  of_base64 = λ t. some t;
}

pickled :
    (do b ← dumps codecs (codes "key") (codes "text"); loads codecs (codes "key") b)
    ≡ some (codes "text")
unfolding utils dumps loads
pickled = refl

abbrev options : Options ℕ
options = record { view_args = none; view_kwargs = some ((codes "size", 5) ∷ []); others = [] }

abbrev url_entry : UrlEntry ℕ
url_entry = record {
  backend_path = some (codes "app.View");
  options = some options;
  csrf_enable = some false;
}

abbrev kind_of : Text → ViewKind
kind_of c = view_class
