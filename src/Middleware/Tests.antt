-- ===== src/Middleware/Tests.antt =====
-- vstutils/middleware.py: a middleware that counts, sample requests, and the theorems at inputs.
use vstutils.Base.{◌≡◌, ℕ, ◌+◌, refl, false, List, [], ◌∷◌, none, some}
use vstutils.Base.Text.{Text, codes, has_char, join}
use vstutils.Middleware.Timing.{
  several, duration, description, end, next, duration_text, described, duration_handler,
  server_timing, server_timing_header, time_header,
}
use vstutils.Middleware.{
  Middleware, call_sync, call_async, LangRequest, wanted, wanted_from, find_language,
  get_lang_object, get_lang_response,
}

-- Requests are numbers, the state counts; the request handler gives back the given request.
abbrev counting : (ℕ → ℕ) → Middleware ℕ ℕ ℕ
counting replace = record {
  request_handler = λ q s. (replace q, s + 1);
  get_response_handler = λ q s. (q + s, s + 10);
  handler = λ q p s. (p + 100, s);
}

middleware : Unit {0}
unfolding call_sync call_async wanted wanted_from find_language get_lang_object get_lang_response
middleware = tt

-- A request that is replaced reaches the view with the asynchronous base class only.
replaced :
    (call_sync (counting (λ q. q + 7)) 2 0 ≡ (103, 11))
    × (call_async (counting (λ q. q + 7)) 2 0 ≡ (110, 11))
unfolding middleware
replaced = (refl, refl)

abbrev languages : List Text
languages = codes "en" ∷ codes "ru" ∷ []

abbrev asking : LangRequest
asking = record { query_lang = some (codes "ru"); cookie = none; accepted = codes "en" }

abbrev later : LangRequest
later = record { query_lang = none; cookie = some (codes "ru"); accepted = codes "en" }

answered :
    get_lang_response languages
      (codes "en")
      (λ c q. record { cookie_set = none; content_language = none })
      asking
    ≡ some (record { cookie_set = some (codes "ru"); content_language = some (codes "ru") })
unfolding middleware
answered = refl

timed :
    time_header false (codes "5.0") (codes "1.2") (
      (codes "view", several (next (duration (codes "3.0")) (next (description (codes "a b")) end)))
      ∷ [])
    ≡ server_timing_header
        (codes "total_app;dur=5.0, view;dur=3.0;desc=\"a b\", db_execution_time;dur=1.2")
unfolding time_header server_timing duration_handler duration_text described has_char join
timed = refl
