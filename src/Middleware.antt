-- ===== src/Middleware.antt =====
-- vstutils/middleware.py: `BaseMiddleware`, `AsyncBaseMiddleware` and `LangMiddleware`. A request is an
-- object, named by a reference into the state `S`, which the handlers may change; the languages of the
-- database, the settings and Django's guess from the headers are parameters.
pub mod Timing
pub mod Changes
pub mod Tests
use mathlib.Core.Path.{subst}
use vstutils.Base.{
  ◌≡◌, refl, sym, ap, ◌∙◌, Bool, true, false, not, ◌&&◌, List, [], ◌∷◌, Option, none, some,
  if◌then◌else◌, ◌==◌, text_eq, any, arith, ◌>>=◌, Bool-cases, inl, inr, false_ne_true,
}
use vstutils.Base.Text.{Text}

-- The three methods that a subclass may override.
pub record Middleware (Q P S : Type 0) : Type 0 where
  pub request_handler : Q → S → Q × S
  pub get_response_handler : Q → S → P × S
  pub handler : Q → P → S → P × S

module _ {Q P S : Type 0} (m : Middleware Q P S) where
  -- `BaseMiddleware.__call__`: the arguments of `handler` are computed from left to right.
  unfoldable pub call_sync : Q → S → P × S
  call_sync q s =
      let (q', s1) = m.request_handler q s in
      let (p, s2) = m.get_response_handler q s1 in m.handler q' p s2

  -- `AsyncBaseMiddleware.__call__`
  unfoldable pub call_async : Q → S → P × S
  call_async q s =
      let (q', s1) = m.request_handler q s in
      let (p, s2) = m.get_response_handler q' s1 in m.handler q' p s2

  -- A middleware whose request handler gives back the request that it was given does the same with
  -- either base class.
  pub call_sync-call_async :
      (q : Q) (s : S) → (m.request_handler q s).0 ≡ q → call_sync q s ≡ call_async q s
  unfolding call_sync call_async
  call_sync-call_async q s h =
      ap
        (λ r.
          let (p, s2) = m.get_response_handler r (m.request_handler q s).1 in
          m.handler (m.request_handler q s).0 p s2)
        (sym h)

-- The `lang` of the query, the language cookie, and what the headers ask for.
pub record LangRequest : Type 0 where
  pub query_lang : Option Text
  pub cookie : Option Text
  pub accepted : Text

pub record LangResponse : Type 0 where
  pub cookie_set : Option Text
  pub content_language : Option Text

abbrev pub is_code : Option Text → Text → Bool
is_code none code = false
is_code (some c) code = c == code

-- The code that is asked for, and whether to set the cookie.
unfoldable pub wanted_from : (query_lang cookie : Option Text) → Text → Text × Bool
wanted_from (some code) cookie accepted = (code, not (is_code cookie code))
wanted_from none (some code) accepted = (code, false)
wanted_from none none accepted = (accepted, true)

unfoldable pub wanted : LangRequest → Text × Bool
unfolding wanted_from
wanted q = wanted_from q.query_lang q.cookie q.accepted

module _ (languages : List Text) (language_code : Text) where
  abbrev pub is_known : Text → Bool
  is_known code = any (λ l. l == code) languages

  -- `none`: the language of the settings is not in the database.
  unfoldable pub find_language : Text × Bool → Option (Text × Bool)
  find_language (code, set_cookie) =
      if is_known code
      then some (code, set_cookie)
      else if is_known language_code
      then some (language_code, set_cookie)
      else none

  unfoldable pub get_lang_object : LangRequest → Option (Text × Bool)
  unfolding wanted find_language
  get_lang_object q = find_language (wanted q)

  -- `LangMiddleware.get_response_handler` around the rest, which sees the language.
  unfoldable pub get_lang_response :
      (Text → LangRequest → LangResponse) → LangRequest → Option LangResponse
  unfolding get_lang_object
  get_lang_response rest q = do
    (code, set_cookie) ← get_lang_object q
    let p = rest code q
    some (record {
      cookie_set = if set_cookie then some code else p.cookie_set;
      content_language = elim p.content_language [ none ↦ some code | some c ↦ some c ];
    })

  find_language-known :
      (asked code : Text) (a set_cookie : Bool)
      → find_language (asked, a) ≡ some (code, set_cookie)
      → is_known code ≡ true
  unfolding find_language
  find_language-known asked code a set_cookie h = elim (Bool-cases (is_known asked)) [
    | inl k ↦ subst (λ c. is_known c ≡ true) (ground (arith, h, k)) k
    | inr k ↦ elim (Bool-cases (is_known language_code)) [
      | inl d ↦ subst (λ c. is_known c ≡ true) (ground (arith, h, k, d)) d
      | inr d ↦ ground (arith, h, k, d)
    ]
  ]

  -- The language of a request is known, and a later request with its code in the language cookie and
  -- none in its query gets the same language, without a cookie being set.
  pub get_lang_object_again :
      (q later : LangRequest) (code : Text) (set_cookie : Bool)
      → get_lang_object q ≡ some (code, set_cookie)
      → later.query_lang ≡ none
      → later.cookie ≡ some code
      → (is_known code ≡ true) × (get_lang_object later ≡ some (code, false))
  unfolding get_lang_object wanted wanted_from find_language
  get_lang_object_again q later code set_cookie h n c =
      let known = find_language-known (wanted q).0 code (wanted q).1 set_cookie h in
      (known, rw (n, c, wanted, known) refl)
