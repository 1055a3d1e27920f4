-- ===== src/Bulk/Endpoint.antt =====
-- vstutils/api/endpoint.py: `OperationSerializer.create`, `EndpointViewSet.operate`, `put`, `patch` (where
-- `BULK_THREADS` is 0, or the method is POST or PUT: one operation after another) and `post`.
pub mod Data
pub mod Atomic
pub mod Progress
use vstutils.Base.{
  merge, ℕ, zero, suc, length, ◌≡◌, Bool, true, false, not, ◌&&◌, ◌||◌, List, [], ◌∷◌, ◌++◌, Option,
  none, some, if◌then◌else◌, ◌==◌, text_eq, eqb, leb, ltb, Assoc, lookup, insert, keep,
}
use vstutils.Base.Text.{Text, codes, lower}
use vstutils.Bulk.Value.{Value, null, str, arr, obj, Fields, end, field, items}
use vstutils.Bulk.Paths.{join_paths}
use vstutils.Bulk.Template.{Formatter}
use vstutils.Bulk.Operation.{
  Response, Result, done, broken, status_of, Operation, Request, Context, is_passed, fix_headers,
  is_truthy, validate,
}

-- The database, and the queue of the notificator of the request, which no transaction covers.
pub record World (D M : Type 0) : Type 0 where
  pub db : D
  pub messages : List M

-- What the endpoint is configured with and calls: the settings, the formatter at given results and
-- variables, and the handling of one inner request, which gives `none` when it raises.
pub record Site (D M : Type 0) : Type 0 where
  pub api_url : Text
  pub versions : List Text
  pub default_version : Text
  pub rest_methods : List Text
  pub formatter : List Result → Assoc Text Result → Formatter
  pub loads : Text → Option Value
  pub serve : Assoc Text Text → Request → World D M → Option Response × World D M

-- The answer to a bulk request.
pub record BulkResponse : Type 0 where
  pub status : ℕ
  pub results : List Result
  pub cookies : Assoc Text Text

-- `100 <= status < 400`
abbrev pub is_success : Result → Bool
is_success r = leb 100 (status_of r) && ltb (status_of r) 400

-- `_get_rendered`
unfoldable pub rendered : (Text → Option Value) → Response → Option Value
rendered loads r = elim r.body [
  | some (obj fs) ↦ some (obj fs)
  | _ ↦ elim r.orjson_content [
    | some v ↦ some v
    | none ↦
        if not (eqb r.status 404) && not (r.rendered_content == [])
        then loads r.rendered_content
        else some (obj (field (codes "detail") (str r.content) end))
  ]
]

-- `ParseResponseDict.__init__`
unfoldable pub parse_response : (Text → Option Value) → Text → Text → Response → Option Result
unfolding rendered
parse_response loads path method r = elim (rendered loads r) [
  | none ↦ none
  | some v ↦ some (
      done path r.status v method (keep is_passed r.headers)
        (lookup (codes "Response-Time") r.headers))
]

-- `_get_request_data`: a text is parsed, and what it holds is read in the same way; `none` raises.
unfoldable pub read_data : (loads : Text → Option Value) → (fuel : ℕ) → Value → Option (List Value)
read_data loads zero v = none
read_data loads (suc fuel) (arr xs) = some (items xs)
read_data loads (suc fuel) (obj fs) = some (obj fs ∷ [])
read_data loads (suc fuel) (str t) = elim (loads t) [
  | none ↦ none
  | some v ↦ read_data loads fuel v
]
read_data loads (suc fuel) _ = none

abbrev pub text_size : Value → ℕ
text_size (str t) = length t
text_size _ = 0

-- A text is longer than a text that it holds.
unfoldable pub request_data : (loads : Text → Option Value) → Value → Option (List Value)
unfolding read_data
request_data loads v = read_data loads (suc (text_size v)) v

abbrev bind_result : Option Text → Result → Assoc Text Result → Assoc Text Result
bind_result none r vs = vs
bind_result (some k) r vs = insert k r vs

abbrev keep_cookies : Response → Context → Context
keep_cookies r c = record c { cookies = merge c.cookies r.cookies }

-- The context that `put` makes; a new client has no cookies.
abbrev pub fresh : Context
fresh = record { results = []; variables = []; cookies = [] }

-- The client's cookies that the request did not send as they are now.
abbrev changed_cookies : Assoc Text Text → Context → Assoc Text Text
changed_cookies sent c =
    keep (λ k. elim (lookup k.0 sent) [ none ↦ true | some v ↦ not (v == k.1) ]) c.cookies

abbrev pub answer : Assoc Text Text → Context → BulkResponse
answer sent c = record { status = 200; results = c.results; cookies = changed_cookies sent c }

module _ {D M : Type 0} where
  -- `transaction.atomic()(method)`: an exception undoes what was written to the database.
  unfoldable pub atomic : World D M → Option Response × World D M → Option Response × World D M
  atomic w (some r, w') = (some r, w')
  atomic w (none, w') = (none, record w' { db = w.db })

  -- Any exception becomes the error entry, with the status 500.
  unfoldable pub settle : Value → Option Result × Context × World D M → Result × Context × World D M
  settle v (none, c, w) = (broken v, c, w)
  settle v (some r, c, w) = (r, c, w)

  -- After a stop: the outer transaction is undone, the messages of the notificator are cleared, and
  -- the results so far are returned.
  unfoldable pub settle_post :
      Assoc Text Text → World D M → Bool × Context × World D M → BulkResponse × World D M
  settle_post sent w (true, c, w') = (
    record { status = 502; results = c.results; cookies = [] },
    record { db = w.db; messages = [] },
  )
  settle_post sent w (false, c, w') = (answer sent c, w')

module _ {D M : Type 0} (site : Site D M) where
  open site use {api_url, versions, default_version, rest_methods, formatter, loads, serve}

  -- The arguments of the client's method.
  unfoldable pub inner_request : Operation → Request
  inner_request op =
      let url = join_paths (api_url ∷ op.version ∷ op.path ∷ []) in
      record {
        url = if op.query == [] then url else url ++ b'?' ∷ op.query;
        method = lower op.method;
        headers = fix_headers op.headers;
        body = elim op.body [ null ↦ str [] | v ↦ v ];
      }

  -- The call of the client's method, in a transaction unless it is `get`.
  unfoldable pub call_method : Assoc Text Text → Request → World D M → Option Response × World D M
  unfolding atomic
  call_method cookies q w =
      if q.method == codes "get" then serve cookies q w else atomic w (serve cookies q w)

  -- From the result of the method on: the client's cookies are updated, the response is parsed, and
  -- the variable of `let` is set.
  unfoldable pub finish_create :
      Operation
      → Request
      → Context
      → Option Response × World D M
      → Option Result × Context × World D M
  unfolding parse_response
  finish_create op q c (none, w) = (none, c, w)
  finish_create op q c (some r, w) =
      let c' = keep_cookies r c in
      elim (parse_response loads q.url q.method r) [
        | none ↦ (none, c', w)
        | some e ↦ (some e, record c' { variables = bind_result op.bind e c'.variables }, w)
      ]

  -- `create`
  unfoldable pub create : Operation → Context → World D M → Option Result × Context × World D M
  create op c w = let q = inner_request op in finish_create op q c (call_method c.cookies q w)

  -- `operate`
  unfoldable pub operate : Value → Context → World D M → Result × Context × World D M
  operate (obj fs) c w =
      settle (obj fs)
        (elim (validate (formatter c.results c.variables) rest_methods versions default_version
          fs) [ none ↦ (none, c, w) | some op ↦ create op c w ])
  operate v c w = (broken v, c, w)

  -- The loop of `put`. The first component says that `TransactionStop` was raised.
  unfoldable pub run :
      (allow_fail : Bool) → List Value → Context → World D M → Bool × Context × World D M
  run allow_fail [] c w = (false, c, w)
  run allow_fail (v ∷ vs) c w =
      let (r, c', w') = operate v c w in
      let c'' = record c' { results = c'.results ++ r ∷ [] } in
      let rest = run allow_fail vs c'' w' in
      if not allow_fail && not (is_success r) then (true, c'', w') else rest

  -- `put`; `none` is what is raised on request data of another type.
  unfoldable pub put :
      (sent : Assoc Text Text) → Value → World D M → Option BulkResponse × World D M
  unfolding request_data
  put sent data' w = elim (request_data site.loads data') [
    | none ↦ (none, w)
    | some vs ↦ let (stopped, c, w') = run true vs fresh w in (some (answer sent c), w')
  ]

  -- `post`, for a request with a notificator
  unfoldable pub post : (sent : Assoc Text Text) → Value → World D M → BulkResponse × World D M
  unfolding request_data settle_post
  post sent data' w = elim (request_data site.loads data') [
    | none ↦ settle_post sent w (true, fresh, w)
    | some vs ↦ settle_post sent w (run false vs fresh w)
  ]
