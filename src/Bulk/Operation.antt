-- ===== src/Bulk/Operation.antt =====
-- vstutils/api/endpoint.py: `OperationSerializer`, `ParseResponseDict`, `BulkClient.request` and
-- `EndpointViewSet.operate`, one operation of a bulk request.
-- The database is a type `D`, and the handling of one inner request by Django and the views is the
-- parameter `serve`, which gives `none` when it raises.
use vstutils.Base.{
  ℕ, Bool, true, false, not, ◌&&◌, ◌||◌, List, [], ◌∷◌, Option, none, some, if◌then◌else◌, map, any,
  ◌==◌, text_eq, eqb, Assoc, lookup, insert, remove, drop, keep, leb,
}
use vstutils.Base.Text.{Text, codes, starts_with, lower, replace_char, has_char}
use vstutils.Bulk.Value.{Value, null, bool, num, str, arr, obj, nil, Fields, end, field, find}
use vstutils.Bulk.Template.{Formatter, ◌>>=◌, template_field, fill, path_field, method_field}

-- `HttpResponse`: `body` is the attribute `data`, if there is one; `orjson_content` is
-- `rendered_content` of a rendered response with the ORJSON renderer; `rendered_content` is empty
-- where the attribute is missing.
pub record Response : Type 0 where
  pub status : ℕ
  pub body : Option Value
  pub orjson_content : Option Value
  pub rendered_content : Text
  pub content : Text
  pub headers : Assoc Text Text
  pub cookies : Assoc Text Text

-- What one operation adds to the results: `ParseResponseDict` with its timing, or the error entry for
-- the given operation data.
pub data Result : Type 0 where
  done :
      (path : Text) (status : ℕ) (content : Value) (method : Text) (headers : Assoc Text Text)
      (timing : Option Text)
      → Result
  broken : Value → Result

-- `result.get('status', 500)`
unfoldable pub status_of : Result → ℕ
status_of (done p s c m h t) = s
status_of (broken d) = 500

-- The attributes of the validated operation.
pub record Operation : Type 0 where
  pub path : Text
  pub method : Text
  pub headers : Assoc Text Text
  pub body : Value
  pub query : Text
  pub bind : Option Text
  pub version : Text

-- The inner request, as the client's method is called.
pub record Request : Type 0 where
  pub url : Text
  pub method : Text
  pub headers : Assoc Text Text
  pub body : Value

-- The context of a bulk request: the list that is `self.results` too, the variables of `let`, and the
-- cookies of the client.
pub record Context : Type 0 where
  pub results : List Result
  pub variables : Assoc Text Result
  pub cookies : Assoc Text Text

abbrev pub passed_headers : List Text
passed_headers =
    codes "ETag"
    ∷ codes "Location"
    ∷ codes "Pagination-Identifiers"
    ∷ codes "X-Query-Data"
    ∷ codes "Webpush-Public-Key"
    ∷ []

-- `header in response_headers_to_pass`
abbrev pub is_passed : Text × Text → Bool
is_passed h = any (λ p. p == h.0) passed_headers

-- The old-style headers, `HTTP_IF_MATCH` for `if-match`, are renamed, one after another.
new_name : Text → Text
new_name h = lower (replace_char b'_' b'-' (drop 5 h))

rename : Text → Assoc Text Text → Assoc Text Text
unfolding new_name
rename h hs = elim (lookup h hs) [ none ↦ hs | some v ↦ insert (new_name h) v (remove h hs) ]

rename_all : List Text → Assoc Text Text → Assoc Text Text
unfolding rename
rename_all [] hs = hs
rename_all (h ∷ old) hs = rename_all old (rename h hs)

unfoldable pub fix_headers : Assoc Text Text → Assoc Text Text
unfolding rename_all starts_with
fix_headers hs = rename_all (keep (λ h. starts_with h (codes "HTTP_")) (map (λ p. p.0) hs)) hs

-- Some digit before the exponent is not zero.
abbrev is_nonzero : Text → Bool
is_nonzero [] = false
is_nonzero (c ∷ s) =
    if eqb c b'e' || eqb c b'E' then false else (leb b'1' c && leb c b'9') || is_nonzero s

-- `data and …`: whether a JSON value counts as true
abbrev pub is_truthy : Value → Bool
is_truthy null = false
is_truthy (bool b) = b
is_truthy (num n) = is_nonzero n
is_truthy (str []) = false
is_truthy (arr nil) = false
is_truthy (obj end) = false
is_truthy _ = true

-- `UrlQueryStringValidator`: the text is empty or matches `^[^&?=].+=.*$`, where `.` is any character
-- but a newline, and `$` also stands before a newline at the end.
chomp : Text → Text
chomp [] = []
chomp (c ∷ []) = if eqb c b'\n' then [] else c ∷ []
chomp (c ∷ d ∷ s) = c ∷ chomp (d ∷ s)

unfoldable pub is_query : Text → Bool
unfolding chomp has_char
is_query [] = true
is_query (c ∷ []) = false
is_query (c ∷ d ∷ s) =
    not (eqb c b'&' || (eqb c b'?' || eqb c b'='))
    && (not (has_char b'\n' (chomp (d ∷ s))) && has_char b'=' (drop 1 (chomp (d ∷ s))))

module _ (f : Formatter) (choices versions : List Text) (standard : Text) where
  as_text : Value → Option Text
  as_text (str s) = some s
  as_text _ = none

  -- `headers`, a `DictField` of template strings
  header_values : Fields → Option (Assoc Text Text)
  unfolding as_text
  header_values end = some []
  header_values (field k v fs) = do
    w ← template_field f v
    t ← as_text w
    ts ← header_values fs
    some ((k, t) ∷ ts)

  headers_field : Option Value → Option (Assoc Text Text)
  unfolding header_values
  headers_field none = some []
  headers_field (some (obj fs)) = header_values fs
  headers_field (some _) = none

  data_field : Option Value → Option Value
  data_field none = some null
  data_field (some v) = fill f v

  query_field : Option Value → Option Text
  unfolding as_text
  query_field none = some []
  query_field (some v) = do
    w ← template_field f v
    t ← as_text w
    if is_query t then some t else none

  let_field : Option Value → Option (Option Text)
  unfolding as_text
  let_field none = some none
  let_field (some v) = do w ← template_field f v; t ← as_text w; some (some t)

  version_field : Option Value → Option Text
  version_field none = some standard
  version_field (some v) = let t = f.to_str v in if any (λ c. c == t) versions then some t else none

  -- `is_valid(raise_exception=True)`; `path` and `method` are required.
  unfoldable pub validate : Fields → Option Operation
  unfolding headers_field data_field query_field let_field version_field
  validate d = do
    p ← find (codes "path") d
    path ← path_field f p
    m ← find (codes "method") d
    method ← method_field f choices m
    headers ← headers_field (find (codes "headers") d)
    body ← data_field (find (codes "data") d)
    query ← query_field (find (codes "query") d)
    bind ← let_field (find (codes "let") d)
    version ← version_field (find (codes "version") d)
    some (record {
      path = path;
      method = method;
      headers = headers;
      body = body;
      query = query;
      bind = bind;
      version = version;
    })
