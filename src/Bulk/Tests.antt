-- ===== src/Bulk/Tests.antt =====
-- vstutils/api/endpoint.py: a small site, sample bulk requests, and the theorems at inputs.
use vstutils.Base.{
  merge, ℕ, ◌≡◌, ◌⊎◌, refl, List, [], ◌∷◌, Option, none, some, if◌then◌else◌, length, All, Assoc,
  lookup, insert, ◌==◌, text_eq,
}
use vstutils.Base.Text.{Text, codes, lower, upper}
use vstutils.Bulk.Paths.{join_paths}
use vstutils.Bulk.Value.{Value, null, str, arr, obj, nil, cons, end, field}
use vstutils.Bulk.Template.{
  Formatter, is_template, render, fill, template_field, path_field, method_field,
}
use vstutils.Bulk.Operation.{Response, status_of, Request, fix_headers, is_query, validate}
use vstutils.Bulk.Endpoint.{
  World, Site, rendered, parse_response, request_data, read_data, inner_request, atomic,
  call_method, finish_create, create, settle, operate, run, put, settle_post, post, fresh,
  BulkResponse,
}
use vstutils.Bulk.Endpoint.Atomic.{post_lem}
use vstutils.Bulk.Endpoint.Progress.{put_answers, post_answers, Succeeds, Stopped, results_of}

abbrev reply : ℕ → Response
reply n = record {
  status = n;
  body = some (obj end);
  orjson_content = none;
  rendered_content = [];
  content = [];
  headers = (codes "ETag", codes "x") ∷ (codes "Vary", codes "y") ∷ [];
  cookies = [];
}

-- A view that writes the address of every request into the database, and answers 404 for "/v1/no/".
serve : Assoc Text Text → Request → World (List Text) ℕ → Option Response × World (List Text) ℕ
serve cookies q w =
    if q.url == codes "/api/v1/crash/" then (none, record w { db = q.url ∷ w.db }) else (
      some (reply (if q.url == codes "/api/v1/no/" then 404 else 201)),
      record { db = q.url ∷ w.db; messages = 1 ∷ w.messages },
    )

as_text : Value → Option Text
as_text (str s) = some s
as_text v = none

show : Value → Text
show (str s) = s
show v = []

abbrev formatter : Formatter
formatter = record { format = λ t. some t; loads = λ t. none; to_str = show; char_field = as_text }

abbrev site : Site (List Text) ℕ
site = record {
  api_url = codes "api";
  versions = codes "v1" ∷ [];
  default_version = codes "v1";
  rest_methods = codes "GET" ∷ codes "POST" ∷ [];
  formatter = λ rs vs. formatter;
  loads = λ t. none;
  serve = serve;
}

abbrev op : Text → Value
op p = obj (field (codes "path") (str p) (field (codes "method") (str (codes "post")) end))

abbrev empty : World (List Text) ℕ
empty = record { db = []; messages = [] }

bulk : Unit {0}
unfolding post put settle_post request_data read_data run operate settle create finish_create
    call_method atomic inner_request parse_response rendered validate path_field method_field
    template_field fill render is_template join_paths upper lower fix_headers merge is_query serve
    as_text show lookup insert status_of
bulk = tt

-- Two operations; the second is refused, so nothing of the first stays.
post_test :
    ((post site [] (arr (cons (op (codes "ok")) (cons (op (codes "no")) nil))) empty).0.status
      ≡ 502)
    × ((post site [] (arr (cons (op (codes "ok")) (cons (op (codes "no")) nil))) empty).1 ≡ empty)
unfolding bulk
post_test = (refl, refl)

put_test :
    (put site [] (arr (cons (op (codes "ok")) (cons (op (codes "no")) nil))) empty).1.db
    ≡ codes "/api/v1/no/" ∷ codes "/api/v1/ok/" ∷ []
unfolding bulk
put_test = refl

abbrev two : Value
two = arr (cons (op (codes "ok")) (cons (op (codes "no")) nil))

abbrev both : List Value
both = op (codes "ok") ∷ op (codes "no") ∷ []

post_lem_example :
    (((post site [] two empty).0.status ≡ 502)
      × ((post site [] two empty).1.db ≡ empty.db)
      × ((post site [] two empty).1.messages ≡ []))
    ⊎ (put site [] two empty ≡ (some (post site [] two empty).0, (post site [] two empty).1))
post_lem_example = post_lem site [] two empty

put_answers_example :
    (r : BulkResponse) × ((put site [] two empty).0 ≡ some r)
    × (r.status ≡ 200)
    × (length r.results ≡ 2)
unfolding request_data read_data
put_answers_example = put_answers site [] two both empty refl

post_answers_example :
    (((post site [] two empty).0.status ≡ 200)
      × (length (post site [] two empty).0.results ≡ 2)
      × All Succeeds (post site [] two empty).0.results)
    ⊎ (((post site [] two empty).0.status ≡ 502)
        × Stopped site fresh
            (post site [] two empty).0.results
            (results_of (put site [] two empty).0))
unfolding request_data read_data
post_answers_example = post_answers site [] two both empty refl

abbrev crashing : Request
crashing = record { url = codes "/api/v1/crash/"; method = codes "post"; headers = []; body = null }
