-- ===== src/Bulk/Endpoint/Atomic.antt =====
-- vstutils/api/endpoint.py: the bulk request as one transaction.
use vstutils.Base.{
  ◌+◌, ◌≡◌, ◌⊎◌, inl, inr, refl, ap, ◌∙◌, true, false, List, [], ◌∷◌, ◌++◌, Option, none, some,
  arith, length, length-append, All, All-append, Assoc, Bool-cases, Option-cases,
}
use vstutils.Base.Text.{Text}
use vstutils.Bulk.Value.{Value, obj}
use vstutils.Bulk.Operation.{Result, Request, Response, Context, Operation, validate}
use vstutils.Bulk.Endpoint.{
  World, Site, is_success, request_data, call_method, operate, run, fresh, put, settle_post, post,
  finish_create, parse_response, settle, create, inner_request,
}

module _ {D M : Type 0} (site : Site D M) where
  -- The states after an operation, with its result appended.
  abbrev pub after : Value → Context → World D M → Context
  after v c w = let (r, c', w') = operate site v c w in record c' { results = c'.results ++ r ∷ [] }

  -- A run that does not stop does what the run does that may not stop.
  pub run-eq :
      (vs : List Value) (c : Context) (w : World D M)
      → (run site false vs c w).0 ≡ false
      → run site false vs c w ≡ run site true vs c w
  unfolding run
  run-eq [] c w h = refl
  run-eq (v ∷ vs) c w h = ground (arith, run-eq vs (after v c w) (operate site v c w).2)

  -- A transactional request either answers 502, with the database as it was and no message left, or
  -- answers just as the non-transactional request does, and leaves the same state.
  pub post_lem :
      (sent : Assoc Text Text) (v : Value) (w : World D M)
      → (((post site sent v w).0.status ≡ 502)
          × ((post site sent v w).1.db ≡ w.db)
          × ((post site sent v w).1.messages ≡ []))
        ⊎ (put site sent v w ≡ (some (post site sent v w).0, (post site sent v w).1))
  unfolding post put settle_post
  post_lem sent v w = elim (Option-cases (request_data site.loads v)) [
    | inl e ↦ inl (ground arith, ground arith, ground arith)
    | inr (vs, e) ↦ elim (Bool-cases (run site false vs fresh w).0) [
      | inl stop ↦ inl (ground arith, ground arith, ground arith)
      | inr go ↦ inr (ground (arith, run-eq vs fresh w go))
    ]
  ]

  finish_create-results :
      (op : Operation) (q : Request) (c : Context) (r : Option Response × World D M)
      → (finish_create site op q c r).1.results ≡ c.results
  unfolding finish_create
  finish_create-results op q c (none, w) = refl
  finish_create-results op q c (some r, w) =
      elim (Option-cases (parse_response site.loads q.url q.method r)) [
        | inl e ↦ rw (e, finish_create)
        | inr (x, e) ↦ rw (e, finish_create)
      ]

  settle-results :
      (v : Value) (r : Option Result × Context × World D M) → (settle v r).1.results ≡ r.1.results
  unfolding settle
  settle-results v (none, c, w) = refl
  settle-results v (some r, c, w) = refl

  pub create-results :
      (op : Operation) (c : Context) (w : World D M) → (create site op c w).1.results ≡ c.results
  unfolding create
  create-results op c w =
      let q = inner_request site op in finish_create-results op q c (call_method site c.cookies q w)

  -- An operation adds nothing to the results itself.
  pub operate-results :
      (v : Value) (c : Context) (w : World D M) → (operate site v c w).1.results ≡ c.results
  unfolding operate
  operate-results (obj fs) c w =
      elim (Option-cases (
        validate (site.formatter c.results c.variables) site.rest_methods site.versions
          site.default_version fs)) [
            | inl e ↦ rw (e, operate) (settle-results (obj fs) (none, c, w))
            | inr (op, e) ↦
                rw (e, operate)
                  (settle-results (obj fs) (create site op c w) ∙ create-results op c w)
          ]
  operate-results _ c w = refl

  pub run-All_ok :
      (vs : List Value) (c : Context) (w : World D M)
      → All (λ r. is_success r ≡ true) c.results
      → (run site false vs c w).0 ≡ false
      → All (λ r. is_success r ≡ true) (run site false vs c w).1.results
  unfolding run
  run-All_ok [] c w ok h = ok
  run-All_ok (v ∷ vs) c w ok h = elim (Bool-cases (is_success (operate site v c w).0)) [
    | inl good ↦ rw good (
        run-All_ok vs (after v c w) (operate site v c w).2
          (All-append (λ r. is_success r ≡ true) (operate site v c w).1.results _
            (rw (operate-results v c w) ok) (good, tt))
          (ground arith))
    | inr bad ↦ cc
  ]

  pub run-length :
      (vs : List Value) (c : Context) (w : World D M)
      → ((run site true vs c w).0 ≡ false)
        × (length (run site true vs c w).1.results ≡ length c.results + length vs)
  unfolding run
  run-length [] c w = (refl, omega arith)
  run-length (v ∷ vs) c w =
      let (going, count) = run-length vs (after v c w) (operate site v c w).2 in
      (
        going,
        omega (
          arith,
          count,
          length-append (operate site v c w).1.results ((operate site v c w).0 ∷ []),
          ap length (operate-results v c w),
        ),
      )
