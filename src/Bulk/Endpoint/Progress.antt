-- ===== src/Bulk/Endpoint/Progress.antt =====
-- vstutils/api/endpoint.py: which operations run, what they answer, and what they leave.
use vstutils.Base.{
  ◌≡◌, ◌≢◌, ◌⊎◌, inl, inr, refl, ap, sym, ◌∙◌, Bool, true, false, List, [], ◌∷◌, ◌++◌, Option, none,
  some, arith, length, All, Assoc, Bool-cases, ◌==◌, text_eq, text_beq_iff,
}
use mathlib.Core.List.{append_assoc, append-nil}
use vstutils.Base.Text.{Text, codes}
use vstutils.Bulk.Value.{Value}
use vstutils.Bulk.Operation.{Result, Request, Response, Context}
use vstutils.Bulk.Endpoint.{
  World, Site, BulkResponse, is_success, request_data, atomic, call_method, operate, run, fresh,
  answer, put, settle_post, post,
}
use vstutils.Bulk.Endpoint.Atomic.{after, run-eq, run-All_ok, run-length, operate-results}

abbrev pub Succeeds : Result → Type 0
Succeeds r = is_success r ≡ true

atomic_raises :
    {D M : Type 0} (w : World D M) (r : Option Response × World D M)
    → (atomic w r).0 ≡ none
    → (atomic w r).1.db ≡ w.db
unfolding atomic
atomic_raises w (none, w') h = refl
atomic_raises w (some x, w') h = cc

-- The results of an answer, if there is one.
abbrev pub results_of : Option BulkResponse → List Result
results_of none = []
results_of (some r) = r.results

module _ {D M : Type 0} (sent : Assoc Text Text) (w : World D M) where
  settle_stop :
      (r : Bool × Context × World D M)
      → r.0 ≡ true
      → settle_post sent w r ≡ (
        record { status = 502; results = r.1.results; cookies = [] },
        record { db = w.db; messages = [] },
      )
  unfolding settle_post
  settle_stop (true, c, w') h = refl
  settle_stop (false, c, w') h = cc

  settle_go :
      (r : Bool × Context × World D M) → r.0 ≡ false → settle_post sent w r ≡ (answer sent r.1, r.2)
  unfolding settle_post
  settle_go (true, c, w') h = cc
  settle_go (false, c, w') h = refl

module _ {D M : Type 0} (site : Site D M) where
  -- A run only adds to the results.
  run_grows :
      (vs : List Value) (c : Context) (w : World D M)
      → (more : List Result) × ((run site true vs c w).1.results ≡ c.results ++ more)
  unfolding run
  run_grows [] c w = ([], sym (append-nil c.results))
  run_grows (v ∷ vs) c w =
      let (more, e) = run_grows vs (after site v c w) (operate site v c w).2 in
      (
        (operate site v c w).0 ∷ more,
        e
            ∙ ap (λ t. (t ++ (operate site v c w).0 ∷ []) ++ more) (operate-results site v c w)
            ∙ append_assoc c.results ((operate site v c w).0 ∷ []) more,
      )

  -- Where a transactional run stops.
  pub record Stopped (c : Context) (got all : List Result) : Type 0 where
    pub good : List Result
    pub bad : Result
    pub rest : List Result
    pub ends : got ≡ c.results ++ (good ++ bad ∷ [])
    pub succeed : All Succeeds good
    pub fails : is_success bad ≡ false
    pub goes_on : all ≡ got ++ rest

  Stopped-later :
      (v : Value) (c : Context) (w : World D M) {got all : List Result}
      → Succeeds (operate site v c w).0
      → Stopped (after site v c w) got all
      → Stopped c got all
  Stopped-later v c w ok st = record {
    good = (operate site v c w).0 ∷ st.good;
    bad = st.bad;
    rest = st.rest;
    ends =
        st.ends
        ∙ ap (λ t. (t ++ (operate site v c w).0 ∷ []) ++ (st.good ++ st.bad ∷ []))
            (operate-results site v c w)
        ∙ append_assoc c.results ((operate site v c w).0 ∷ []) (st.good ++ st.bad ∷ []);
    succeed = (ok, st.succeed);
    fails = st.fails;
    goes_on = st.goes_on;
  }

  run_stops :
      (vs : List Value) (c : Context) (w : World D M)
      → (run site false vs c w).0 ≡ true
      → Stopped c (run site false vs c w).1.results (run site true vs c w).1.results
  unfolding run
  run_stops [] c w h = cc
  run_stops (v ∷ vs) c w h = elim (Bool-cases (is_success (operate site v c w).0)) [
    | inl good ↦ rw good (
        Stopped-later v c w good
          (run_stops vs (after site v c w) (operate site v c w).2 (ground arith)))
    | inr bad ↦
        let (more, e) = run_grows vs (after site v c w) (operate site v c w).2 in
        rw bad (record {
          good = [];
          bad = (operate site v c w).0;
          rest = more;
          ends = ap (λ t. t ++ (operate site v c w).0 ∷ []) (operate-results site v c w);
          succeed = tt;
          fails = bad;
          goes_on = e;
        })
  ]

  -- If `method` raises, then unless it is `get` nothing is left in the database.
  pub call_method_raises :
      (cookies : Assoc Text Text) (q : Request) (w : World D M)
      → q.method ≢ codes "get"
      → (call_method site cookies q w).0 ≡ none
      → (call_method site cookies q w).1.db ≡ w.db
  unfolding call_method atomic
  call_method_raises cookies q w h e = elim (Bool-cases (q.method == codes "get")) [
    | inl same ↦ absurd (h ((text_beq_iff q.method (codes "get")).0 same))
    | inr other ↦ ground (arith, atomic_raises w (site.serve cookies q w))
  ]

  put_eq :
      (sent : Assoc Text Text) (v : Value) (vs : List Value) (w : World D M)
      → request_data site.loads v ≡ some vs
      → put site sent v w
        ≡ (some (answer sent (run site true vs fresh w).1), (run site true vs fresh w).2)
  unfolding put
  put_eq sent v vs w e = rw (e, put)

  post_eq :
      (sent : Assoc Text Text) (v : Value) (vs : List Value) (w : World D M)
      → request_data site.loads v ≡ some vs
      → post site sent v w ≡ settle_post sent w (run site false vs fresh w)
  unfolding post
  post_eq sent v vs w e = rw (e, post)

  -- On data that is read as a list of operations (a list, an object, or a text that holds one of them)
  -- `put` answers 200, with one result for each operation, failed or not.
  pub put_answers :
      (sent : Assoc Text Text) (v : Value) (vs : List Value) (w : World D M)
      → request_data site.loads v ≡ some vs
      → (r : BulkResponse) × ((put site sent v w).0 ≡ some r)
        × (r.status ≡ 200)
        × (length r.results ≡ length vs)
  put_answers sent v vs w e = (
    answer sent (run site true vs fresh w).1,
    ap (λ p. p.0) (put_eq sent v vs w e),
    refl,
    omega (arith, (run-length site vs fresh w).1),
  )

  -- A `post` whose data is read as a list of operations (a list, an object, or a text that holds one of
  -- them) either answers 200, with one result for each operation and all of them successful, or answers 502, with the results of the operations up to the first
  -- that failed: those are the first results of `put`, all successful but the last.
  pub post_answers :
      (sent : Assoc Text Text) (v : Value) (vs : List Value) (w : World D M)
      → request_data site.loads v ≡ some vs
      → (((post site sent v w).0.status ≡ 200)
          × (length (post site sent v w).0.results ≡ length vs)
          × All Succeeds (post site sent v w).0.results)
        ⊎ (((post site sent v w).0.status ≡ 502)
            × Stopped fresh (post site sent v w).0.results (results_of (put site sent v w).0))
  post_answers sent v vs w e = elim (Bool-cases (run site false vs fresh w).0) [
    | inl stop ↦ rw (post_eq sent v vs w e) (
        rw (put_eq sent v vs w e) (
          rw (settle_stop sent w (run site false vs fresh w) stop)
            (inr (refl, run_stops vs fresh w stop))))
    | inr go ↦ rw (post_eq sent v vs w e) (
        rw (settle_go sent w (run site false vs fresh w) go) (
          inl (
            refl,
            omega (
              arith,
              ap (λ r. length r.1.results) (run-eq site vs fresh w go),
              (run-length site vs fresh w).1,
            ),
            run-All_ok site vs fresh w tt go,
          )))
  ]
