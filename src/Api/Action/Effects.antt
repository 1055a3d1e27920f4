-- ===== src/Api/Action/Effects.antt =====
-- What an action leaves in the database.
use vstutils.Base.{
  ◌≡◌, refl, ◌∙◌, ◌⊎◌, inl, inr, Bool, true, false, ◌&&◌, ◌||◌, some, ◌==◌, text_eq, Bool-cases,
  Option-cases,
}
use vstutils.Base.Text.{Text, codes}
use vstutils.Api.Run.{Outcome, ok, raised, Run, and_then, undone, Keeps, bind-Keeps, ◌>>=◌, return}
use vstutils.Api.Action.Simple.{
  Parts, is_change, is_delete, query, get_instance, page, effects, last_instance, inside,
  in_context, action_method, or_no_query,
}

transaction_cases :
    {S E A D : Type 0} (s : S) (o : Outcome E A × S) (output : A → Run S E D) (e : E)
    → (and_then (undone s o) output).0 ≡ raised e
    → ((and_then (undone s o) output).1 ≡ s)
      ⊎ ((a : A) × (o.0 ≡ ok a) × ((output a o.1).0 ≡ raised e))
transaction_cases s (ok a, s') output e h = inr (a, refl, h)
transaction_cases s (raised e', s') output e h = inl refl

no_transaction : (atomic : Bool) → (atomic && false) ≡ false
no_transaction true = refl
no_transaction false = refl

module _ {S E I Q R D : Type 0} (p : Parts S E I Q R D) where
  writing-eq :
      (is_list : Bool) (m : Text) (s : S)
      → (is_change m || is_delete m) ≡ true
      → action_method p true is_list m s ≡ and_then (undone s (inside p is_list m s)) p.output
  unfolding action_method in_context
  writing-eq is_list m s w = rw w refl

  -- An atomic action with a writing method that raises leaves the database as it was, unless all of the
  -- transaction went through and only making the data raised.
  pub action_method-atomic :
      (is_list : Bool) (m : Text) (s : S) (e : E)
      → (is_change m || is_delete m) ≡ true
      → (action_method p true is_list m s).0 ≡ raised e
      → ((action_method p true is_list m s).1 ≡ s)
        ⊎ ((r : R) × ((inside p is_list m s).0 ≡ ok r)
            × ((p.output r (inside p is_list m s).1).0 ≡ raised e))
  action_method-atomic is_list m s e w h =
      let eq = writing-eq is_list m s w in
      rw eq (transaction_cases s (inside p is_list m s) p.output e (rw eq at h))

  -- The parts that a reading action uses write nothing.
  pub record Reads : Type 0 where
    pub getter : (get : Q → Run S E I) → p.getter ≡ some get → (q : Q) → Keeps (get q)
    pub get_object : Keeps p.get_object
    pub get_queryset : Keeps p.get_queryset
    pub query_data : Keeps p.query_data
    pub paginate : (f : I → Run S E I) → p.paginate ≡ some f → (i : I) → Keeps (f i)
    pub get_serializer : (many : Bool) (i : I) → Keeps (p.get_serializer many i)
    pub output : (r : R) → Keeps (p.output r)

  or_no_query-Keeps : (o : Outcome E Q × S) → (or_no_query p o).1 ≡ o.1
  or_no_query-Keeps (ok q, s) = refl
  or_no_query-Keeps (raised e, s) = elim (Bool-cases (p.is_ignored e)) [
    | inl b ↦ rw b refl
    | inr b ↦ rw b refl
  ]

  query-Keeps : Reads → (m : Text) → Keeps (query p m)
  unfolding query
  query-Keeps reads m s = elim (Bool-cases (m == codes "GET")) [
    | inl b ↦ rw b (or_no_query-Keeps (p.query_data s) ∙ reads.query_data s)
    | inr b ↦ rw b refl
  ]

  get_instance-Keeps : Reads → (is_list : Bool) (m : Text) → Keeps (get_instance p is_list m)
  unfolding get_instance
  get_instance-Keeps reads is_list m s = elim (Option-cases p.getter) [
    | inr (get, e) ↦
        rw (e, get_instance)
          (bind-Keeps (query p m) get (query-Keeps reads m) (reads.getter get e) s)
    | inl e ↦
        rw (e, get_instance)
          (elim (Bool-cases is_list) [
            | inl b ↦ rw b (reads.get_queryset s)
            | inr b ↦ rw b (reads.get_object s)
          ])
  ]

  page-Keeps : Reads → (is_list : Bool) (i : I) → Keeps (page p is_list i)
  unfolding page
  page-Keeps reads false i s = refl
  page-Keeps reads true i s = elim (Option-cases p.paginate) [
    | inl e ↦ rw (e, page) refl
    | inr (f, e) ↦ rw (e, page) (reads.paginate f e i s)
  ]

  inside-Keeps :
      Reads
      → (is_list : Bool) (m : Text) → is_change m ≡ false
      → is_delete m ≡ false
      → Keeps (inside p is_list m)
  unfolding inside last_instance effects
  inside-Keeps reads is_list m c d =
      bind-Keeps (get_instance p is_list m) _ (get_instance-Keeps reads is_list m) λ i.
        rw (c, d)
          (bind-Keeps (page p is_list i) _ (page-Keeps reads is_list i) λ j.
            bind-Keeps (p.get_serializer is_list j) (λ r. return r) (reads.get_serializer is_list j)
              (λ r s. refl))

  reading-eq :
      (atomic is_list : Bool) (m : Text) (s : S)
      → is_change m ≡ false
      → is_delete m ≡ false
      → action_method p atomic is_list m s ≡ (inside p is_list m >>= p.output) s
  unfolding action_method in_context
  reading-eq atomic is_list m s c d = rw (c, d, no_transaction atomic) refl

  -- An action that is asked to read saves and deletes nothing, whatever its other parts would write.
  pub action_method-Keeps :
      Reads
      → (atomic is_list : Bool) (m : Text) (s : S) → is_change m ≡ false
      → is_delete m ≡ false
      → (action_method p atomic is_list m s).1 ≡ s
  action_method-Keeps reads atomic is_list m s c d =
      rw (reading-eq atomic is_list m s c d)
        (bind-Keeps (inside p is_list m) p.output (inside-Keeps reads is_list m c d) reads.output s)
