-- ===== src/Api/Action/Simple.antt =====
-- The method that `SimpleAction` makes: a run over the database, in which each step of the project or of
-- the framework may raise.
use vstutils.Base.{
  Bool, true, false, ◌&&◌, ◌||◌, [], ◌∷◌, Option, none, some, if◌then◌else◌, ◌==◌, text_eq, any,
}
use vstutils.Base.Text.{Text, codes}
use vstutils.Api.Run.{Outcome, ok, raised, Run, ◌>>=◌, ◌>>◌, return, in_transaction}

-- What an action is made of: the project's functions, and those of the framework's view, over the
-- instance `I`, the query data `Q`, the serializer `R` and its data `D`.
pub record Parts (S E I Q R D : Type 0) : Type 0 where
  pub getter : Option (Q → Run S E I)
  pub get_object : Run S E I
  pub get_queryset : Run S E I
  pub no_query : Q
  pub query_data : Run S E Q
  -- AttributeError or AssertionError
  pub is_ignored : E → Bool
  pub paginate : Option (I → Run S E I)
  pub get_serializer : (many : Bool) → I → Run S E R
  -- with the data of the request, valid
  pub get_valid : (many partial : Bool) → I → Run S E R
  pub save : R → Run S E (Unit {0})
  pub setter : Option (I → R → Run S E (Unit {0}))
  pub is_model_serializer : R → Bool
  pub save_instance : I → Run S E (Unit {0})
  pub deleter : Option (I → Run S E (Unit {0}))
  pub delete_instance : I → Run S E (Unit {0})
  -- `serializer.data`
  pub output : R → Run S E D

-- POST, PUT and PATCH
abbrev pub is_change : Text → Bool
is_change m = any (λ n. m == n) (codes "POST" ∷ codes "PUT" ∷ codes "PATCH" ∷ [])

abbrev pub is_delete : Text → Bool
is_delete m = m == codes "DELETE"

module _ {S E I Q R D : Type 0} (p : Parts S E I Q R D) where
  abbrev pub or_no_query : Outcome E Q × S → Outcome E Q × S
  or_no_query (ok q, s) = (ok q, s)
  or_no_query (raised e, s) = if p.is_ignored e then (ok p.no_query, s) else (raised e, s)

  unfoldable pub query : Text → Run S E Q
  query m s = if m == codes "GET" then or_no_query (p.query_data s) else (ok p.no_query, s)

  unfoldable pub get_instance : (is_list : Bool) → Text → Run S E I
  unfolding query
  get_instance is_list m = elim p.getter [
    | some get ↦ (query m >>= get)
    | none ↦ if is_list then p.get_queryset else p.get_object
  ]

  unfoldable pub page : (is_list : Bool) → I → Run S E I
  page false i = return i
  page true i = elim p.paginate [ none ↦ return i | some paginate ↦ paginate i ]

  unfoldable pub store : I → R → Run S E (Unit {0})
  store i r = p.save r >> elim p.setter [
    | some set ↦ set i r
    | none ↦ if p.is_model_serializer r then return tt else p.save_instance i
  ]

  unfoldable pub erase : I → Run S E (Unit {0})
  erase i = elim p.deleter [ some del ↦ del i | none ↦ p.delete_instance i ]

  unfoldable pub effects : Text → I → R → Run S E (Unit {0})
  unfolding store erase
  effects m i r = if is_change m then store i r else if is_delete m then erase i else return tt

  -- The instance after `paginate_queryset`
  unfoldable pub last_instance : (is_list : Bool) → Text → I → Run S E I
  unfolding page
  last_instance is_list m i = if is_change m then return i else page is_list i

  unfoldable pub inside : (is_list : Bool) → Text → Run S E R
  unfolding get_instance last_instance effects
  inside is_list m = do
    i ← get_instance is_list m
    j ← last_instance is_list m i
    r ←
        (if is_change m
          then p.get_valid is_list (m == codes "PATCH") j
          else p.get_serializer is_list j)
    effects m j r
    return r

  -- `_get_transaction_context`
  unfoldable pub in_context : {A : Type 0} → (atomic : Bool) → Text → Run S E A → Run S E A
  in_context atomic m run =
      if atomic && (is_change m || is_delete m) then in_transaction run else run

  -- The method: the data are made when the transaction is over.
  unfoldable pub action_method : (atomic is_list : Bool) → Text → Run S E D
  unfolding inside in_context
  action_method atomic is_list m = in_context atomic m (inside is_list m) >>= p.output
