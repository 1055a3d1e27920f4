-- ===== src/Filters/Defs.antt =====
-- The conditions that the filters of vstutils/api/filters.py put on a queryset. `matches` is the ORM's: whether a
-- row fulfils a lookup.
use vstutils.Base.{
  ℕ, Bool, false, not, ◌&&◌, ◌||◌, List, [], ◌∷◌, ◌++◌, Option, none, some, if◌then◌else◌, ◌==◌,
  text_eq, eqb, keep,
}
use vstutils.Base.Text.{Text, codes, upper}
use vstutils.Base.Split.{split}

abbrev pub last_or : Option (Text × Text) → (next : Option (Text × Text)) → Option (Text × Text)
last_or (some found) next = some found
last_or none next = next

abbrev pub after_char : ℕ → Option (Text × Text) → Option (Text × Text)
after_char c none = none
after_char c (some (before, after)) = some (c ∷ before, after)

-- `field.rsplit("__", 1)`: what stands before and after the last "__", if there is one
unfoldable pub rsplit : Text → Option (Text × Text)
rsplit [] = none
rsplit (c ∷ []) = none
rsplit (c ∷ d ∷ s) =
    last_or (after_char c (rsplit (d ∷ s)))
      (if eqb c b'_' && eqb d b'_' then some ([], s) else none)

-- The value of a lookup: a text, or the parts between commas, for "in"
pub data Value : Type 0 where
  one : Text → Value
  parts : List Text → Value

-- A lookup with its value, and whether it is negated
pub record Query : Type 0 where
  pub lookup : Text
  pub value : Value
  pub negate : Bool

abbrev pub is_not : Option (Text × Text) → Bool
is_not none = false
is_not (some (name, tp)) = upper tp == codes "NOT"

abbrev pub name_of : Text → Option (Text × Text) → Text
name_of field none = field
name_of field (some (name, tp)) = name

abbrev pub value_of : (stype : Text) → Text → Value
value_of stype value = if stype == codes "in" then parts (split b',' value) else one value

-- `_extra_query_search`
unfoldable pub extra_query_search : (field value stype : Text) → Query
unfolding rsplit upper split
extra_query_search field value stype =
    let negate = is_not (rsplit field) in
    record {
      lookup = (if negate then name_of field (rsplit field) else field) ++ codes "__" ++ stype;
      value = value_of stype value;
      negate = negate;
    }

-- `name_filter_method`
abbrev pub name_filter_method : (case_sensitive : Bool) → Text
name_filter_method case_sensitive = if case_sensitive then codes "contains" else codes "icontains"

-- `FkFilterHandler`: `pk_handler` and `str` of its result, which may raise; a name that is empty is as none.
pub record Handler : Type 0 where
  pub related_pk : Text
  pub related_name : Text
  pub pk_handler : Text → Option Text

abbrev pub pk_value : Option Text → Text
pk_value none = codes "0"
pk_value (some []) = codes "0"
pk_value (some (c ∷ pk)) = c ∷ pk

-- The field without "__not", and whether it had it
abbrev pub field_and_suffix : Text → Option (Text × Text) → Text × Text
field_and_suffix field none = (field, [])
field_and_suffix field (some (name, tp)) =
    if tp == codes "not" then (name, codes "__not") else (field, [])

module _ (h : Handler) (case_sensitive : Bool) where
  abbrev pub related : (field suffix name : Text) → Text
  related field suffix name = field ++ codes "__" ++ name ++ suffix

  abbrev pub by_pk : (field suffix value related_pk : Text) → List Query
  by_pk field suffix value [] = []
  by_pk field suffix value (c ∷ name) =
      extra_query_search (related field suffix (c ∷ name)) (pk_value (h.pk_handler value))
        (codes "in")
      ∷ []

  abbrev pub by_name : (field suffix value related_name : Text) → List Query
  by_name field suffix value [] = []
  by_name field suffix value (c ∷ name) =
      extra_query_search (related field suffix (c ∷ name)) value (name_filter_method case_sensitive)
      ∷ []

  -- `list_of_q`
  unfoldable pub list_of_q : (field value : Text) → List Query
  unfolding extra_query_search rsplit
  list_of_q field value =
      let (name, suffix) = field_and_suffix field (rsplit field) in
      by_pk name suffix value h.related_pk ++ by_name name suffix value h.related_name

module _ {R : Type 0} (matches : Text → Value → R → Bool) where
  -- `filter` and `exclude` with a query
  abbrev pub fulfils : Query → R → Bool
  fulfils q r = let found = matches q.lookup q.value r in if q.negate then not found else found

  -- `_extra_search`
  unfoldable pub extra_search : List R → (field value stype : Text) → List R
  unfolding extra_query_search
  extra_search queryset field value stype =
      keep (fulfils (extra_query_search field value stype)) queryset

  unfoldable pub extra_filter : List R → (field value : Text) → List R
  unfolding extra_search
  extra_filter queryset field value = extra_search queryset field value (codes "in")

  unfoldable pub name_filter : (case_sensitive : Bool) → List R → (field value : Text) → List R
  unfolding extra_search
  name_filter case_sensitive queryset field value =
      extra_search queryset field value (name_filter_method case_sensitive)

  module _ (h : Handler) (case_sensitive : Bool) where
    -- The disjunction of the queries after the first
    abbrev pub any_of : Query → List Query → R → Bool
    any_of q [] r = fulfils q r
    any_of q (p ∷ ps) r = fulfils q r || any_of p ps r

    abbrev pub filtered : List R → List Query → Option (List R)
    filtered queryset [] = none
    filtered queryset (q ∷ qs) = some (keep (any_of q qs) queryset)

    -- `__call__`; `reduce` raises where there are no queries.
    unfoldable pub call : List R → (field value : Text) → Option (List R)
    unfolding list_of_q
    call queryset field value = filtered queryset (list_of_q h case_sensitive field value)
