-- ===== src/CustomModel/Tests.antt =====
-- vstutils/models/custom_model.py, vstutils/tools.py: a list of authors, sample queries, and the
-- theorems at inputs.
use mathlib.Core.List.{Perm}
use vstutils.Base.{
  ◌≡◌, refl, String, ℕ, true, false, List, [], ◌∷◌, Option, none, some, merge, lookup, insert,
  text_eq,
}
use vstutils.Base.Int.{pos}
use vstutils.Base.Text.{codes, split_pair, remove_all, contains}
use vstutils.CustomModel.Cells.{Cell, number, text, one, many, Row, cell_leb}
use vstutils.CustomModel.Sorting.{Pairwise, Lex, insert_by, multikeysort, sort_columns, sort_by}
use vstutils.CustomModel.Check.{
  Model, filter, exclude, passes, parse_name, is_in, is_among, check_one, check_all, check_data,
  check_in_query,
}
use vstutils.CustomModel.Select.{
  Query, new_query, filter_or_exclude, set_limits, reverse_ordering, get_data, number_rows,
  keep_rows, cell_of, column_leb, is_sortable, arrange_by, arrange, slice, select, first, last,
  get_count, has_results, values_handler,
}
use vstutils.CustomModel.Select.Rows.{passing, select_lem}
use vstutils.CustomModel.Select.Combine.{twice, is_selected, filter_or_exclude_lem}

abbrev model : Model
model = record { pk = codes "id"; to_python = λ name c. some c }

abbrev author : String → ℕ → Row
author name born = (codes "name", text (codes name)) ∷ (codes "born", number (pos born)) ∷ []

abbrev authors : List Row
authors = author "Ann" 1980 ∷ author "Bob" 1970 ∷ author "Anton" 1980 ∷ author "Ant" 1990 ∷ []

-- The names that contain "An", the oldest last.
abbrev by_name : Query
by_name = record new_query {
  included = (codes "name__contains", one (text (codes "An"))) ∷ [];
  ordering = codes "-born" ∷ [];
}

names : Option (List Row) → List Cell
names none = []
names (some []) = []
names (some (r ∷ rs)) = cell_of (codes "name") r ∷ names (some rs)

selection : Unit {0}
unfolding select get_data number_rows keep_rows check_in_query check_data check_all check_one passes
    parse_name arrange arrange_by is_sortable column_leb multikeysort sort_columns sort_by insert_by
    slice lookup insert merge names is_in is_among last first has_results get_count reverse_ordering
    set_limits filter_or_exclude values_handler split_pair remove_all contains
selection = tt

selected :
    names (select model true authors by_name)
    ≡ text (codes "Ant") ∷ text (codes "Ann") ∷ text (codes "Anton") ∷ []
unfolding selection
selected = refl

-- A lookup that is not known is passed over, and a list without a lookup equals nothing.
lookups :
    (check_one model (codes "born__gte") (one (number (pos 1985))) (author "Ann" 1980) ≡ some true)
    × (check_one model (codes "born") (many (number (pos 1980) ∷ [])) (author "Ann" 1980)
        ≡ some false)
    × (check_one model (codes "born__in") (many (number (pos 1980) ∷ [])) (author "Ann" 1980)
        ≡ some true)
unfolding selection
lookups = (refl, refl, refl)

-- The limits of a second slice replace those of the first.
sliced :
    names (select model true authors (set_limits none (some 2) (set_limits (some 2) none by_name)))
    ≡ text (codes "Ant") ∷ text (codes "Ann") ∷ []
unfolding selection
sliced = refl

by_values :
    names
      (some (values_handler (codes "id") (codes "name" ∷ codes "pk" ∷ []) (author "Bob" 1970) ∷ []))
    ≡ text (codes "Bob") ∷ []
unfolding selection
by_values = refl

abbrev IsBefore : Row → Row → Type 0
IsBefore x y = cell_leb (cell_of (codes "id") x) (cell_of (codes "id") y) ≡ true

select_lem_example :
    (sorted : List Row) × Perm sorted (passing model true authors by_name)
    × Pairwise (Lex column_leb (codes "-born" ∷ []) IsBefore) sorted
    × (select model true authors by_name ≡ some sorted)
unfolding selection
select_lem_example =
    select_lem model true authors by_name IsBefore
      (((true, refl), ((false, refl), ((true, refl), ((true, refl), tt)))), refl)
      ((refl, (refl, tt)), ((refl, tt), (tt, tt)))

filter_or_exclude_lem_example :
    (is_selected model
        (twice filter
          ((codes "name", one (text (codes "Ann"))) ∷ [])
          ((codes "born", one (number (pos 1970))) ∷ []))
        (author "Ann" 1980)
      ≡ some false)
    × (is_selected model
          (twice exclude
            ((codes "name", one (text (codes "Ann"))) ∷ [])
            ((codes "born", one (number (pos 1970))) ∷ []))
          (author "Ann" 1980)
        ≡ some true)
unfolding selection
filter_or_exclude_lem_example =
    filter_or_exclude_lem model (codes "name", one (text (codes "Ann"))) []
      ((codes "born", one (number (pos 1970))) ∷ []) (author "Ann" 1980) true false (refl, tt)
      (refl, tt) refl refl
