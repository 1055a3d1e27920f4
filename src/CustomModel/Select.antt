-- ===== src/CustomModel/Select.antt =====
-- vstutils/models/custom_model.py: `Query`, `CustomModelIterable` and `CustomQuerySet`, over the data
-- of a `ListModel`. Every method works on a clone, so a query is a value.
pub mod Rows
pub mod Combine
use vstutils.Base.{
  ℕ, zero, suc, ◌+◌, ◌≡◌, refl, Bool, true, false, not, ◌&&◌, ◌||◌, List, [], ◌∷◌, ◌++◌, Option,
  none, some, if◌then◌else◌, ◌==◌, text_eq, Assoc, lookup, insert, merge, any, all, map, keep, take,
  drop, length, head?, eqb,
}
use vstutils.Base.Int.{ℤ, pos}
use mathlib.Core.List.{reverse}
use vstutils.Base.Text.{Text, codes, starts_with}
use vstutils.CustomModel.Cells.{Cell, null, number, text, Arg, Row, cell_leb, are_comparable}
use vstutils.CustomModel.Sorting.{multikeysort}
use vstutils.CustomModel.Check.{Model, Kind, filter, exclude, check_in_query, ◌>>=◌}

-- The entries of the `Query` dict that selection reads. `marks` are `low_mark` and `high_mark`, which
-- `set_limits` sets together.
pub record Query : Type 0 where
  pub empty : Bool
  pub included : Assoc Text Arg
  pub excluded : Assoc Text Arg
  pub ordering : List Text
  pub standard_ordering : Bool
  pub marks : Option (Option ℕ × Option ℕ)
  pub data_source : Option (List Row)

-- `Query.__init__`
abbrev pub new_query : Query
new_query = record {
  empty = false;
  included = [];
  excluded = [];
  ordering = [];
  standard_ordering = true;
  marks = none;
  data_source = none;
}

unfoldable pub set_empty : Query → Query
set_empty q = record q { empty = true }

unfoldable pub set_limits : Option ℕ → Option ℕ → Query → Query
set_limits low high q = record q { marks = some (low, high) }

-- `can_filter`
unfoldable pub can_filter : Query → Bool
can_filter q = elim q.marks [
  | none ↦ true
  | some (low, high) ↦ elim low [
    | some a ↦ false
    | none ↦ elim high [ some b ↦ false | none ↦ true ]
  ]
]

unfoldable pub clear_ordering : Query → Query
clear_ordering q = record q { ordering = [] }

unfoldable pub add_ordering : List Text → Query → Query
add_ordering columns q = record q { ordering = columns }

-- The setter of `standard_ordering`, as Django's `reverse` calls it, which refuses a sliced query.
unfoldable pub reverse_ordering : Query → Option Query
reverse_ordering q = elim q.marks [
  | none ↦ some (record q { standard_ordering = not q.standard_ordering })
  | some limits ↦ none
]

-- `_filter_or_exclude`: the conditions of all calls of one kind are one dict.
unfoldable pub filter_or_exclude : Kind → Assoc Text Arg → Query → Query
filter_or_exclude filter kwargs q = record q { included = merge q.included kwargs }
filter_or_exclude exclude kwargs q = record q { excluded = merge q.excluded kwargs }

unfoldable pub setup_custom_queryset_kwargs : List Row → Query → Query
setup_custom_queryset_kwargs rows q = record q { data_source = some rows }

-- `_get_data` of a `ListModel` with the given class attribute `data`
unfoldable pub get_data : List Row → Query → List Row
get_data class_data q = elim q.data_source [ none ↦ class_data | some rows ↦ rows ]

-- The rows of an `AutoField` model are numbered from 1.
unfoldable pub number_rows : Text → ℕ → List Row → List Row
number_rows pk n [] = []
number_rows pk n (r ∷ rs) = insert pk (number (pos n)) r ∷ number_rows pk (n + 1) rs

unfoldable pub keep_rows : (Row → Option Bool) → List Row → Option (List Row)
keep_rows check [] = some []
keep_rows check (r ∷ rs) = do
  ok ← check r
  kept ← keep_rows check rs
  some (if ok then r ∷ kept else kept)

-- The columns of an ordering, with `pk` and `-pk` resolved.
abbrev pub resolve_column : Text → Text → Text
resolve_column pk c = if c == codes "pk" then pk else if c == codes "-pk" then b'-' ∷ pk else c

abbrev pub is_descending : Text → Bool
is_descending [] = false
is_descending (c ∷ s) = eqb c b'-'

abbrev pub column_name : Text → Text
column_name c = if is_descending c then drop 1 c else c

-- `row[column]`
abbrev pub cell_of : Text → Row → Cell
cell_of name row = elim (lookup name row) [ none ↦ null | some v ↦ v ]

abbrev pub has_cell : Text → Row → Bool
has_cell name row = elim (lookup name row) [ none ↦ false | some v ↦ true ]

unfoldable pub column_leb : Text → Row → Row → Bool
column_leb c x y =
    let a = cell_of (column_name c) x in
    let b = cell_of (column_name c) y in if is_descending c then cell_leb b a else cell_leb a b

-- Whether `list.sort` raises nothing: every row has the column, and the values can be compared.
unfoldable pub is_sortable : List Row → Text → Bool
is_sortable [] c = true
is_sortable (r ∷ rs) c =
    has_cell (column_name c) r
    && all
        (λ x.
          has_cell (column_name c) x
          && are_comparable (cell_of (column_name c) r) (cell_of (column_name c) x))
        rs

-- The filtered rows, sorted by the columns or turned around.
unfoldable pub arrange_by : (columns : List Text) → (standard : Bool) → List Row → Option (List Row)
arrange_by [] standard rows = some (if standard then rows else reverse rows)
arrange_by (c ∷ cs) standard rows =
    if all (is_sortable rows) (c ∷ cs)
    then some (multikeysort column_leb rows (c ∷ cs) (not standard))
    else none

-- `__iter__` from the filtered rows to the slice
unfoldable pub arrange : Text → Query → List Row → Option (List Row)
arrange pk q rows = arrange_by (map (resolve_column pk) q.ordering) q.standard_ordering rows

-- `model_data[low:high]`
unfoldable pub slice : Option (Option ℕ × Option ℕ) → List Row → List Row
slice none rows = rows
slice (some (low, high)) rows =
    let cut : List Row = elim high [ none ↦ rows | some h ↦ take h rows ] in
    elim low [ none ↦ cut | some l ↦ drop l cut ]

-- The rows of `__iter__`, before they are made into objects or dicts; `auto` says that the primary key
-- is an `AutoField`.
unfoldable pub select : Model → (auto : Bool) → List Row → Query → Option (List Row)
unfolding number_rows keep_rows
select m auto class_data q = do
  let rows = get_data class_data q
  let numbered = if auto then number_rows m.pk 1 rows else rows
  kept ← keep_rows (check_in_query m q.empty q.included q.excluded) numbered
  arranged ← arrange m.pk q kept
  some (slice q.marks arranged)

unfoldable pub first : Model → Bool → List Row → Query → Option (Option Row)
first m auto class_data q = do rows ← select m auto class_data q; some (head? rows)

unfoldable pub last : Model → Bool → List Row → Query → Option (Option Row)
unfolding reverse_ordering
last m auto class_data q = do r ← reverse_ordering q; first m auto class_data r

-- `get_count`, and `has_results`, which reads `[:2]` of the rows
unfoldable pub get_count : Model → Bool → List Row → Query → Option ℕ
get_count m auto class_data q = do rows ← select m auto class_data q; some (length rows)

unfoldable pub has_results : Model → Bool → List Row → Query → Option Bool
unfolding set_limits
has_results m auto class_data q = do
  rows ← select m auto class_data (set_limits none (some 2) q)
  some (elim rows [ [] ↦ false | _ ↦ true ])

-- `values_handler`
unfoldable pub values_handler : Text → List Text → Row → Row
values_handler pk [] unit = []
values_handler pk (f ∷ fs) unit =
    insert f (if f == codes "pk" then cell_of pk unit else cell_of f unit)
      (values_handler pk fs unit)
