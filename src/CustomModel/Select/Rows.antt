-- ===== src/CustomModel/Select/Rows.antt =====
-- vstutils/models/custom_model.py: which rows a selection gives, and in what order.
use mathlib.Core.List.{reverse, reverse-reverse, Perm}
use vstutils.Base.{
  ℕ, ◌≡◌, inl, inr, refl, sym, ap, Bool, true, false, not, List, [], ◌∷◌, Option, none, some,
  if◌then◌else◌, arith, map, all, keep, take, head?, length, ltb, Bool-cases, Option-cases, All,
}
use vstutils.Base.Text.{Text}
use vstutils.CustomModel.Cells.{Row, cell_leb}
use vstutils.CustomModel.Sorting.{
  IsOrder, Pairwise, Lex, multikeysort, sort_columns, multikeysort-Pairwise, multikeysort-perm,
}
use vstutils.CustomModel.Order.{cell_leb-IsOrder, IsOrder-along}
use vstutils.CustomModel.Check.{Model, check_in_query, ◌>>=◌}
use vstutils.CustomModel.Select.{
  Query, column_leb, is_descending, column_name, number_rows, keep_rows, resolve_column, arrange,
  arrange_by, slice, select, first, last, get_count, has_results, reverse_ordering, cell_of,
  set_limits, get_data, is_sortable,
}

pub column_leb-IsOrder : (c : Text) → IsOrder (column_leb c)
unfolding column_leb
column_leb-IsOrder c =
    IsOrder-along cell_leb (cell_of (column_name c)) (is_descending c) cell_leb-IsOrder

-- Whether a check ended, with the answer that the row is kept.
abbrev is_kept : Option Bool → Bool
is_kept none = false
is_kept (some b) = b

-- The rows that the checks are made on, those that pass them, and the columns of the ordering.
abbrev candidates : Model → Bool → List Row → Query → List Row
candidates m auto class_data q =
    if auto then number_rows m.pk 1 (get_data class_data q) else get_data class_data q

abbrev check : Model → Query → Row → Option Bool
check m q = check_in_query m q.empty q.included q.excluded

abbrev pub passing : Model → Bool → List Row → Query → List Row
passing m auto class_data q = keep (λ r. is_kept (check m q r)) (candidates m auto class_data q)

abbrev pub columns_of : Model → Query → List Text
columns_of m q = map (resolve_column m.pk) q.ordering

-- No check raises, and the rows that pass can be sorted by each column.
abbrev pub IsAnswerable : Model → Bool → List Row → Query → Type 0
IsAnswerable m auto class_data q =
    All (λ r. (b : Bool) × (check m q r ≡ some b)) (candidates m auto class_data q)
    × (all (is_sortable (passing m auto class_data q)) (columns_of m q) ≡ true)

keep_rows_lem :
    (f : Row → Option Bool) (rows : List Row)
    → All (λ r. (b : Bool) × (f r ≡ some b)) rows
    → keep_rows f rows ≡ some (keep (λ r. is_kept (f r)) rows)
unfolding keep_rows
keep_rows_lem f [] h = refl
keep_rows_lem f (r ∷ rows) h = ground (arith, h.0, keep_rows_lem f rows h.1)

arrange_by_lem :
    (columns : List Text) (standard : Bool) (rows : List Row)
    → all (is_sortable rows) columns ≡ true
    → arrange_by columns standard rows
      ≡ some (
          let sorted = multikeysort column_leb rows columns false in
          if standard then sorted else reverse sorted)
unfolding arrange_by multikeysort sort_columns
arrange_by_lem [] standard rows h = refl
arrange_by_lem (c ∷ cs) true rows h = rw h refl
arrange_by_lem (c ∷ cs) false rows h = rw h refl

-- Where no check raises and the rows that pass can be sorted, the selection gives a slice of a list of
-- just the rows that pass, each as often as it stands in the data, ordered by the first column, among
-- equals by the second, and so on, and by their order in the data in the end; turned around before the
-- slice where the ordering is reversed.
pub select_lem :
    (m : Model) (auto : Bool) (class_data : List Row) (q : Query) (R : Row → Row → Type 0)
    → IsAnswerable m auto class_data q
    → Pairwise R (passing m auto class_data q)
    → (sorted : List Row) × Perm sorted (passing m auto class_data q)
      × Pairwise (Lex column_leb (columns_of m q) R) sorted
      × (select m auto class_data q
          ≡ some (slice q.marks (if q.standard_ordering then sorted else reverse sorted)))
unfolding select arrange
select_lem m auto class_data q R h p =
    let rows = passing m auto class_data q in
    (
      multikeysort column_leb rows (columns_of m q) false,
      multikeysort-perm column_leb rows (columns_of m q) false,
      (multikeysort-Pairwise column_leb column_leb-IsOrder R rows (columns_of m q) p).0,
      rw
          (
            keep_rows_lem (check m q) (candidates m auto class_data q) h.0,
            arrange_by_lem (columns_of m q) q.standard_ordering rows h.1,
          )
          refl,
    )

arrange_by-reverse :
    (columns : List Text) (standard : Bool) (rows : List Row)
    → arrange_by columns (not standard) rows
      ≡ (do arranged ← arrange_by columns standard rows; some (reverse arranged))
unfolding arrange_by multikeysort
arrange_by-reverse [] true rows = refl
arrange_by-reverse [] false rows = ap some (sym (reverse-reverse rows))
arrange_by-reverse (c ∷ cs) true rows = elim (Bool-cases (all (is_sortable rows) (c ∷ cs))) [
  | inl e ↦ rw e refl
  | inr e ↦ rw e refl
]
arrange_by-reverse (c ∷ cs) false rows = elim (Bool-cases (all (is_sortable rows) (c ∷ cs))) [
  | inl e ↦ rw e (ap some (sym (reverse-reverse _)))
  | inr e ↦ rw e refl
]

-- The last row of a query that is not sliced is the last of the rows that it selects, if any; where the
-- selection raises, so does `last`.
pub last_lem :
    (m : Model) (auto : Bool) (class_data : List Row) (q : Query)
    → q.marks ≡ none
    → last m auto class_data q ≡ (do rows ← select m auto class_data q; some (head? (reverse rows)))
unfolding last first select arrange reverse_ordering slice get_data arrange_by
last_lem m auto class_data q e =
    elim (Option-cases (keep_rows (check m q) (candidates m auto class_data q))) [
      | inl k ↦ rw (e, k) refl
      | inr (kept, k) ↦ elim (Option-cases (arrange_by (columns_of m q) q.standard_ordering kept)) [
        | inl a ↦ rw (e, k, arrange_by-reverse (columns_of m q) q.standard_ordering kept, a) refl
        | inr (rows, a) ↦
            rw (e, k, arrange_by-reverse (columns_of m q) q.standard_ordering kept, a) refl
      ]
    ]

-- Limits on a query that has none cut the rows that it selects.
select-set_limits :
    (m : Model) (auto : Bool) (class_data : List Row) (q : Query) (low high : Option ℕ)
    → q.marks ≡ none
    → select m auto class_data (set_limits low high q)
      ≡ (do rows ← select m auto class_data q; some (slice (some (low, high)) rows))
unfolding select arrange slice set_limits get_data
select-set_limits m auto class_data q low high e =
    elim (Option-cases (keep_rows (check m q) (candidates m auto class_data q))) [
      | inl k ↦ rw (e, k) refl
      | inr (kept, k) ↦ elim (Option-cases (arrange_by (columns_of m q) q.standard_ordering kept)) [
        | inl a ↦ rw (e, k, a) refl
        | inr (rows, a) ↦ rw (e, k, a) refl
      ]
    ]

has_rows : (rows : List Row) → elim (take 2 rows) [ [] ↦ false | _ ↦ true ] ≡ ltb 0 (length rows)
has_rows [] = refl
has_rows (r ∷ rows) = ground arith

-- A query that is not sliced has results just when it selects a row, its count is the number of rows
-- that it selects, and its first row is the first of them.
pub has_results_lem :
    (m : Model) (auto : Bool) (class_data : List Row) (q : Query) (rows : List Row)
    → q.marks ≡ none
    → select m auto class_data q ≡ some rows
    → (has_results m auto class_data q ≡ some (ltb 0 (length rows)))
      × (get_count m auto class_data q ≡ some (length rows))
      × (first m auto class_data q ≡ some (head? rows))
unfolding has_results get_count first slice
has_results_lem m auto class_data q rows e h = (
  rw (select-set_limits m auto class_data q none (some 2) e, h) (ap some (has_rows rows)),
  rw h refl,
  rw h refl,
)
