-- ===== src/CustomModel/Select/Combine.antt =====
-- vstutils/models/custom_model.py: repeated calls of `filter` and of `exclude`.
use vstutils.Base.{
  ◌≡◌, refl, inl, inr, Bool, true, false, not, ◌&&◌, [], ◌∷◌, ◌++◌, Option, some, Assoc, text_eq,
  IsApart, merge_apart, Option-cases, if◌then◌else◌,
}
use vstutils.Base.Text.{Text}
use vstutils.CustomModel.Cells.{Arg, Row}
use vstutils.CustomModel.Check.{
  Model, Kind, filter, exclude, check_one, check_all, check_data, check_in_query, ◌>>=◌,
}
use vstutils.CustomModel.Select.{Query, new_query, filter_or_exclude}

check_all-append :
    (m : Model) (a b : Assoc Text Arg) (row : Row)
    → check_all m (a ++ b) row
      ≡ (do x ← check_all m a row; if x then check_all m b row else some false)
unfolding check_all
check_all-append m [] b row = refl
check_all-append m ((name, arg) ∷ a) b row = elim (Option-cases (check_one m name arg row)) [
  | inl e ↦ rw e refl
  | inr (true, e) ↦ rw e (check_all-append m a b row)
  | inr (false, e) ↦ rw e refl
]

check_all_both :
    (m : Model) (a b : Assoc Text Arg) (row : Row) (x y : Bool)
    → check_all m a row ≡ some x
    → check_all m b row ≡ some y
    → check_all m (a ++ b) row ≡ some (x && y)
check_all_both m a b row true y h k = rw (check_all-append m a b row, h) k
check_all_both m a b row false y h k = rw (check_all-append m a b row, h) refl

check_all_nil : (m : Model) (row : Row) → check_all m [] row ≡ some true
unfolding check_all
check_all_nil m row = refl

filter_alone :
    (m : Model) (l : Assoc Text Arg) (row : Row) (z : Bool)
    → check_all m l row ≡ some z
    → check_in_query m false l [] row ≡ some z
unfolding check_in_query check_data
filter_alone m l row true e = rw e refl
filter_alone m l row false e = rw e refl

exclude_alone :
    (m : Model) (c : Text × Arg) (l : Assoc Text Arg) (row : Row) (z : Bool)
    → check_all m (c ∷ l) row ≡ some z
    → check_in_query m false [] (c ∷ l) row ≡ some (not z)
unfolding check_in_query check_data
exclude_alone m c l row z e =
    let head : check_all m [] row ≡ some true = check_all_nil m row in rw (head, e) refl

-- The conditions of two calls of one kind on a new query.
abbrev pub twice : Kind → Assoc Text Arg → Assoc Text Arg → Query
twice kind a b = filter_or_exclude kind b (filter_or_exclude kind a new_query)

abbrev pub is_selected : Model → Query → Row → Option Bool
is_selected m q row = check_in_query m q.empty q.included q.excluded row

-- For a row on which the conditions of two calls, all on different names, answer `x` and `y` without
-- raising, and of which the first has some: with `filter` the row is selected just when it passes the
-- conditions of both calls, with `exclude` just when it does not pass those of both, so that a row that
-- the second call alone would exclude comes back by the first.
pub filter_or_exclude_lem :
    (m : Model) (c : Text × Arg) (a b : Assoc Text Arg) (row : Row) (x y : Bool)
    → IsApart [] (c ∷ a)
    → IsApart (c ∷ a) b
    → check_all m (c ∷ a) row ≡ some x
    → check_all m b row ≡ some y
    → (is_selected m (twice filter (c ∷ a) b) row ≡ some (x && y))
      × (is_selected m (twice exclude (c ∷ a) b) row ≡ some (not (x && y)))
unfolding filter_or_exclude
filter_or_exclude_lem m c a b row x y new apart h k =
    let both = check_all_both m (c ∷ a) b row x y h k in
    rw (merge_apart [] (c ∷ a) new, merge_apart (c ∷ a) b apart)
      (filter_alone m (c ∷ a ++ b) row (x && y) both, exclude_alone m c (a ++ b) row (x && y) both)
