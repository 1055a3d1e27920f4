-- ===== src/Filters/Tests.antt =====
-- Filters over rows that refer to an object, and the theorems at concrete inputs.
use vstutils.Base.{
  ◌≡◌, refl, Bool, true, false, not, ◌&&◌, ◌||◌, List, [], ◌∷◌, Option, none, some, ◌==◌, text_eq,
  any, keep,
}
use vstutils.Base.Text.{Text, codes, contains, upper, upper_char}
use vstutils.Base.Split.{split}
use vstutils.Filters.Defs.{Value, one, parts, Handler, extra_filter, name_filter, call, rsplit}
use vstutils.Filters.Negated.{has_key, has_name, call_lem}

-- The key and the name of the object that a row refers to
abbrev Row : Type 0
Row = Text × Text

abbrev matches : Text → Value → Row → Bool
matches lookup (one v) r = contains r.1 v
matches lookup (parts vs) r = any (λ v. v == r.0) vs

abbrev rows : List Row
rows = (codes "1", codes "ab") ∷ (codes "2", codes "bc") ∷ (codes "3", codes "cd") ∷ []

abbrev to_int : Text → Option Text
to_int t = if_number (any (λ n. n == t) (codes "1" ∷ codes "2" ∷ codes "3" ∷ []))
  where
    if_number : Bool → Option Text
    if_number true = some t
    if_number false = none

abbrev handler : Handler
handler = record { related_pk = codes "id"; related_name = codes "name"; pk_handler = to_int }

filter_tests :
    (rsplit (codes "a___not") ≡ some (codes "a_", codes "not"))
    × (extra_filter matches rows (codes "id__NOT") (codes "1,3") ≡ (codes "2", codes "bc") ∷ [])
    × (name_filter matches true rows (codes "name") (codes "b")
        ≡ (codes "1", codes "ab") ∷ (codes "2", codes "bc") ∷ [])
    × (call matches handler true rows (codes "fk") (codes "2")
        ≡ some ((codes "2", codes "bc") ∷ []))
unfolding rsplit extra_filter name_filter call upper upper_char split contains
filter_tests = (refl, refl, refl, refl)

-- To exclude by a part of the name keeps all rows.
not_by_name : call matches handler true rows (codes "fk__not") (codes "b") ≡ some rows
unfolding call contains rsplit upper upper_char split
not_by_name = refl

call_lem_example :
    (call matches handler true rows (codes "fk") (codes "b")
      ≡ some (
          keep
            (λ r.
              has_key matches b'i' (codes "d") to_int (codes "fk") (codes "b") r
              || has_name matches b'n' (codes "ame") true (codes "fk") (codes "b") r)
            rows))
    × (call matches handler true rows (codes "fk__not") (codes "b")
        ≡ some (
            keep
              (λ r. not (
                has_key matches b'i' (codes "d") to_int (codes "fk") (codes "b") r
                && has_name matches b'n' (codes "ame") true (codes "fk") (codes "b") r))
              rows))
unfolding rsplit upper upper_char
call_lem_example =
    call_lem matches b'i' b'n' (codes "d") (codes "ame") to_int true rows (codes "fk") (codes "b")
      refl refl refl
