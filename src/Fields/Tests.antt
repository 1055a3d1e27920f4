-- ===== src/Fields/Tests.antt =====
-- Runs of the field models and the theorems at concrete inputs.
use vstutils.Base.{ℕ, ◌≤◌, ◌≡◌, ◌≢◌, ◌↔◌, refl, Bool, true, ◌&&◌, leb, [], ◌∷◌, length}
use vstutils.Base.Text.{Text, codes, has_char, join}
use vstutils.Base.Split.{count, split}
use vstutils.Fields.Crontab.Defs.{
  minute, day, month, weekday, passed, stuck, failed, invalid_time_range, hour, not_unpacked,
  make_validation, rounds, intervals, accepted, unfinished, to_internal_value, error, invalid,
}
use vstutils.Fields.Crontab.Grammar.{is_listing, make_validation_lem}
use vstutils.Fields.Crontab.Round.{
  are_listings, filled, to_internal_value_lem, to_internal_value_again,
}

abbrev is_ascii_digit : ℕ → Bool
is_ascii_digit c = leb b'0' c && leb c b'9'

make_validation_tests :
    (make_validation is_ascii_digit rounds minute (codes "*/5,10-20/2,59") ≡ passed)
    × (make_validation is_ascii_digit rounds hour (codes "24") ≡ failed (invalid_time_range hour))
    × (make_validation is_ascii_digit rounds hour (codes "1-2-3") ≡ failed not_unpacked)
unfolding make_validation has_char split intervals
make_validation_tests = (refl, refl, refl)

to_internal_value_tests :
    (to_internal_value is_ascii_digit (codes "5 1-2-3") ≡ error invalid)
    × (to_internal_value is_ascii_digit (codes "*/0 20-3") ≡ accepted (codes "*/0 20-3 * * *"))
unfolding to_internal_value count split has_char intervals join
to_internal_value_tests = (refl, refl)

make_validation_lem_example :
    (make_validation is_ascii_digit rounds minute (codes "*/5,1-2") ≢ stuck)
    × ((make_validation is_ascii_digit rounds minute (codes "*/5,1-2") ≡ passed)
        ↔ (is_listing is_ascii_digit minute (codes "*/5,1-2") ≡ true))
make_validation_lem_example = make_validation_lem is_ascii_digit minute (codes "*/5,1-2")

to_internal_value_lem_example :
    (to_internal_value is_ascii_digit (codes "5 4") ≢ unfinished)
    × ((r : Text)
        → (to_internal_value is_ascii_digit (codes "5 4") ≡ accepted r) ↔ (
            (length (split b' ' (codes "5 4")) ≤ 5)
            × (are_listings is_ascii_digit
                  (minute ∷ hour ∷ day ∷ month ∷ weekday ∷ [])
                  (filled (split b' ' (codes "5 4")))
                ≡ true)
            × (r ≡ join (b' ' ∷ []) (filled (split b' ' (codes "5 4"))))))
to_internal_value_lem_example = to_internal_value_lem is_ascii_digit (codes "5 4")

accepts_two_columns :
    to_internal_value is_ascii_digit (codes "*/0 20-3") ≡ accepted (codes "*/0 20-3 * * *")
accepts_two_columns = to_internal_value_tests.1

to_internal_value_again_example :
    to_internal_value is_ascii_digit (codes "*/0 20-3 * * *") ≡ accepted (codes "*/0 20-3 * * *")
to_internal_value_again_example =
    to_internal_value_again is_ascii_digit (codes "*/0 20-3") (codes "*/0 20-3 * * *")
      accepts_two_columns
