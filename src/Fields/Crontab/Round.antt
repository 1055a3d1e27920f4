-- ===== src/Fields/Crontab/Round.antt =====
-- The normal form that `to_internal_value` gives: a form with all five columns, which it keeps.
use vstutils.Base.{
  ℕ, zero, suc, ◌≤◌, ◌≡◌, ◌≢◌, refl, sym, ap, ◌∙◌, ◌↔◌, inl, inr, Bool, true, ◌&&◌, List, [], ◌∷◌,
  ◌++◌, Bool-cases, All, All-append, length, length-append, length-take, take, arith, ltb,
}
use vstutils.Base.Text.{Text, codes, has_char, join}
use vstutils.Base.Split.{split, count, Lacks, length-split, split-Lacks, split-join}
use vstutils.Fields.Crontab.Defs.{
  Interval, minute, hour, day, month, weekday, Fault, Check, passed, failed, stuck,
  as_validation_error, make_validation, rounds, names, check_columns, columns, accepted, unfinished,
  parsed, to_internal_value, not_unpacked,
}
use vstutils.Fields.Crontab.Grammar.{is_listing, Answers, and_then-Answers, make_validation_lem}

take_all {ℓ} : {A : Type ℓ} (xs ys : List A) → take (length xs) (xs ++ ys) ≡ xs
take_all [] ys = refl
take_all (x ∷ xs) ys = ap (◌∷◌ x) (take_all xs ys)

All-take {ℓ κ} : {A : Type ℓ} (P : A → Type κ) (n : ℕ) (xs : List A) → All P xs → All P (take n xs)
All-take P zero xs h = tt
All-take P (suc n) [] h = tt
All-take P (suc n) (x ∷ xs) h = (h.0, All-take P n xs h.1)

length-columns : (d : Text) → length (columns d) ≡ 5
unfolding columns
length-columns d =
    length-take 5 (split b' ' d ++ stars)
    ∙ omega (arith, length-append (split b' ' d) stars, length-split b' ' d)
  where
    stars : List Text
    stars = codes "*" ∷ codes "*" ∷ codes "*" ∷ codes "*" ∷ []

columns-Lacks : (d : Text) → All (Lacks b' ') (columns d)
unfolding columns has_char
columns-Lacks d = All-take (Lacks b' ') 5 _ (
    All-append (Lacks b' ') (split b' ' d) _ (split-Lacks b' ' d)
      (refl, (refl, (refl, (refl, tt)))))

-- The columns of a time, of which the missing ones are stars.
abbrev pub filled : List Text → List Text
filled (a ∷ []) = a ∷ codes "*" ∷ codes "*" ∷ codes "*" ∷ codes "*" ∷ []
filled (a ∷ b ∷ []) = a ∷ b ∷ codes "*" ∷ codes "*" ∷ codes "*" ∷ []
filled (a ∷ b ∷ c ∷ []) = a ∷ b ∷ c ∷ codes "*" ∷ codes "*" ∷ []
filled (a ∷ b ∷ c ∷ d ∷ []) = a ∷ b ∷ c ∷ d ∷ codes "*" ∷ []
filled columns = columns

take-filled :
    (ts : List Text)
    → 1 ≤ length ts
    → length ts ≤ 5
    → take 5 (ts ++ codes "*" ∷ codes "*" ∷ codes "*" ∷ codes "*" ∷ []) ≡ filled ts
take-filled [] g h = absurd (omega arith)
take-filled (a ∷ []) g h = refl
take-filled (a ∷ b ∷ []) g h = refl
take-filled (a ∷ b ∷ c ∷ []) g h = refl
take-filled (a ∷ b ∷ c ∷ d ∷ []) g h = refl
take-filled (a ∷ b ∷ c ∷ d ∷ e ∷ []) g h = refl
take-filled (a ∷ b ∷ c ∷ d ∷ e ∷ f ∷ ts) g h = absurd (omega arith)

columns-filled : (d : Text) → length (split b' ' d) ≤ 5 → columns d ≡ filled (split b' ' d)
unfolding columns
columns-filled d h = take-filled (split b' ' d) (omega (arith, length-split b' ' d)) h

-- The text of the columns.
abbrev pub spelled : Text → Text
spelled d = join (b' ' ∷ []) (columns d)

split-spelled : (d : Text) → split b' ' (spelled d) ≡ columns d
split-spelled d =
    split-join b' ' (columns d) (λ e. absurd (omega (arith, length-columns d, ap length e)))
      (columns-Lacks d)

count-spelled : (d : Text) → count b' ' (spelled d) ≡ 4
count-spelled d =
    omega (arith, length-split b' ' (spelled d), ap length (split-spelled d), length-columns d)

columns-spelled : (d : Text) → columns (spelled d) ≡ columns d
unfolding columns
columns-spelled d =
    rw (split-spelled d)
      let all_taken = take_all (columns d) (codes "*" ∷ codes "*" ∷ codes "*" ∷ codes "*" ∷ []) in
        rw (length-columns d) at all_taken

as_validation_error-ne-passed : (f : Fault) → as_validation_error (failed f) ≢ passed
as_validation_error-ne-passed not_unpacked p = cc
as_validation_error-ne-passed _ p = cc

as_validation_error-ne-stuck : (f : Fault) → as_validation_error (failed f) ≢ stuck
as_validation_error-ne-stuck not_unpacked p = cc
as_validation_error-ne-stuck _ p = cc

as_validation_error-Answers :
    (c : Check) (b : Bool) → Answers c b → Answers (as_validation_error c) b
as_validation_error-Answers passed b h = h
as_validation_error-Answers stuck b h = h
as_validation_error-Answers (failed f) b h =
    ground (arith, as_validation_error-ne-passed f, as_validation_error-ne-stuck f)

parsed-Answers :
    (c : Check) (b : Bool) (t : Text)
    → Answers c b
    → (parsed c t ≢ unfinished) × ((r : Text) → (parsed c t ≡ accepted r) ↔ ((b ≡ true) × (r ≡ t)))
parsed-Answers passed b t h = (λ e. cc, λ r. (λ e. (h.1.0 refl, cc), λ e. ap accepted (sym e.1)))
parsed-Answers (failed f) b t h = (λ e. cc, λ r. (λ e. cc, λ e. absurd (ne (h.1.1 e.0))))
  where
    ne : failed f ≢ passed
    ne p = cc
parsed-Answers stuck b t h = absurd (h.0 refl)

module _ (is_digit : ℕ → Bool) where
  -- Every column is a list of its interval.
  abbrev pub are_listings : List Interval → List Text → Bool
  are_listings (i ∷ is) (v ∷ vs) = is_listing is_digit i v && are_listings is vs
  are_listings _ _ = true

  check_columns-Answers :
      (is : List Interval) (vs : List Text)
      → Answers (check_columns is_digit is vs) (are_listings is vs)
  unfolding check_columns
  check_columns-Answers [] vs = ground arith
  check_columns-Answers (i ∷ is) [] = ground arith
  check_columns-Answers (i ∷ is) (v ∷ vs) =
      and_then-Answers (as_validation_error (make_validation is_digit rounds i v))
        (check_columns is_digit is vs) (is_listing is_digit i v) (are_listings is vs)
        (as_validation_error-Answers _ _ (make_validation_lem is_digit i v))
        (check_columns-Answers is vs)

  -- As below, by the columns.
  to_internal_value-columns :
      (d : Text)
      → (to_internal_value is_digit d ≢ unfinished)
        × ((r : Text)
            → (to_internal_value is_digit d ≡ accepted r)
              ↔ ((count b' ' d ≤ 4) × (are_listings names (columns d) ≡ true) × (r ≡ spelled d)))
  unfolding to_internal_value
  to_internal_value-columns d =
      let checked =
        parsed-Answers (check_columns is_digit names (columns d)) (are_listings names (columns d))
          (spelled d) (check_columns-Answers names (columns d)) in
      elim (Bool-cases (ltb 4 (count b' ' d))) [
        | inl many ↦ rw many (λ e. cc, λ r. (λ e. cc, λ e. absurd (ground (arith, many, e.0))))
        | inr few ↦ rw few (
          checked.0,
          λ r. (
            λ e. let (ok, same) = (checked.1 r).0 e in (ground (arith, few), ok, same),
            λ e. (checked.1 r).1 (e.1, e.2),
          ),
        )
      ]

  -- A text is accepted just if it has five columns at most and each of the five columns for minute, hour,
  -- day, month and weekday, after filling up with stars, is a list of its interval: between commas, stars
  -- or numbers in 0-59, 0-23, 1-31, 1-12 and 0-6, or two of these around a dash, each alone or with digits
  -- behind a slash. The result is those five columns between spaces, and the check always ends.
  pub to_internal_value_lem :
      (d : Text)
      → (to_internal_value is_digit d ≢ unfinished)
        × ((r : Text)
            → (to_internal_value is_digit d ≡ accepted r) ↔ (
                (length (split b' ' d) ≤ 5)
                × (are_listings (minute ∷ hour ∷ day ∷ month ∷ weekday ∷ []) (filled (split b' ' d))
                    ≡ true)
                × (r ≡ join (b' ' ∷ []) (filled (split b' ' d)))))
  to_internal_value_lem d =
      let (ends, answers) = to_internal_value-columns d in
      (
        ends,
        λ r. (
          λ e.
              let (few, ok, same) = (answers r).0 e in
              let few' : length (split b' ' d) ≤ 5 = omega (arith, length-split b' ' d, few) in
              (
                few',
                rw (columns-filled d few') at ok,
                same ∙ ap (join (b' ' ∷ [])) (columns-filled d few'),
              ),
          λ (few, ok, same). (answers r).1 (
            omega (arith, length-split b' ' d, few),
            rw (columns-filled d few) ok,
            same ∙ ap (join (b' ' ∷ [])) (sym (columns-filled d few)),
          ),
        ),
      )

  -- What is accepted is a fixed point: accepting it again changes nothing.
  pub to_internal_value_again :
      (d r : Text)
      → to_internal_value is_digit d ≡ accepted r
      → to_internal_value is_digit r ≡ accepted r
  to_internal_value_again d r h =
      let (_, listed, same) = ((to_internal_value-columns d).1 r).0 h in
      rw same (
        ((to_internal_value-columns (spelled d)).1 (spelled d)).1 (
          omega (arith, count-spelled d),
          rw (columns-spelled d) listed,
          ap (join (b' ' ∷ [])) (sym (columns-spelled d)),
        ))
