-- ===== src/Fields/Dynamic/Tests.antt =====
-- A field of three types, and the theorem at a concrete input. A value is a number, rendered as so many strokes.
use vstutils.Base.{ℕ, zero, suc, ◌+◌, ◌≡◌, refl, ap, true, [], ◌∷◌, none, some, length, lookup, sym}
use vstutils.Base.Text.{Text, codes}
use vstutils.Fields.Dynamic.Defs.{
  Outcome, ok, raised, and_then, Json, text, value, RealField, field, name, key, unhashable,
  Dynamic, get_real_field, depend_of, read_by, shown_by, to_internal_value, to_representation,
  char_to_internal_value,
}
use vstutils.Fields.Dynamic.Round.{Laws, GivesValues, to_representation-to_internal_value}

abbrev strokes : ℕ → Text
strokes zero = []
strokes (suc n) = b'|' ∷ strokes n

length-strokes : (n : ℕ) → length (strokes n) ≡ n
length-strokes zero = refl
length-strokes (suc n) = ap suc (length-strokes n)

abbrev accepts : Json ℕ → Outcome ℕ (Json ℕ)
accepts (text t) = raised 1
accepts (value n) = ok (value (n + 1))

abbrev serializer : RealField ℕ ℕ
serializer = record {
  is_serializer = true;
  to_internal_value = accepts;
  to_representation = λ j. ok j;
}

abbrev dynamic : Dynamic ℕ ℕ
dynamic = record {
  stores_json = true;
  types = (codes "a", field serializer) ∷ (codes "b", name (codes "string")) ∷ [];
  null_type = none;
  dumps = λ n. some (strokes n);
  loads = λ t. some (value (length t));
  to_text = λ n. [];
  checked = λ t. ok t;
}

dynamic_tests :
    (to_internal_value dynamic (some (key (codes "a"))) none (value 2) ≡ ok (text (codes "|||")))
    × (to_internal_value dynamic none (some (key (codes "a"))) (text []) ≡ raised 1)
    × (to_internal_value dynamic (some unhashable) none (text []) ≡ ok (text []))
    × (to_representation dynamic (key (codes "b")) (text (codes "|")) ≡ ok (text (codes "|")))
unfolding to_internal_value to_representation char_to_internal_value lookup
dynamic_tests = (refl, refl, refl, refl)

same_number :
    (n : ℕ) (t s : Text)
    → dynamic.dumps n ≡ some t
    → dynamic.checked t ≡ ok s
    → dynamic.loads s ≡ some (value n)
same_number n t s e c =
    let es : strokes n ≡ t = cc in let et : t ≡ s = cc in rw (sym et, sym es, length-strokes n) refl

laws : Laws dynamic
laws = record { renders = λ n. (strokes n, refl); parsed = same_number }

gives_values :
    GivesValues (get_real_field dynamic (depend_of dynamic (some (key (codes "a"))) none))
unfolding lookup get_real_field
gives_values (text t) j h = cc
gives_values (value n) j h = (n + 1, cc)

stored : to_internal_value dynamic (some (key (codes "a"))) none (value 2) ≡ ok (text (codes "|||"))
stored = dynamic_tests.0

to_representation-to_internal_value_example :
    to_representation dynamic (key (codes "a")) (text (codes "|||"))
    ≡ and_then
        (read_by dynamic (get_real_field dynamic (key (codes "a"))) (value 2))
        (shown_by dynamic (get_real_field dynamic (key (codes "a"))))
to_representation-to_internal_value_example =
    to_representation-to_internal_value dynamic laws (some (key (codes "a"))) none (value 2)
      (text (codes "|||")) gives_values stored
