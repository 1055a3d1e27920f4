-- ===== src/Fields/Files/Tests.antt =====
-- Files that are sent, and the theorems at concrete inputs.
use vstutils.Base.{◌≡◌, refl, true, false, [], ◌∷◌, none, some, ◌⊎◌, lookup}
use vstutils.Base.Text.{Text, codes, starts_with}
use vstutils.Fields.Files.Defs.{
  text, other, File, object, invalid, crash, ok, fault, Field, should_not_handle, validate_value,
  run_validators, run_validation, run_validation_multiple, check_sizes, check_size,
}
use vstutils.Fields.Files.Links.{IsLink}
use vstutils.Fields.Files.Bounds.{HasKeys, InBounds, run_validation-InBounds}

abbrev field : Field
field = record {
  file = true;
  max_length = some 5;
  min_length = some 9;
  max_content_size = 8;
  min_content_size = 2;
  quote = λ t. t;
  pre_handled = λ file. none;
  validators = λ file. ok file;
}

abbrev file : (name content : Text) → File
file name content =
    (codes "name", text name)
    ∷ (codes "content", text content)
    ∷ (codes "mediaType", other false none)
    ∷ []

run_tests :
    (run_validation field (object (file (codes "a.txt") (codes "QUJD")))
      ≡ ok (file (codes "a.txt") (codes "QUJD")))
    × (run_validation field (object (file (codes "a.txt") (codes "QUJDQUJDQUJD"))) ≡ fault invalid)
    × (run_validation field (object (file (codes "a.text") (codes "QUJD"))) ≡ fault invalid)
    × (run_validation field (object ((codes "name", text []) ∷ [])) ≡ fault invalid)
    × (run_validation_multiple field (((codes "name", text []) ∷ []) ∷ []) ≡ fault crash)
unfolding run_validation run_validation_multiple run_validators check_size check_sizes
    should_not_handle validate_value lookup starts_with
run_tests = (refl, refl, refl, refl, refl)

-- A file without a name, whose content begins with a slash, passes at any size.
link_passes :
    run_validation field (object (file [] (codes "/9j/4AAQSkZJRgABAQ")))
    ≡ ok (file [] (codes "/9j/4AAQSkZJRgABAQ"))
unfolding run_validation run_validators should_not_handle validate_value lookup starts_with
link_passes = refl

accepted_file :
    run_validation field (object (file (codes "a.txt") (codes "QUJD")))
    ≡ ok (file (codes "a.txt") (codes "QUJD"))
accepted_file = run_tests.0

run_validation-InBounds_example :
    ((g : File) × (object (file (codes "a.txt") (codes "QUJD")) ≡ object g) × HasKeys g)
    × (IsLink field (file (codes "a.txt") (codes "QUJD"))
        ⊎ InBounds field (file (codes "a.txt") (codes "QUJD")))
run_validation-InBounds_example =
    run_validation-InBounds field (object (file (codes "a.txt") (codes "QUJD")))
      (file (codes "a.txt") (codes "QUJD")) accepted_file
