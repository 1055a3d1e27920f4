-- ===== src/Fields/Files/Defs.antt =====
-- The validation of a file that is sent as a JSON object. Base64 with the handlers, `quote` and the validators of
-- the framework and the project are parameters.
use vstutils.Base.{
  ℕ, Bool, true, false, not, ◌&&◌, ◌||◌, List, [], ◌∷◌, Option, none, some, if◌then◌else◌, ◌==◌,
  text_eq, any, all, Assoc, lookup, insert, ltb, length,
}
use vstutils.Base.Text.{Text, codes, starts_with}
use mathlib.Core.List.{reverse}

-- A value in the object: a text, or something else, which is true or false as a truth value, may have a
-- length, and has no methods of a text.
pub data Value : Type 0 where
  text : Text → Value
  other : (is_true : Bool) → (size : Option ℕ) → Value

abbrev pub File : Type 0
File = Assoc Text Value

-- What is sent: an object, or something else
pub data Sent : Type 0 where
  object : File → Sent
  no_object : Sent

-- A ValidationError, or another exception, which no handler of the field expects
pub data Fault : Type 0 where
  invalid : Fault
  crash : Fault

pub data Result (A : Type 0) : Type 0 where
  ok : A → Result A
  fault : Fault → Result A

infixl 5 ◌>>=◌
abbrev pub ◌>>=◌ : {A B : Type 0} → Result A → (A → Result B) → Result B
ok a >>= k = k a
fault e >>= k = fault e

abbrev pub valid_keys : List Text
valid_keys = codes "name" ∷ codes "content" ∷ codes "mediaType" ∷ []

abbrev pub is_valid_key : Text → Bool
is_valid_key k = any (λ v. v == k) valid_keys

abbrev pub has_value : Option Value → Bool
has_value none = false
has_value (some v) = true

-- `validate_value`
unfoldable pub validate_value : Sent → Result File
validate_value (object file) =
    if not (all (λ r. is_valid_key r.0) file)
    then fault invalid
    else if all (λ k. has_value (lookup k file)) valid_keys
    then ok file
    else fault invalid
validate_value no_object = fault invalid

-- `file[key]`, and a method of it
abbrev pub item : Text → File → Result Value
item key file = elim (lookup key file) [ none ↦ fault crash | some v ↦ ok v ]

abbrev pub as_text : Value → Result Text
as_text (text t) = ok t
as_text (other b size) = fault crash

abbrev pub length_of : Value → Result ℕ
length_of (text t) = ok (length t)
length_of (other b none) = fault crash
length_of (other b (some n)) = ok n

abbrev pub size_of : Text → File → Result ℕ
size_of key file = item key file >>= length_of

abbrev pub is_true : Value → Bool
is_true (text []) = false
is_true (text (c ∷ t)) = true
is_true (other b size) = b

-- `s.endswith(p)`
abbrev pub ends_with : Text → Text → Bool
ends_with s p = starts_with (reverse s) (reverse p)

-- The field, with what it is given by the framework
pub record Field : Type 0 where
  pub file : Bool
  pub max_length : Option ℕ
  -- is kept, and never read
  pub min_length : Option ℕ
  -- `len` of the content as it was sent, in Base64
  pub max_content_size : ℕ
  pub min_content_size : ℕ
  -- `urllib.parse.quote`, which refuses what is no text
  pub quote : Text → Text
  -- Base64 of what the handlers make of the decoded content; none if one of them raises
  pub pre_handled : File → Option Text
  -- what the validators make of the file
  pub validators : File → Result File

-- `data['content'] = ..`, where an exception is suppressed
abbrev pub with_content : File → Option Text → File
with_content file none = file
with_content file (some content) = insert (codes "content") (text content) file

abbrev pub or_false : Result Bool → Bool
or_false (ok b) = b
or_false (fault e) = false

module _ (f : Field) where
  abbrev pub is_link : (content name : Text) → Bool
  is_link content name =
      (starts_with content (codes "/") || starts_with content (codes "http"))
      && ends_with content (f.quote name)

  -- `should_not_handle`, once the media type is false
  unfoldable pub is_linked : File → Result Bool
  unfolding starts_with lookup
  is_linked file = item (codes "content") file >>= λ c. as_text c >>= λ content.
      if starts_with content (codes "/") || starts_with content (codes "http")
      then (item (codes "name") file >>= λ n. (as_text n >>= λ name. ok (is_link content name)))
      else ok false

  unfoldable pub should_not_handle : File → Result Bool
  unfolding is_linked
  should_not_handle file =
      item (codes "mediaType") file >>= λ m. if is_true m then ok false else is_linked file

  -- A size, where there is a bound for it
  unfoldable pub check_size :
      (key : Text) → (bound : ℕ) → (fails : ℕ → Bool) → File → Result (Unit {0})
  unfolding lookup
  check_size key bound fails file =
      if ltb 0 bound
      then (size_of key file >>= λ n. if fails n then fault invalid else ok tt)
      else ok tt

  abbrev pub max_or_zero : Option ℕ → ℕ
  max_or_zero none = 0
  max_or_zero (some max) = max

  -- The bound for the name's length, which only a field with a file has
  abbrev pub name_bound : ℕ
  name_bound = if f.file then max_or_zero f.max_length else 0

  unfoldable pub check_sizes : File → Result File
  unfolding check_size
  check_sizes file = check_size (codes "name") name_bound (λ n. ltb name_bound n) file >>= λ _.
      check_size (codes "content") f.max_content_size (λ n. ltb f.max_content_size n) file >>= λ _.
      check_size (codes "content") f.min_content_size (λ n. ltb n f.min_content_size) file >>= λ _.
      ok file

  -- `run_validators`; a validator may change the file.
  unfoldable pub run_validators : File → Result File
  unfolding should_not_handle check_sizes
  run_validators file =
      if or_false (should_not_handle file) then ok file else (f.validators file >>= check_sizes)

  -- `run_validation`, for a value that is not empty, until `to_internal_value`
  unfoldable pub run_validation : Sent → Result File
  unfolding validate_value should_not_handle run_validators insert
  run_validation sent = validate_value sent >>= λ file. should_not_handle file >>= λ linked.
      run_validators (if linked then file else with_content file (f.pre_handled file))

  -- The validators of a field of several files run on each of them
  unfoldable pub run_validators_each : List File → Result (List File)
  unfolding run_validators
  run_validators_each [] = ok []
  run_validators_each (file ∷ files) =
      run_validators file >>= λ g. (run_validators_each files >>= λ gs. ok (g ∷ gs))

  abbrev pub validate_each : List File → Result (List File)
  validate_each [] = ok []
  validate_each (file ∷ files) =
      validate_value (object file) >>= λ g. (validate_each files >>= λ gs. ok (g ∷ gs))

  -- `run_validation` of `MultipleNamedBinaryFileInJsonField` for a list of objects, until the files are handled
  unfoldable pub run_validation_multiple : List File → Result (List File)
  unfolding run_validators_each validate_value
  run_validation_multiple files = run_validators_each files >>= validate_each
