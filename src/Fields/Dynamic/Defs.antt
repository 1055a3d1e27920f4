-- ===== src/Fields/Dynamic/Defs.antt =====
-- The type of a value by the value of another field, and how it is read, stored and shown. The fields of the
-- framework, and orjson, are parameters.
use vstutils.Base.{Bool, false, ◌&&◌, Option, none, some, if◌then◌else◌, text_eq, Assoc, lookup}
use vstutils.Base.Text.{Text}

-- What a step gives, or the exception that it raises
pub data Outcome (E A : Type 0) : Type 0 where
  ok : A → Outcome E A
  raised : E → Outcome E A

abbrev pub and_then : {E A B : Type 0} → Outcome E A → (A → Outcome E B) → Outcome E B
and_then (ok a) k = k a
and_then (raised e) k = raised e

-- A JSON value of the request or of the model: a text, or another one
pub data Json (J : Type 0) : Type 0 where
  text : Text → Json J
  value : J → Json J

-- A field of the framework, which may be a serializer
pub record RealField (E J : Type 0) : Type 0 where
  pub is_serializer : Bool
  pub to_internal_value : Json J → Outcome E (Json J)
  pub to_representation : Json J → Outcome E (Json J)

-- What `types` has for a value: a field, or the name of a type
pub data Entry (E J : Type 0) : Type 0 where
  field : RealField E J → Entry E J
  name : Text → Entry E J

-- The value of the other field: a key, or what no key of a dict can be
pub data Depend : Type 0 where
  key : Text → Depend
  null : Depend
  unhashable : Depend

pub record Dynamic (E J : Type 0) : Type 0 where
  -- whether the values of serializers are stored as JSON, as `DependEnumField` does not
  pub stores_json : Bool
  pub types : Assoc Text (Entry E J)
  -- what `types` has for None
  pub null_type : Option (Entry E J)
  -- `renderer`, which may raise, and `orjson.loads`
  pub dumps : J → Option Text
  pub loads : Text → Option (Json J)
  -- `str` of a value
  pub to_text : J → Text
  -- `CharField.to_internal_value`: the checked and stripped text
  pub checked : Text → Outcome E Text

abbrev pub as_json_text : {E J : Type 0} → Outcome E Text → Outcome E (Json J)
as_json_text (ok t) = ok (text t)
as_json_text (raised e) = raised e

module _ {E J : Type 0} (d : Dynamic E J) where
  abbrev pub text_of : Json J → Text
  text_of (text t) = t
  text_of (value j) = elim (d.dumps j) [ none ↦ d.to_text j | some t ↦ t ]

  -- `VSTCharField.to_internal_value`
  unfoldable pub char_to_internal_value : Json J → Outcome E (Json J)
  char_to_internal_value j = as_json_text (d.checked (text_of j))

  abbrev pub as_field : Option (Entry E J) → Option (RealField E J)
  as_field none = none
  as_field (some (name n)) = none
  as_field (some (field f)) = some f

  -- `get_real_field`; the exception of a value that is no key is suppressed.
  unfoldable pub get_real_field : Depend → Option (RealField E J)
  unfolding lookup
  get_real_field (key k) = as_field (lookup k d.types)
  get_real_field null = as_field d.null_type
  get_real_field unhashable = none

  -- `is_json`
  abbrev pub is_json : Option (RealField E J) → Bool
  is_json none = false
  is_json (some f) = d.stores_json && f.is_serializer

  abbrev pub depend_of : (sent instance : Option Depend) → Depend
  depend_of (some k) instance = k
  depend_of none (some k) = k
  depend_of none none = null

  abbrev pub read_by : Option (RealField E J) → Json J → Outcome E (Json J)
  read_by none j = ok j
  read_by (some f) j = f.to_internal_value j

  -- `to_internal_value`, with the other field as it is sent and as the instance has it
  unfoldable pub to_internal_value : (sent instance : Option Depend) → Json J → Outcome E (Json J)
  unfolding get_real_field char_to_internal_value
  to_internal_value sent instance j =
      let real = get_real_field (depend_of sent instance) in
      and_then (read_by real j) λ v. if is_json real then char_to_internal_value v else ok v

  abbrev pub or_same : Option (Json J) → Json J → Json J
  or_same none j = j
  or_same (some i) j = i

  -- `orjson.loads`, whose exception is suppressed
  abbrev pub parsed : Json J → Json J
  parsed (text t) = or_same (d.loads t) (text t)
  parsed (value j) = value j

  abbrev pub shown_by : Option (RealField E J) → Json J → Outcome E (Json J)
  shown_by none j = ok j
  shown_by (some f) j = f.to_representation j

  -- `to_representation`, with the other field and this one as the instance has them
  unfoldable pub to_representation : Depend → Json J → Outcome E (Json J)
  unfolding get_real_field
  to_representation depend j =
      let real = get_real_field depend in shown_by real (if is_json real then parsed j else j)
