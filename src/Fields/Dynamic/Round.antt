-- ===== src/Fields/Dynamic/Round.antt =====
-- What is stored of a value, and what is shown of that.
use vstutils.Base.{◌≡◌, refl, sym, true, Option, none, some, Bool-cases, inl, inr}
use vstutils.Base.Text.{Text}
use vstutils.Fields.Dynamic.Defs.{
  Outcome, ok, raised, and_then, Json, text, value, RealField, Depend, Dynamic, as_json_text,
  char_to_internal_value, get_real_field, is_json, depend_of, read_by, to_internal_value, parsed,
  shown_by, to_representation, text_of,
}

-- The documented behaviour: parsing gives back what was rendered, also after the check of the text.
pub record Laws {E J : Type 0} (d : Dynamic E J) : Type 0 where
  pub renders : (j : J) → (t : Text) × (d.dumps j ≡ some t)
  pub parsed :
      (j : J) (t s : Text) → d.dumps j ≡ some t → d.checked t ≡ ok s → d.loads s ≡ some (value j)

-- A field that gives no text
abbrev pub GivesValues : {E J : Type 0} → Option (RealField E J) → Type 0
GivesValues none = Unit
GivesValues {J = J} (some f) =
    (i j : Json J) → f.to_internal_value i ≡ ok j → (v : J) × (j ≡ value v)

module _ {E : Type 0} where
  before_ok :
      {A B : Type 0} (o : Outcome E A) (k : A → Outcome E B) (b : B)
      → and_then o k ≡ ok b
      → (a : A) × (o ≡ ok a) × (k a ≡ ok b)
  before_ok (ok a) k b h = (a, refl, h)
  before_ok (raised e) k b h = cc

  ok_injective : {A : Type 0} (a b : A) → ◌≡◌ {A = Outcome E A} (ok a) (ok b) → a ≡ b
  ok_injective a b h = cc

  text_before :
      {J : Type 0} (o : Outcome E Text) (stored : Json J)
      → as_json_text o ≡ ok stored
      → (s : Text) × (o ≡ ok s) × (stored ≡ text s)
  text_before (ok s) stored h = (s, refl, sym (ok_injective (text s) stored h))
  text_before (raised e) stored h = cc

module _ {E J : Type 0} (d : Dynamic E J) (laws : Laws d) where
  stored-parsed :
      (v : J) (stored : Json J)
      → char_to_internal_value d (value v) ≡ ok stored
      → parsed d stored ≡ value v
  unfolding char_to_internal_value
  stored-parsed v stored h =
      let (t, e) = laws.renders v in
      let (s, checked, same) = text_before (d.checked t) stored (rw (e, text_of) at h) in
      rw (same, laws.parsed v t s e checked) refl

  given-value :
      (real : Option (RealField E J)) (j w : Json J)
      → GivesValues real
      → is_json d real ≡ true
      → read_by d real j ≡ ok w
      → (v : J) × (w ≡ value v)
  given-value none j w g h r = cc
  given-value (some f) j w g h r = g j w r

  -- Where rendering and parsing go back and forth, and a field that is stored as JSON gives no bare text:
  -- a value that is accepted is shown, as long as the other field keeps its value, as the field of its
  -- type shows what it made of the value, and without such a field as it was sent.
  pub to_representation-to_internal_value :
      (sent instance : Option Depend) (j stored : Json J)
      → GivesValues (get_real_field d (depend_of d sent instance))
      → to_internal_value d sent instance j ≡ ok stored
      → to_representation d (depend_of d sent instance) stored
        ≡ and_then
            (read_by d (get_real_field d (depend_of d sent instance)) j)
            (shown_by d (get_real_field d (depend_of d sent instance)))
  unfolding to_representation to_internal_value
  to_representation-to_internal_value sent instance j stored g h =
      let real = get_real_field d (depend_of d sent instance) in
      let (w, e, k) = before_ok (read_by d real j) _ stored h in
      elim (Bool-cases (is_json d real)) [
        | inr plain ↦
            let same = ok_injective w stored (rw plain at k) in rw (plain, e, sym same) refl
        | inl json ↦
            let (v, ev) = given-value real j w g json e in
            let shown = stored-parsed v stored (rw (json, ev) at k) in rw (json, e, shown, ev) refl
      ]
