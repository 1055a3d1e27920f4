-- ===== src/Utils/Headers.antt =====
-- vstutils/utils.py: `check_request_etag` and `add_in_vary`. `none` is an exception. The header is
-- what `request.headers.get` gives, the splitting of a Vary header Django's, a parameter.
use vstutils.Base.{
  ◌≡◌, refl, ◌∙◌, Bool, true, false, not, ◌&&◌, ◌||◌, List, [], ◌∷◌, ◌++◌, Option, none, some,
  if◌then◌else◌, ◌==◌, text_eq, eqb, any, arith,
}
use vstutils.Base.Text.{Text, codes, lower, join}

-- `header[2:]` where the header starts with `W/` or `w/`
unfoldable pub without_weak : Text → Text
without_weak [] = []
without_weak (a ∷ []) = a ∷ []
without_weak (a ∷ b ∷ s) = if (eqb a b'W' || eqb a b'w') && eqb b b'/' then s else a ∷ b ∷ s

-- The text in quotes, unless it starts with one; the first character of an empty text raises.
unfoldable pub quoted : Text → Option Text
quoted [] = none
quoted (c ∷ s) = if eqb c b'"' then some (c ∷ s) else some (b'"' ∷ c ∷ s ++ b'"' ∷ [])

unfoldable pub compare_tags :
    (operation_handler : Text → Text → Bool)
    → (header etag_value : Option Text) → Option (Text × Bool)
compare_tags operation_handler none etag = none
compare_tags operation_handler (some h) none = none
compare_tags operation_handler (some h) (some e) = some (e, operation_handler e h)

unfoldable pub check_request_etag :
    (operation_handler : Text → Text → Bool)
    → (header : Option Text) → (etag_value : Text) → Option (Text × Bool)
unfolding without_weak quoted compare_tags
check_request_etag operation_handler none etag_value = some (etag_value, false)
check_request_etag operation_handler (some []) etag_value = some (etag_value, false)
check_request_etag operation_handler (some (c ∷ s)) etag_value =
    compare_tags operation_handler (quoted (without_weak (c ∷ s))) (quoted etag_value)

-- A tag as it is sent: bare or in quotes, and weak or not.
abbrev pub in_form : (in_quotes : Bool) → Text → Text
in_form false t = t
in_form true t = b'"' ∷ t ++ b'"' ∷ []

abbrev pub form : (weak : Option Bool) → (in_quotes : Bool) → Text → Text
form none q t = in_form q t
form (some false) q t = b'w' ∷ b'/' ∷ in_form q t
form (some true) q t = b'W' ∷ b'/' ∷ in_form q t

-- A tag that is not empty, does not start with a quote and is not weak.
abbrev pub is_plain : Text → Bool
is_plain [] = false
is_plain (c ∷ []) = not (eqb c b'"')
is_plain (c ∷ d ∷ s) = not (eqb c b'"') && not ((eqb c b'W' || eqb c b'w') && eqb d b'/')

quoted-form :
    (t : Text) (q : Bool) → is_plain t ≡ true → quoted (in_form q t) ≡ some (in_form true t)
unfolding quoted
quoted-form [] q h = ground (arith, h)
quoted-form (c ∷ []) true h = refl
quoted-form (c ∷ []) false h = ground (arith, h)
quoted-form (c ∷ d ∷ s) true h = refl
quoted-form (c ∷ d ∷ s) false h = ground (arith, h)

without_weak-form :
    (t : Text) (weak : Option Bool) (q : Bool)
    → is_plain t ≡ true
    → without_weak (form weak q t) ≡ in_form q t
unfolding without_weak
without_weak-form [] none q h = ground (arith, h)
without_weak-form (c ∷ []) none true h = refl
without_weak-form (c ∷ []) none false h = refl
without_weak-form (c ∷ d ∷ s) none true h = refl
without_weak-form (c ∷ d ∷ s) none false h = ground (arith, h)
without_weak-form t (some true) q h = refl
without_weak-form t (some false) q h = refl

compared :
    (operation_handler : Text → Text → Bool) (h e : Text)
    → compare_tags operation_handler (some h) (some e) ≡ some (e, operation_handler e h)
unfolding compare_tags
compared operation_handler h e = refl

from_parts :
    (operation_handler : Text → Text → Bool) (sent own : Text) (weak : Option Bool) (q r : Bool)
    → is_plain sent ≡ true
    → check_request_etag operation_handler (some (form weak q sent)) (in_form r own)
      ≡ compare_tags operation_handler
          (quoted (without_weak (form weak q sent)))
          (quoted (in_form r own))
unfolding check_request_etag
from_parts operation_handler [] own weak q r h = ground (arith, h)
from_parts operation_handler (c ∷ s) own (some true) q r h = refl
from_parts operation_handler (c ∷ s) own (some false) q r h = refl
from_parts operation_handler (c ∷ s) own none true r h = refl
from_parts operation_handler (c ∷ s) own none false r h = refl

-- The flag does not depend on how the tags are written: for plain tags, weak or not and in quotes or
-- not in the header, in quotes or not on the server, it is the comparison of the two tags in quotes,
-- and the server's tag is given back in quotes.
pub check_request_etag_lem :
    (operation_handler : Text → Text → Bool) (sent own : Text) (weak : Option Bool) (q r : Bool)
    → is_plain sent ≡ true
    → is_plain own ≡ true
    → check_request_etag operation_handler (some (form weak q sent)) (in_form r own)
      ≡ some (in_form true own, operation_handler (in_form true own) (in_form true sent))
check_request_etag_lem operation_handler sent own weak q r h k =
    from_parts operation_handler sent own weak q r h
    ∙ rw (without_weak-form sent weak q h, quoted-form sent q h, quoted-form own r k)
        (compared operation_handler (in_form true sent) (in_form true own))

-- `filter(bool, vary)`
unfoldable pub not_empty : List Text → List Text
not_empty [] = []
not_empty ([] ∷ ts) = not_empty ts
not_empty ((c ∷ t) ∷ ts) = (c ∷ t) ∷ not_empty ts

-- `add_in_vary`, on the header's value; `split` is `cc_delim_re.split`.
unfoldable pub add_in_vary :
    (split : Text → List Text) → (vary : Option Text) → (value : Text) → Option Text
unfolding not_empty
add_in_vary split vary value =
    let names = split (lower (elim vary [ none ↦ [] | some v ↦ v ])) in
    if any (λ n. n == lower value) names
    then vary
    else some (join (codes ", ") (not_empty (names ++ value ∷ [])))
