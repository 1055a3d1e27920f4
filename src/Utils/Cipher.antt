-- ===== src/Utils/Cipher.antt =====
-- vstutils/utils.py: `encode` and `decode`. The encoding by UTF-8 and base64, and back, is a parameter;
-- `none` is an exception.
use native.Mathlib.Nat.{mod-lt}
use vstutils.Base.{
  ◌≡◌, ℕ, zero, suc, ◌+◌, ◌-◌, ◌%◌, ◌<◌, refl, List, [], ◌∷◌, Option, none, some, get_elem?, length,
  arith, leb, if◌then◌else◌, All, ◌>>=◌,
}
use vstutils.Base.Text.{Text}

-- `x - y` modulo 256, as Python takes it of a negative difference too.
unfoldable pub minus_mod : ℕ → ℕ → ℕ
minus_mod x y = if leb y x then (x - y) % 256 else 255 - (y - x - 1) % 256

-- `key[i % len(key)]`; without a key the division raises.
unfoldable pub key_char : Text → ℕ → Option ℕ
key_char [] i = none
key_char (k ∷ key) i = get_elem? (k ∷ key) (i % length (k ∷ key))

-- The loops, from the given index.
unfoldable pub encode_from : Text → ℕ → Text → Option Text
unfolding key_char
encode_from key i [] = some []
encode_from key i (c ∷ clear) = do
  k ← key_char key i
  rest ← encode_from key (i + 1) clear
  some ((c + k) % 256 ∷ rest)

unfoldable pub decode_from : Text → ℕ → Text → Option Text
unfolding key_char minus_mod
decode_from key i [] = some []
decode_from key i (e ∷ enc) = do
  k ← key_char key i
  rest ← decode_from key (i + 1) enc
  some (minus_mod (256 + e) k ∷ rest)

minus_mod_lem : (c k : ℕ) → c < 256 → minus_mod (256 + (c + k) % 256) k ≡ c
unfolding minus_mod
minus_mod_lem c k h = ground arith

module _ {B : Type 0} (to_base64 : Text → B) (of_base64 : B → Option Text) where
  unfoldable pub encode : (key clear : Text) → Option B
  unfolding encode_from
  encode key clear = do enc ← encode_from key 0 clear; some (to_base64 enc)

  unfoldable pub decode : (key : Text) → (enc : B) → Option Text
  unfolding decode_from
  decode key enc = do t ← of_base64 enc; decode_from key 0 t

get_elem?-some :
    {A : Type 0} (xs : List A) (i : ℕ) → i < length xs → (x : A) × (get_elem? xs i ≡ some x)
get_elem?-some [] i h = absurd (omega (arith, h))
get_elem?-some (x ∷ xs) zero h = (x, refl)
get_elem?-some (x ∷ xs) (suc i) h = get_elem?-some xs i (omega (arith, h))

key_char-some : (k : ℕ) (key : Text) (i : ℕ) → (c : ℕ) × (key_char (k ∷ key) i ≡ some c)
unfolding key_char
key_char-some k key i = get_elem?-some (k ∷ key) (i % suc (length key)) (mod-lt i (omega arith))

decode_from-encode_from :
    (k : ℕ) (key : Text) (i : ℕ) (clear : Text)
    → All (λ c. c < 256) clear
    → (enc : Text) × (encode_from (k ∷ key) i clear ≡ some enc)
      × (decode_from (k ∷ key) i enc ≡ some clear)
unfolding encode_from decode_from
decode_from-encode_from k key i [] h = ([], refl, refl)
decode_from-encode_from k key i (c ∷ clear) h =
    let (x, e) = key_char-some k key i in
    let (enc, there, back) = decode_from-encode_from k key (i + 1) clear h.1 in
    ((c + x) % 256 ∷ enc, rw (e, there) refl, rw (e, back, minus_mod_lem c x h.0) refl)

-- With a key, a text of code points below 256 is encoded, and decoding with the same key gives it back,
-- where base64 gives back what it was given.
pub decode-encode :
    {B : Type 0} (to_base64 : Text → B) (of_base64 : B → Option Text)
    → ((t : Text) → of_base64 (to_base64 t) ≡ some t)
    → (k : ℕ) (key clear : Text) → All (λ c. c < 256) clear
    → (enc : B) × (encode to_base64 of_base64 (k ∷ key) clear ≡ some enc)
      × (decode to_base64 of_base64 (k ∷ key) enc ≡ some clear)
unfolding encode decode
decode-encode to_base64 of_base64 law k key clear h =
    let (enc, there, back) = decode_from-encode_from k key 0 clear h in
    (to_base64 enc, rw there refl, rw (law enc) back)
