-- ===== src/Utils/Pickle.antt =====
-- vstutils/utils.py: `SecurePickling`. Pickle, the base64 of its bytes and that of `encode` are
-- parameters; `none` is an exception.
use vstutils.Base.{◌≡◌, ℕ, ◌<◌, ◌∷◌, Option, some, All, ◌>>=◌}
use vstutils.Base.Text.{Text}
use vstutils.Utils.Cipher.{encode, decode, decode-encode}

-- `codecs.encode(pickle.dumps(value), "base64")` as a text, and back; and the coding of `encode`.
pub record Codecs (V B : Type 0) : Type 0 where
  pub pickle : V → Text
  pub unpickle : Text → Option V
  pub to_base64 : Text → B
  pub of_base64 : B → Option Text

-- What was pickled is read back, its base64 is ASCII, and base64 gives back what it was given.
pub record CodecsLaws {V B : Type 0} (codecs : Codecs V B) : Type 0 where
  pub unpickle-pickle : (v : V) → codecs.unpickle (codecs.pickle v) ≡ some v
  pub pickle-ascii : (v : V) → All (λ c. c < 256) (codecs.pickle v)
  pub of_base64-to_base64 : (t : Text) → codecs.of_base64 (codecs.to_base64 t) ≡ some t

module _ {V B : Type 0} (codecs : Codecs V B) where
  unfoldable pub dumps : (secure_key : Text) → V → Option B
  dumps secure_key v = encode codecs.to_base64 codecs.of_base64 secure_key (codecs.pickle v)

  unfoldable pub loads : (secure_key : Text) → B → Option V
  loads secure_key b = do
    t ← decode codecs.to_base64 codecs.of_base64 secure_key b
    codecs.unpickle t

  -- With a key that is not empty, a value is dumped, and loading with the same key gives it back.
  pub loads-dumps :
      CodecsLaws codecs
      → (k : ℕ) (key : Text) (v : V)
      → (b : B) × (dumps (k ∷ key) v ≡ some b) × (loads (k ∷ key) b ≡ some v)
  unfolding dumps loads
  loads-dumps laws k key v =
      let (b, there, back) =
        decode-encode codecs.to_base64 codecs.of_base64 laws.of_base64-to_base64 k key
          (codecs.pickle v) (laws.pickle-ascii v) in
      (b, there, rw back (laws.unpickle-pickle v))
