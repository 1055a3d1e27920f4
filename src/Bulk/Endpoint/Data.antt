-- ===== src/Bulk/Endpoint/Data.antt =====
-- vstutils/api/endpoint.py, `_get_request_data`: the fuel of `request_data` is enough.
use vstutils.Base.{
  ℕ, zero, suc, ◌<◌, ◌≡◌, refl, sym, ◌∙◌, [], ◌∷◌, inl, inr, Option, none, some, length,
  Option-cases, arith,
}
use vstutils.Base.Text.{Text}
use vstutils.Bulk.Value.{Value, null, bool, num, str, arr, obj}
use vstutils.Bulk.Endpoint.{read_data, text_size, request_data}

module _ (loads : Text → Option Value)
    (loads-shorter : (t u : Text) → loads t ≡ some (str u) → length u < length t) where
  module _ (empty : loads [] ≡ none) where
    size_drops : (t : Text) (v : Value) → loads t ≡ some v → text_size v < length t
    size_drops [] v e = absurd (let h = sym empty ∙ e in cc)
    size_drops (c ∷ t) (str u) e = loads-shorter (c ∷ t) u e
    size_drops (c ∷ t) null e = omega arith
    size_drops (c ∷ t) (bool b) e = omega arith
    size_drops (c ∷ t) (num n) e = omega arith
    size_drops (c ∷ t) (arr xs) e = omega arith
    size_drops (c ∷ t) (obj fs) e = omega arith

    read_data-eq :
        (n m : ℕ) (v : Value)
        → text_size v < n
        → text_size v < m
        → read_data loads n v ≡ read_data loads m v
    unfolding read_data
    read_data-eq zero m v h k = absurd (omega arith)
    read_data-eq (suc n) zero v h k = absurd (omega arith)
    read_data-eq (suc n) (suc m) null h k = refl
    read_data-eq (suc n) (suc m) (bool b) h k = refl
    read_data-eq (suc n) (suc m) (num x) h k = refl
    read_data-eq (suc n) (suc m) (arr xs) h k = refl
    read_data-eq (suc n) (suc m) (obj fs) h k = refl
    read_data-eq (suc n) (suc m) (str t) h k = elim (Option-cases (loads t)) [
      | inl e ↦ rw (e, read_data) refl
      | inr (v, e) ↦
          let d = size_drops t v e in
          rw (e, read_data) (read_data-eq n m v (omega (arith, d, h)) (omega (arith, d, k)))
    ]

    -- Where a text in JSON is longer than a text that it holds, and the empty text holds nothing: the
    -- text of a value is read just as the value is.
    pub request_data-text :
        (t : Text) (v : Value)
        → loads t ≡ some v
        → request_data loads (str t) ≡ request_data loads v
    unfolding request_data read_data
    request_data-text t v e =
        rw (e, read_data)
          (read_data-eq (length t) (suc (text_size v)) v (size_drops t v e) (omega arith))
