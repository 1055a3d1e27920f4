-- ===== src/Notify/Distinct.antt =====
-- vstutils/models/cent_notify.py: lists without repeated entries, as `in` and `remove` see them.
use vstutils.Base.{
  ◌≡◌, refl, sym, ◌||◌, true, false, List, [], ◌∷◌, ◌++◌, arith, Eq, ◌==◌, Bool-cases, inl, inr,
}
use vstutils.Notify.{is_in, remove_first}

module _ {A : Type 0} ⦃e : Eq A⦄ where
  abbrev pub Distinct : List A → Type 0
  Distinct [] = Unit
  Distinct (x ∷ xs) = (is_in x xs ≡ false) × Distinct xs

  is_in-remove_other :
      (x r : A) (xs : List A) → is_in x xs ≡ false → is_in x (remove_first r xs) ≡ false
  unfolding remove_first
  is_in-remove_other x r [] h = refl
  is_in-remove_other x r (y ∷ xs) h = ground (arith, is_in-remove_other x r xs)

  pub Distinct-remove_first : (r : A) (xs : List A) → Distinct xs → Distinct (remove_first r xs)
  unfolding remove_first
  Distinct-remove_first r [] d = tt
  Distinct-remove_first r (x ∷ xs) d = elim (Bool-cases (x == r)) [
    | inl h ↦ rw h d.1
    | inr h ↦ rw h (is_in-remove_other x r xs d.0, Distinct-remove_first r xs d.1)
  ]

  pub is_in-remove_self : (r : A) (xs : List A) → Distinct xs → is_in r (remove_first r xs) ≡ false
  unfolding remove_first
  is_in-remove_self r [] d = refl
  is_in-remove_self r (x ∷ xs) d = elim (Bool-cases (x == r)) [
    | inl h ↦ rw (h, sym ((e.is_same_iff x r).0 h)) d.0
    | inr h ↦ rw (h, h) (is_in-remove_self r xs d.1)
  ]

  pub is_in-snoc : (x r : A) (xs : List A) → is_in x (xs ++ r ∷ []) ≡ (is_in x xs || r == x)
  is_in-snoc x r [] = ground arith
  is_in-snoc x r (y ∷ xs) = ground (arith, is_in-snoc x r xs)

  pub Distinct-snoc :
      (r : A) (xs : List A) → Distinct xs → is_in r xs ≡ false → Distinct (xs ++ r ∷ [])
  Distinct-snoc r [] d h = (refl, tt)
  Distinct-snoc r (x ∷ xs) d h = (
    ground (arith, is_in-snoc x r xs, e.is_same_iff x r, e.is_same_iff r x, d.0),
    Distinct-snoc r xs d.1 (ground arith),
  )

  pub is_in_later : (z x : A) (xs ys : List A) → (z == x) ≡ true → is_in z (xs ++ x ∷ ys) ≡ true
  is_in_later z x [] ys h = ground (arith, e.is_same_iff z x, e.is_same_iff x z)
  is_in_later z x (y ∷ xs) ys h = ground (arith, is_in_later z x xs ys h)

  pub not_same :
      (y x : A) (pre rest : List A) → is_in y (pre ++ x ∷ rest) ≡ false → (y == x) ≡ false
  not_same y x pre rest h = ground (arith, is_in_later y x pre rest)
