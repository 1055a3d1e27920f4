-- ===== src/CustomModel/Sorting.antt =====
-- vstutils/tools.py: `multikeysort`, over any rows and any total comparisons of their columns.
-- `list.sort` is stable, also with `reverse=True`; insertion from the right is.
use mathlib.Core.Path.{subst}
use mathlib.Core.List.{reverse, reverse_aux, reverse-reverse, Perm, reverse_perm}
use mathlib.Core.List.Perm
use vstutils.Base.{
  false_ne_true, ◌≡◌, refl, Bool, true, false, List, [], ◌∷◌, if◌then◌else◌, All, Bool-cases, inl,
  inr,
}

-- A stable order: `le x y` says that `x` may stand before `y`.
pub record IsOrder {A : Type 0} (le : A → A → Bool) : Type 0 where
  pub total : (x y : A) → le x y ≡ false → le y x ≡ true
  pub trans : (x y z : A) → le x y ≡ true → le y z ≡ true → le x z ≡ true

-- Each entry is related to each later one.
abbrev pub Pairwise : {A : Type 0} → (A → A → Type 0) → List A → Type 0
Pairwise R [] = Unit
Pairwise R (x ∷ xs) = All (R x) xs × Pairwise R xs

-- Ordered by `le`, and by `R` among equals.
abbrev pub Refines : {A : Type 0} → (A → A → Bool) → (A → A → Type 0) → A → A → Type 0
Refines le R x y = (le x y ≡ true) × (le y x ≡ true → R x y)

module _ {A : Type 0} where
  unfoldable pub insert_by : (A → A → Bool) → A → List A → List A
  insert_by le x [] = x ∷ []
  insert_by le x (y ∷ ys) = if le x y then x ∷ y ∷ ys else y ∷ insert_by le x ys

  -- `items.sort(key=…, reverse=…)`
  unfoldable pub sort_by : (A → A → Bool) → List A → List A
  unfolding insert_by
  sort_by le [] = []
  sort_by le (x ∷ xs) = insert_by le x (sort_by le xs)

  -- The loop of `multikeysort`, over the reversed columns.
  unfoldable pub sort_columns : {C : Type 0} → (C → A → A → Bool) → List C → List A → List A
  unfolding sort_by
  sort_columns le [] xs = xs
  sort_columns le (c ∷ cs) xs = sort_columns le cs (sort_by (le c) xs)

  unfoldable pub multikeysort :
      {C : Type 0} → (C → A → A → Bool) → List A → List C → (reversed : Bool) → List A
  unfolding sort_columns
  multikeysort le xs columns reversed =
      let sorted = sort_columns le (reverse columns) xs in
      if reversed then reverse sorted else sorted

  -- Ordered by the first column, among equals by the second, and so on, and at last by `R`.
  abbrev pub Lex : {C : Type 0} → (C → A → A → Bool) → List C → (A → A → Type 0) → A → A → Type 0
  Lex le [] R = R
  Lex le (c ∷ cs) R = Refines (le c) (Lex le cs R)

  All-insert_by :
      (le : A → A → Bool) (P : A → Type 0) (x : A) (ys : List A)
      → P x
      → All P ys
      → All P (insert_by le x ys)
  unfolding insert_by
  All-insert_by le P x [] px h = (px, tt)
  All-insert_by le P x (y ∷ ys) px h = elim (Bool-cases (le x y)) [
    | inl e ↦ rw e (px, h)
    | inr e ↦ rw e (h.0, All-insert_by le P x ys px h.1)
  ]

  All-sort_by :
      (le : A → A → Bool) (P : A → Type 0) (xs : List A) → All P xs → All P (sort_by le xs)
  unfolding sort_by
  All-sort_by le P [] h = tt
  All-sort_by le P (x ∷ xs) h = All-insert_by le P x (sort_by le xs) h.0 (All-sort_by le P xs h.1)

  module _ (le : A → A → Bool) (order : IsOrder le) (R : A → A → Type 0) where
    below-All :
        (x y : A) (ys : List A)
        → le x y ≡ true
        → All (R x) ys
        → All (Refines le R y) ys
        → All (Refines le R x) ys
    below-All x y [] h r s = tt
    below-All x y (z ∷ ys) h r s =
        ((order.trans x y z h s.0.0, λ e. r.0), below-All x y ys h r.1 s.1)

    Pairwise-insert_by :
        (x : A) (ys : List A)
        → All (R x) ys
        → Pairwise (Refines le R) ys
        → Pairwise (Refines le R) (insert_by le x ys)
    unfolding insert_by
    Pairwise-insert_by x [] r p = (tt, tt)
    Pairwise-insert_by x (y ∷ ys) r p = elim (Bool-cases (le x y)) [
      | inl e ↦ rw e (((e, λ d. r.0), below-All x y ys e r.1 p.0), p)
      | inr e ↦ rw e (
        All-insert_by le (Refines le R y) x ys (order.total x y e, λ d. absurd (false_ne_true e d))
            p.0,
        Pairwise-insert_by x ys r.1 p.1,
      )
    ]

    Pairwise-sort_by : (xs : List A) → Pairwise R xs → Pairwise (Refines le R) (sort_by le xs)
    unfolding sort_by
    Pairwise-sort_by [] p = tt
    Pairwise-sort_by (x ∷ xs) p =
        Pairwise-insert_by x (sort_by le xs) (All-sort_by le (R x) xs p.0) (Pairwise-sort_by xs p.1)

  module _ {C : Type 0} (le : C → A → A → Bool) (orders : (c : C) → IsOrder (le c)) where
    Pairwise-sort_columns :
        (R : A → A → Type 0) (cs done : List C) (xs : List A)
        → Pairwise (Lex le done R) xs
        → Pairwise (Lex le (reverse_aux cs done) R) (sort_columns le cs xs)
    unfolding sort_columns
    Pairwise-sort_columns R [] done xs p = p
    Pairwise-sort_columns R (c ∷ cs) done xs p =
        Pairwise-sort_columns R cs (c ∷ done) (sort_by (le c) xs)
          (Pairwise-sort_by (le c) (orders c) (Lex le done R) xs p)

    -- Rows come out ordered by the first column, among equals by the second, and so on; rows that are
    -- equal in all columns keep whatever relation held from each to the later ones, their order among
    -- it. With `reverse` the same list comes out backwards.
    pub multikeysort-Pairwise :
        (R : A → A → Type 0) (xs : List A) (columns : List C)
        → Pairwise R xs
        → Pairwise (Lex le columns R) (multikeysort le xs columns false)
          × (multikeysort le xs columns true ≡ reverse (multikeysort le xs columns false))
    unfolding multikeysort
    multikeysort-Pairwise R xs columns p = (
      subst (λ cs. Pairwise (Lex le cs R) (sort_columns le (reverse columns) xs))
          (reverse-reverse columns) (Pairwise-sort_columns R (reverse columns) [] xs p),
      refl,
    )

  insert_by-perm : (le : A → A → Bool) (x : A) (ys : List A) → Perm (insert_by le x ys) (x ∷ ys)
  unfolding insert_by
  insert_by-perm le x [] = Perm.refl (x ∷ [])
  insert_by-perm le x (y ∷ ys) = elim (Bool-cases (le x y)) [
    | inl e ↦ rw e (Perm.refl (x ∷ y ∷ ys))
    | inr e ↦ rw e (Perm.trans (Perm.cons y (insert_by-perm le x ys)) (Perm.swap x y ys))
  ]

  sort_by-perm : (le : A → A → Bool) (xs : List A) → Perm (sort_by le xs) xs
  unfolding sort_by
  sort_by-perm le [] = Perm.refl []
  sort_by-perm le (x ∷ xs) =
      Perm.trans (insert_by-perm le x (sort_by le xs)) (Perm.cons x (sort_by-perm le xs))

  sort_columns-perm :
      {C : Type 0} (le : C → A → A → Bool) (cs : List C) (xs : List A)
      → Perm (sort_columns le cs xs) xs
  unfolding sort_columns
  sort_columns-perm le [] xs = Perm.refl xs
  sort_columns-perm le (c ∷ cs) xs =
      Perm.trans (sort_columns-perm le cs (sort_by (le c) xs)) (sort_by-perm (le c) xs)

  -- No row is lost or doubled, for any columns, any comparisons and both directions.
  pub multikeysort-perm :
      {C : Type 0} (le : C → A → A → Bool) (xs : List A) (columns : List C) (reversed : Bool)
      → Perm (multikeysort le xs columns reversed) xs
  unfolding multikeysort
  multikeysort-perm le xs columns false = sort_columns-perm le (reverse columns) xs
  multikeysort-perm le xs columns true =
      Perm.trans (reverse_perm _) (sort_columns-perm le (reverse columns) xs)
