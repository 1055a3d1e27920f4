-- ===== src/Base/Members.antt =====
-- The library's membership as data, and what the list functions do with it.
use Prim.Native.Nat.{ℕ}
use mathlib.Core.Path.{◌≡◌, refl, ap}
use mathlib.Core.Logic.{◌↔◌, ◌⊎◌, inl, inr}
use mathlib.Core.Bool.{Bool, true}
use mathlib.Core.List.{List, [], ◌∷◌, ◌++◌, map, Memᴰ}
use native.Mathlib.Omega.{arith}
use vstutils.Base.Lists.{any, keep}
use vstutils.Base.Tests.{Bool-cases, eqb, eqb_iff, eqb_refl}

module _ {ℓ} {A : Type ℓ} where
  pub Mem-append_left : (x : A) (xs ys : List A) → Memᴰ x xs → Memᴰ x (xs ++ ys)
  Mem-append_left x [] ys m = elim m [ ]
  Mem-append_left x (y ∷ xs) ys (Memᴰ.head e) = Memᴰ.head e
  Mem-append_left x (y ∷ xs) ys (Memᴰ.tail m) = Memᴰ.tail (Mem-append_left x xs ys m)

  pub Mem-append_right : (x : A) (xs ys : List A) → Memᴰ x ys → Memᴰ x (xs ++ ys)
  Mem-append_right x [] ys m = m
  Mem-append_right x (y ∷ xs) ys m = Memᴰ.tail (Mem-append_right x xs ys m)

  pub Mem_of_append : (x : A) (xs ys : List A) → Memᴰ x (xs ++ ys) → Memᴰ x xs ⊎ Memᴰ x ys
  Mem_of_append x [] ys m = inr m
  Mem_of_append x (y ∷ xs) ys (Memᴰ.head e) = inl (Memᴰ.head e)
  Mem_of_append x (y ∷ xs) ys (Memᴰ.tail m) = elim (Mem_of_append x xs ys m) [
    | inl l ↦ inl (Memᴰ.tail l)
    | inr r ↦ inr r
  ]

  module _ (p : A → Bool) where
    pub Mem-keep : (x : A) (xs : List A) → Memᴰ x xs → p x ≡ true → Memᴰ x (keep p xs)
    Mem-keep x [] m h = elim m [ ]
    Mem-keep x (y ∷ xs) (Memᴰ.head e) h = rw (rw e at h) (Memᴰ.head e)
    Mem-keep x (y ∷ xs) (Memᴰ.tail m) h = elim (Bool-cases (p y)) [
      | inl k ↦ rw k (Memᴰ.tail (Mem-keep x xs m h))
      | inr k ↦ rw k (Mem-keep x xs m h)
    ]

    Mem_of_head :
        (x y : A) (xs : List A)
        → p y ≡ true
        → Memᴰ x (y ∷ keep p xs)
        → (Memᴰ x (keep p xs) → Memᴰ x xs × (p x ≡ true))
        → Memᴰ x (y ∷ xs) × (p x ≡ true)
    Mem_of_head x y xs k (Memᴰ.head e) ih = (Memᴰ.head e, rw e k)
    Mem_of_head x y xs k (Memᴰ.tail m) ih = let (a, b) = ih m in (Memᴰ.tail a, b)

    pub Mem_of_keep : (x : A) (xs : List A) → Memᴰ x (keep p xs) → Memᴰ x xs × (p x ≡ true)
    Mem_of_keep x [] m = elim m [ ]
    Mem_of_keep x (y ∷ xs) m = elim (Bool-cases (p y)) [
      | inl k ↦ Mem_of_head x y xs k (rw k at m) (Mem_of_keep x xs)
      | inr k ↦ let (a, b) = Mem_of_keep x xs (rw k at m) in (Memᴰ.tail a, b)
    ]

    pub any_of_Mem : (x : A) (xs : List A) → Memᴰ x xs → p x ≡ true → any p xs ≡ true
    any_of_Mem x [] m h = elim m [ ]
    any_of_Mem x (y ∷ xs) (Memᴰ.head e) h = rw (rw e at h) refl
    any_of_Mem x (y ∷ xs) (Memᴰ.tail m) h = ground (arith, any_of_Mem x xs m h)

    pub Mem_of_any : (xs : List A) → any p xs ≡ true → (x : A) × Memᴰ x xs × (p x ≡ true)
    Mem_of_any [] h = cc
    Mem_of_any (y ∷ xs) h = elim (Bool-cases (p y)) [
      | inl k ↦ (y, Memᴰ.head refl, k)
      | inr k ↦ let (x, m, q) = Mem_of_any xs (rw k at h) in (x, Memᴰ.tail m, q)
    ]

module _ {ℓ κ} {A : Type ℓ} {B : Type κ} (f : A → B) where
  pub Mem-map : (x : A) (xs : List A) → Memᴰ x xs → Memᴰ (f x) (map f xs)
  Mem-map x [] m = elim m [ ]
  Mem-map x (y ∷ xs) (Memᴰ.head e) = Memᴰ.head (ap f e)
  Mem-map x (y ∷ xs) (Memᴰ.tail m) = Memᴰ.tail (Mem-map x xs m)

  pub Mem_of_map : (y : B) (xs : List A) → Memᴰ y (map f xs) → (x : A) × Memᴰ x xs × (y ≡ f x)
  Mem_of_map y [] m = elim m [ ]
  Mem_of_map y (x ∷ xs) (Memᴰ.head e) = (x, Memᴰ.head refl, e)
  Mem_of_map y (x ∷ xs) (Memᴰ.tail m) = let (z, n, e) = Mem_of_map y xs m in (z, Memᴰ.tail n, e)

-- `n in numbers`
abbrev pub has : ℕ → List ℕ → Bool
has n ns = any (eqb n) ns

pub has_iff : (n : ℕ) (ns : List ℕ) → (has n ns ≡ true) ↔ Memᴰ n ns
has_iff n ns = (
  λ h. let (x, m, e) = Mem_of_any (eqb n) ns h in rw ((eqb_iff n x).0 e) m,
  λ m. any_of_Mem (eqb n) n ns m (eqb_refl n),
)
