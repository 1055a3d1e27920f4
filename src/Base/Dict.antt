-- ===== src/Base/Dict.antt =====
-- A Python dict as an association list in insertion order: `d.get(k)`, `d[k] = v` and `d.pop(k, None)`.
use mathlib.Core.Path.{◌≡◌, refl, sym}
use mathlib.Core.List.{List, [], ◌∷◌, ◌++◌, append-nil}
use mathlib.Core.Option.{Option, none, some}
use native.Mathlib.Omega.{arith}
use mathlib.Core.Logic.{◌⊎◌, inl, inr}
use mathlib.Core.Bool.{Bool, false}
use vstutils.Base.Tests.{if◌then◌else◌, Bool-cases}
use vstutils.Base.Lists.{keep}
use vstutils.Base.Equality.{Eq, ◌==◌, beq_refl}

abbrev pub Assoc {ℓ} : Type ℓ → Type ℓ → Type ℓ
Assoc K V = List (K × V)

abbrev pub or_else {ℓ} : {A : Type ℓ} → Option A → Option A → Option A
or_else (some a) o = some a
or_else none o = o

module _ {ℓ} {K V : Type ℓ} ⦃e : Eq K⦄ where
  unfoldable pub lookup : K → Assoc K V → Option V
  lookup k [] = none
  lookup k ((j, v) ∷ l) = if j == k then some v else lookup k l

  -- An existing key keeps its place.
  unfoldable pub insert : K → V → Assoc K V → Assoc K V
  insert k v [] = (k, v) ∷ []
  insert k v ((j, w) ∷ l) = if j == k then (k, v) ∷ l else (j, w) ∷ insert k v l

  unfoldable pub remove : K → Assoc K V → Assoc K V
  remove k [] = []
  remove k ((j, v) ∷ l) = let rest = remove k l in if j == k then rest else (j, v) ∷ rest

  pub lookup-insert :
      (k j : K) (v : V) (l : Assoc K V)
      → lookup j (insert k v l) ≡ (if k == j then some v else lookup j l)
  unfolding lookup insert
  lookup-insert k j v [] = refl
  lookup-insert k j v ((i, w) ∷ l) =
      ground (arith, e.is_same_iff k j, e.is_same_iff i k, e.is_same_iff i j, lookup-insert k j v l)

  pub lookup-remove :
      (k j : K) (l : Assoc K V) → lookup j (remove k l) ≡ (if k == j then none else lookup j l)
  unfolding lookup remove
  lookup-remove k j [] = ground arith
  lookup-remove k j ((i, v) ∷ l) =
      ground (arith, lookup-remove k j l, e.is_same_iff i k, e.is_same_iff i j, e.is_same_iff k j)

  -- `d.update(e)`
  unfoldable pub merge : Assoc K V → Assoc K V → Assoc K V
  merge old [] = old
  merge old ((k, v) ∷ new) = merge (insert k v old) new

  -- Every name of the second dict is new when it comes.
  abbrev pub IsApart : Assoc K V → Assoc K V → Type ℓ
  IsApart old [] = Unit
  IsApart old ((k, v) ∷ new) = (lookup k old ≡ none) × IsApart (insert k v old) new

  insert_new :
      (k : K) (v : V) (old new : Assoc K V)
      → lookup k old ≡ none
      → insert k v old ++ new ≡ old ++ (k, v) ∷ new
  unfolding lookup insert
  insert_new k v [] new h = refl
  insert_new k v ((j, w) ∷ old) new h = ground (arith, insert_new k v old new)

  pub merge_apart : (old new : Assoc K V) → IsApart old new → merge old new ≡ old ++ new
  unfolding merge
  merge_apart old [] h = sym (append-nil old)
  merge_apart old ((k, v) ∷ new) h =
      rw (merge_apart (insert k v old) new h.1) (insert_new k v old new h.0)

  -- Each key has one entry.
  abbrev pub IsDict : Assoc K V → Type ℓ
  IsDict [] = Unit
  IsDict ((k, v) ∷ l) = (lookup k l ≡ none) × IsDict l

  pub IsDict-insert : (k : K) (v : V) (l : Assoc K V) → IsDict l → IsDict (insert k v l)
  unfolding lookup insert
  IsDict-insert k v [] h = (refl, tt)
  IsDict-insert k v ((j, w) ∷ l) h = elim (Bool-cases (j == k)) [
    | inl same ↦ rw same (rw ((e.is_same_iff j k).0 same) at h.0, h.1)
    | inr other ↦
        rw other (rw (lookup-insert k j v l, apart k j other) h.0, IsDict-insert k v l h.1)
  ]
    where
      apart : (k j : K) → (j == k) ≡ false → (k == j) ≡ false
      apart k j h = ground (arith, e.is_same_iff k j, e.is_same_iff j k)

  pub lookup-append :
      (k : K) (l m : Assoc K V) → lookup k (l ++ m) ≡ or_else (lookup k l) (lookup k m)
  unfolding lookup
  lookup-append k [] m = refl
  lookup-append k ((j, v) ∷ l) m = ground (arith, lookup-append k l m)

  pub lookup-keep :
      (p : K → Bool) (k : K) (l : Assoc K V)
      → lookup k (keep (λ r. p r.0) l) ≡ (if p k then lookup k l else none)
  unfolding lookup
  lookup-keep p k [] = ground arith
  lookup-keep p k ((j, v) ∷ l) = ground (arith, lookup-keep p k l, e.is_same_iff j k)

  pub lookup-keep-none :
      (p : K × V → Bool) (k : K) (l : Assoc K V) → lookup k l ≡ none → lookup k (keep p l) ≡ none
  unfolding lookup
  lookup-keep-none p k [] h = refl
  lookup-keep-none p k ((j, v) ∷ l) h = ground (arith, lookup-keep-none p k l)

  pub IsDict-keep : (p : K × V → Bool) (l : Assoc K V) → IsDict l → IsDict (keep p l)
  IsDict-keep p [] h = tt
  IsDict-keep p ((j, v) ∷ l) h = elim (Bool-cases (p (j, v))) [
    | inl k ↦ rw k (lookup-keep-none p j l h.0, IsDict-keep p l h.1)
    | inr k ↦ rw k (IsDict-keep p l h.1)
  ]

  pub lookup-none_tail :
      (k j : K) (v : V) (l : Assoc K V)
      → lookup k ((j, v) ∷ l) ≡ none
      → ((j == k) ≡ false) × (lookup k l ≡ none)
  unfolding lookup
  lookup-none_tail k j v l h = elim (Bool-cases (j == k)) [
    | inl same ↦ let f = rw same at h in cc
    | inr other ↦ (other, rw other at h)
  ]

  IsDict_tail :
      (k j : K) (v : V) (l m : Assoc K V)
      → (lookup k ((j, v) ∷ l) ≡ none) ⊎ (lookup k m ≡ none)
      → (lookup k l ≡ none) ⊎ (lookup k m ≡ none)
  unfolding lookup
  IsDict_tail k j v l m (inr h) = inr h
  IsDict_tail k j v l m (inl h) = elim (Bool-cases (j == k)) [
    | inl same ↦ let f = rw same at h in cc
    | inr other ↦ inl (rw other at h)
  ]

  new_head :
      (j : K) (v : V) (l m : Assoc K V)
      → lookup j l ≡ none
      → (lookup j ((j, v) ∷ l) ≡ none) ⊎ (lookup j m ≡ none)
      → lookup j (l ++ m) ≡ none
  unfolding lookup
  new_head j v l m h (inl k) = let f = rw (beq_refl j) at k in cc
  new_head j v l m h (inr k) = rw (lookup-append j l m, h, k) refl

  pub IsDict-append :
      (l m : Assoc K V)
      → IsDict l
      → IsDict m
      → ((k : K) → (lookup k l ≡ none) ⊎ (lookup k m ≡ none))
      → IsDict (l ++ m)
  IsDict-append [] m h k apart = k
  IsDict-append ((j, v) ∷ l) m h k apart = (
    new_head j v l m h.0 (apart j),
    IsDict-append l m h.1 k (λ i. IsDict_tail i j v l m (apart i)),
  )
