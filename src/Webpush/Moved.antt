-- ===== src/Webpush/Moved.antt =====
-- vstutils/webpush/utils.py: the endpoints after `change_subscription`.
use vstutils.Base.{
  ◌≡◌, refl, sym, true, false, not, ◌&&◌, [], ◌∷◌, map, Option, none, some, ◌==◌, ◌⊎◌, inl, inr,
  text_eq, text_beq_iff, Assoc, lookup, IsDict, Bool-cases, beq_refl, beq_sym, lookup-none_tail,
  false_ne_true,
}
use vstutils.Base.Text.{Text}
use vstutils.Webpush.Tables.{Device, is_some, moved}

module _ {D : Type 0} where
  module _ (old endpoint : Text) (content : D) where
    moved_head :
        (k j : Text) (d : Device D) (l : Assoc Text (Device D))
        → (j == old) ≡ true
        → ((k == endpoint) ≡ true → lookup old ((j, d) ∷ l) ≡ none)
        → (k == endpoint) ≡ false
    unfolding lookup
    moved_head k j d l same apart = elim (Bool-cases (k == endpoint)) [
      | inl new ↦ let f = rw same at (apart new) in cc
      | inr other ↦ other
    ]

    lookup-moved :
        (k : Text) (l : Assoc Text (Device D))
        → lookup k l ≡ none
        → ((k == endpoint) ≡ true → lookup old l ≡ none)
        → lookup k (map (moved old endpoint content) l) ≡ none
    unfolding lookup
    lookup-moved k [] h apart = refl
    lookup-moved k ((j, d) ∷ l) h apart =
        let (other, none_left) = lookup-none_tail k j d l h in
        elim (Bool-cases (j == old)) [
          | inl same ↦
              let new = moved_head k j d l same apart in
              rw (same, beq_sym endpoint k, new)
                (lookup-moved k l none_left (λ e. absurd (false_ne_true new e)))
          | inr not_old ↦
              rw (not_old, other)
                (lookup-moved k l none_left
                  (λ e. let (x, tail) = lookup-none_tail old j d l (apart e) in tail))
        ]

    -- The new endpoint is free, or the old one is not there, or both are one.
    abbrev pub IsFree : Assoc Text (Device D) → Type 0
    IsFree l = (old ≡ endpoint) ⊎ ((lookup old l ≡ none) ⊎ (lookup endpoint l ≡ none))

    IsFree-tail :
        (j : Text) (d : Device D) (l : Assoc Text (Device D)) → IsFree ((j, d) ∷ l) → IsFree l
    IsFree-tail j d l (inl e) = inl e
    IsFree-tail j d l (inr (inl h)) = let (x, tail) = lookup-none_tail old j d l h in inr (inl tail)
    IsFree-tail j d l (inr (inr h)) =
        let (x, tail) = lookup-none_tail endpoint j d l h in inr (inr tail)

    -- After the old endpoint, the new one does not come.
    new_free :
        (j : Text) (d : Device D) (l : Assoc Text (Device D))
        → j ≡ old
        → lookup j l ≡ none
        → IsFree ((j, d) ∷ l)
        → lookup endpoint l ≡ none
    unfolding lookup
    new_free j d l same h (inl e) = rw (sym e, sym same) h
    new_free j d l same h (inr (inl k)) =
        let (x, tail) = lookup-none_tail old j d l k in let f = rw (same, beq_refl old) at x in cc
    new_free j d l same h (inr (inr k)) = let (x, tail) = lookup-none_tail endpoint j d l k in tail

    old_gone :
        (j : Text) (d : Device D) (l : Assoc Text (Device D))
        → (j == old) ≡ false
        → IsFree ((j, d) ∷ l)
        → (j == endpoint) ≡ true
        → lookup old l ≡ none
    old_gone j d l other (inl e) new = absurd (false_ne_true other (rw e new))
    old_gone j d l other (inr (inl k)) new = let (x, tail) = lookup-none_tail old j d l k in tail
    old_gone j d l other (inr (inr k)) new =
        let (x, tail) = lookup-none_tail endpoint j d l k in absurd (false_ne_true x new)

    pub moved-IsDict :
        (l : Assoc Text (Device D))
        → IsDict l
        → IsFree l
        → IsDict (map (moved old endpoint content) l)
    moved-IsDict [] h f = tt
    moved-IsDict ((j, d) ∷ l) h f =
        let rest = moved-IsDict l h.1 (IsFree-tail j d l f) in
        elim (Bool-cases (j == old)) [
          | inl same ↦
              let e = (text_beq_iff j old).0 same in
              rw same (lookup-moved endpoint l (new_free j d l e h.0 f) (λ x. rw (sym e) h.0), rest)
          | inr other ↦ rw other (lookup-moved j l h.0 (old_gone j d l other f), rest)
        ]

    pub taken_or_IsFree :
        (l : Assoc Text (Device D))
        → (not (old == endpoint) && (is_some (lookup old l) && is_some (lookup endpoint l))) ≡ false
        → IsFree l
    taken_or_IsFree l h = elim (Bool-cases (old == endpoint)) [
      | inl e ↦ inl ((text_beq_iff old endpoint).0 e)
      | inr e ↦ inr (one_none (lookup old l) (lookup endpoint l) (rw e at h))
    ]
      where
        one_none :
            (a b : Option (Device D)) → (is_some a && is_some b) ≡ false → (a ≡ none) ⊎ (b ≡ none)
        one_none none b h = inl refl
        one_none (some a) none h = inr refl
        one_none (some a) (some b) h = cc
