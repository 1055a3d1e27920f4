-- ===== src/Notify/Merging.antt =====
-- vstutils/models/cent_notify.py: how the queue is merged into one batch.
use vstutils.Base.{
  ◌≡◌, inl, inr, refl, sym, ap, ◌∙◌, false, List, [], ◌∷◌, ◌++◌, Option, arith, if◌then◌else◌, Eq,
  ◌==◌, Bool-cases,
}
use mathlib.Core.List.{append_assoc, append-nil}
use vstutils.Base.Text.{Text}
use vstutils.Notify.Distinct.{
  Distinct, is_in_later, Distinct-remove_first, is_in-remove_self, Distinct-snoc,
}
use vstutils.Notify.{
  Site, Publish, is_in, remove_first, publish, prep_labels, prep_messages, get_subscription_channel,
  chosen,
}

module _ {A : Type 0} ⦃e : Eq A⦄ where
  -- Each entry once, where it stands last.
  unfoldable pub keep_last : List A → List A
  keep_last [] = []
  keep_last (x ∷ xs) = let rest = keep_last xs in if is_in x xs then rest else x ∷ rest

  is_in-remove_first :
      (x y : A) (xs ys : List A)
      → (x == y) ≡ false
      → is_in x (remove_first y xs ++ ys) ≡ is_in x (xs ++ ys)
  unfolding remove_first
  is_in-remove_first x y [] ys h = refl
  is_in-remove_first x y (z ∷ xs) ys h = ground (
    arith,
    e.is_same_iff z y,
    e.is_same_iff z x,
    e.is_same_iff x y,
    is_in-remove_first x y xs ys h,
  )

  keep_last-remove_first :
      (x : A) (xs ys : List A) → keep_last (remove_first x xs ++ x ∷ ys) ≡ keep_last (xs ++ x ∷ ys)
  unfolding keep_last remove_first
  keep_last-remove_first x [] ys = refl
  keep_last-remove_first x (z ∷ xs) ys = elim (Bool-cases (z == x)) [
    | inl h ↦ rw (h, is_in_later z x xs ys h) refl
    | inr h ↦ rw (h, is_in-remove_first z x xs (x ∷ ys) h, keep_last-remove_first x xs ys) refl
  ]

  keep_last_same : (xs : List A) → Distinct xs → keep_last xs ≡ xs
  unfolding keep_last
  keep_last_same [] d = refl
  keep_last_same (x ∷ xs) d = rw d.0 (ap (◌∷◌ x) (keep_last_same xs d.1))

module _ {D R : Type 0} (site : Site D R) ⦃e : Eq (Publish D)⦄ where
  -- A request for each label of each message, in the order of the queue.
  abbrev pub label_requests : Option Text → D → List Text → List (Publish D)
  label_requests provided d [] = []
  label_requests provided d (l ∷ ls) =
      record { channel = get_subscription_channel site (chosen site provided l); payload = d }
      ∷ label_requests provided d ls

  abbrev pub requests : Option Text → List (List Text × D) → List (Publish D)
  requests provided [] = []
  requests provided ((labels, d) ∷ objects) =
      label_requests provided d labels ++ requests provided objects

  keep_last-publish :
      (r : Publish D) (rs more : List (Publish D))
      → keep_last (publish site r rs ++ more) ≡ keep_last (rs ++ r ∷ more)
  unfolding publish
  keep_last-publish r rs more = elim (Bool-cases (is_in r rs)) [
    | inl h ↦
        rw (h, append_assoc (remove_first r rs) (r ∷ []) more) (keep_last-remove_first r rs more)
    | inr h ↦ rw (h, append_assoc rs (r ∷ []) more) refl
  ]

  keep_last-prep_labels :
      (provided : Option Text) (d : D) (ls : List Text) (rs more : List (Publish D))
      → keep_last (prep_labels site provided d ls rs ++ more)
        ≡ keep_last (rs ++ (label_requests provided d ls ++ more))
  unfolding prep_labels
  keep_last-prep_labels provided d [] rs more = refl
  keep_last-prep_labels provided d (l ∷ ls) rs more =
      keep_last-prep_labels provided d ls _ more
      ∙ keep_last-publish
          (record { channel = get_subscription_channel site (chosen site provided l); payload = d })
          rs (label_requests provided d ls ++ more)

  keep_last-prep_messages :
      (provided : Option Text) (objects : List (List Text × D)) (rs more : List (Publish D))
      → keep_last (prep_messages site provided objects rs ++ more)
        ≡ keep_last (rs ++ (requests provided objects ++ more))
  unfolding prep_messages
  keep_last-prep_messages provided [] rs more = refl
  keep_last-prep_messages provided ((labels, d) ∷ objects) rs more =
      keep_last-prep_messages provided objects (prep_labels site provided d labels rs) more
      ∙ keep_last-prep_labels provided d labels rs (requests provided objects ++ more)
      ∙ ap (λ l. keep_last (rs ++ l)) (sym (append_assoc (label_requests provided d labels) _ more))

  Distinct-publish :
      (r : Publish D) (rs : List (Publish D)) → Distinct rs → Distinct (publish site r rs)
  unfolding publish
  Distinct-publish r rs d = elim (Bool-cases (is_in r rs)) [
    | inl h ↦ rw h (
        Distinct-snoc r (remove_first r rs) (Distinct-remove_first r rs d)
          (is_in-remove_self r rs d))
    | inr h ↦ rw h (Distinct-snoc r rs d h)
  ]

  Distinct-prep_labels :
      (provided : Option Text) (d : D) (ls : List Text) (rs : List (Publish D))
      → Distinct rs
      → Distinct (prep_labels site provided d ls rs)
  unfolding prep_labels
  Distinct-prep_labels provided d [] rs h = h
  Distinct-prep_labels provided d (l ∷ ls) rs h =
      Distinct-prep_labels provided d ls _ (Distinct-publish _ rs h)

  Distinct-prep_messages :
      (provided : Option Text) (objects : List (List Text × D)) (rs : List (Publish D))
      → Distinct rs
      → Distinct (prep_messages site provided objects rs)
  unfolding prep_messages
  Distinct-prep_messages provided [] rs h = h
  Distinct-prep_messages provided ((labels, d) ∷ objects) rs h =
      Distinct-prep_messages provided objects _ (Distinct-prep_labels provided d labels rs h)

  -- The batch holds one request for each label of each queued message, or for the label of the
  -- notificator, in the order of the queue; of equal ones the last.
  pub prep_messages_lem :
      (provided : Option Text) (objects : List (List Text × D))
      → prep_messages site provided objects [] ≡ keep_last (requests provided objects)
  prep_messages_lem provided objects =
      sym (keep_last_same _ (Distinct-prep_messages provided objects [] tt))
      ∙ ap keep_last (sym (append-nil (prep_messages site provided objects [])))
      ∙ keep_last-prep_messages provided objects [] []
      ∙ ap keep_last (append-nil (requests provided objects))
