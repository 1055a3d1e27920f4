-- ===== src/Notify/Signals.antt =====
-- vstutils/models/cent_notify.py: the handler's connections to the signals.
use vstutils.Base.{
  false_ne_true, ◌≡◌, refl, sym, ap, ◌∙◌, true, false, List, [], ◌∷◌, ◌++◌, none, some, ℕ, zero,
  suc, ◌+◌, ◌≤◌, arith, Eq, ◌==◌, length, get_elem?, Bool-cases, inl, inr, length-append, beq_refl,
}
use mathlib.Core.Path.{subst}
use mathlib.Core.List.{append_assoc, append-nil}
use vstutils.Notify.{
  Signal, signal_eq, Site, Notificator, is_in, remove_first, connect_signal, disconnect_signal,
  disconnect_from, disconnect_all,
}
use vstutils.Notify.Distinct.{Distinct, not_same, is_in_later, Distinct-remove_first}

-- The second entry, the fourth, and so on.
unfoldable pub every_other : {A : Type 0} → List A → List A
every_other [] = []
every_other (x ∷ []) = []
every_other (x ∷ y ∷ ys) = y ∷ every_other ys

module _ {A : Type 0} ⦃e : Eq A⦄ where
  is_in-append_head : (x : A) (pre rest : List A) → Distinct (pre ++ x ∷ rest) → is_in x pre ≡ false
  is_in-append_head x [] rest d = refl
  is_in-append_head x (y ∷ pre) rest d =
      rw (not_same y x pre rest d.0) (is_in-append_head x pre rest d.1)

  remove_first-append :
      (x : A) (pre rest : List A)
      → is_in x pre ≡ false
      → remove_first x (pre ++ x ∷ rest) ≡ pre ++ rest
  unfolding remove_first
  remove_first-append x [] rest d = rw (beq_refl x) refl
  remove_first-append x (y ∷ pre) rest d = elim (Bool-cases (y == x)) [
    | inl h ↦ absurd (false_ne_true d (ground (arith, h)))
    | inr h ↦ rw h (ap (◌∷◌ y) (remove_first-append x pre rest (ground (arith, h, d))))
  ]

  is_in_here : (x : A) (pre rest : List A) → is_in x (pre ++ x ∷ rest) ≡ true
  is_in_here x pre rest = is_in_later x x pre rest (beq_refl x)

  get_elem?-append : (pre rest : List A) (x : A) → get_elem? (pre ++ x ∷ rest) (length pre) ≡ some x
  get_elem?-append [] rest x = refl
  get_elem?-append (y ∷ pre) rest x = get_elem?-append pre rest x

  get_elem?-beyond : (xs : List A) (i : ℕ) → length xs ≤ i → get_elem? xs i ≡ none
  get_elem?-beyond [] i h = refl
  get_elem?-beyond (x ∷ xs) zero h = ground arith
  get_elem?-beyond (x ∷ xs) (suc i) h = get_elem?-beyond xs i (omega (arith, h))

module _ {D R : Type 0} (site : Site D R) where
  -- A round of the loop at the first entry that it has not passed.
  disconnect_signal-append :
      (s : Signal) (pre rest : List Signal) (n : Notificator D)
      → n.signals ≡ pre ++ s ∷ rest
      → Distinct (pre ++ s ∷ rest)
      → (disconnect_signal site s n).signals ≡ pre ++ rest
  unfolding disconnect_signal
  disconnect_signal-append s pre rest n e d =
      rw (e, is_in_here s pre rest)
        (remove_first-append s pre rest (is_in-append_head s pre rest d))

  disconnect_from-stop :
      (fuel index : ℕ) (n : Notificator D)
      → length n.signals ≤ index
      → disconnect_from site fuel index n ≡ n
  unfolding disconnect_from
  disconnect_from-stop zero index n h = refl
  disconnect_from-stop (suc fuel) index n h =
      rw (get_elem?-beyond n.signals index h, disconnect_from) refl

  disconnect_from-step :
      (s : Signal) (pre rest : List Signal) (fuel : ℕ) (n : Notificator D)
      → n.signals ≡ pre ++ s ∷ rest
      → disconnect_from site (suc fuel) (length pre) n
        ≡ disconnect_from site fuel (length pre + 1) (disconnect_signal site s n)
  unfolding disconnect_from
  disconnect_from-step s pre rest fuel n e =
      rw (ap (λ l. get_elem? l (length pre)) e ∙ get_elem?-append pre rest s, disconnect_from) refl

  disconnect_from_lem :
      (rest pre : List Signal) (fuel : ℕ) (n : Notificator D)
      → n.signals ≡ pre ++ rest
      → Distinct (pre ++ rest)
      → length rest ≤ fuel
      → (disconnect_from site fuel (length pre) n).signals ≡ pre ++ every_other rest
  unfolding every_other
  disconnect_from_lem [] pre fuel n e d h =
      ap (λ m. m.signals)
        (disconnect_from-stop fuel (length pre) n (omega (arith, ap length (e ∙ append-nil pre))))
      ∙ e
  disconnect_from_lem (s ∷ []) pre zero n e d h = ground arith
  disconnect_from_lem (s ∷ []) pre (suc fuel) n e d h =
      let after = disconnect_signal-append s pre [] n e d in
      ap (λ m. m.signals) (disconnect_from-step s pre [] fuel n e)
      ∙ ap (λ m. m.signals)
          (disconnect_from-stop fuel (length pre + 1) (disconnect_signal site s n)
            (omega (arith, ap length (after ∙ append-nil pre))))
      ∙ after
  disconnect_from_lem (s ∷ t ∷ rest) pre zero n e d h = ground arith
  disconnect_from_lem (s ∷ t ∷ rest) pre (suc fuel) n e d h =
      let after = disconnect_signal-append s pre (t ∷ rest) n e d in
      let whole = append_assoc pre (t ∷ []) rest in
      ap (λ m. m.signals) (disconnect_from-step s pre (t ∷ rest) fuel n e)
      ∙ ap (λ i. (disconnect_from site fuel i (disconnect_signal site s n)).signals)
          (sym (length-append pre (t ∷ [])))
      ∙ disconnect_from_lem rest (pre ++ t ∷ []) fuel (disconnect_signal site s n)
          (after ∙ sym whole)
          (subst Distinct (sym whole) (
            subst Distinct
              (remove_first-append s pre (t ∷ rest) (is_in-append_head s pre (t ∷ rest) d))
              (Distinct-remove_first s _ d)))
          (omega (arith, h))
      ∙ append_assoc pre (t ∷ []) (every_other rest)

  -- After `disconnect_all` on a list without repeated signals, as connecting them leaves it, the second
  -- signal, the fourth, and so on are still there: the loop removes from the list that it runs over.
  pub disconnect_all_lem :
      (n : Notificator D)
      → Distinct n.signals
      → (disconnect_all site n).signals ≡ every_other n.signals
  unfolding disconnect_all
  disconnect_all_lem n d =
      disconnect_from_lem n.signals [] (length n.signals) n refl d (omega arith)

  -- Disconnecting a signal that was connected just before, and that the handler did not hear before
  -- that, gives back the notificator.
  pub disconnect-connect :
      (s : Signal) (n : Notificator D)
      → is_in s n.signals ≡ false
      → is_in s n.connected ≡ false
      → disconnect_signal site s (connect_signal site s n) ≡ n
  unfolding connect_signal disconnect_signal
  disconnect-connect s n h k =
      rw
        (
          h,
          is_in_here s n.signals [],
          remove_first-append s n.signals [] h,
          remove_first-append s n.connected [] k,
          append-nil n.signals,
          append-nil n.connected,
        )
        refl
