-- ===== src/Notify/Messages.antt =====
-- vstutils/models/cent_notify.py: what becomes of the queue when it is sent.
use vstutils.Base.{
  ◌≡◌, ◌⊎◌, inl, inr, refl, sym, true, false, List, [], ◌∷◌, ◌++◌, arith, Eq, Bool-cases,
}
use mathlib.Core.Path.{subst}
use mathlib.Core.List.{append-nil}
use vstutils.Base.Text.{Text}
use vstutils.Notify.{
  Site, Notificator, Publish, Client, synchronous, asynchronous, deliver, asend, hand_over,
  asend_objects, send_objects, send,
}
use vstutils.Notify.Merging.{keep_last, requests, prep_messages_lem}

module _ {D R : Type 0} (site : Site D R) ⦃e : Eq (Publish D)⦄ where
  -- The batches that a queue makes: none if it has no label.
  abbrev pub batches : Client → List (Publish D) → List (Client × List (Publish D))
  batches c [] = []
  batches c (r ∷ rs) = (c, r ∷ rs) ∷ []

  -- Nothing was sent and nothing is lost.
  abbrev pub IsKept : Notificator D → Notificator D → Type 0
  IsKept n after =
      (after ≡ n)
      × ((n.queue ≡ []) ⊎ ((site.get_client synchronous ≡ false) × (site.in_loop ≡ true)))

  -- The queue went to a client as one batch.
  abbrev pub IsHandedOver : Notificator D → Notificator D → Type 0
  IsHandedOver n after =
      (c : Client) × ((site.get_client c ≡ true) ⊎ (n.cent_client ≡ true))
      × (after.queue ≡ [])
      × (after.sent ≡ n.sent ++ batches c (keep_last (requests site n.label n.queue)))

  -- There is no client, and the queue is lost.
  abbrev pub IsLost : Notificator D → Notificator D → Type 0
  IsLost n after =
      (site.get_client synchronous ≡ false)
      × (site.get_client asynchronous ≡ false)
      × (n.cent_client ≡ false)
      × (after.queue ≡ [])
      × (after.sent ≡ n.sent)

  hand_over-sent :
      (c : Client) (rs : List (Publish D)) (n : Notificator D)
      → ((hand_over site c rs n).1.queue ≡ n.queue)
        × ((hand_over site c rs n).1.sent ≡ n.sent ++ batches c rs)
  unfolding hand_over
  hand_over-sent c [] n = (refl, sym (append-nil n.sent))
  hand_over-sent c (r ∷ rs) n = (refl, refl)

  deliver-sent :
      (c : Client) (objects : List (List Text × D)) (n : Notificator D)
      → ((deliver site c objects n).1.queue ≡ n.queue)
        × ((deliver site c objects n).1.sent
            ≡ n.sent ++ batches c (keep_last (requests site n.label objects)))
  unfolding deliver
  deliver-sent c objects n =
      rw (prep_messages_lem site n.label objects)
        (hand_over-sent c (keep_last (requests site n.label objects)) n)

  -- What `asend` does with a queue that is not empty.
  asend_objects_lem :
      (o : List Text × D) (os : List (List Text × D)) (n : Notificator D)
      → site.get_client synchronous ≡ false
      → IsHandedOver
          (record n { queue = o ∷ os })
          (asend_objects site (o ∷ os) (record n { queue = [] })).1
        ⊎ IsLost
            (record n { queue = o ∷ os })
            (asend_objects site (o ∷ os) (record n { queue = [] })).1
  unfolding asend_objects
  asend_objects_lem o os n h = elim (Bool-cases n.cent_client) [
    | inl c ↦ inl (
      asynchronous,
      inr c,
      rw c (deliver-sent asynchronous (o ∷ os) (record n { queue = []; cent_client = true })).0,
      rw c (deliver-sent asynchronous (o ∷ os) (record n { queue = []; cent_client = true })).1,
    )
    | inr c ↦ elim (Bool-cases (site.get_client asynchronous)) [
      | inl a ↦ inl (
        asynchronous,
        inl a,
        rw (c, a)
            (deliver-sent asynchronous (o ∷ os) (record n { queue = []; cent_client = true })).0,
        rw (c, a)
            (deliver-sent asynchronous (o ∷ os) (record n { queue = []; cent_client = true })).1,
      )
      | inr a ↦ inr (h, a, c, rw (c, a) refl, rw (c, a) refl)
    ]
  ]

  send_objects-asend :
      (o : List Text × D) (os : List (List Text × D)) (n : Notificator D)
      → site.get_client synchronous ≡ false
      → site.in_loop ≡ false
      → (send_objects site (o ∷ os) (record n { queue = [] })).1
        ≡ (asend_objects site (o ∷ os) (record n { queue = [] })).1
  unfolding send_objects asend
  send_objects-asend o os n c l = ground (arith, c, l)

  send_objects_lem :
      (objects : List (List Text × D)) (n : Notificator D)
      → (let before : Notificator D = record n { queue = objects } in
          let after = (send_objects site objects (record n { queue = [] })).1 in
          IsKept before after ⊎ (IsHandedOver before after ⊎ IsLost before after))
  unfolding send_objects asend
  send_objects_lem [] n = inl (refl, inl refl)
  send_objects_lem (o ∷ os) n = elim (Bool-cases (site.get_client synchronous)) [
    | inl c ↦ inr (
        inl (
          synchronous,
          inl c,
          rw c (deliver-sent synchronous (o ∷ os) (record n { queue = [] })).0,
          rw c (deliver-sent synchronous (o ∷ os) (record n { queue = [] })).1,
        ))
    | inr c ↦ elim (Bool-cases site.in_loop) [
      | inl l ↦ inl (rw (c, l) refl, inr (c, l))
      | inr l ↦ inr (
          subst
            (λ r.
              IsHandedOver (record n { queue = o ∷ os }) r ⊎ IsLost (record n { queue = o ∷ os }) r)
            (sym (send_objects-asend o os n c l)) (asend_objects_lem o os n c))
    ]
  ]

  -- Sending either changes nothing, where the queue is empty or neither a synchronous client nor a
  -- free event loop is there; or gives a client one batch of the requests of the queue, and empties it;
  -- or, where there is no client of either kind, empties the queue without sending.
  pub send_lem :
      (n : Notificator D)
      → IsKept n (send site n).1 ⊎ (IsHandedOver n (send site n).1 ⊎ IsLost n (send site n).1)
  unfolding send
  send_lem n = send_objects_lem n.queue n
