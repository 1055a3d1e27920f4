-- ===== src/Models/Deep/Sets.antt =====
-- The search finds just what is reached from the queryset.
use mathlib.Core.List.{Memᴰ}
use vstutils.Base.{
  ℕ, zero, suc, ◌≡◌, ◌≢◌, refl, ◌↔◌, ◌⊎◌, inl, inr, Bool, true, not, List, [], ◌∷◌, ◌++◌, some,
  arith, Bool-cases, Option-cases,
}
use vstutils.Base.Members.{
  has, has_iff, Mem_of_keep, Mem-keep, Mem_of_append, Mem-append_left, Mem-append_right,
}
use vstutils.Models.Deep.Defs.{Row, related, exclude, is_empty, deep_nested_ids, enough}
use vstutils.Models.Deep.Reach.{Edge, Reach, here, step, related_sound, related_complete}
use vstutils.Models.Deep.Ends.{AreRows, missing-le, deep_nested_ids_returns}

-- The ids collected and those still to be looked at hold every step from the ids collected.
abbrev IsHalfClosed : List Row → Bool → List ℕ → List ℕ → Type 0
IsHalfClosed t deep acc self = (x y : ℕ) → Memᴰ x acc → Edge t deep x y → Memᴰ y acc ⊎ Memᴰ y self

module _ (t : List Row) (deep : Bool) where
  -- How a round that gives a result has gone.
  rounds :
      (fuel : ℕ) (self acc ids : List ℕ)
      → deep_nested_ids (suc fuel) t deep self acc ≡ some ids
      → ((is_empty (related t deep (exclude self acc)) ≡ true) × (ids ≡ acc ++ exclude self acc))
        ⊎ ((rest : List ℕ) × (deep_nested_ids fuel t deep
                (related t deep (exclude self acc))
                (acc ++ exclude self acc)
              ≡ some rest)
            × (ids ≡ (acc ++ exclude self acc) ++ rest))
  unfolding deep_nested_ids
  rounds fuel self acc ids e = elim (Bool-cases (is_empty (related t deep (exclude self acc)))) [
    | inl done ↦ inl (done, let e' = (rw done at e) in cc)
    | inr more ↦
        elim (Option-cases (
          deep_nested_ids fuel t deep (related t deep (exclude self acc))
            (acc ++ exclude self acc))) [
              | inl r ↦ absurd (let e' = (rw (more, r) at e) in cc)
              | inr (rest, r) ↦ inr (rest, r, let e' = (rw (more, r) at e) in cc)
            ]
  ]

  collect-self : (self acc : List ℕ) (x : ℕ) → Memᴰ x self → Memᴰ x (acc ++ exclude self acc)
  collect-self self acc x m = elim (Bool-cases (has x acc)) [
    | inl old ↦ Mem-append_left x acc (exclude self acc) ((has_iff x acc).0 old)
    | inr new ↦
        Mem-append_right x acc (exclude self acc)
          (Mem-keep (λ x. not (has x acc)) x self m (rw new refl))
  ]

  IsHalfClosed-round :
      (self acc : List ℕ)
      → IsHalfClosed t deep acc self
      → IsHalfClosed t deep (acc ++ exclude self acc) (related t deep (exclude self acc))
  IsHalfClosed-round self acc h x y m e = elim (Mem_of_append x acc (exclude self acc) m) [
    | inl old ↦ elim (h x y old e) [
      | inl k ↦ inl (Mem-append_left y acc (exclude self acc) k)
      | inr k ↦ inl (collect-self self acc y k)
    ]
    | inr new ↦ inr (related_complete t deep (exclude self acc) x y new e)
  ]

  -- What is collected at the end contains what was given, and every step from it.
  record Collects (acc self ids : List ℕ) : Type 0 where
    keeps : (x : ℕ) → Memᴰ x acc → Memᴰ x ids
    starts : (x : ℕ) → Memᴰ x self → Memᴰ x ids
    closed : (x y : ℕ) → Memᴰ x ids → Edge t deep x y → Memᴰ y ids

  no_fuel : (self acc ids : List ℕ) → deep_nested_ids zero t deep self acc ≢ some ids
  unfolding deep_nested_ids
  no_fuel self acc ids e = cc

  nothing : (ids : List ℕ) (x : ℕ) → is_empty ids ≡ true → ¬ Memᴰ x ids
  nothing [] x e m = elim m [ ]
  nothing (y ∷ ids) x e m = cc

  last_round-Collects :
      (self acc : List ℕ)
      → IsHalfClosed t deep acc self
      → is_empty (related t deep (exclude self acc)) ≡ true
      → Collects acc self (acc ++ exclude self acc)
  last_round-Collects self acc h done = record {
    keeps = λ x m. Mem-append_left x acc (exclude self acc) m;
    starts = collect-self self acc;
    closed = λ x y m e. elim (IsHalfClosed-round self acc h x y m e) [
      | inl k ↦ k
      | inr k ↦ absurd (nothing (related t deep (exclude self acc)) y done k)
    ];
  }

  more_rounds-Collects :
      (self acc rest : List ℕ)
      → Collects (acc ++ exclude self acc) (related t deep (exclude self acc)) rest
      → Collects acc self ((acc ++ exclude self acc) ++ rest)
  more_rounds-Collects self acc rest c = record {
    keeps = λ x m. Mem-append_left x now rest (Mem-append_left x acc (exclude self acc) m);
    starts = λ x m. Mem-append_left x now rest (collect-self self acc x m);
    closed = λ x y m e.
        Mem-append_right y now rest
          (c.closed x y (elim (Mem_of_append x now rest m) [ inl k ↦ c.keeps x k | inr k ↦ k ]) e);
  }
    where
      now : List ℕ
      now = acc ++ exclude self acc

  all_rounds-Collects :
      (fuel : ℕ) (self acc ids : List ℕ)
      → IsHalfClosed t deep acc self
      → deep_nested_ids fuel t deep self acc ≡ some ids
      → Collects acc self ids
  all_rounds-Collects zero self acc ids h e = absurd (no_fuel self acc ids e)
  all_rounds-Collects (suc fuel) self acc ids h e = elim (rounds fuel self acc ids e) [
    | inl (done, same) ↦ rw same (last_round-Collects self acc h done)
    | inr (rest, r, same) ↦ rw same (
        more_rounds-Collects self acc rest (
          all_rounds-Collects fuel (related t deep (exclude self acc)) (acc ++ exclude self acc)
            rest (IsHalfClosed-round self acc h) r))
  ]

  from_start :
      (self ids : List ℕ) (y : ℕ)
      → ((x : ℕ) → Memᴰ x ids → Reach t deep self x)
      → Reach t deep ids y
      → Reach t deep self y
  from_start self ids y h (here m) = h y m
  from_start self ids y h (step {x} r e) = step (from_start self ids x h r) e

  collected_sound :
      (self acc : List ℕ) (x : ℕ)
      → Memᴰ x (acc ++ exclude self acc)
      → Memᴰ x acc ⊎ Reach t deep self x
  collected_sound self acc x m = elim (Mem_of_append x acc (exclude self acc) m) [
    | inl old ↦ inl old
    | inr new ↦ inr (here (Mem_of_keep (λ x. not (has x acc)) x self new).0)
  ]

  related_reached :
      (self acc : List ℕ) (x : ℕ) → Memᴰ x (related t deep (exclude self acc)) → Reach t deep self x
  related_reached self acc x m =
      let (u, new, e) = related_sound t deep (exclude self acc) x m in
      step (here (Mem_of_keep (λ x. not (has x acc)) u self new).0) e

  sound :
      (fuel : ℕ) (self acc ids : List ℕ) (x : ℕ)
      → deep_nested_ids fuel t deep self acc ≡ some ids
      → Memᴰ x ids
      → Memᴰ x acc ⊎ Reach t deep self x
  sound zero self acc ids x e m = absurd (no_fuel self acc ids e)
  sound (suc fuel) self acc ids x e m = elim (rounds fuel self acc ids e) [
    | inl (done, same) ↦ collected_sound self acc x (rw same at m)
    | inr (rest, r, same) ↦ elim (Mem_of_append x (acc ++ exclude self acc) rest (rw same at m)) [
      | inl now ↦ collected_sound self acc x now
      | inr later ↦
          elim (sound fuel (related t deep (exclude self acc)) (acc ++ exclude self acc) rest x r
            later) [
              | inl now ↦ collected_sound self acc x now
              | inr reached ↦ inr (
                  from_start self (related t deep (exclude self acc)) x (related_reached self acc)
                    reached)
            ]
    ]
  ]

  complete : {self ids : List ℕ} {x : ℕ} → Collects [] self ids → Reach t deep self x → Memᴰ x ids
  complete {x} c (here m) = c.starts x m
  complete {x} c (step {x = y} r e) = c.closed y x (complete c r) e

-- From ids of the table the search with the given rounds ends, and finds just what is reached from them
-- by any number of steps down to children, or up to parents.
pub deep_nested_ids_lem :
    (t : List Row) (deep : Bool) (self : List ℕ)
    → AreRows t self
    → (ids : List ℕ) × (deep_nested_ids (enough t) t deep self [] ≡ some ids)
      × ((x : ℕ) → Memᴰ x ids ↔ Reach t deep self x)
deep_nested_ids_lem t deep self rows =
    let (ids, e) =
      deep_nested_ids_returns (enough t) t deep self [] rows (omega (arith, missing-le t [])) in
    (
      ids,
      e,
      λ x. (
        λ m. elim (sound t deep (enough t) self [] ids x e m) [ inl k ↦ elim k [ ] | inr r ↦ r ],
        λ r.
            complete t deep
              (all_rounds-Collects t deep (enough t) self [] ids (λ x y m. elim m [ ]) e) r,
      ),
    )
