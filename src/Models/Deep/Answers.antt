-- ===== src/Models/Deep/Answers.antt =====
-- What `get_parents` and `get_children` select where the database has no recursive queries.
use mathlib.Core.List.{Memᴰ}
use vstutils.Base.{ℕ, ◌≡◌, refl, ◌↔◌, ◌⊎◌, inl, inr, Bool, true, false, not, List, some, arith}
use vstutils.Base.Members.{has, has_iff, Mem_of_keep, Mem-keep, Mem-map, Mem_of_map}
use vstutils.Models.Deep.Defs.{Row, ids_of, exclude, with_ids, get_deep_qs}
use vstutils.Models.Deep.Reach.{Reach, here, step}
use vstutils.Models.Deep.Ends.{AreRows}
use vstutils.Models.Deep.Sets.{deep_nested_ids_lem}

-- What is reached is a row of the table.
Reach-AreRows :
    (t : List Row) (deep : Bool) (self : List ℕ) {x : ℕ}
    → AreRows t self
    → Reach t deep self x
    → Memᴰ x (ids_of t)
Reach-AreRows t deep self {x} rows (here m) = rows x m
Reach-AreRows t true self rows (step r e) = rw (← e.same_id) (Mem-map (λ r. r.id) e.row t e.is_row)
Reach-AreRows t false self rows (step r e) = e.1

with_ids_iff :
    (t : List Row) (ids : List ℕ) (x : ℕ)
    → Memᴰ x (with_ids t ids) ↔ (Memᴰ x (ids_of t) × Memᴰ x ids)
with_ids_iff t ids x = (
  λ m.
      let (r, k, e) = Mem_of_map (λ r. r.id) x _ m in
      let (row, found) = Mem_of_keep (λ r. has r.id ids) r t k in
      (rw e (Mem-map (λ r. r.id) r t row), rw e ((has_iff r.id ids).0 found)),
  λ (row, m).
      let (r, k, e) = Mem_of_map (λ r. r.id) x t row in
      rw e (
        Mem-map (λ r. r.id) r _
          (Mem-keep (λ r. has r.id ids) r t k ((has_iff r.id ids).1 (rw (← e) m)))),
)

exclude_iff :
    (xs ids : List ℕ) (x : ℕ) → Memᴰ x (exclude xs ids) ↔ (Memᴰ x xs × (has x ids ≡ false))
exclude_iff xs ids x = (
  λ m. let (among, new) = Mem_of_keep (λ x. not (has x ids)) x xs m in (among, ground (arith, new)),
  λ (m, h). Mem-keep (λ x. not (has x ids)) x xs m (rw h refl),
)

module _ (cte : (with_current deep_children : Bool) → List ℕ → List ℕ) where
  -- Without recursive queries and from rows of the table, the selection ends, and holds just the rows
  -- that are reached by any number of steps down to children, or up to parents; without the current
  -- rows it leaves out every row that the search starts from, also one that is below, or above, another.
  pub get_deep_qs_lem :
      (t : List Row) (with_current deep : Bool) (self : List ℕ)
      → AreRows t self
      → (ids : List ℕ) × (get_deep_qs cte true t with_current deep self ≡ some ids)
        × ((x : ℕ)
            → Memᴰ x ids ↔ (Reach t deep self x × ((with_current ≡ true) ⊎ (has x self ≡ false))))
  unfolding get_deep_qs
  get_deep_qs_lem t true deep self rows =
      let (ids, e, found) = deep_nested_ids_lem t deep self rows in
      (
        with_ids t ids,
        rw e,
        λ x. (
          λ m. ((found x).0 ((with_ids_iff t ids x).0 m).1, inl refl),
          λ (r, _). (with_ids_iff t ids x).1 (Reach-AreRows t deep self rows r, (found x).1 r),
        ),
      )
  get_deep_qs_lem t false deep self rows =
      let (ids, e, found) = deep_nested_ids_lem t deep self rows in
      (
        exclude (with_ids t ids) self,
        rw e,
        λ x. (
          λ m.
              let (k, new) = (exclude_iff (with_ids t ids) self x).0 m in
              ((found x).0 ((with_ids_iff t ids x).0 k).1, inr new),
          λ (r, new). (exclude_iff (with_ids t ids) self x).1 (
            (with_ids_iff t ids x).1 (Reach-AreRows t deep self rows r, (found x).1 r),
            elim new [ inl k ↦ cc | inr k ↦ k ],
          ),
        ),
      )
