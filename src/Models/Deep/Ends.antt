-- ===== src/Models/Deep/Ends.antt =====
-- The search ends: each round that goes on adds an id of the table.
use vstutils.Base.{
  ℕ, zero, suc, ◌+◌, ◌≤◌, ◌<◌, ◌≡◌, refl, inl, inr, Bool, true, false, not, ◌||◌, List, [], ◌∷◌,
  ◌++◌, some, length, if◌then◌else◌, arith, Bool-cases,
}
use mathlib.Core.List.{Memᴰ}
use vstutils.Base.Members.{has, has_iff, Mem_of_keep, Mem-map}
use vstutils.Models.Deep.Reach.{related_sound}
use vstutils.Models.Deep.Defs.{Row, ids_of, related, exclude, is_empty, deep_nested_ids}

-- The rows of the table whose ids are not collected yet.
pub missing : List Row → List ℕ → ℕ
missing [] acc = 0
missing (r ∷ t) acc = (if has r.id acc then 0 else 1) + missing t acc

pub has-append : (x : ℕ) (xs ys : List ℕ) → has x (xs ++ ys) ≡ (has x xs || has x ys)
has-append x [] ys = refl
has-append x (y ∷ xs) ys = ground (arith, has-append x xs ys)

missing-append : (t : List Row) (acc new : List ℕ) → missing t (acc ++ new) ≤ missing t acc
unfolding missing
missing-append [] acc new = omega arith
missing-append (r ∷ t) acc new = ground (arith, missing-append t acc new, has-append r.id acc new)

-- A new id of the table makes it less.
missing_less :
    (t : List Row) (acc new : List ℕ) (x : ℕ)
    → Memᴰ x (ids_of t)
    → has x acc ≡ false
    → has x new ≡ true
    → missing t (acc ++ new) < missing t acc
unfolding missing
missing_less [] acc new x m k l = elim m [ ]
missing_less (r ∷ t) acc new x (Memᴰ.head e) k l =
    let old = let e' = k in (rw e at e') in
    let now = let e' = l in (rw e at e') in
    ground (arith, old, now, missing-append t acc new, has-append r.id acc new)
missing_less (r ∷ t) acc new x (Memᴰ.tail m) k l =
    ground (arith, missing_less t acc new x m k l, has-append r.id acc new)

-- Ids that are all of the table.
abbrev pub AreRows : List Row → List ℕ → Type 0
AreRows t ids = (x : ℕ) → Memᴰ x ids → Memᴰ x (ids_of t)

pub related-AreRows : (t : List Row) (deep : Bool) (ids : List ℕ) → AreRows t (related t deep ids)
related-AreRows t true ids x m =
    let (_, _, e) = related_sound t true ids x m in
    rw (← e.same_id) (Mem-map (λ r. r.id) e.row t e.is_row)
related-AreRows t false ids x m = let (_, _, e) = related_sound t false ids x m in e.1

first : (ids : List ℕ) → is_empty ids ≡ false → (x : ℕ) × Memᴰ x ids
first [] h = cc
first (x ∷ ids) h = (x, Memᴰ.head refl)

pub missing-le : (t : List Row) (acc : List ℕ) → missing t acc ≤ length t
unfolding missing
missing-le [] acc = omega arith
missing-le (r ∷ t) acc = ground (arith, missing-le t acc)

-- A round that finds rows has collected an id of the table that was missing.
progress :
    (t : List Row) (deep : Bool) (self acc : List ℕ)
    → AreRows t self
    → is_empty (related t deep (exclude self acc)) ≡ false
    → missing t (acc ++ exclude self acc) < missing t acc
progress t deep self acc rows found =
    let (y, m) = first (related t deep (exclude self acc)) found in
    let (x, fresh, _) = related_sound t deep (exclude self acc) y m in
    let (among, new) = Mem_of_keep (λ x. not (has x acc)) x self fresh in
    missing_less t acc (exclude self acc) x (rows x among) (ground (arith, new))
      ((has_iff x (exclude self acc)).1 fresh)

pub deep_nested_ids_returns :
    (fuel : ℕ) (t : List Row) (deep : Bool) (self acc : List ℕ)
    → AreRows t self
    → missing t acc < fuel
    → (ids : List ℕ) × (deep_nested_ids fuel t deep self acc ≡ some ids)
unfolding deep_nested_ids
deep_nested_ids_returns zero t deep self acc rows h = absurd (omega arith)
deep_nested_ids_returns (suc fuel) t deep self acc rows h =
    elim (Bool-cases (is_empty (related t deep (exclude self acc)))) [
      | inl e ↦ (acc ++ exclude self acc, rw e)
      | inr e ↦
          let less = progress t deep self acc rows e in
          let (ids, r) =
            deep_nested_ids_returns fuel t deep (related t deep (exclude self acc))
              (acc ++ exclude self acc) (related-AreRows t deep (exclude self acc)) (omega arith) in
          ((acc ++ exclude self acc) ++ ids, rw (e, r))
    ]
