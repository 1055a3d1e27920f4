-- ===== src/Models/Deep/Reach.antt =====
-- What nesting means, apart from the search: rows above and below one another in the table.
use mathlib.Core.List.{Memᴰ}
use vstutils.Base.{ℕ, ◌≡◌, refl, Bool, true, false, ◌&&◌, List, arith, keep}
use vstutils.Base.Members.{
  has, has_iff, Mem-keep, Mem_of_keep, Mem-map, Mem_of_map, any_of_Mem, Mem_of_any,
}
use vstutils.Models.Deep.Defs.{Row, meets, ids_of, is_parent_of, related}

-- A row of the table has the id `x`, and the parent `y` among its own.
pub record Below (t : List Row) (x y : ℕ) : Type 0 where
  pub row : Row
  pub is_row : Memᴰ row t
  pub same_id : row.id ≡ x
  pub is_parent : Memᴰ y row.parents

-- One step down to a child, or up to a parent that is a row itself.
abbrev pub Edge : List Row → (deep_children : Bool) → ℕ → ℕ → Type 0
Edge t true x y = Below t y x
Edge t false x y = Below t x y × Memᴰ y (ids_of t)

-- What is found from the ids by any number of steps.
pub data Reach (t : List Row) (deep : Bool) (start : List ℕ) : ℕ → Type 0 where
  here : {x : ℕ} → Memᴰ x start → Reach t deep start x
  step : {x y : ℕ} → Reach t deep start x → Edge t deep x y → Reach t deep start y

abbrev pub From : List Row → Bool → List ℕ → ℕ → Type 0
From t deep ids y = (x : ℕ) × Memᴰ x ids × Edge t deep x y

pub related_sound :
    (t : List Row) (deep : Bool) (ids : List ℕ) (y : ℕ)
    → Memᴰ y (related t deep ids)
    → From t deep ids y
unfolding related
related_sound t true ids y m =
    let (r, k, e) = Mem_of_map (λ r. r.id) y (keep (λ r. meets r.parents ids) t) m in
    let (is_row, found) = Mem_of_keep (λ r. meets r.parents ids) r t k in
    let (x, among, h) = Mem_of_any (λ x. has x ids) r.parents found in
    (
      x,
      (has_iff x ids).0 h,
      record { row = r; is_row = is_row; same_id = rw e refl; is_parent = among },
    )
related_sound t false ids y m =
    let (r, k, e) = Mem_of_map (λ r. r.id) y (keep (λ r. is_parent_of t ids r.id) t) m in
    let (is_row, found) = Mem_of_keep (λ r. is_parent_of t ids r.id) r t k in
    let (c, c_row, h) = Mem_of_any (λ c. has c.id ids && has r.id c.parents) t found in
    (
      c.id,
      (has_iff c.id ids).0 (ground (arith, h)),
      (
        record {
          row = c;
          is_row = c_row;
          same_id = refl;
          is_parent = rw e ((has_iff r.id c.parents).0 (ground (arith, h)));
        },
        rw e (Mem-map (λ r. r.id) r t is_row),
      ),
    )

pub related_complete :
    (t : List Row) (deep : Bool) (ids : List ℕ) (x y : ℕ)
    → Memᴰ x ids
    → Edge t deep x y
    → Memᴰ y (related t deep ids)
unfolding related
related_complete t true ids x y m e = rw (← e.same_id) (
    Mem-map (λ r. r.id) e.row (keep (λ r. meets r.parents ids) t)
      (Mem-keep (λ r. meets r.parents ids) e.row t e.is_row
        (any_of_Mem (λ p. has p ids) x e.row.parents e.is_parent ((has_iff x ids).1 m))))
related_complete t false ids x y m (e, is_id) =
    let (r, is_row, same) = Mem_of_map (λ r. r.id) y t is_id in
    let asked = (has_iff e.row.id ids).1 (rw e.same_id m) in
    let found = (has_iff r.id e.row.parents).1 (rw (← same) e.is_parent) in
    rw same (
      Mem-map (λ r. r.id) r (keep (λ r. is_parent_of t ids r.id) t)
        (Mem-keep (λ r. is_parent_of t ids r.id) r t is_row
          (any_of_Mem (λ c. has c.id ids && has r.id c.parents) e.row t e.is_row
            (ground (arith, asked, found)))))
