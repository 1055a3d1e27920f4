-- ===== src/Models/Deep/Tests.antt =====
-- Runs of the search, and the theorem at a concrete table.
use mathlib.Core.List.{Memᴰ}
use vstutils.Base.{ℕ, ◌≡◌, refl, ◌↔◌, ◌⊎◌, Bool, true, false, List, [], ◌∷◌, some}
use vstutils.Base.Members.{has}
use vstutils.Models.Deep.Defs.{Row, get_deep_qs, get_children, get_parents}
use vstutils.Models.Deep.Reach.{Reach}
use vstutils.Models.Deep.Ends.{AreRows}
use vstutils.Models.Deep.Answers.{get_deep_qs_lem}

abbrev no_cte : Bool → Bool → List ℕ → List ℕ
no_cte with_current deep ids = []

-- 2 and 3 are below 1, 4 is below 2, and 5 stands alone.
abbrev tree : List Row
tree =
    record { id = 1; parents = [] }
    ∷ record { id = 2; parents = 1 ∷ [] }
    ∷ record { id = 3; parents = 1 ∷ [] }
    ∷ record { id = 4; parents = 2 ∷ [] }
    ∷ record { id = 5; parents = [] }
    ∷ []

get_tests :
    (get_children no_cte true tree false (1 ∷ []) ≡ some (2 ∷ 3 ∷ 4 ∷ []))
    × (get_children no_cte true tree false (1 ∷ 2 ∷ []) ≡ some (3 ∷ 4 ∷ []))
    × (get_parents no_cte true tree true (4 ∷ []) ≡ some (1 ∷ 2 ∷ 4 ∷ []))
unfolding get_children get_parents
get_tests = (refl, refl, refl)

first_two : AreRows tree (1 ∷ 2 ∷ [])
first_two x (Memᴰ.head e) = Memᴰ.head e
first_two x (Memᴰ.tail (Memᴰ.head e)) = Memᴰ.tail (Memᴰ.head e)
first_two x (Memᴰ.tail (Memᴰ.tail m)) = elim m [ ]

get_deep_qs_lem_example :
    (ids : List ℕ) × (get_deep_qs no_cte true tree false true (1 ∷ 2 ∷ []) ≡ some ids)
    × ((x : ℕ)
        → Memᴰ x ids
          ↔ (Reach tree true (1 ∷ 2 ∷ []) x × ((false ≡ true) ⊎ (has x (1 ∷ 2 ∷ []) ≡ false))))
get_deep_qs_lem_example = get_deep_qs_lem no_cte tree false true (1 ∷ 2 ∷ []) first_two
