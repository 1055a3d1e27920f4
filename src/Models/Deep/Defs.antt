-- ===== src/Models/Deep/Defs.antt =====
-- The table of a model that is nested in itself, and the search that goes down or up in it.
use vstutils.Base.{
  ℕ, zero, suc, Bool, true, false, not, List, [], ◌∷◌, ◌++◌, map, Option, none, some, any, keep,
  length, if◌then◌else◌, ◌&&◌, ◌>>=◌,
}
use vstutils.Base.Members.{has}

-- `deep_parent_field` is a foreign key or a relation of many to many.
pub record Row : Type 0 where
  pub id : ℕ
  pub parents : List ℕ

abbrev pub meets : List ℕ → List ℕ → Bool
meets xs ids = any (λ x. has x ids) xs

abbrev pub ids_of : List Row → List ℕ
ids_of rows = map (λ r. r.id) rows

-- A row that is the parent of one of the ids.
abbrev pub is_parent_of : List Row → List ℕ → ℕ → Bool
is_parent_of t ids x = any (λ r. has r.id ids && has x r.parents) t

-- `self.model.objects.filter(**{related_name + "__id__in": ids})`
unfoldable pub related : List Row → (deep_children : Bool) → List ℕ → List ℕ
related t true ids = ids_of (keep (λ r. meets r.parents ids) t)
related t false ids = ids_of (keep (λ r. is_parent_of t ids r.id) t)

-- `self.exclude(id__in=ids)`
abbrev pub exclude : List ℕ → List ℕ → List ℕ
exclude xs ids = keep (λ x. not (has x ids)) xs

abbrev pub is_empty : List ℕ → Bool
is_empty [] = true
is_empty (x ∷ xs) = false

-- The recursive call runs on the rows found; `none` says that the fuel ran out.
unfoldable pub deep_nested_ids :
    (fuel : ℕ) → List Row → (deep_children : Bool) → (self accumulated : List ℕ) → Option (List ℕ)
unfolding related
deep_nested_ids zero t deep self accumulated = none
deep_nested_ids (suc fuel) t deep self accumulated =
    let list_id = exclude self accumulated in
    let subs = related t deep list_id in
    let rest = deep_nested_ids fuel t deep subs (accumulated ++ list_id) in
    if is_empty subs
    then some (accumulated ++ list_id)
    else (rest >>= λ ids. some ((accumulated ++ list_id) ++ ids))

abbrev pub enough : List Row → ℕ
enough t = suc (length t)

-- `self.model.objects.filter(id__in=ids)`
abbrev pub with_ids : List Row → List ℕ → List ℕ
with_ids t ids = ids_of (keep (λ r. has r.id ids) t)

module _ (cte : (with_current deep_children : Bool) → List ℕ → List ℕ) where
  -- `without_cte` says that the database is one of DATABASES_WITHOUT_CTE_SUPPORT.
  unfoldable pub get_deep_qs :
      (without_cte : Bool)
      → List Row
      → (with_current deep_children : Bool) → (self : List ℕ) → Option (List ℕ)
  unfolding deep_nested_ids
  get_deep_qs false t with_current deep self = some (cte with_current deep self)
  get_deep_qs true t with_current deep self = deep_nested_ids (enough t) t deep self [] >>= λ ids.
      some (if with_current then with_ids t ids else exclude (with_ids t ids) self)

  unfoldable pub get_parents :
      (without_cte : Bool) → List Row → (with_current : Bool) → (self : List ℕ) → Option (List ℕ)
  unfolding get_deep_qs
  get_parents without_cte t with_current self = get_deep_qs without_cte t with_current false self

  unfoldable pub get_children :
      (without_cte : Bool) → List Row → (with_current : Bool) → (self : List ℕ) → Option (List ℕ)
  unfolding get_deep_qs
  get_children without_cte t with_current self = get_deep_qs without_cte t with_current true self
