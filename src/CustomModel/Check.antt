-- ===== src/CustomModel/Check.antt =====
-- vstutils/models/custom_model.py: `Query._check_data` and `Query.check_in_query`.
-- The conversion of a filter value by the model's field, Django's code, is the parameter `to_python`;
-- `none` stands for an exception, there and below.
use vstutils.Base.{
  Bool, true, false, not, List, [], ◌∷◌, Option, none, some, if◌then◌else◌, ◌==◌, text_eq, Assoc,
  lookup,
}
use vstutils.Base.Text.{Text, codes, contains, upper, remove_all, split_pair}
use vstutils.CustomModel.Cells.{Cell, text, Arg, one, many, Row, cell_eq}
pub use vstutils.Base.{◌>>=◌}

-- `meta.pk.attname`, and the conversion of `meta._forward_fields_map[name]`.
pub record Model : Type 0 where
  pub pk : Text
  pub to_python : Text → Cell → Option Cell

-- A list stays as it is: the `map` object converts an entry when it is asked for.
abbrev convert : Model → Text → Arg → Option Arg
convert m name (one c) = do d ← m.to_python name c; some (one d)
convert m name (many cs) = some (many cs)

-- `value in map(field.to_python, …)`, up to the first entry that is the value
unfoldable pub is_among : Model → Text → Cell → List Cell → Option Bool
is_among m name v [] = some false
is_among m name v (c ∷ cs) =
    let rest = is_among m name v cs in do d ← m.to_python name c; if d == v then some true else rest

-- `value in filter_data`: over a list, or a substring test over a text
unfoldable pub is_in : Model → Text → Cell → Arg → Option Bool
unfolding is_among
is_in m name v (many cs) = is_among m name v cs
is_in m name (text s) (one (text t)) = some (contains t s)
is_in m name v (one c) = none

-- `filter_data in value`
abbrev occurs : Text → Cell → Option Bool
occurs t (text s) = some (contains s t)
occurs t _ = none

-- `filter_data.upper() in value.upper()`
abbrev occurs_any_case : Text → Cell → Option Bool
occurs_any_case t (text s) = some (contains (upper s) (upper t))
occurs_any_case t _ = none

-- A list, which is a `map` object by then, equals no value.
abbrev equals : Arg → Cell → Bool
equals (one c) v = c == v
equals (many cs) v = false

-- The chain of tests on `search_format`: whether the row passes. A lookup that the chain does not
-- know, and one whose value is of another type than it wants, is passed.
unfoldable pub passes : Model → Text → Option Text → Cell → Arg → Option Bool
unfolding is_in
passes m name none v arg = some (equals arg v)
passes m name (some lookup_name) v arg =
    if lookup_name == codes "in"
    then is_in m name v arg
    else if lookup_name == codes "contains"
    then elim arg [ one c ↦ elim c [ text t ↦ occurs t v | _ ↦ some true ] | many cs ↦ some true ]
    else if lookup_name == codes "icontains"
    then elim arg [
      | one c ↦ elim c [ text t ↦ occurs_any_case t v | _ ↦ some true ]
      | many cs ↦ some true
    ]
    else some true

-- The name of a condition without `__exact`, split into the field and the lookup; `pk` is resolved.
unfoldable pub parse_name : Model → Text → Text × Option Text
parse_name m name =
    let (field, lookup_name) = split_pair b'_' b'_' (remove_all (codes "__exact") name) in
    (if field == codes "pk" then m.pk else field, lookup_name)

-- One condition; a field that the row does not have is passed.
unfoldable pub check_one : Model → Text → Arg → Row → Option Bool
check_one m name arg row =
    let (field, lookup_name) = parse_name m name in
    elim (lookup field row) [
      | none ↦ some true
      | some v ↦ do a ← convert m field arg; passes m field lookup_name v a
    ]

-- The loop over the conditions, up to the first that fails.
unfoldable pub check_all : Model → Assoc Text Arg → Row → Option Bool
check_all m [] row = some true
check_all m ((name, arg) ∷ conditions) row =
    let rest = check_all m conditions row in
    do ok ← check_one m name arg row; if ok then rest else some false

pub data Kind : Type 0 where
  filter exclude : Kind

-- `_check_data`; `empty` is the flag that `set_empty` sets.
unfoldable pub check_data : Model → (empty : Bool) → Kind → Assoc Text Arg → Row → Option Bool
check_data m true kind conditions row = some false
check_data m false exclude [] row = some false
check_data m false kind conditions row = check_all m conditions row

-- `check_in_query`, over the conditions of `filter` and of `exclude`
unfoldable pub check_in_query : Model → Bool → Assoc Text Arg → Assoc Text Arg → Row → Option Bool
check_in_query m empty included excluded row = do
  a ← check_data m empty filter included row
  let b = check_data m empty exclude excluded row
  if a then (do x ← b; some (not x)) else some false
