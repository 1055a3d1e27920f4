-- ===== src/Bulk/Value.antt =====
-- JSON values, as the bulk endpoint handles them. A number is kept as its text.
use vstutils.Base.{Bool, List, [], ◌∷◌, Option, none, some, ◌==◌, text_eq, if◌then◌else◌}
use vstutils.Base.Text.{Text}

mutual
  pub data Value : Type 0 where
    null : Value
    bool : Bool → Value
    num : Text → Value
    str : Text → Value
    arr : Items → Value
    obj : Fields → Value

  pub data Items : Type 0 where
    nil : Items
    cons : Value → Items → Items

  pub data Fields : Type 0 where
    end : Fields
    field : Text → Value → Fields → Fields

abbrev pub items : Items → List Value
items nil = []
items (cons v vs) = v ∷ items vs

abbrev pub keys : Fields → List Text
keys end = []
keys (field k v fs) = k ∷ keys fs

-- `d.get(k)`
abbrev pub find : Text → Fields → Option Value
find k end = none
find k (field j v fs) = if j == k then some v else find k fs

-- A texts-only list of fields.
abbrev pub to_fields : List (Text × Text) → Fields
to_fields [] = end
to_fields ((k, v) ∷ l) = field k (str v) (to_fields l)
