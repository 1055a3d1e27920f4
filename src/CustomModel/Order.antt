-- ===== src/CustomModel/Order.antt =====
-- The comparisons that sort the rows are total orders up to equality.
use vstutils.Base.{◌≡◌, refl, Bool, true, false, [], ◌∷◌, arith, if◌then◌else◌}
use vstutils.Base.Text.{Text}
use vstutils.CustomModel.Cells.{Cell, null, number, text, text_leb, cell_leb}
use vstutils.CustomModel.Sorting.{IsOrder}

text_leb_total : (s t : Text) → text_leb s t ≡ false → text_leb t s ≡ true
text_leb_total [] t h = ground arith
text_leb_total (a ∷ s) [] h = refl
text_leb_total (a ∷ s) (b ∷ t) h = ground (arith, text_leb_total s t)

text_leb_trans : (s t u : Text) → text_leb s t ≡ true → text_leb t u ≡ true → text_leb s u ≡ true
text_leb_trans [] t u h k = refl
text_leb_trans (a ∷ s) [] u h k = ground arith
text_leb_trans (a ∷ s) (b ∷ t) [] h k = ground arith
text_leb_trans (a ∷ s) (b ∷ t) (c ∷ u) h k = ground (arith, text_leb_trans s t u)

cell_leb_total : (x y : Cell) → cell_leb x y ≡ false → cell_leb y x ≡ true
cell_leb_total null y h = ground arith
cell_leb_total (number a) null h = refl
cell_leb_total (number a) (number b) h = ground arith
cell_leb_total (number a) (text t) h = ground arith
cell_leb_total (text s) null h = refl
cell_leb_total (text s) (number b) h = refl
cell_leb_total (text s) (text t) h = text_leb_total s t h

cell_leb_trans : (x y z : Cell) → cell_leb x y ≡ true → cell_leb y z ≡ true → cell_leb x z ≡ true
cell_leb_trans null y z h k = refl
cell_leb_trans (number a) null z h k = ground arith
cell_leb_trans (number a) (number b) null h k = ground arith
cell_leb_trans (number a) (number b) (number c) h k = ground arith
cell_leb_trans (number a) (number b) (text t) h k = refl
cell_leb_trans (number a) (text t) null h k = ground arith
cell_leb_trans (number a) (text t) (number c) h k = ground arith
cell_leb_trans (number a) (text t) (text u) h k = refl
cell_leb_trans (text s) null z h k = ground arith
cell_leb_trans (text s) (number b) z h k = ground arith
cell_leb_trans (text s) (text t) null h k = ground arith
cell_leb_trans (text s) (text t) (number c) h k = ground arith
cell_leb_trans (text s) (text t) (text u) h k = text_leb_trans s t u h k

pub cell_leb-IsOrder : IsOrder cell_leb
cell_leb-IsOrder = record { total = cell_leb_total; trans = cell_leb_trans }

-- Along a function, upwards or downwards.
pub IsOrder-along :
    {A B : Type 0} (le : A → A → Bool) (f : B → A) (down : Bool)
    → IsOrder le
    → IsOrder (λ x y. if down then le (f y) (f x) else le (f x) (f y))
IsOrder-along le f true o = record {
  total = λ x y. o.total (f y) (f x);
  trans = λ x y z h k. o.trans (f z) (f y) (f x) k h;
}
IsOrder-along le f false o = record {
  total = λ x y. o.total (f x) (f y);
  trans = λ x y z. o.trans (f x) (f y) (f z);
}
