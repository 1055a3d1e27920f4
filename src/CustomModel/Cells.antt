-- ===== src/CustomModel/Cells.antt =====
-- The values in the rows of a custom model and in the arguments of a filter.
-- A Python bool is the number 0 or 1, which it equals.
use vstutils.Base.{
  ◌+◌, ◌≡◌, ◌↔◌, Bool, true, false, List, [], ◌∷◌, arith, leb, eqb, if◌then◌else◌, Eq, ◌&&◌,
  text_eq, text_beq, text_beq_iff, Assoc,
}
use vstutils.Base.Int.{ℤ, pos_part, neg_part}
use vstutils.Base.Text.{Text}

pub data Cell : Type 0 where
  null : Cell
  number : ℤ → Cell
  text : Text → Cell

pub data Arg : Type 0 where
  one : Cell → Arg
  many : List Cell → Arg

abbrev pub Row : Type 0
Row = Assoc Text Cell

abbrev pub int_beq : ℤ → ℤ → Bool
int_beq a b = eqb (pos_part a) (pos_part b) && eqb (neg_part a) (neg_part b)

abbrev pub cell_beq : Cell → Cell → Bool
cell_beq null null = true
cell_beq (number a) (number b) = int_beq a b
cell_beq (text s) (text t) = text_beq s t
cell_beq _ _ = false

int_beq_iff : (a b : ℤ) → (int_beq a b ≡ true) ↔ (a ≡ b)
int_beq_iff a b = ground arith

pub cell_beq_iff : (a b : Cell) → (cell_beq a b ≡ true) ↔ (a ≡ b)
cell_beq_iff null null = ground arith
cell_beq_iff null (number b) = ground arith
cell_beq_iff null (text t) = ground arith
cell_beq_iff (number a) null = ground arith
cell_beq_iff (number a) (number b) = ground (arith, int_beq_iff a b)
cell_beq_iff (number a) (text t) = ground arith
cell_beq_iff (text s) null = ground arith
cell_beq_iff (text s) (number b) = ground arith
cell_beq_iff (text s) (text t) = ground (arith, text_beq_iff s t)

instance abbrev pub cell_eq : Eq Cell
cell_eq = record { is_same = cell_beq; is_same_iff = cell_beq_iff }

-- `a <= b`, and whether Python compares the two at all.
abbrev pub text_leb : Text → Text → Bool
text_leb [] t = true
text_leb (a ∷ s) [] = false
text_leb (a ∷ s) (b ∷ t) = if eqb a b then text_leb s t else leb a b

abbrev pub cell_leb : Cell → Cell → Bool
cell_leb (number a) (number b) = leb (pos_part a + neg_part b) (pos_part b + neg_part a)
cell_leb (text s) (text t) = text_leb s t
cell_leb null c = true
cell_leb (number a) null = false
cell_leb (number a) (text t) = true
cell_leb (text s) null = false
cell_leb (text s) (number b) = false

abbrev pub are_comparable : Cell → Cell → Bool
are_comparable (number a) (number b) = true
are_comparable (text s) (text t) = true
are_comparable _ _ = false
