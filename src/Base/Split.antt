-- ===== src/Base/Split.antt =====
-- `s.split(c)` and `s.count(c)` for a single character, and how they meet `c.join(parts)`.
use Prim.Native.Nat.{ℕ, suc, ◌+◌, ◌<◌}
use mathlib.Core.Path.{◌≡◌, refl, ap, ◌∙◌}
use mathlib.Core.Logic.{◌≢◌}
use mathlib.Core.Bool.{true, false}
use mathlib.Core.List.{List, [], ◌∷◌, ◌++◌}
use native.Mathlib.Omega.{arith}
use vstutils.Base.Lists.{length, All}
use vstutils.Base.Tests.{if◌then◌else◌, eqb, eqb_refl}
use vstutils.Base.Text.{Text, has_char, join}

-- A character before the first part.
unfoldable pub push : ℕ → List Text → List Text
push d [] = (d ∷ []) ∷ []
push d (p ∷ ps) = (d ∷ p) ∷ ps

unfoldable pub split : ℕ → Text → List Text
unfolding push
split c [] = [] ∷ []
split c (d ∷ s) = let rest = split c s in if eqb d c then [] ∷ rest else push d rest

unfoldable pub count : ℕ → Text → ℕ
count c [] = 0
count c (d ∷ s) = (if eqb d c then 1 else 0) + count c s

-- The character does not occur.
abbrev pub Lacks : ℕ → Text → Type 0
Lacks c s = has_char c s ≡ false

length-push : (d : ℕ) (s : Text) (c : ℕ) → length (push d (split c s)) ≡ length (split c s)
unfolding push split
length-push d [] c = refl
length-push d (e ∷ s) c = ground (arith, length-push e s c)

pub length-split : (c : ℕ) (s : Text) → length (split c s) ≡ suc (count c s)
unfolding split count
length-split c [] = refl
length-split c (d ∷ s) = ground (arith, length-split c s, length-push d s c)

-- A text that holds the separator has two parts at least.
pub lt-length-split : (c : ℕ) (s : Text) → has_char c s ≡ true → 1 < length (split c s)
unfolding has_char split
lt-length-split c [] h = ground arith
lt-length-split c (d ∷ s) h =
    ground (arith, length-split c s, lt-length-split c s, length-push d s c)

pub split_lacking : (c : ℕ) (s : Text) → Lacks c s → split c s ≡ s ∷ []
unfolding split has_char
split_lacking c [] h = refl
split_lacking c (d ∷ s) h = ground (arith, split_lacking c s)

push-Lacks :
    (b d : ℕ) (ps : List Text) → eqb d b ≡ false → All (Lacks b) ps → All (Lacks b) (push d ps)
unfolding push has_char
push-Lacks b d [] h k = ground arith
push-Lacks b d (p ∷ ps) h k = (rw h k.0, k.1)

-- No part holds the separator.
pub split-Lacks : (c : ℕ) (s : Text) → All (Lacks c) (split c s)
unfolding split has_char
split-Lacks c [] = (refl, tt)
split-Lacks c (d ∷ s) = ground (arith, split-Lacks c s, push-Lacks c d (split c s))

-- No part holds a character that the text does not hold.
pub split-Lacks_other : (b c : ℕ) (s : Text) → Lacks b s → All (Lacks b) (split c s)
unfolding split has_char
split-Lacks_other b c [] h = (refl, tt)
split-Lacks_other b c (d ∷ s) h =
    ground (arith, split-Lacks_other b c s, push-Lacks b d (split c s))

split-append_sep : (c : ℕ) (p s : Text) → Lacks c p → split c (p ++ c ∷ s) ≡ p ∷ split c s
unfolding has_char split push
split-append_sep c [] s h = rw (eqb_refl c)
split-append_sep c (d ∷ p) s h = ground (arith, split-append_sep c p s)

-- Splitting a join gives the parts back, if there is a part and none holds the separator.
pub split-join :
    (c : ℕ) (ps : List Text) → ps ≢ [] → All (Lacks c) ps → split c (join (c ∷ []) ps) ≡ ps
unfolding join
split-join c [] h k = absurd (h refl)
split-join c (p ∷ []) h k = split_lacking c p k.0
split-join c (p ∷ q ∷ ps) h k =
    split-append_sep c p (join (c ∷ []) (q ∷ ps)) k.0
    ∙ ap (◌∷◌ p) (split-join c (q ∷ ps) (λ e. cc) k.1)
