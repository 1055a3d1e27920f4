-- ===== src/Base/Text.antt =====
-- Python's `str` as a list of code points, with the methods that the code calls on it.
use Prim.Native.Nat.{ℕ, zero, suc, ◌+◌, ◌-◌}
use Prim.Native.Char.{code}
use Prim.Native.String.{String}
use mathlib.Core.Bool.{Bool, true, false, ◌&&◌, ◌||◌}
use mathlib.Core.List.{List, [], ◌∷◌, ◌++◌, map, reverse}
use mathlib.Core.Option.{Option, none, some}
use vstutils.Base.Lists.{length}
use vstutils.Base.Tests.{if◌then◌else◌, eqb, leb}

abbrev pub Text : Type 0
Text = List ℕ

-- A literal.
abbrev pub codes : String → Text
codes String.[] = []
codes (String.◌∷◌ c s) = code c ∷ codes s

-- `s.startswith(p)`
unfoldable pub starts_with : Text → Text → Bool
starts_with s [] = true
starts_with [] (c ∷ p) = false
starts_with (d ∷ s) (c ∷ p) = eqb d c && starts_with s p

-- `p in s`
unfoldable pub contains : Text → Text → Bool
unfolding starts_with
contains [] p = starts_with [] p
contains (c ∷ s) p = starts_with (c ∷ s) p || contains s p

-- `c in s`, for one character
unfoldable pub has_char : ℕ → Text → Bool
has_char c [] = false
has_char c (d ∷ s) = eqb d c || has_char c s

-- `s.lstrip(c)`
unfoldable pub strip_start : ℕ → Text → Text
strip_start c [] = []
strip_start c (d ∷ s) = let rest = strip_start c s in if eqb d c then rest else d ∷ s

-- `s.strip(c)`
unfoldable pub strip : ℕ → Text → Text
unfolding strip_start
strip c s = reverse (strip_start c (reverse (strip_start c s)))

-- `sep.join(parts)`
unfoldable pub join : Text → List Text → Text
join sep [] = []
join sep (s ∷ []) = s
join sep (s ∷ t ∷ rest) = s ++ (sep ++ join sep (t ∷ rest))

-- `s.replace(p, q)` for a text `p` of two characters, left to right
unfoldable pub replace_pair : ℕ → ℕ → Text → Text → Text
replace_pair a b q [] = []
replace_pair a b q (c ∷ []) = c ∷ []
replace_pair a b q (c ∷ d ∷ s) =
    let found = q ++ replace_pair a b q s in
    let other = c ∷ replace_pair a b q (d ∷ s) in if eqb c a && eqb d b then found else other

-- `s.replace(a, b)` for single characters
unfoldable pub replace_char : ℕ → ℕ → Text → Text
replace_char a b [] = []
replace_char a b (c ∷ s) = (if eqb c a then b else c) ∷ replace_char a b s

-- `s.lower()` and `s.upper()`, on ASCII letters
unfoldable pub lower_char : ℕ → ℕ
lower_char c = if leb b'A' c && leb c b'Z' then c + 32 else c

unfoldable pub upper_char : ℕ → ℕ
upper_char c = if leb b'a' c && leb c b'z' then c - 32 else c

unfoldable pub lower : Text → Text
unfolding lower_char
lower s = map lower_char s

unfoldable pub upper : Text → Text
unfolding upper_char
upper s = map upper_char s

-- `s.replace(p, "")` for a text `p` that is not empty; `skip` counts what is left of the last match.
remove_from : ℕ → Text → Text → Text
unfolding starts_with
remove_from skip p [] = []
remove_from (suc skip) p (c ∷ s) = remove_from skip p s
remove_from zero p (c ∷ s) =
    let found = remove_from (length p - 1) p s in
    let other = c ∷ remove_from 0 p s in if starts_with (c ∷ s) p then found else other

unfoldable pub remove_all : Text → Text → Text
unfolding remove_from
remove_all p s = remove_from 0 p s

-- `s.split(p, maxsplit=1)` for a text `p` of two characters: the part before the first `p`, and the
-- part after it, if `p` occurs.
unfoldable pub split_pair : ℕ → ℕ → Text → Text × Option Text
split_pair a b [] = ([], none)
split_pair a b (c ∷ []) = (c ∷ [], none)
split_pair a b (c ∷ d ∷ s) =
    let (before, after) = split_pair a b (d ∷ s) in
    if eqb c a && eqb d b then ([], some s) else (c ∷ before, after)
