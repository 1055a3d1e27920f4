-- ===== src/Bulk/Paths.antt =====
-- vstutils/api/endpoint.py: `_join_paths`.
use mathlib.Core.List.{reverse-cons, reverse-append, map-append}
use vstutils.Base.{
  Bool-cases, inl, inr, eqb_refl, sym, ◌∙◌, ℕ, ◌≡◌, ◌≢◌, refl, List, [], ◌∷◌, ◌++◌, map, ap, eqb,
}
use vstutils.Base.Text.{Text, strip, join}

-- Every fragment is stripped of its slashes; the result begins and ends with one.
unfoldable pub join_paths : List Text → Text
unfolding join strip
join_paths args = b'/' ∷ (join (b'/' ∷ []) (map (strip b'/') args) ++ b'/' ∷ [])

join_paths_test :
    join_paths ((b'a' ∷ []) ∷ (b'/' ∷ b'b' ∷ b'/' ∷ b'c' ∷ b'/' ∷ []) ∷ [])
    ≡ b'/' ∷ b'a' ∷ b'/' ∷ b'b' ∷ b'/' ∷ b'c' ∷ b'/' ∷ []
unfolding join_paths
join_paths_test = refl

-- The text between the outer slashes.
abbrev pub inner : List Text → Text
inner args = join (b'/' ∷ []) (map (strip b'/') args)

strip-cons : (c : ℕ) (s : Text) → strip c (c ∷ s) ≡ strip c s
unfolding strip
strip-cons c s = rw (eqb_refl c)

strip-append_end : (c : ℕ) (s : Text) → strip c (s ++ c ∷ []) ≡ strip c s
unfolding strip
strip-append_end c [] = rw (eqb_refl c)
strip-append_end c (d ∷ s) = elim (Bool-cases (eqb d c)) [
  | inl same ↦ rw same (strip-append_end c s)
  | inr other ↦ rw other (simp (reverse-cons, reverse-append) (rw (eqb_refl c)))
]

join-append :
    (sep : Text) (ps xs : List Text)
    → xs ≢ []
    → join sep (ps ++ join sep xs ∷ []) ≡ join sep (ps ++ xs)
unfolding join
join-append sep [] xs h = refl
join-append sep (a ∷ []) [] h = absurd (h refl)
join-append sep (a ∷ []) (x ∷ xs) h = refl
join-append sep (a ∷ b ∷ ps) xs h = ap (λ t. a ++ (sep ++ t)) (join-append sep (b ∷ ps) xs h)

strip-join_paths :
    (xs : List Text) → strip b'/' (inner xs) ≡ inner xs → strip b'/' (join_paths xs) ≡ inner xs
unfolding join_paths
strip-join_paths xs h =
    strip-cons b'/' (inner xs ++ b'/' ∷ []) ∙ strip-append_end b'/' (inner xs) ∙ h

map-ne-nil : (f : Text → Text) (xs : List Text) → xs ≢ [] → map f xs ≢ []
map-ne-nil f [] h = absurd (h refl)
map-ne-nil f (x ∷ xs) h = λ e. cc

-- A path that was joined before can be joined again: if the text between its outer slashes begins and
-- ends with none, the last fragment may be replaced by the fragments that it was joined from.
pub join_paths-join_paths :
    (ps xs : List Text)
    → xs ≢ []
    → strip b'/' (inner xs) ≡ inner xs
    → join_paths (ps ++ join_paths xs ∷ []) ≡ join_paths (ps ++ xs)
unfolding join_paths
join_paths-join_paths ps xs ne h =
    ap (λ t. b'/' ∷ (t ++ b'/' ∷ []))
      (inner-append ps (join_paths xs ∷ [])
        ∙ ap (λ t. join (b'/' ∷ []) (map (strip b'/') ps ++ t ∷ [])) (strip-join_paths xs h)
        ∙ join-append (b'/' ∷ []) (map (strip b'/') ps) (map (strip b'/') xs)
            (map-ne-nil (strip b'/') xs ne)
        ∙ sym (inner-append ps xs))
  where
    inner-append :
        (ps xs : List Text)
        → inner (ps ++ xs) ≡ join (b'/' ∷ []) (map (strip b'/') ps ++ map (strip b'/') xs)
    inner-append ps xs = ap (join (b'/' ∷ [])) (map-append (strip b'/') ps xs)
