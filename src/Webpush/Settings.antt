-- ===== src/Webpush/Settings.antt =====
-- The settings after `update_user_subscriptions`, either way.
use vstutils.Base.{
  ℕ, ◌≡◌, refl, sym, ◌∙◌, Bool, true, false, not, ◌&&◌, [], ◌∷◌, Option, none, some, if◌then◌else◌,
  text_eq, eqb, text_beq, eqb_iff, text_beq_iff, keep, Assoc, lookup, insert, lookup-insert,
  lookup-append, lookup-keep, or_else, IsDict, arith,
}
use vstutils.Base.Text.{Text}
use vstutils.Webpush.Tables.{
  Kind, kind_eq, State, is_kind_of, is_some, items, create_or_update, update_user_subscriptions,
}

-- What a user has chosen for a type, if the dict of the request says something of it, and else before
abbrev pub chosen : ℕ → Assoc Text Bool → Assoc Kind Bool → Kind → Option Bool
chosen user_id subscriptions settings (u, t) =
    if eqb u user_id
    then or_else (lookup t subscriptions) (lookup (u, t) settings)
    else lookup (u, t) settings

pub lookup-items :
    (user_id : ℕ) (dict : Assoc Text Bool) (u : ℕ) (t : Text)
    → lookup (u, t) (items user_id dict) ≡ (if eqb u user_id then lookup t dict else none)
unfolding lookup
lookup-items user_id [] u t = ground arith
lookup-items user_id ((j, b) ∷ dict) u t = ground (arith, lookup-items user_id dict u t)

either :
    (b : Bool) (new old : Option Bool)
    → or_else (if not (b && is_some new) then old else none) (if b then new else none)
      ≡ (if b then or_else new old else old)
either true none none = refl
either true none (some a) = refl
either true (some a) old = refl
either false new none = refl
either false new (some a) = refl

inserted :
    (mine same : Bool) (b : Bool) (rest old : Option Bool)
    → (same ≡ true → rest ≡ none)
    → (if mine
        then or_else rest (if mine && same then some b else old)
        else (if mine && same then some b else old))
      ≡ (if mine then or_else (if same then some b else rest) old else old)
inserted true true b rest old h = rw (h refl) refl
inserted true false b rest old h = refl
inserted false same b rest old h = refl

pub eqb_sym : (m n : ℕ) → eqb m n ≡ eqb n m
eqb_sym m n = ground (arith, eqb_iff m n, eqb_iff n m)

lookup-create_or_update :
    (user_id : ℕ) (dict : Assoc Text Bool) (settings : Assoc Kind Bool) (u : ℕ) (t : Text)
    → IsDict dict
    → lookup (u, t) (create_or_update (items user_id dict) settings)
      ≡ chosen user_id dict settings (u, t)
unfolding create_or_update lookup
lookup-create_or_update user_id [] settings u t h = ground arith
lookup-create_or_update user_id ((j, b) ∷ dict) settings u t h =
    lookup-create_or_update user_id dict (insert (user_id, j) b settings) u t h.1
    ∙ rw (lookup-insert (user_id, j) (u, t) b settings, eqb_sym user_id u)
        (inserted (eqb u user_id) (text_beq j t) b (lookup t dict) (lookup (u, t) settings)
          λ e. rw (sym ((text_beq_iff j t).0 e)) h.0)

module _ {D : Type 0} where
  -- Where each type stands once in the dict: whether or not the database is SQLite, each user's setting of
  -- each type is afterwards what the dict says, if it is the user's and the dict names the type, and else
  -- as before.
  pub update_user_subscriptions_lem :
      (is_sqlite : Bool) (user_id : ℕ) (dict : Assoc Text Bool) (s : State D) (u : ℕ) (t : Text)
      → IsDict dict
      → lookup (u, t) (update_user_subscriptions is_sqlite user_id dict s).settings
        ≡ chosen user_id dict s.settings (u, t)
  unfolding update_user_subscriptions
  update_user_subscriptions_lem false user_id dict s u t h =
      lookup-create_or_update user_id dict s.settings u t h
  update_user_subscriptions_lem true user_id dict s u t h =
      let kept = keep (λ r. not (is_kind_of user_id dict r.0)) s.settings in
      rw
        (
          lookup-append (u, t) kept (items user_id dict),
          lookup-keep (λ k. not (is_kind_of user_id dict k)) (u, t) s.settings,
          lookup-items user_id dict u t,
        )
        (either (eqb u user_id) (lookup t dict) (lookup (u, t) s.settings))
