-- ===== src/Users/Backends.antt =====
-- vstutils/auth.py: `AuthPluginsBackend`, whose methods stand under `raise_context`. The plugins are code
-- of their own, with effects on a state `S`.
use vstutils.Base.{◌≡◌, refl, List, [], ◌∷◌, ◌++◌, Option, none, some}
use vstutils.Base.Text.{Text}

-- What a decorated function gives back: a suppressed exception `E` becomes the tuple of its type, value
-- and traceback, which is true as a truth value.
pub data Found (U E : Type 0) : Type 0 where
  nobody : Found U E
  user : U → Found U E
  info : E → Found U E

pub data Attempt (U E : Type 0) : Type 0 where
  gives : Option U → Attempt U E
  raises : E → Attempt U E

module _ {S U E : Type 0} (authenticate_by : Text → S → Attempt U E × S) where
  abbrev pub found_by : Attempt U E × S → Found U E × S
  found_by (gives none, s) = (nobody, s)
  found_by (gives (some u), s) = (user u, s)
  found_by (raises e, s) = (info e, s)

  -- `auth_with_plugin`: getting the plugin's object and its `authenticate`, either of which may raise
  unfoldable pub auth_with_plugin : Text → S → Found U E × S
  auth_with_plugin plugin s = found_by (authenticate_by plugin s)

  -- `if result: return result`
  abbrev pub or_next : Found U E × S → (S → Found U E × S) → Found U E × S
  or_next (nobody, s) next = next s
  or_next (user u, s) next = (user u, s)
  or_next (info e, s) next = (info e, s)

  unfoldable pub ask_all : List Text → S → Found U E × S
  unfolding auth_with_plugin
  ask_all [] s = (nobody, s)
  ask_all (p ∷ ps) s = or_next (auth_with_plugin p s) (ask_all ps)

  -- `authenticate`, given the header X-Auth-Plugin and the names of the plugins
  unfoldable pub authenticate : (header : Option Text) → (plugins : List Text) → S → Found U E × S
  unfolding ask_all auth_with_plugin
  authenticate (some plugin) plugins s = auth_with_plugin plugin s
  authenticate none plugins s = ask_all plugins s

  -- Each of some plugins in order, asked once, knows nobody.
  pub data KnowNobody : List Text → S → S → Type 0 where
    all_asked : (s : S) → KnowNobody [] s s
    asked :
        (p : Text) {ps : List Text} {s t u : S}
        → authenticate_by p s ≡ (gives none, t)
        → KnowNobody ps t u
        → KnowNobody (p ∷ ps) s u

  -- What a plugin that knows the user or raises answers
  pub data Decides : Attempt U E → Found U E → Type 0 where
    knows : (u : U) → Decides (gives (some u)) (user u)
    fails : (e : E) → Decides (raises e) (info e)

  stops :
      (p : Text) (t u : S) (a : Attempt U E) (r : Found U E) (next : S → Found U E × S)
      → authenticate_by p t ≡ (a, u)
      → Decides a r
      → or_next (auth_with_plugin p t) next ≡ (r, u)
  unfolding auth_with_plugin
  stops p t u a r next h (knows x) = rw h refl
  stops p t u a r next h (fails e) = rw h refl

  -- Without the header the plugins are asked in order until one knows the user or raises: where those
  -- before it, asked once each, know nobody, the answer is the user or the exception's tuple, and the
  -- state is the one in which this plugin leaves off, as no later one is asked.
  pub authenticate_lem :
      (before : List Text) (plugin : Text) (after : List Text) (s t u : S) (a : Attempt U E)
      (r : Found U E)
      → KnowNobody before s t
      → authenticate_by plugin t ≡ (a, u)
      → Decides a r
      → authenticate none (before ++ plugin ∷ after) s ≡ (r, u)
  unfolding authenticate auth_with_plugin
  authenticate_lem [] plugin after s t u a r (all_asked v) h d =
      stops plugin v u a r (ask_all after) h d
  authenticate_lem (q ∷ before) plugin after s t u a r (asked p k rest) h d =
      rw k (authenticate_lem before plugin after _ t u a r rest h d)
