-- ===== src/Lock/Shared.antt =====
-- What vstutils/utils.py relies on in `KVExchanger` and `Lock`: Django's cache interface, over the
-- backend that the setting `locks` names. A key may also vanish between two calls, when its time is
-- over; that is an event of its own (`Lock.Race`).
use vstutils.Base.{
  ℕ, ◌<◌, String, ◌≡◌, Bool, true, false, Option, none, some, ◌==◌, string_eq, if◌then◌else◌,
}

pub record CacheOps (S V : Type 0) : Type 0 where
  pub add : S → String → V → ℕ → Bool × S
  pub get : S → String → Option V
  pub touch : S → String → ℕ → S
  pub delete : S → String → S

-- The documented behaviour: `add` writes only a free key.
pub record CacheLaws {S V : Type 0} (cache : CacheOps S V) : Type 0 where
  pub add_free :
      (s : S) (k : String) (v : V) (ttl : ℕ)
      → 0 < ttl
      → cache.get s k ≡ none
      → (cache.add s k v ttl).0 ≡ true
  pub get-add :
      (s : S) (k j : String) (v : V) (ttl : ℕ)
      → 0 < ttl
      → cache.get s k ≡ none
      → cache.get (cache.add s k v ttl).1 j ≡ (if k == j then some v else cache.get s j)
  pub add_taken :
      (s : S) (k : String) (v u : V) (ttl : ℕ)
      → cache.get s k ≡ some u
      → cache.add s k v ttl ≡ (false, s)
  pub get-touch :
      (s : S) (k j : String) (ttl : ℕ) → cache.get (cache.touch s k ttl) j ≡ cache.get s j
  pub get-delete :
      (s : S) (k j : String)
      → cache.get (cache.delete s k) j ≡ (if k == j then none else cache.get s j)
