-- ===== src/Lock/Exchange.antt =====
-- vstutils/utils.py: `KVExchanger`, one message at a time under a key of a shared cache.
use Prim.Native.String
use vstutils.Base.{
  Option-cases, inl, inr, eq_iff, ℕ, zero, suc, ◌<◌, String, ◌≡◌, Bool, true, false, Option, none,
  some, arith, eq_refl,
}
use vstutils.Lock.Shared.{CacheOps, CacheLaws}

pub record KvExchanger : Type 0 where
  pub key : String
  pub timeout : ℕ

-- `ttl or default`: an absent and a zero value both give the default.
abbrev pub or_else : Option ℕ → ℕ → ℕ
or_else none d = d
or_else (some zero) d = d
or_else (some (suc n)) d = suc n

-- `__init__`, with the class attributes `PREFIX` and `TIMEOUT`
unfoldable pub make : (prefix : String) (standard : ℕ) (key : String) → Option ℕ → KvExchanger
make prefix standard key timeout = record {
  key = String.◌++◌ prefix key;
  timeout = or_else timeout standard;
}

module _ {S V : Type 0} (cache : CacheOps S V) where
  unfoldable pub send : KvExchanger → V → Option ℕ → S → Bool × S
  send x value ttl s = cache.add s x.key value (or_else ttl x.timeout)

  unfoldable pub prolong : KvExchanger → Option ℕ → S → S
  prolong x ttl s = cache.touch s x.key (or_else ttl x.timeout)

  -- `get`: a read takes the message away.
  unfoldable pub receive : KvExchanger → S → Option V × S
  receive x s = (cache.get s x.key, cache.delete s x.key)

  unfoldable pub delete : KvExchanger → S → S
  delete x s = cache.delete s x.key

  pub or_else-pos : (ttl : Option ℕ) (d : ℕ) → 0 < d → 0 < or_else ttl d
  or_else-pos none d h = h
  or_else-pos (some zero) d h = h
  or_else-pos (some (suc n)) d h = omega arith

  module _ (laws : CacheLaws cache) where
    -- Over a free key and a positive default timeout: a sent message is delivered once. The sending
    -- succeeds, a second sending before the delivery is refused and changes nothing, the first read
    -- gives the message, and the next read gives nothing.
    pub receive-send :
        (x : KvExchanger) (v w : V) (ttl ttl' : Option ℕ) (s : S)
        → 0 < x.timeout
        → cache.get s x.key ≡ none
        → ((send x v ttl s).0 ≡ true)
          × (send x w ttl' (send x v ttl s).1 ≡ (false, (send x v ttl s).1))
          × ((receive x (send x v ttl s).1).0 ≡ some v)
          × ((receive x (receive x (send x v ttl s).1).1).0 ≡ none)
    unfolding send receive
    receive-send x v w ttl ttl' s pos free =
        let sent = (cache.add s x.key v (or_else ttl x.timeout)).1 in
        let stored : cache.get sent x.key ≡ some v = ground (
          arith,
          laws.get-add s x.key x.key v (or_else ttl x.timeout) (or_else-pos ttl x.timeout pos) free,
          eq_refl x.key,
        ) in
        (
          laws.add_free s x.key v (or_else ttl x.timeout) (or_else-pos ttl x.timeout pos) free,
          laws.add_taken sent x.key w v (or_else ttl' x.timeout) stored,
          stored,
          ground (arith, laws.get-delete sent x.key x.key, eq_refl x.key),
        )

    -- `send` leaves every stored message in its place.
    pub get-send_keeps :
        (x : KvExchanger) (v u : V) (ttl : Option ℕ) (j : String) (s : S)
        → 0 < x.timeout
        → cache.get s j ≡ some u
        → cache.get (send x v ttl s).1 j ≡ some u
    unfolding send
    get-send_keeps x v u ttl j s pos h = elim (Option-cases (cache.get s x.key)) [
      | inl free ↦ ground (
        arith,
        laws.get-add s x.key j v (or_else ttl x.timeout) (or_else-pos ttl x.timeout pos) free,
        eq_iff x.key j,
      )
      | inr (w, taken) ↦ ground (arith, laws.add_taken s x.key v w (or_else ttl x.timeout) taken)
    ]
