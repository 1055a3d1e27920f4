-- ===== src/Lock/Race/Exclusion.antt =====
-- vstutils/utils.py: what every interleaving of `Lock` objects keeps.
use native.Mathlib.Decide.{ℕ_discrete}
use mathlib.Core.Path.{subst}
use vstutils.Base.{
  ℕ, ◌<◌, String, ◌≡◌, ◌≢◌, refl, Bool, true, false, ◌&&◌, none, some, arith, ◌==◌, string_eq,
  eq_iff, if◌then◌else◌, sym, ◌∙◌,
}
use vstutils.Lock.Shared.{CacheOps, CacheLaws}
use vstutils.Lock.Exchange.{get-send_keeps}
use vstutils.Lock.Acquire.{Lock, holds_payload-eq, release}
use vstutils.Lock.Race.{
  Phase, trying, sent, held, released, failed, lock_at, World, next_call, Step, call, give_up,
  prolong, Reach, here, later,
}

-- The constructor has returned.
abbrev pub is_past_acquire : Phase → Bool
is_past_acquire held = true
is_past_acquire released = true
is_past_acquire _ = false

module _ {S : Type 0} (ops : CacheOps S String) (laws : CacheLaws ops) (names : ℕ → String)
    (locks : ℕ → Lock) where
  -- `release` leaves every other key alone; an object that never acquired deletes nothing; and an
  -- object that did deletes its key whoever's payload stands there, after its first release too.
  pub get-release :
      (i : ℕ) (p : Phase) (k : String) (s : S)
      → ops.get (release ops false (lock_at names locks i p) s) k
        ≡ (if is_past_acquire p && ((locks i).exchange.key == k) then none else ops.get s k)
  unfolding release lock_at
  get-release i held k s = laws.get-delete s (locks i).exchange.key k
  get-release i released k s = laws.get-delete s (locks i).exchange.key k
  get-release i _ k s = refl

trying-ne-held : trying ≢ held
trying-ne-held h = cc

module _ {S : Type 0} (ops : CacheOps S String) (laws : CacheLaws ops) (names : ℕ → String)
    (locks : ℕ → Lock) (ttl_pos : (i : ℕ) → 0 < (locks i).exchange.timeout)
    (payload_unique : (i j : ℕ) → (locks i).payload ≡ (locks j).payload → i ≡ j) where
  -- The key of a held lock holds its payload.
  pub record IsExclusive (w : World S) : Type 0 where
    pub holds :
        (i : ℕ) → w.phase i ≡ held → ops.get w.cache (locks i).exchange.key ≡ some (locks i).payload

  next_call-keeps :
      (i j : ℕ) (p : Phase) (s : S)
      → i ≢ j
      → (p ≡ held → ops.get s (locks i).exchange.key ≡ some (locks i).payload)
      → ops.get s (locks j).exchange.key ≡ some (locks j).payload
      → ops.get (next_call ops names locks i p s).1 (locks j).exchange.key ≡ some (locks j).payload
  unfolding next_call release
  next_call-keeps i j trying s differ own h =
      get-send_keeps ops laws (locks i).exchange (locks i).payload (locks j).payload none
        (locks j).exchange.key s (ttl_pos i) h
  next_call-keeps i j sent s differ own h = h
  next_call-keeps i j held s differ own h = ground (
    arith,
    laws.get-delete s (locks i).exchange.key (locks j).exchange.key,
    eq_iff (locks i).exchange.key (locks j).exchange.key,
    own refl,
    payload_unique i j,
  )
  next_call-keeps i j released s differ own h = h
  next_call-keeps i j failed s differ own h = h

  next_call-held :
      (i : ℕ) (p : Phase) (s : S)
      → (next_call ops names locks i p s).0 ≡ held
      → ops.get (next_call ops names locks i p s).1 (locks i).exchange.key ≡ some (locks i).payload
  unfolding next_call
  next_call-held i trying s h = ground arith
  next_call-held i sent s h = holds_payload-eq _ _ (ground arith)
  next_call-held i _ s h = cc

  -- Every step keeps the invariant.
  Step-IsExclusive : {w u : World S} → Step ops names locks w u → IsExclusive w → IsExclusive u
  Step-IsExclusive {w} (call i) inv = record {
    holds = λ j. elim (ℕ_discrete i j) [
      | yes e ↦ λ h.
          subst
            (λ m.
              ops.get (next_call ops names locks i (w.phase i) w.cache).1 (locks m).exchange.key
              ≡ some (locks m).payload)
            e (next_call-held i (w.phase i) w.cache (ground arith))
      | no d ↦
          λ h. next_call-keeps i j (w.phase i) w.cache d (inv.holds i) (inv.holds j (ground arith))
    ];
  }
  Step-IsExclusive {w} (give_up i e) inv = record { holds = λ j h. inv.holds j (ground arith) }
  Step-IsExclusive {w} (prolong i ttl) inv = record {
    holds = λ j h.
        laws.get-touch w.cache (locks i).exchange.key (locks j).exchange.key ttl ∙ inv.holds j h;
  }

  Reach-IsExclusive : {w u : World S} → IsExclusive w → Reach ops names locks w u → IsExclusive u
  Reach-IsExclusive inv here = inv
  Reach-IsExclusive inv (later r st) = Step-IsExclusive st (Reach-IsExclusive inv r)

  -- From a start where nobody holds a lock, and over any interleaving of the constructors' and the
  -- releases' calls, two lock objects on one key are never held together. The objects have different
  -- payloads and positive timeouts, no key runs out on its own, nobody forces a release, and no
  -- object is finalized after its release.
  pub mutual_exclusion :
      {w u : World S}
      → ((i : ℕ) → w.phase i ≡ trying)
      → Reach ops names locks w u
      → (i j : ℕ) → u.phase i ≡ held
      → u.phase j ≡ held
      → (locks i).exchange.key ≡ (locks j).exchange.key
      → i ≡ j
  mutual_exclusion {w} {u} start r i j hi hj same =
      let inv =
        Reach-IsExclusive (record { holds = λ m h. absurd (trying-ne-held (sym (start m) ∙ h)) })
          r in
      payload_unique i j (cc (inv.holds i hi, inv.holds j hj))
