-- ===== src/Users/Cached.antt =====
-- vstutils/auth.py: the cached users of CACHE_AUTH_USER: `cache_user_decorator` around `get_user`, and the
-- signals by which saving and deleting a user invalidates it. A user is cached with the row of its second
-- factor, which `select_related` has read. The cache keeps what was put until it is dropped; its keys tell
-- the users apart, and `SecurePickling` gives back the user that it was given.
use vstutils.Base.{
  ℕ, ◌≡◌, refl, ◌∙◌, sym, ap, inl, inr, Bool, true, false, [], ◌∷◌, ◌++◌, Option, none, some,
  if◌then◌else◌, eqb, eqb_iff, Bool-cases, Option-cases, ◌>>=◌, arith,
}
use vstutils.Users.Account.{Account, Table, find, save, delete}
use vstutils.Users.Safety.{find-save, find-delete}
use vstutils.Users.TwoFactor.{TwoFactor}

-- An account, and its second factor, if it has one
abbrev pub User : Type 0
User = Account × Option TwoFactor

pub record State : Type 0 where
  pub table : Table
  -- the rows of the second factors, whose keys are the users' ones
  pub twofa : ℕ → Option TwoFactor
  pub cached : ℕ → Option User

-- `cache.set` and `cache.delete`; also how the row at a key changes
abbrev pub put {ℓ} : {A : Type ℓ} → ℕ → Option A → (ℕ → Option A) → ℕ → Option A
put k v c j = if eqb j k then v else c j

-- `user_can_authenticate`
abbrev pub if_active : Account → Option TwoFactor → Option User
if_active a f = if a.is_active then some (a, f) else none

-- `get_user` without the decorator
unfoldable pub query : ℕ → Table → (ℕ → Option TwoFactor) → Option User
unfolding find
query k t twofa = find k t >>= λ a. if_active a (twofa k)

-- The wrapper: what was found is put again, also if it came from the cache.
abbrev pub kept : ℕ → Option User → State → State × Option User
kept k none s = (s, none)
kept k (some u) s = (record s { cached = put k (some u) s.cached }, some u)

unfoldable pub get_user : ℕ → State → State × Option User
unfolding query
get_user k s = kept k (elim (s.cached k) [ none ↦ query k s.table s.twofa | some u ↦ some u ]) s

-- `invalidate_user_from_cache`
unfoldable pub invalidate : (created : Bool) → ℕ → (ℕ → Option User) → ℕ → Option User
invalidate true k c = c
invalidate false k c = put k none c

-- What happens, one after another: a user is asked for, a row is saved, deleted or created, each with
-- its signal, a second factor is enrolled, changed or removed, for which no signal is received, or the
-- cache drops an entry. With a user goes its second factor.
pub data Step : State → State → Type 0 where
  asks : (s : State) (k : ℕ) → Step s (get_user k s).0
  saves :
      (s : State) (a : Account)
      → Step s (record s { table = save a s.table; cached = invalidate false a.pk s.cached })
  deletes :
      (s : State) (k : ℕ)
      → Step s (record {
        table = delete k s.table;
        twofa = put k none s.twofa;
        cached = invalidate false k s.cached;
      })
  creates :
      (s : State) (a : Account)
      → find a.pk s.table ≡ none
      → Step s (record s { table = s.table ++ a ∷ []; cached = invalidate true a.pk s.cached })
  enrols :
      (s : State) (k : ℕ) (f : Option TwoFactor) → Step s (record s { twofa = put k f s.twofa })
  drops : (s : State) (k : ℕ) → Step s (record s { cached = put k none s.cached })

pub data Reach (start : State) : State → Type 0 where
  here : Reach start start
  next : {s t : State} → Reach start s → Step s t → Reach start t

-- `get_user` of the account alone: the row at the key, if it is active
abbrev pub account_at : ℕ → Table → Option Account
account_at k t = find k t >>= λ a. if a.is_active then some a else none

abbrev pub account_of : Option User → Option Account
account_of none = none
account_of (some u) = some (u.0)

-- The account of every cached user is the one in the table, and active.
abbrev pub IsCoherent : State → Type 0
IsCoherent s = (k : ℕ) (u : User) → s.cached k ≡ some u → account_at k s.table ≡ some (u.0)

find-append_new :
    (k : ℕ) (t : Table) (b a : Account) → find k t ≡ some a → find k (t ++ b ∷ []) ≡ some a
unfolding find
find-append_new k [] b a h = cc
find-append_new k (c ∷ t) b a h = ground (arith, find-append_new k t b a)

account_of-if_active :
    (a : Account) (f : Option TwoFactor)
    → account_of (if_active a f) ≡ (if a.is_active then some a else none)
account_of-if_active a f = elim (Bool-cases a.is_active) [ inl e ↦ rw e refl | inr e ↦ rw e refl ]

account_of-query :
    (k : ℕ) (t : Table) (twofa : ℕ → Option TwoFactor)
    → account_of (query k t twofa) ≡ account_at k t
unfolding query
account_of-query k t twofa = elim (Option-cases (find k t)) [
  | inl e ↦ rw e refl
  | inr (a, e) ↦ rw (e, account_of-if_active a (twofa k)) refl
]

account_at-eq : (k : ℕ) (t u : Table) → find k t ≡ find k u → account_at k t ≡ account_at k u
account_at-eq k t u h = ap (λ o. o >>= λ a. if a.is_active then some a else none) h

account_at-append_new :
    (k : ℕ) (t : Table) (b a : Account)
    → account_at k t ≡ some a
    → account_at k (t ++ b ∷ []) ≡ some a
account_at-append_new k t b a h = elim (Option-cases (find k t)) [
  | inl e ↦ let h' : none ≡ some a = rw e at h in cc
  | inr (c, e) ↦ account_at-eq k (t ++ b ∷ []) t (find-append_new k t b c e ∙ sym e) ∙ h
]

put-IsCoherent :
    (s : State) (k : ℕ) (u : User)
    → IsCoherent s
    → account_at k s.table ≡ some (u.0)
    → IsCoherent (record s { cached = put k (some u) s.cached })
put-IsCoherent s k u h q j b e = elim (Bool-cases (eqb k j)) [
  | inl same ↦
      let e' : some u ≡ some b = ground (arith, same, e) in
      rw (← (eqb_iff k j).0 same) (q ∙ ap account_of e')
  | inr other ↦ h j b (ground (arith, other, e))
]

asked-IsCoherent : (s : State) (k : ℕ) → IsCoherent s → IsCoherent (get_user k s).0
unfolding get_user
asked-IsCoherent s k h = elim (Option-cases (s.cached k)) [
  | inr (u, e) ↦ rw (e, get_user) (put-IsCoherent s k u h (h k u e))
  | inl e ↦ elim (Option-cases (query k s.table s.twofa)) [
    | inl q ↦ rw (e, get_user, q) h
    | inr (u, q) ↦
        rw (e, get_user, q)
          (put-IsCoherent s k u h (sym (account_of-query k s.table s.twofa) ∙ ap account_of q))
  ]
]

-- Where only the row of an invalidated key may have changed, what is left is as it was.
drop-IsCoherent :
    (s : State) (k : ℕ) (t : Table) (twofa : ℕ → Option TwoFactor)
    → IsCoherent s
    → ((j : ℕ) → eqb k j ≡ false → find j t ≡ find j s.table)
    → IsCoherent (record { table = t; twofa = twofa; cached = put k none s.cached })
drop-IsCoherent s k t twofa h same j u e = elim (Bool-cases (eqb k j)) [
  | inl here_ ↦ absurd (ground (arith, here_, e))
  | inr other ↦ account_at-eq j t s.table (same j other) ∙ h j u (ground (arith, other, e))
]

Step-IsCoherent : {s t : State} → Step s t → IsCoherent s → IsCoherent t
unfolding invalidate
Step-IsCoherent (asks s k) h = asked-IsCoherent s k h
Step-IsCoherent (saves s b) h =
    drop-IsCoherent s b.pk (save b s.table) s.twofa h
      (λ j other. find-save j b s.table ∙ rw other refl)
Step-IsCoherent (deletes s k) h =
    drop-IsCoherent s k (delete k s.table) (put k none s.twofa) h
      (λ j other. find-delete j k s.table ∙ rw other refl)
Step-IsCoherent (creates s b new) h = λ j u e. account_at-append_new j s.table b (u.0) (h j u e)
Step-IsCoherent (enrols s k f) h = h
Step-IsCoherent (drops s k) h = drop-IsCoherent s k s.table s.twofa h (λ j other. refl)

Reach-IsCoherent : {s t : State} → IsCoherent s → Reach s t → IsCoherent t
Reach-IsCoherent h here = h
Reach-IsCoherent h (next r st) = Step-IsCoherent st (Reach-IsCoherent h r)

get_user-account :
    (s : State) (k : ℕ) → IsCoherent s → account_of (get_user k s).1 ≡ account_at k s.table
unfolding get_user
get_user-account s k h = elim (Option-cases (s.cached k)) [
  | inr (u, e) ↦ rw (e, get_user) (sym (h k u e))
  | inl e ↦ elim (Option-cases (query k s.table s.twofa)) [
    | inl q ↦ rw (e, get_user, q) (sym (ap account_of q) ∙ account_of-query k s.table s.twofa)
    | inr (u, q) ↦ rw (e, get_user, q) (sym (ap account_of q) ∙ account_of-query k s.table s.twofa)
  ]
]

-- From an empty cache and over all sequences of these steps: the account that asking for a user through
-- the cache gives is the one that asking the tables gives, namely the row at the key, if it is active. It
-- says nothing of the second factor that comes with the account, which may be one that is no more.
pub get_user_transparent :
    (start s : State) (k : ℕ)
    → ((j : ℕ) → start.cached j ≡ none)
    → Reach start s
    → (account_of (get_user k s).1 ≡ account_at k s.table)
      × (account_of (query k s.table s.twofa) ≡ account_at k s.table)
get_user_transparent start s k empty r = (
  get_user-account s k (Reach-IsCoherent (λ j u e. absurd (let n = empty j in cc)) r),
  account_of-query k s.table s.twofa,
)
