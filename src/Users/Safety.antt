-- ===== src/Users/Safety.antt =====
-- What the operations of `UserViewSet` may change, for every request.
use vstutils.Base.{
  ℕ, ◌≡◌, refl, sym, ◌∙◌, ap, ◌⊎◌, inl, inr, Bool, true, false, not, ◌&&◌, [], ◌∷◌, Option, none,
  some, if◌then◌else◌, eqb, eqb_iff, ◌>>=◌, arith, Bool-cases, Option-cases,
}
use mathlib.Core.Path.{subst}
use vstutils.Base.Text.{Text}
use vstutils.Users.Account.{
  Account, User, anonymous, known, is_superuser, is_own, own_pk, Table, find, save, delete,
}
use vstutils.Users.Permissions.{Request, has_permission, has_object_permission}
use vstutils.Users.Views.{
  Rest, Changes, NewUser, Response, is_staff_or_super, changed, update_instance, key, pick,
  user_permits, get_object, view_at, dispatch, update_object, update,
}

pub find-pk : (k : ℕ) (t : Table) (a : Account) → find k t ≡ some a → a.pk ≡ k
unfolding find
find-pk k [] a h = cc
find-pk k (b ∷ t) a h = ground (arith, find-pk k t a)

pub find-save :
    (k : ℕ) (b : Account) (t : Table)
    → find k (save b t) ≡ (if eqb b.pk k then find k t >>= (λ _. some b) else find k t)
unfolding find save
find-save k b [] = ground arith
find-save k b (a ∷ t) = ground (arith, find-save k b t)

pub find-delete : (k j : ℕ) (t : Table) → find k (delete j t) ≡ (if eqb j k then none else find k t)
unfolding find delete
find-delete k j [] = ground arith
find-delete k j (a ∷ t) = ground (arith, find-delete k j t)

-- The account at the key, which the user may touch.
pub record IsGranted (r : Request) (k : Option ℕ) (t : Table) (a : Account) : Type 0 where
  pub at : k ≡ some a.pk
  pub found : find a.pk t ≡ some a
  pub grant : (is_superuser r.user ≡ true) ⊎ (own_pk r.user ≡ some a.pk)

own_grant : (a : Account) (u : User) → is_own a u ≡ true → own_pk u ≡ some a.pk
own_grant a anonymous h = cc
own_grant a (known b) h = ground arith

-- What an update by the request's user may make of the account at a key.
pub record IsKept (r : Request) (k : ℕ) (a b : Account) : Type 0 where
  pub same_pk : b.pk ≡ a.pk
  pub same_password : b.password ≡ a.password
  pub same_superuser : b.is_superuser ≡ a.is_superuser
  pub same_staff : (is_superuser r.user ≡ true) ⊎ (b.is_staff ≡ a.is_staff)
  pub untouched : (is_superuser r.user ≡ true) ⊎ ((own_pk r.user ≡ some k) ⊎ (b ≡ a))

IsKept-refl : (r : Request) (k : ℕ) (a : Account) → IsKept r k a a
IsKept-refl r k a = record {
  same_pk = refl;
  same_password = refl;
  same_superuser = refl;
  same_staff = inr refl;
  untouched = inr (inr refl);
}

some_inj {ℓ} : {A : Type ℓ} {a b : A} → some a ≡ some b → a ≡ b
some_inj e = cc

module _ {D : Type 0} (rest : Rest D) where
  pick_granted :
      (r : Request) (b a : Account)
      → pick rest user_permits r b ≡ inl a
      → (b ≡ a) × ((is_superuser r.user ≡ true) ⊎ (is_own a r.user ≡ true))
  unfolding pick has_object_permission
  pick_granted r b a h = elim (Bool-cases (rest.visible r b)) [
    | inr hidden ↦ let h' = (rw hidden at h) in cc
    | inl shown ↦ elim (Bool-cases (is_superuser r.user)) [
      | inl super ↦ let h' = (rw (shown, super) at h) in (cc, inl super)
      | inr plain ↦ elim (Bool-cases (is_own b r.user)) [
        | inl own ↦
            let h' = (rw (shown, plain, own) at h) in let e : b ≡ a = cc in (e, inr (rw (← e) own))
        | inr other ↦ let h' = (rw (shown, plain, other) at h) in cc
      ]
    ]
  ]

  pub get_object-IsGranted :
      (r : Request) (k : Option ℕ) (t : Table) (a : Account)
      → get_object rest user_permits r k t ≡ inl a
      → IsGranted r k t a
  unfolding get_object
  get_object-IsGranted r none t a h = cc
  get_object-IsGranted r (some k) t a h = elim (Option-cases (find k t)) [
    | inl e ↦ let h' = (rw (e, get_object) at h) in cc
    | inr (b, e) ↦
        let (same, grant) = pick_granted r b a (rw (e, get_object) at h) in
        let at_k : a.pk ≡ k = find-pk k t a (e ∙ ap some same) in
        record {
          at = ap some (sym at_k);
          found = ap (λ j. find j t) at_k ∙ (e ∙ ap some same);
          grant = elim grant [ inl super ↦ inl super | inr own ↦ inr (own_grant a r.user own) ];
        }
  ]

  -- The laws of the framework: a field that is only read is no validated data.
  pub record RestLaws : Type 0 where
    pub read_only :
        (partial : Bool) (a : Account) (d : D) (c : Changes)
        → rest.validate false partial a d ≡ some c
        → c.is_staff ≡ none
    pub read_only_new :
        (d : D) (u : NewUser) → rest.validate_new false d ≡ some u → u.changes.is_staff ≡ none
    pub fresh : (t : Table) → find (rest.new_pk t) t ≡ none

  -- How an update goes that changes the table.
  record Updated (partial : Bool) (r : Request) (d : D) (t t' : Table) : Type 0 where
    instance_ : Account
    changes : Changes
    granted : (is_superuser r.user ≡ true) ⊎ (own_pk r.user ≡ some instance_.pk)
    found : find instance_.pk t ≡ some instance_
    valid : rest.validate (is_superuser r.user) partial instance_ d ≡ some changes
    result : t' ≡ save (changed instance_ changes) t

  update_object-cases :
      (partial : Bool) (r : Request) (k : Option ℕ) (d : D) (t : Table) (o : Account ⊎ Response)
      → get_object rest user_permits r k t ≡ o
      → ((update_object rest partial r d o t).0 ≡ t)
        ⊎ Updated partial r d t (update_object rest partial r d o t).0
  unfolding update_object update_instance
  update_object-cases partial r k d t (inr e) h = inl refl
  update_object-cases partial r k d t (inl a) h =
      let g = get_object-IsGranted r k t a h in
      elim (Option-cases (rest.validate (is_superuser r.user) partial a d)) [
        | inl e ↦ inl (rw (e, update_object))
        | inr (c, e) ↦ elim (Bool-cases (not (is_staff_or_super r) && not (is_own a r.user))) [
          | inl refused ↦ inl (rw (e, update_object, refused))
          | inr passes ↦ inr record {
            instance_ = a;
            changes = c;
            granted = g.grant;
            found = g.found;
            valid = e;
            result = rw (e, update_object, passes);
          }
        ]
      ]

  update-cases :
      (partial : Bool) (r : Request) (pk : Text) (d : D) (t : Table)
      → ((update rest partial r pk d t).0 ≡ t)
        ⊎ Updated partial r d t (update rest partial r pk d t).0
  unfolding update dispatch
  update-cases partial r pk d t =
      elim (Bool-cases (has_permission rest.api_url rest.str r (view_at rest pk))) [
        | inr closed ↦ inl (rw closed)
        | inl open_ ↦ rw open_ (
            update_object-cases partial r (key rest r pk) d t
              (get_object rest user_permits r (key rest r pk) t) refl)
      ]

  -- What an update makes of the account at its own key.
  update_own :
      RestLaws
      → (partial : Bool) (r : Request) (d : D) (i : Account) (c : Changes)
      → rest.validate (is_superuser r.user) partial i d ≡ some c
      → (is_superuser r.user ≡ true) ⊎ ((changed i c).is_staff ≡ i.is_staff)
  unfolding changed
  update_own laws partial r d i c valid = elim (Bool-cases (is_superuser r.user)) [
    | inl super ↦ inl super
    | inr plain ↦ inr (rw (laws.read_only partial i d c (rw plain at valid)) refl)
  ]

  find_updated :
      (k : ℕ) (i : Account) (c : Changes) (t : Table)
      → find k (save (changed i c) t)
        ≡ (if eqb i.pk k then find k t >>= (λ _. some (changed i c)) else find k t)
  unfolding changed
  find_updated k i c t = find-save k (changed i c) t

  update-IsKept :
      RestLaws
      → (partial : Bool) (r : Request) (d : D) (i : Account) (c : Changes)
      → rest.validate (is_superuser r.user) partial i d ≡ some c
      → (is_superuser r.user ≡ true) ⊎ (own_pk r.user ≡ some i.pk)
      → IsKept r i.pk i (changed i c)
  unfolding changed
  update-IsKept laws partial r d i c valid grant = record {
    same_pk = refl;
    same_password = refl;
    same_superuser = refl;
    same_staff = update_own laws partial r d i c valid;
    untouched = elim grant [ inl super ↦ inl super | inr own ↦ inr (inl own) ];
  }

  -- By an update, a user who is no superuser changes no other account and nobody's `is_staff`; and
  -- nobody changes a key, a password, or who is a superuser.
  pub update_safe :
      RestLaws
      → (partial : Bool) (r : Request) (pk : Text) (d : D) (t : Table) (k : ℕ) (a : Account)
      → find k t ≡ some a
      → (b : Account) × (find k (update rest partial r pk d t).0 ≡ some b) × IsKept r k a b
  update_safe laws partial r pk d t k a h = elim (update-cases partial r pk d t) [
    | inl same ↦ (a, rw same h, IsKept-refl r k a)
    | inr u ↦
        let i = u.instance_ in
        elim (Bool-cases (eqb i.pk k)) [
          | inr other ↦
              (a, rw u.result (find_updated k i u.changes t ∙ rw other h), IsKept-refl r k a)
          | inl here ↦
              let at_k = (eqb_iff i.pk k).0 here in
              let is_i : i ≡ a = some_inj (sym u.found ∙ ap (λ j. find j t) at_k ∙ h) in
              (
                changed i u.changes,
                rw u.result (find_updated k i u.changes t ∙ rw (here, h) refl),
                subst (λ b. IsKept r k b (changed i u.changes)) is_i
                    (subst (λ j. IsKept r j i (changed i u.changes)) at_k
                      (update-IsKept laws partial r d i u.changes u.valid u.granted)),
              )
        ]
  ]
