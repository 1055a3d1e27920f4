-- ===== src/Users/Rows.antt =====
-- The rows that a request of `UserViewSet` removes or adds.
use vstutils.Base.{
  ℕ, ◌≡◌, ◌≢◌, refl, ◌⊎◌, inl, inr, Bool, true, false, not, ◌&&◌, [], ◌∷◌, ◌++◌, Option, none, some,
  Bool-cases, Option-cases, text_beq_iff, sym, ap, false_ne_true,
}
use vstutils.Base.Text.{Text}
use vstutils.Users.Account.{Account, is_superuser, is_own, own_pk, Table, find, delete}
use vstutils.Users.Permissions.{Request, has_permission, has_object_permission}
use vstutils.Users.Views.{
  Rest, NewUser, Response, created, no_content, is_staff_or_super, is_repeated, no_pk, key, pick,
  user_permits, get_object, view_at, dispatch, destroy_object, destroy, new_account,
  create_instance, create, get_or,
}
use vstutils.Users.Safety.{RestLaws, get_object-IsGranted}

not_both : (a b : Bool) → (a && not b) ≡ false → (a ≡ false) ⊎ (b ≡ true)
not_both a true h = inr refl
not_both true false h = cc
not_both false false h = inl refl

is_repeated_lem : (p : Text) (again : Option Text) → is_repeated p again ≡ true → again ≡ some p
is_repeated_lem p none h = cc
is_repeated_lem p (some q) h = ap some (sym ((text_beq_iff p q).0 h))

is_repeated-ne : (p : Text) (again : Option Text) → is_repeated p again ≡ false → again ≢ some p
is_repeated-ne p none h e = cc
is_repeated-ne p (some q) h e =
    false_ne_true h ((text_beq_iff p q).1 (let same : some q ≡ some p = e in cc))

module _ {D : Type 0} (rest : Rest D) where
  -- One account is removed, by a superuser or by its owner, who needs the setting.
  pub record IsRemoval (r : Request) (t : Table) (result : Table × Response) : Type 0 where
    pub account : Account
    pub found : find account.pk t ≡ some account
    pub grant : (is_superuser r.user ≡ true) ⊎ (own_pk r.user ≡ some account.pk)
    pub owner : (is_own account r.user ≡ false) ⊎ (rest.enable_user_self_remove ≡ true)
    pub removed : result ≡ (delete account.pk t, no_content)

  abbrev pub IsRefusal : Table → Response → Table × Response → Type 0
  IsRefusal t done result = (result.0 ≡ t) × (result.1 ≢ done)

  pick-ne : (r : Request) (a : Account) → pick rest user_permits r a ≢ inr no_content
  unfolding pick has_object_permission
  pick-ne r a h = elim (Bool-cases (rest.visible r a)) [
    | inr hidden ↦ let h' = (rw (hidden, pick) at h) in cc
    | inl shown ↦ elim (Bool-cases (has_object_permission r (some a))) [
      | inl granted ↦ let h' = (rw (shown, granted, pick) at h) in cc
      | inr refused ↦ let h' = (rw (shown, refused, pick) at h) in cc
    ]
  ]

  get_object-ne :
      (r : Request) (k : Option ℕ) (t : Table) → get_object rest user_permits r k t ≢ inr no_content
  unfolding get_object
  get_object-ne r none t h = cc
  get_object-ne r (some k) t h = elim (Option-cases (find k t)) [
    | inl e ↦ let h' = (rw (e, get_object) at h) in cc
    | inr (a, e) ↦ pick-ne r a (rw (e, get_object) at h)
  ]

  destroy_object-cases :
      (r : Request) (k : Option ℕ) (t : Table) (o : Account ⊎ Response)
      → get_object rest user_permits r k t ≡ o
      → IsRefusal t no_content (destroy_object rest r k o t)
        ⊎ IsRemoval r t (destroy_object rest r k o t)
  unfolding destroy_object
  destroy_object-cases r k t (inr e) h =
      inl (refl, λ same. get_object-ne r k t (rw h (ap inr same)))
  destroy_object-cases r k t (inl a) h =
      let g = get_object-IsGranted rest r k t a h in
      elim (Bool-cases (is_own a r.user && not rest.enable_user_self_remove)) [
        | inl refused ↦ inl (rw (refused, destroy_object) (refl, λ e. cc))
        | inr passes ↦ inr record {
          account = a;
          found = g.found;
          grant = g.grant;
          owner = not_both (is_own a r.user) rest.enable_user_self_remove passes;
          removed = rw (passes, h, destroy_object) refl;
        }
      ]

  -- A removal either is refused and changes nothing, or removes one account, which the user who asks
  -- owns or is a superuser over; the owner's own account goes only where the setting allows it.
  pub destroy_lem :
      (r : Request) (pk : Text) (t : Table)
      → IsRefusal t no_content (destroy rest r pk t) ⊎ IsRemoval r t (destroy rest r pk t)
  unfolding destroy dispatch
  destroy_lem r pk t =
      elim (Bool-cases (has_permission rest.api_url rest.str r (view_at rest pk))) [
        | inr closed ↦ inl (rw closed (refl, λ e. cc))
        | inl granted ↦ rw granted (
            destroy_object-cases r (key rest r pk) t
              (get_object rest user_permits r (key rest r pk) t) refl)
      ]

  -- One account is added, as the request's data say: its key is new, its password hashed, and it is no
  -- superuser; only a superuser makes it one of the staff.
  pub record IsAddition (r : Request) (d : D) (t : Table) (result : Table × Response) : Type 0 where
    pub account : Account
    pub given : NewUser
    pub asked : rest.validate_new (is_superuser r.user) d ≡ some given
    pub by_staff : is_staff_or_super r ≡ true
    pub repeated : given.password2 ≡ some given.password
    pub named : account.username ≡ get_or given.changes.username []
    pub hashed : account.password ≡ rest.make_password given.password
    pub is_new : find account.pk t ≡ none
    pub plain : account.is_superuser ≡ false
    pub staff : (is_superuser r.user ≡ true) ⊎ (account.is_staff ≡ false)
    pub added : result ≡ (t ++ account ∷ [], created account)

  -- Why no account is added
  pub data Reason (r : Request) (d : D) : Type 0 where
    closed : has_permission rest.api_url rest.str r no_pk ≡ false → Reason r d
    invalid : rest.validate_new (is_superuser r.user) d ≡ none → Reason r d
    unequal :
        (u : NewUser)
        → rest.validate_new (is_superuser r.user) d ≡ some u
        → u.password2 ≢ some u.password
        → Reason r d
    unprivileged : is_staff_or_super r ≡ false → Reason r d

  abbrev pub AddsNothing : Table → Table × Response → Type 0
  AddsNothing t result = (result.0 ≡ t) × ((a : Account) → result.1 ≢ created a)

  create_instance-cases :
      RestLaws rest
      → (r : Request) (d : D) (u : NewUser) (t : Table)
      → rest.validate_new (is_superuser r.user) d ≡ some u
      → (Reason r d × AddsNothing t (create_instance rest r u t))
        ⊎ IsAddition r d t (create_instance rest r u t)
  unfolding create_instance new_account
  create_instance-cases laws r d u t valid =
      elim (Bool-cases (is_repeated u.password u.password2)) [
        | inr differ ↦ inl (
          unequal u valid (is_repeated-ne u.password u.password2 differ),
          rw (differ, create_instance) (refl, λ a e. cc),
        )
        | inl same ↦ elim (Bool-cases (is_staff_or_super r)) [
          | inr refused ↦
              inl (unprivileged refused, rw (same, refused, create_instance) (refl, λ a e. cc))
          | inl staff ↦ inr record {
            account = new_account rest u.changes (rest.make_password u.password) t;
            given = u;
            asked = valid;
            by_staff = staff;
            repeated = is_repeated_lem u.password u.password2 same;
            named = refl;
            hashed = refl;
            is_new = laws.fresh t;
            plain = refl;
            staff = elim (Bool-cases (is_superuser r.user)) [
              | inl super ↦ inl super
              | inr plain ↦ inr (rw (laws.read_only_new d u (rw plain at valid)) refl)
            ];
            added = rw (same, staff, create_instance) refl;
          }
        ]
      ]

  -- Where a field that is only read is no validated data and new keys are new: a creation either adds
  -- nothing, for one of four reasons (the view is closed to the request, the data are not valid or do not
  -- give the password twice, or who asks is neither of the staff nor a superuser), or was asked for by
  -- staff or a superuser, whose data are valid and give the password twice, and adds one account, with the
  -- name that the data give, a new key and the hash of the password, that is no superuser, and one of the
  -- staff only if a superuser asked.
  pub create_lem :
      RestLaws rest
      → (r : Request) (d : D) (t : Table)
      → (Reason r d × AddsNothing t (create rest r d t)) ⊎ IsAddition r d t (create rest r d t)
  unfolding create dispatch
  create_lem laws r d t = elim (Bool-cases (has_permission rest.api_url rest.str r no_pk)) [
    | inr shut ↦ inl (Reason.closed shut, rw shut (refl, λ a e. cc))
    | inl granted ↦ rw granted (elim (Option-cases (rest.validate_new (is_superuser r.user) d)) [
      | inl e ↦ inl (invalid e, rw (e, create) (refl, λ a f. cc))
      | inr (u, e) ↦ rw (e, create) (create_instance-cases laws r d u t e)
    ])
  ]
