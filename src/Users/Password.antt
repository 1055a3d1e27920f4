-- ===== src/Users/Password.antt =====
-- vstutils/api/auth.py: `ChangePasswordSerializer.update` and `UserViewSet.change_password`. Django's
-- hashers and password validators are a parameter.
use vstutils.Base.{
  ℕ, ◌≡◌, ◌≢◌, refl, ◌⊎◌, inl, inr, Bool, true, not, Option, none, some, if◌then◌else◌, ◌==◌,
  text_eq, eqb, eqb_refl, false, ◌∙◌, Bool-cases, Option-cases, text_beq_iff, false_ne_true,
}
use mathlib.Core.Path.{fun_ext}
use vstutils.Base.Text.{Text}
use vstutils.Users.Account.{Account, is_superuser, is_own, own_pk, Table, find, save}
use vstutils.Users.Permissions.{
  Request, may_read_openapi, may_change_password, has_object_permission,
}
use vstutils.Users.Views.{Rest, Response, key, get_object, user_permits}
use vstutils.Users.Safety.{get_object-IsGranted, find-save}

-- `validated_data`
pub record Passwords : Type 0 where
  pub old_password : Text
  pub password : Text
  pub password2 : Text

pub record Hashers (D : Type 0) : Type 0 where
  -- `check_password(raw, hash)` and `make_password(raw)`
  pub check : Text → Text → Bool
  pub make : Text → Text
  -- `validate_password`, which may raise
  pub is_strong : Text → Account → Bool
  -- `get_session_auth_hash`
  pub session_hash : Account → Text
  -- `is_valid` on the fields; `none` raises
  pub validate : D → Option Passwords

pub data Answer : Type 0 where
  done : Answer
  refused : Response → Answer
  incomplete : Answer
  authentication_failed : Answer
  unequal : Answer
  weak : Answer
  forbidden : Answer

-- The table, and the hash by which the session is bound to its user.
pub record State : Type 0 where
  pub table : Table
  pub auth_hash : Text

module _ {C D : Type 0} (rest : Rest C) (hashers : Hashers D) where
  abbrev pub with_password : Account → Text → Account
  with_password a p = record a { password = hashers.make p }

  -- `instance.set_password` and `instance.save`, and what the view does afterwards
  unfoldable pub set_password : Request → Account → Text → State → State
  unfolding save
  set_password r a p s = record {
    table = save (with_password a p) s.table;
    auth_hash = if is_own a r.user then hashers.session_hash (with_password a p) else s.auth_hash;
  }

  unfoldable pub update_password : Request → Account → Passwords → State → State × Answer
  unfolding set_password
  update_password r a p s =
      if not (hashers.check p.old_password a.password)
      then (s, authentication_failed)
      else if not (p.password == p.password2)
      then (s, unequal)
      else if not (hashers.is_strong p.password a)
      then (s, weak)
      else (set_password r a p.password s, done)

  unfoldable pub change_object : Request → D → Account ⊎ Response → State → State × Answer
  unfolding update_password
  change_object r d (inr e) s = (s, refused e)
  change_object r d (inl a) s = elim (hashers.validate d) [
    | none ↦ (s, incomplete)
    | some p ↦ update_password r a p s
  ]

  unfoldable pub change_password : Request → Text → D → State → State × Answer
  unfolding change_object may_read_openapi may_change_password get_object
  change_password r pk d s =
      if may_read_openapi rest.api_url r
      then change_object r d (get_object rest may_change_password r (key rest r pk) s.table) s
      else (s, forbidden)

  -- How a change goes that is made.
  pub record IsChange (r : Request) (d : D) (s : State) (result : State × Answer) : Type 0 where
    pub account : Account
    pub given : Passwords
    pub asked : hashers.validate d ≡ some given
    pub found : find account.pk s.table ≡ some account
    pub grant : (is_superuser r.user ≡ true) ⊎ (own_pk r.user ≡ some account.pk)
    pub knows : hashers.check given.old_password account.password ≡ true
    pub repeated : given.password ≡ given.password2
    pub strong : hashers.is_strong given.password account ≡ true
    pub answered : result.1 ≡ done
    pub stored :
        find account.pk result.0.table
        ≡ some (record account { password = hashers.make given.password })
    pub others : (k : ℕ) → eqb account.pk k ≡ false → find k result.0.table ≡ find k s.table
    pub bound :
        is_own account r.user ≡ true
        → result.0.auth_hash
          ≡ hashers.session_hash (record account { password = hashers.make given.password })
    pub unbound : is_own account r.user ≡ false → result.0.auth_hash ≡ s.auth_hash

  -- Why no password is changed
  pub data Reason (permits : Request → Account → Bool) (r : Request) (k : Option ℕ) (d : D)
      (s : State) : Type 0 where
    closed : may_read_openapi rest.api_url r ≡ false → Reason permits r k d s
    unseen : (e : Response) → get_object rest permits r k s.table ≡ inr e → Reason permits r k d s
    invalid : hashers.validate d ≡ none → Reason permits r k d s
    unknown :
        (a : Account) (p : Passwords)
        → get_object rest permits r k s.table ≡ inl a
        → hashers.validate d ≡ some p
        → hashers.check p.old_password a.password ≡ false
        → Reason permits r k d s
    differing :
        (p : Passwords)
        → hashers.validate d ≡ some p
        → p.password ≢ p.password2
        → Reason permits r k d s
    too_weak :
        (a : Account) (p : Passwords)
        → get_object rest permits r k s.table ≡ inl a
        → hashers.validate d ≡ some p
        → hashers.is_strong p.password a ≡ false
        → Reason permits r k d s

  abbrev pub ChangesNothing : State → State × Answer → Type 0
  ChangesNothing s result = (result.0 ≡ s) × (result.1 ≢ done)

  update_password-cases :
      (r : Request) (d : D) (a : Account) (p : Passwords) (s : State) (k : Option ℕ)
      → get_object rest user_permits r k s.table ≡ inl a
      → hashers.validate d ≡ some p
      → (Reason user_permits r k d s × ChangesNothing s (update_password r a p s))
        ⊎ IsChange r d s (update_password r a p s)
  unfolding update_password set_password
  update_password-cases r d a p s k seen asked =
      let g = get_object-IsGranted rest r k s.table a seen in
      elim (Bool-cases (hashers.check p.old_password a.password)) [
        | inr fails ↦
            inl (Reason.unknown a p seen asked fails, rw (fails, update_password) (refl, λ e. cc))
        | inl knows ↦ elim (Bool-cases (p.password == p.password2)) [
          | inr differ ↦ inl (
            differing p asked
                (λ e. false_ne_true differ ((text_beq_iff p.password p.password2).1 e)),
            rw (knows, differ, update_password) (refl, λ e. cc),
          )
          | inl same ↦ elim (Bool-cases (hashers.is_strong p.password a)) [
            | inr weak_ ↦ inl (
              too_weak a p seen asked weak_,
              rw (knows, same, weak_, update_password) (refl, λ e. cc),
            )
            | inl strong ↦ inr record {
              account = a;
              given = p;
              asked = asked;
              found = g.found;
              grant = g.grant;
              knows = knows;
              repeated = (text_beq_iff p.password p.password2).0 same;
              strong = strong;
              answered = rw (knows, same, strong, update_password) refl;
              stored =
                  rw (knows, same, strong, update_password)
                    (find-save a.pk (with_password a p.password) s.table
                      ∙ rw (eqb_refl a.pk, g.found) refl);
              others = λ j other.
                  rw (knows, same, strong, update_password)
                    (find-save j (with_password a p.password) s.table ∙ rw other refl);
              bound = λ own. rw (knows, same, strong, update_password, own) refl;
              unbound = λ own. rw (knows, same, strong, update_password, own) refl;
            }
          ]
        ]
      ]

  -- Both permissions ask the same of an object.
  same_permits : (r : Request) (a : Account) → may_change_password r a ≡ user_permits r a
  unfolding may_change_password has_object_permission
  same_permits r a = elim (Bool-cases (is_superuser r.user)) [
    | inl e ↦ rw e refl
    | inr e ↦ rw e refl
  ]

  change_object-cases :
      (r : Request) (d : D) (s : State) (k : Option ℕ) (o : Account ⊎ Response)
      → get_object rest user_permits r k s.table ≡ o
      → (Reason user_permits r k d s × ChangesNothing s (change_object r d o s))
        ⊎ IsChange r d s (change_object r d o s)
  unfolding change_object
  change_object-cases r d s k (inr e) h = inl (unseen e h, (refl, λ e. cc))
  change_object-cases r d s k (inl a) h = elim (Option-cases (hashers.validate d)) [
    | inl e ↦ inl (invalid e, rw (e, change_object) (refl, λ f. cc))
    | inr (p, e) ↦ rw (e, change_object) (update_password-cases r d a p s k h e)
  ]

  -- A change of a password either changes nothing, for one of six reasons (the view is closed to the
  -- request, the account is none that the user may see and change, the data are not valid, the old
  -- password is not the account's, the new one is not given twice, or the validators refuse it), or is
  -- made by a superuser or the owner of the account, whose data are valid and give the old password and
  -- twice a new one that the validators accept; then the account has the hash of the new one and is
  -- otherwise as before, as all other accounts are, and the session is bound to the account as it is now
  -- if it is the user's own one, and stays as it was if not.
  pub change_password_lem :
      (r : Request) (pk : Text) (d : D) (s : State)
      → (Reason may_change_password r (key rest r pk) d s
          × ChangesNothing s (change_password r pk d s))
        ⊎ IsChange r d s (change_password r pk d s)
  unfolding change_password
  change_password_lem r pk d s = elim (Bool-cases (may_read_openapi rest.api_url r)) [
    | inr fails ↦ inl (Reason.closed fails, rw (fails, change_password) (refl, λ e. cc))
    | inl open_ ↦
        rw (open_, change_password, fun_ext (λ q. fun_ext (same_permits q)))
          (change_object-cases r d s (key rest r pk)
            (get_object rest user_permits r (key rest r pk) s.table) refl)
  ]
