-- ===== src/Users/Account.antt =====
-- A user of Django, and a request's user, who may be anonymous.
use vstutils.Base.{ℕ, Bool, true, false, List, [], ◌∷◌, Option, none, some, eqb, if◌then◌else◌}
use vstutils.Base.Text.{Text}

pub record Account : Type 0 where
  pub pk : ℕ
  pub username : Text
  pub email : Text
  pub first_name : Text
  pub last_name : Text
  -- the hash
  pub password : Text
  pub is_active : Bool
  pub is_staff : Bool
  pub is_superuser : Bool

pub data User : Type 0 where
  anonymous : User
  known : Account → User

abbrev pub is_authenticated : User → Bool
is_authenticated anonymous = false
is_authenticated (known a) = true

abbrev pub is_staff : User → Bool
is_staff anonymous = false
is_staff (known a) = a.is_staff

abbrev pub is_superuser : User → Bool
is_superuser anonymous = false
is_superuser (known a) = a.is_superuser

abbrev pub own_pk : User → Option ℕ
own_pk anonymous = none
own_pk (known a) = some a.pk

-- `obj == request.user`, by the primary keys
abbrev pub is_own : Account → User → Bool
is_own obj anonymous = false
is_own obj (known a) = eqb obj.pk a.pk

-- The table of users, with the queries that the views make.
abbrev pub Table : Type 0
Table = List Account

unfoldable pub find : ℕ → Table → Option Account
find k [] = none
find k (a ∷ t) = if eqb a.pk k then some a else find k t

-- `instance.save()` of a row that stands in the table
unfoldable pub save : Account → Table → Table
save b [] = []
save b (a ∷ t) = if eqb a.pk b.pk then b ∷ t else a ∷ save b t

-- `instance.delete()`
unfoldable pub delete : ℕ → Table → Table
delete k [] = []
delete k (a ∷ t) = let rest = delete k t in if eqb a.pk k then rest else a ∷ rest
