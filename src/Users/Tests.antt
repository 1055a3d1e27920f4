-- ===== src/Users/Tests.antt =====
-- Runs of the model of users, and the theorems at concrete inputs.
use vstutils.Base.{
  ℕ, ◌+◌, ◌<◌, ◌≡◌, refl, ◌⊎◌, Bool, true, false, not, ◌&&◌, [], ◌∷◌, none, some, if◌then◌else◌,
  ◌==◌, text_eq, arith, All,
}
use vstutils.Base.Text.{Text, codes, starts_with, has_char}
use vstutils.Base.Split.{Lacks}
use vstutils.Users.Account.{Account, known, Table, find, save, delete}
use vstutils.Users.Permissions.{
  Request, has_permission, has_object_permission, is_openapi_request, may_read_openapi,
  may_change_password,
}
use vstutils.Users.Views.{Rest, Changes, no_content, conflict, denied, update, destroy, create, key}
use vstutils.Users.Safety.{RestLaws, IsKept, update_safe}
use vstutils.Users.Rows.{IsRefusal, IsRemoval, AddsNothing, IsAddition, destroy_lem, create_lem}
use vstutils.Users.Password.{
  Passwords, Hashers, State, change_password, done, ChangesNothing, IsChange, change_password_lem,
}
use vstutils.Users.TwoFactor.{TwoFactor, verify, put, with_codes, put-verify, is_among}
use vstutils.Users.Backends.{
  Attempt, gives, raises, info, user, fails, all_asked, asked, authenticate, authenticate_lem,
}
use vstutils.Users.Cached
use vstutils.Users.Rows
use vstutils.Users.Password
use vstutils.Users.Cached.{
  get_user, query, account_of, account_at, invalidate, get_user_transparent,
}

abbrev account : ℕ → Text → Bool → Account
account k name super = record {
  pk = k;
  username = name;
  email = [];
  first_name = [];
  last_name = [];
  password = codes "old";
  is_active = true;
  is_staff = super;
  is_superuser = super;
}

abbrev alice : Account
alice = account 1 (codes "alice") true

abbrev bob : Account
bob = account 2 (codes "bob") false

abbrev table : Table
table = alice ∷ bob ∷ []

-- Data of requests are changes; a new user comes with the password of its name.
abbrev readable : Bool → Changes → Changes
readable staff c = record c { is_staff = if staff then c.is_staff else none }

abbrev total : Table → ℕ
total [] = 0
total (a ∷ t) = a.pk + total t

abbrev rest : Rest Changes
rest = record {
  api_url = codes "api";
  enable_user_self_remove = false;
  str = λ k. k ∷ [];
  parse = λ t. elim t [ [] ↦ none | c ∷ s ↦ some c ];
  visible = λ r a. true;
  validate = λ staff partial a d. some (readable staff d);
  validate_new = λ staff d.
      some (record {
        changes = readable staff d;
        password = codes "pw";
        password2 = some (codes "pw");
      });
  make_password = λ p. p;
  new_pk = λ t. 1 + total t;
}

above : (n : ℕ) (t : Table) → total t < n → find n t ≡ none
unfolding find
above n [] h = refl
above n (a ∷ t) h = ground (arith, above n t)

read_only_changes : (d c : Changes) → some (readable false d) ≡ some c → c.is_staff ≡ none
read_only_changes d c e = ground (arith, e)

rest_laws : RestLaws rest
rest_laws = record {
  read_only = λ partial a d c e. read_only_changes d c e;
  read_only_new = λ d u e. ground (arith, e);
  fresh = λ t. above (1 + total t) t (omega arith);
}

abbrev by : Account → Text → Request
by a method = record {
  user = known a;
  method = method;
  path = codes "/api/v1/user/2/";
  version = codes "v1";
}

-- Asks to be one of the staff, and for another name.
abbrev wishes : Changes
wishes = record {
  username = some (codes "boss");
  email = none;
  first_name = none;
  last_name = none;
  is_active = none;
  is_staff = some true;
}

view_tests :
    ((update rest true (by bob (codes "PATCH")) (codes "profile") wishes table).0
      ≡ alice ∷ record bob { username = codes "boss" } ∷ [])
    × ((update rest true (by bob (codes "PATCH")) (1 ∷ []) wishes table).0 ≡ table)
    × ((destroy rest (by bob (codes "DELETE")) (codes "profile") table).1 ≡ conflict)
    × ((destroy rest (by alice (codes "DELETE")) (2 ∷ []) table).0 ≡ alice ∷ [])
    × ((create rest (by bob (codes "POST")) wishes table).1 ≡ denied)
unfolding update destroy create has_permission has_object_permission is_openapi_request starts_with
    find save delete
view_tests = (refl, refl, refl, refl, refl)

bob_found : find 2 table ≡ some bob
unfolding find
bob_found = refl

update_safe_example :
    (b : Account) × (find 2
        (update rest true (by bob (codes "PATCH")) (codes "profile") wishes table).0
      ≡ some b)
    × IsKept (by bob (codes "PATCH")) 2 bob b
update_safe_example =
    update_safe rest rest_laws true (by bob (codes "PATCH")) (codes "profile") wishes table 2 bob
      bob_found

destroy_lem_example :
    IsRefusal rest table no_content (destroy rest (by alice (codes "DELETE")) (2 ∷ []) table)
    ⊎ IsRemoval rest
        (by alice (codes "DELETE"))
        table
        (destroy rest (by alice (codes "DELETE")) (2 ∷ []) table)
destroy_lem_example = destroy_lem rest (by alice (codes "DELETE")) (2 ∷ []) table

create_lem_example :
    (Rows.Reason rest (by alice (codes "POST")) wishes
      × AddsNothing rest table (create rest (by alice (codes "POST")) wishes table))
    ⊎ IsAddition rest
        (by alice (codes "POST"))
        wishes
        table
        (create rest (by alice (codes "POST")) wishes table)
create_lem_example = create_lem rest rest_laws (by alice (codes "POST")) wishes table

-- A hash is the password itself, and every password is strong.
abbrev hashers : Hashers Passwords
hashers = record {
  check = λ p h. p == h;
  make = λ p. p;
  is_strong = λ p a. true;
  session_hash = λ a. a.password;
  validate = λ d. some d;
}

abbrev passwords : Passwords
passwords = record { old_password = codes "old"; password = codes "new"; password2 = codes "new" }

abbrev state : State
state = record { table = table; auth_hash = codes "old" }

change_password_test :
    change_password rest hashers (by bob (codes "POST")) (codes "profile") passwords state ≡ (
      record {
        table = alice ∷ record bob { password = codes "new" } ∷ [];
        auth_hash = codes "new";
      },
      done,
    )
unfolding change_password may_read_openapi may_change_password is_openapi_request starts_with find
    save
change_password_test = refl

change_password_lem_example :
    (Password.Reason rest hashers may_change_password
        (by bob (codes "POST"))
        (key rest (by bob (codes "POST")) (codes "profile"))
        passwords
        state
      × ChangesNothing rest hashers state
          (change_password rest hashers (by bob (codes "POST")) (codes "profile") passwords state))
    ⊎ IsChange rest hashers
        (by bob (codes "POST"))
        passwords
        state
        (change_password rest hashers (by bob (codes "POST")) (codes "profile") passwords state)
change_password_lem_example =
    change_password_lem rest hashers (by bob (codes "POST")) (codes "profile") passwords state

-- The code of the time is 123.
abbrev totp : Text → Text → Bool
totp secret pin = pin == codes "123"

no_commas : All (Lacks b',') (codes "aa" ∷ codes "bb" ∷ [])
unfolding has_char
no_commas = (refl, (refl, tt))

put-verify_example :
    (f : TwoFactor) × ((put totp
        (with_codes totp (codes "s") (codes "123") (codes "aa" ∷ codes "bb" ∷ []))
        (record { twofa = none; passed = false })).0
      ≡ record { twofa = some f; passed = true })
    × ((verify totp f (codes "aa")).1 ≡ is_among (codes "aa") (codes "aa" ∷ codes "bb" ∷ []))
    × ((verify totp (verify totp f (codes "aa")).0 (codes "aa")).1
        ≡ (is_among (codes "aa") (codes "aa" ∷ codes "bb" ∷ []) && not (codes "aa" == codes "aa")))
put-verify_example =
    put-verify totp (record { twofa = none; passed = false }) (codes "s") (codes "123")
      (codes "aa" ∷ codes "bb" ∷ []) (codes "aa") (codes "aa") refl refl refl (λ e. cc) no_commas
      (refl, (refl, tt)) (omega arith) refl refl

-- The first plugin knows nobody, the second raises, the third knows the user; the state counts them.
abbrev plugin : Text → ℕ → Attempt ℕ ℕ × ℕ
plugin p n = (
  if p == codes "none"
      then gives none
      else if p == codes "broken"
      then raises 7
      else gives (some 1),
  1 + n,
)

authenticate_lem_example :
    authenticate plugin none (codes "none" ∷ codes "broken" ∷ codes "good" ∷ []) 0 ≡ (info 7, 2)
authenticate_lem_example =
    authenticate_lem plugin (codes "none" ∷ []) (codes "broken") (codes "good" ∷ []) 0 1 2
      (raises 7) (info 7) (asked (codes "none") refl (all_asked 1)) refl (fails 7)

known_user :
    authenticate plugin none (codes "none" ∷ codes "good" ∷ codes "broken" ∷ []) 0 ≡ (user 1, 2)
unfolding authenticate
known_user = refl

-- A user is cached, changed, and asked for again.
abbrev begin : Cached.State
begin = record { table = table; twofa = λ k. none; cached = λ k. none }

abbrev renamed : Account
renamed = record bob { username = codes "boss" }

abbrev afterwards : Cached.State
afterwards = record {
  twofa = (get_user 2 begin).0.twofa;
  table = save renamed (get_user 2 begin).0.table;
  cached = invalidate false 2 (get_user 2 begin).0.cached;
}

reached : Cached.Reach begin afterwards
reached =
    Cached.next (Cached.next Cached.here (Cached.asks begin 2))
      (Cached.saves (get_user 2 begin).0 renamed)

get_user_transparent_example :
    (account_of (get_user 2 afterwards).1 ≡ account_at 2 afterwards.table)
    × (account_of (query 2 afterwards.table afterwards.twofa) ≡ account_at 2 afterwards.table)
get_user_transparent_example = get_user_transparent begin afterwards 2 (λ j. refl) reached

abbrev factor : TwoFactor
factor = record { secret = codes "s"; recovery = [] }

-- A second factor that was enrolled since the user was cached is not there.
stale_factor :
    ((get_user 2 (record (get_user 2 begin).0 { twofa = λ k. some factor })).1 ≡ some (bob, none))
    × (query 2 table (λ k. some factor) ≡ some (bob, some factor))
unfolding get_user query find
stale_factor = (refl, refl)
