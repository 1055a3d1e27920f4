-- ===== src/Webpush/Tests.antt =====
-- Subscriptions of two users, and the theorems at concrete inputs.
use vstutils.Base.{
  ℕ, ◌≡◌, refl, Bool, true, false, not, List, [], ◌∷◌, none, some, eqb, if◌then◌else◌, keep, Assoc,
  lookup, insert, remove,
}
use vstutils.Base.Text.{Text, codes}
use vstutils.Webpush.Tables.{
  Device, kind_eq, State, Wanted, Context, create_or_update, update_user_subscriptions,
  change_subscription, deleter, get_user_subscriptions, available_only,
}
use vstutils.Webpush.Settings.{chosen, update_user_subscriptions_lem}
use vstutils.Webpush.Valid.{Op, set, delete, change, remove_user, run, IsValid, run-IsValid}
use vstutils.Webpush.Send.{
  Pushed, done, web_push_exception, raises, is_inactive, get_subscriptions, push_all, send,
  first_raised, is_gone, after_push, send-push_all, get_subscriptions-deleter,
}

abbrev device : (id user_id : ℕ) → Device ℕ
device id user_id = record {
  id = id;
  user_id = user_id;
  session = codes "s";
  language_code = codes "en";
  content = 0;
}

abbrev state : State ℕ
state = record {
  devices =
      (codes "a", device 1 5)
      ∷ (codes "b", device 2 6)
      ∷ (codes "c", device 3 5)
      ∷ (codes "d", device 4 6)
      ∷ [];
  settings =
      ((5, codes "news"), true) ∷ ((6, codes "news"), true) ∷ ((6, codes "spam"), false) ∷ [];
}

abbrev dict : Assoc Text Bool
dict = (codes "spam", true) ∷ (codes "news", false) ∷ []

table_tests :
    ((update_user_subscriptions true 6 dict state).settings
      ≡ ((5, codes "news"), true) ∷ ((6, codes "spam"), true) ∷ ((6, codes "news"), false) ∷ [])
    × ((update_user_subscriptions false 6 dict state).settings
        ≡ ((5, codes "news"), true) ∷ ((6, codes "news"), false) ∷ ((6, codes "spam"), true) ∷ [])
    × (change_subscription (codes "a") (codes "b") 9 state ≡ none)
    × (get_user_subscriptions 6 state ≡ (codes "news", true) ∷ (codes "spam", false) ∷ [])
    × (available_only ((codes "news", false) ∷ (codes "spam", true) ∷ []) dict
        ≡ (codes "spam", true) ∷ [])
unfolding update_user_subscriptions create_or_update change_subscription get_user_subscriptions
    available_only lookup insert remove
table_tests = (refl, refl, refl, refl, refl)

-- Device 1 is gone; the push to device 3 raises.
abbrev pushed : Text × Device ℕ → Pushed ℕ
pushed (endpoint, d) =
    if eqb d.id 1
    then web_push_exception (some 410)
    else if eqb d.id 2
    then web_push_exception (some 429)
    else if eqb d.id 3
    then raises 500
    else done

send_tests :
    (get_subscriptions (codes "spam") (5 ∷ 6 ∷ []) state ≡ [])
    × ((send pushed (codes "news") (5 ∷ 6 ∷ []) none state).0 ≡ some 500)
    × ((send pushed (codes "news") (5 ∷ 6 ∷ []) none state).1.devices
        ≡ (codes "b", device 2 6) ∷ (codes "c", device 3 5) ∷ (codes "d", device 4 6) ∷ [])
unfolding get_subscriptions send push_all after_push is_inactive
send_tests = (refl, refl, refl)

update_user_subscriptions_lem_example :
    lookup (6, codes "news") (update_user_subscriptions true 6 dict state).settings
    ≡ chosen 6 dict state.settings (6, codes "news")
unfolding lookup
update_user_subscriptions_lem_example =
    update_user_subscriptions_lem true 6 dict state 6 (codes "news") (refl, (refl, tt))

abbrev wanted : Wanted ℕ
wanted = record {
  subscription_data = some (codes "e", 7);
  language_code = none;
  subscriptions = dict;
}

abbrev context : Context
context = record {
  is_sqlite = true;
  new_id = 8;
  default_language = codes "en";
  session_key = codes "t";
  user_id = 5;
}

abbrev ops : List (Op ℕ)
ops = set context wanted ∷ change (codes "e") (codes "f") 1 ∷ delete 6 ∷ remove_user 5 ∷ []

state-IsValid : IsValid state
unfolding lookup
state-IsValid = record {
  devices = (refl, (refl, (refl, (refl, tt))));
  settings = (refl, (refl, (refl, tt)));
}

run-IsValid_example : IsValid (run ops state)
unfolding lookup
run-IsValid_example = run-IsValid ops state ((refl, (refl, tt)), (tt, (tt, (tt, tt)))) state-IsValid

send-push_all_example :
    ((send pushed (codes "news") (5 ∷ 6 ∷ []) none state).0
      ≡ first_raised pushed (get_subscriptions (codes "news") (5 ∷ 6 ∷ []) state))
    × ((send pushed (codes "news") (5 ∷ 6 ∷ []) none state).1.devices
        ≡ keep
            (λ r. not (is_gone pushed r.1.id (get_subscriptions (codes "news") (5 ∷ 6 ∷ []) state)))
            state.devices)
    × ((send pushed (codes "news") (5 ∷ 6 ∷ []) none state).1.settings ≡ state.settings)
send-push_all_example = send-push_all pushed (codes "news") (5 ∷ 6 ∷ []) state

get_subscriptions-deleter_example :
    get_subscriptions (codes "news") (5 ∷ 6 ∷ []) (deleter 5 state)
    ≡ keep (λ r. not (eqb r.1.user_id 5)) (get_subscriptions (codes "news") (5 ∷ 6 ∷ []) state)
get_subscriptions-deleter_example = get_subscriptions-deleter (codes "news") (5 ∷ 6 ∷ []) 5 state
