-- ===== src/Api/Tests.antt =====
-- Runs of entity tags and actions, and the theorems at concrete inputs.
use vstutils.Base.{ℕ, ◌+◌, ◌≡◌, refl, ◌⊎◌, true, false, List, [], ◌∷◌, Option, none, some, text_eq}
use vstutils.Base.Text.{Text, codes, lower_char}
use vstutils.Api.Etag.Defs.{Settings, Request, Model, cached, plain, get_single, get_many}
use vstutils.Api.Etag.Conditional.{returned}
use vstutils.Api.Action.Defs.{
  Action, with_setter, with_deleter, is_edit_only, multiaction, init_simple,
}
use vstutils.Api.Run.{ok, raised, Run, return}
use vstutils.Api.Action.Simple.{Parts, inside, action_method, page, store, erase}
use vstutils.Api.Action.Effects.{Reads, action_method-atomic, action_method-Keeps}

-- The "hashes" only mark what they hash.
abbrev settings : Settings
settings = record {
  version = codes "1.0";
  language_code = codes "en";
  hash8 = λ t. b'#' ∷ t;
  hash4 = λ t. b'%' ∷ t;
}

abbrev request : Request
request = record { lang_cookie = none; user_id = codes "5"; session_key = some (codes "k") }

abbrev by_key : Option Text → Text
by_key none = codes "all"
by_key (some k) = k

abbrev by_lang : Model
by_lang =
    cached (codes "Lang") by_key (record { on_user = false; on_session = false; on_lang = true })

abbrev by_user : Model
by_user =
    cached (codes "User") by_key (record { on_user = true; on_session = true; on_lang = false })

-- The key of the URL stands in for the key 0 of a model that is no part of the list's keys.
etag_tests :
    (get_single settings (some (codes "7")) request by_lang none ≡ codes "7_en")
    × (get_single settings (some (codes "7")) request by_user none ≡ codes "#7_5_k_1.0")
    × (get_many settings (some (codes "7")) request (plain (codes "A") ∷ by_lang ∷ []) []
        ≡ codes "#A_%1.0_7_en")
unfolding get_many get_single
etag_tests = (refl, refl, refl)

-- The client sends the tag of the first response with every header.
abbrev headers : Text → Option Text
headers name = returned (some true) (codes "v1")

abbrev declared : Action
declared = record { methods = codes "GET" ∷ []; multi = true; is_list = false; edit_only = true }

action_tests :
    ((with_deleter (with_setter declared)).methods
      ≡ codes "GET" ∷ codes "PATCH" ∷ codes "PUT" ∷ codes "DELETE" ∷ [])
    × (is_edit_only (with_setter declared) (codes "get") ≡ true)
    × (is_edit_only declared (codes "get") ≡ false)
    × (multiaction declared ≡ false)
    × (init_simple (some (codes "post" ∷ [])) ≡ codes "POST" ∷ [])
unfolding with_setter with_deleter is_edit_only multiaction init_simple lower_char
action_tests = (refl, refl, refl, refl, refl)

-- The database is a list of what was written; saving writes 1, the setter raises 9 after writing 2.
abbrev written : ℕ → Run (List ℕ) ℕ (Unit {0})
written n s = (ok tt, n ∷ s)

abbrev setter : ℕ → ℕ → Run (List ℕ) ℕ (Unit {0})
setter i r s = (raised 9, 2 ∷ s)

abbrev parts : Parts (List ℕ) ℕ ℕ ℕ ℕ ℕ
parts = record {
  getter = none;
  get_object = return 5;
  get_queryset = return 6;
  no_query = 0;
  query_data = return 1;
  is_ignored = λ e. true;
  paginate = none;
  get_serializer = λ many i. return (i + 1);
  get_valid = λ many partial i. return (i + 2);
  save = λ r. written 1;
  setter = some setter;
  is_model_serializer = λ r. true;
  save_instance = λ i. written 3;
  deleter = none;
  delete_instance = λ i. written 4;
  output = λ r. return r;
}

action_method_tests :
    (action_method parts true false (codes "PUT") [] ≡ (raised 9, []))
    × (action_method parts false false (codes "PUT") [] ≡ (raised 9, 2 ∷ 1 ∷ []))
    × (action_method parts false false (codes "DELETE") [] ≡ (ok 6, 4 ∷ []))
    × (action_method parts true false (codes "GET") [] ≡ (ok 6, []))
unfolding action_method page store erase
action_method_tests = (refl, refl, refl, refl)

put_raises : (action_method parts true false (codes "PUT") []).0 ≡ raised 9
unfolding action_method store
put_raises = refl

action_method-atomic_example :
    ((action_method parts true false (codes "PUT") []).1 ≡ [])
    ⊎ ((r : ℕ) × ((inside parts false (codes "PUT") []).0 ≡ ok r)
        × ((parts.output r (inside parts false (codes "PUT") []).1).0 ≡ raised 9))
action_method-atomic_example = action_method-atomic parts false (codes "PUT") [] 9 refl put_raises

reads : Reads parts
reads = record {
  getter = λ get e q s. cc;
  get_object = λ s. refl;
  get_queryset = λ s. refl;
  query_data = λ s. refl;
  paginate = λ f e i s. cc;
  get_serializer = λ many i s. refl;
  output = λ r s. refl;
}

action_method-Keeps_example : (action_method parts false true (codes "GET") (8 ∷ [])).1 ≡ 8 ∷ []
action_method-Keeps_example =
    action_method-Keeps parts reads false true (codes "GET") (8 ∷ []) refl refl
