-- ===== src/Webpush/Valid.antt =====
-- The unique keys of both tables, over all that requests do to them.
use vstutils.Base.{
  ℕ, ◌≡◌, refl, Bool, true, false, not, ◌&&◌, List, [], ◌∷◌, map, Option, none, some, if◌then◌else◌,
  ◌==◌, ◌⊎◌, inl, inr, text_eq, eqb, eqb_refl, keep, Assoc, lookup, insert, lookup-keep, IsDict,
  IsDict-insert, IsDict-keep, IsDict-append, Eq, arith, Bool-cases, Option-cases, All,
}
use vstutils.Base.Text.{Text}
use vstutils.Webpush.Tables.{
  Kind, kind_eq, State, Wanted, Context, is_some, is_kind_of, items, create_or_update,
  update_user_subscriptions, subscribe_device, unsubscribe_device, set_device, setter,
  change_subscription, deleter, remove_push_subscriptions,
}
use vstutils.Webpush.Settings.{lookup-items}
use vstutils.Webpush.Moved.{moved-IsDict, taken_or_IsFree}

-- A request to the tables, or the removal of a user
pub data Op (D : Type 0) : Type 0 where
  set : Context → Wanted D → Op D
  delete : (user_id : ℕ) → Op D
  change : (old endpoint : Text) → D → Op D
  remove_user : (user_id : ℕ) → Op D

-- A change that fails leaves the tables.
abbrev or_same : {S : Type 0} → S → Option S → S
or_same s none = s
or_same s (some t) = t

unfoldable pub step : {D : Type 0} → Op D → State D → State D
unfolding setter deleter change_subscription remove_push_subscriptions
step (set c w) s = setter c w s
step (delete u) s = deleter u s
step (change old endpoint content) s = or_same s (change_subscription old endpoint content s)
step (remove_user u) s = remove_push_subscriptions u s

unfoldable pub run : {D : Type 0} → List (Op D) → State D → State D
unfolding step
run [] s = s
run (op ∷ ops) s = run ops (step op s)

-- The two unique constraints
pub record IsValid {D : Type 0} (s : State D) : Type 0 where
  pub devices : IsDict s.devices
  pub settings : IsDict s.settings

-- The data of a request are a dict.
abbrev pub IsRequest : {D : Type 0} → Op D → Type 0
IsRequest (set c w) = IsDict w.subscriptions
IsRequest (delete u) = Unit
IsRequest (change old endpoint content) = Unit
IsRequest (remove_user u) = Unit

module _ {K V : Type 0} ⦃e : Eq K⦄ (f : K × V → V) where
  abbrev with_value : K × V → K × V
  with_value r = (r.0, f r)

  lookup-with_value :
      (k : K) (l : Assoc K V) → lookup k l ≡ none → lookup k (map with_value l) ≡ none
  unfolding lookup
  lookup-with_value k [] h = refl
  lookup-with_value k ((j, v) ∷ l) h = ground (arith, lookup-with_value k l)

  pub IsDict-with_value : (l : Assoc K V) → IsDict l → IsDict (map with_value l)
  IsDict-with_value [] h = tt
  IsDict-with_value ((j, v) ∷ l) h = (lookup-with_value j l h.0, IsDict-with_value l h.1)

IsDict-items : (u : ℕ) (dict : Assoc Text Bool) → IsDict dict → IsDict (items u dict)
IsDict-items u [] h = tt
IsDict-items u ((t, b) ∷ dict) h =
    (rw (lookup-items u dict u t, eqb_refl u) h.0, IsDict-items u dict h.1)

IsDict-create_or_update :
    (new settings : Assoc Kind Bool) → IsDict settings → IsDict (create_or_update new settings)
unfolding create_or_update
IsDict-create_or_update [] settings h = h
IsDict-create_or_update ((k, b) ∷ new) settings h =
    IsDict-create_or_update new (insert k b settings) (IsDict-insert k b settings h)

-- A kind is deleted, or no new one.
kept_or_new :
    (u : ℕ) (dict : Assoc Text Bool) (settings : Assoc Kind Bool) (k : Kind)
    → (lookup k (keep (λ r. not (is_kind_of u dict r.0)) settings) ≡ none)
      ⊎ (lookup k (items u dict) ≡ none)
kept_or_new u dict settings (v, t) = elim (Bool-cases (is_kind_of u dict (v, t))) [
  | inl h ↦ inl (rw (lookup-keep (λ k. not (is_kind_of u dict k)) (v, t) settings, h) refl)
  | inr h ↦ inr (rw (lookup-items u dict v t) (absent (eqb v u) (lookup t dict) h))
]
  where
    absent :
        (b : Bool) (o : Option Bool) → (b && is_some o) ≡ false → (if b then o else none) ≡ none
    absent true none h = refl
    absent true (some a) h = cc
    absent false o h = refl

module _ {D : Type 0} where
  update-IsValid :
      (is_sqlite : Bool) (u : ℕ) (dict : Assoc Text Bool) (s : State D)
      → IsDict dict
      → IsValid s
      → IsValid (update_user_subscriptions is_sqlite u dict s)
  unfolding update_user_subscriptions
  update-IsValid false u dict s d h = record {
    devices = h.devices;
    settings = IsDict-create_or_update (items u dict) s.settings h.settings;
  }
  update-IsValid true u dict s d h = record {
    devices = h.devices;
    settings =
        IsDict-append (keep (λ r. not (is_kind_of u dict r.0)) s.settings) (items u dict)
          (IsDict-keep (λ r. not (is_kind_of u dict r.0)) s.settings h.settings)
          (IsDict-items u dict d) (kept_or_new u dict s.settings);
  }

  set_device-IsValid :
      (c : Context) (w : Wanted D) (s : State D) → IsValid s → IsValid (set_device c w s)
  unfolding set_device subscribe_device unsubscribe_device
  set_device-IsValid c w s h = elim (Option-cases w.subscription_data) [
    | inl e ↦
        rw (e, set_device)
          (record {
            devices = IsDict-keep (λ r. not (r.1.session == c.session_key)) s.devices h.devices;
            settings = h.settings;
          })
    | inr ((endpoint, content), e) ↦
        rw (e, set_device)
          (record { devices = IsDict-insert endpoint _ s.devices h.devices; settings = h.settings })
  ]

  change-IsValid :
      (old endpoint : Text) (content : D) (s : State D)
      → IsValid s
      → IsValid (or_same s (change_subscription old endpoint content s))
  unfolding change_subscription
  change-IsValid old endpoint content s h =
      elim (Bool-cases (
        not (old == endpoint)
        && (is_some (lookup old s.devices) && is_some (lookup endpoint s.devices)))) [
          | inl taken ↦ rw taken h
          | inr free ↦ rw free (record {
            devices =
                moved-IsDict old endpoint content s.devices h.devices
                  (taken_or_IsFree old endpoint content s.devices free);
            settings = h.settings;
          })
        ]

  step-IsValid : (op : Op D) (s : State D) → IsRequest op → IsValid s → IsValid (step op s)
  unfolding step setter deleter remove_push_subscriptions
  step-IsValid (set c w) s d h =
      update-IsValid c.is_sqlite c.user_id w.subscriptions (set_device c w s) d
        (set_device-IsValid c w s h)
  step-IsValid (delete u) s d h = record {
    devices = IsDict-keep (λ r. not (eqb r.1.user_id u)) s.devices h.devices;
    settings = IsDict-with_value (λ r. if eqb r.0.0 u then false else r.1) s.settings h.settings;
  }
  step-IsValid (change old endpoint content) s d h = change-IsValid old endpoint content s h
  step-IsValid (remove_user u) s d h = record {
    devices = h.devices;
    settings = IsDict-keep (λ r. not (eqb r.0.0 u)) s.settings h.settings;
  }

  -- From tables with unique keys, all sequences of requests with dicts, and of removals of users, keep
  -- each endpoint with one device, and each user and type with one setting.
  pub run-IsValid :
      (ops : List (Op D)) (s : State D) → All IsRequest ops → IsValid s → IsValid (run ops s)
  unfolding run
  run-IsValid [] s d h = h
  run-IsValid (op ∷ ops) s d h = run-IsValid ops (step op s) d.1 (step-IsValid op s d.0 h)
