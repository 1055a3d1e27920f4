-- ===== src/Webpush/Tables.antt =====
-- vstutils/webpush/utils.py, and the action and the views of vstutils/webpush/api.py that call it. A table with
-- a unique key is the list of its rows by this key: devices by their endpoint, settings by user and type.
use vstutils.Base.{
  ℕ, ◌≡◌, Bool, true, false, not, ◌&&◌, List, [], ◌∷◌, ◌++◌, map, Option, none, some, if◌then◌else◌,
  ◌==◌, text_eq, eqb, text_beq, text_beq_iff, eqb_iff, keep, Assoc, lookup, insert, remove, Eq, ◌↔◌,
  arith,
}
use vstutils.Base.Text.{Text}

-- `WebPushDeviceSubscription`, without its endpoint; `D` is the subscription's other data.
pub record Device (D : Type 0) : Type 0 where
  pub id : ℕ
  pub user_id : ℕ
  pub session : Text
  pub language_code : Text
  pub content : D

-- The unique pair of `WebPushNotificationSubscription`
abbrev pub Kind : Type 0
Kind = ℕ × Text

abbrev pub kind_beq : Kind → Kind → Bool
kind_beq (u, s) (v, t) = eqb u v && text_beq s t

pub kind_beq_iff : (a b : Kind) → (kind_beq a b ≡ true) ↔ (a ≡ b)
kind_beq_iff (u, s) (v, t) = ground (arith, eqb_iff u v, text_beq_iff s t)

instance abbrev pub kind_eq : Eq Kind
kind_eq = record { is_same = kind_beq; is_same_iff = kind_beq_iff }

pub record State (D : Type 0) : Type 0 where
  pub devices : Assoc Text (Device D)
  pub settings : Assoc Kind Bool

-- `language_code or settings.LANGUAGE_CODE`
abbrev pub language_or : Option Text → Text → Text
language_or none default = default
language_or (some []) default = default
language_or (some (c ∷ code)) default = c ∷ code

abbrev pub is_some : {A : Type 0} → Option A → Bool
is_some none = false
is_some (some a) = true

abbrev pub is_kind_of : ℕ → Assoc Text Bool → Kind → Bool
is_kind_of user_id subscriptions (u, t) = eqb u user_id && is_some (lookup t subscriptions)

abbrev pub items : ℕ → Assoc Text Bool → Assoc Kind Bool
items user_id [] = []
items user_id ((t, enabled) ∷ rest) = ((user_id, t), enabled) ∷ items user_id rest

-- `bulk_create` with `update_conflicts`
unfoldable pub create_or_update : Assoc Kind Bool → Assoc Kind Bool → Assoc Kind Bool
create_or_update [] settings = settings
create_or_update ((k, enabled) ∷ rest) settings = create_or_update rest (insert k enabled settings)

-- The validated data of the action
pub record Wanted (D : Type 0) : Type 0 where
  pub subscription_data : Option (Text × D)
  pub language_code : Option Text
  pub subscriptions : Assoc Text Bool

-- What the request and the server give
pub record Context : Type 0 where
  pub is_sqlite : Bool
  pub new_id : ℕ
  pub default_language : Text
  pub session_key : Text
  pub user_id : ℕ

-- `to_internal_value` of the serializer: what is not available to the user is dropped.
unfoldable pub available_only : List (Text × Bool) → Assoc Text Bool → Assoc Text Bool
available_only [] value = value
available_only ((key, is_available) ∷ classes) value =
    available_only classes (if is_available then value else remove key value)

module _ {D : Type 0} where
  abbrev pub id_or : Option (Device D) → ℕ → ℕ
  id_or none id = id
  id_or (some d) id = d.id

  -- `subscribe_device`; a device that is new gets the id `new_id`.
  unfoldable pub subscribe_device :
      (new_id : ℕ)
      → (default_language : Text) → (session_key : Text) → (user_id : ℕ) → (endpoint : Text) → D
      → Option Text
      → State D
      → State D
  subscribe_device new_id default session_key user_id endpoint content code s = record s {
    devices =
        insert endpoint
          (record {
            id = id_or (lookup endpoint s.devices) new_id;
            user_id = user_id;
            session = session_key;
            language_code = language_or code default;
            content = content;
          })
          s.devices;
  }

  abbrev pub moved : (old endpoint : Text) → D → Text × Device D → Text × Device D
  moved old endpoint content (e, d) =
      if e == old then (endpoint, record d { content = content }) else (e, d)

  -- The database refuses an update that gives a device the endpoint of another one, which is unique.
  abbrev pub is_refused : (old endpoint : Text) → Assoc Text (Device D) → Bool
  is_refused old endpoint devices =
      not (old == endpoint) && (is_some (lookup old devices) && is_some (lookup endpoint devices))

  -- `change_subscription`; the one guard in it is the database's constraint, which raises.
  unfoldable pub change_subscription : (old endpoint : Text) → D → State D → Option (State D)
  change_subscription old endpoint content s =
      if is_refused old endpoint s.devices
      then none
      else some (record s { devices = map (moved old endpoint content) s.devices })

  -- `unsubscribe_device`
  unfoldable pub unsubscribe_device : (session_key : Text) → State D → State D
  unsubscribe_device session_key s = record s {
    devices = keep (λ r. not (r.1.session == session_key)) s.devices;
  }

  -- `update_user_subscriptions`
  unfoldable pub update_user_subscriptions :
      (is_sqlite : Bool) → (user_id : ℕ) → Assoc Text Bool → State D → State D
  unfolding create_or_update
  update_user_subscriptions true user_id subscriptions s = record s {
    settings =
        keep (λ r. not (is_kind_of user_id subscriptions r.0)) s.settings
        ++ items user_id subscriptions;
  }
  update_user_subscriptions false user_id subscriptions s = record s {
    settings = create_or_update (items user_id subscriptions) s.settings;
  }

  -- What `setter` does for the device
  unfoldable pub set_device : Context → Wanted D → State D → State D
  unfolding subscribe_device unsubscribe_device
  set_device c w s = elim w.subscription_data [
    | none ↦ unsubscribe_device c.session_key s
    | some (endpoint, content) ↦
        subscribe_device c.new_id c.default_language c.session_key c.user_id endpoint content
          w.language_code s
  ]

  -- `setter`
  unfoldable pub setter : Context → Wanted D → State D → State D
  unfolding set_device update_user_subscriptions
  setter c w s = update_user_subscriptions c.is_sqlite c.user_id w.subscriptions (set_device c w s)

  -- `deleter`
  unfoldable pub deleter : (user_id : ℕ) → State D → State D
  deleter user_id s = record {
    devices = keep (λ r. not (eqb r.1.user_id user_id)) s.devices;
    settings = map (λ r. (r.0, if eqb r.0.0 user_id then false else r.1)) s.settings;
  }

  -- `remove_push_subscriptions`, when a user is deleted
  unfoldable pub remove_push_subscriptions : (user_id : ℕ) → State D → State D
  remove_push_subscriptions user_id s = record s {
    settings = keep (λ r. not (eqb r.0.0 user_id)) s.settings;
  }

  -- `get_user_subscriptions`
  unfoldable pub get_user_subscriptions : (user_id : ℕ) → State D → Assoc Text Bool
  get_user_subscriptions user_id s =
      map (λ r. (r.0.1, r.1)) (keep (λ r. eqb r.0.0 user_id) s.settings)
