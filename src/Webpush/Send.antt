-- ===== src/Webpush/Send.antt =====
-- vstutils/webpush/base.py: whom `BaseWebPush.send` reaches, and the devices that it removes. `pushed` tells
-- how rendering the payload for a device and pushing it ends.
use vstutils.Base.{
  ℕ, ◌≡◌, refl, ◌∙◌, ap, Bool, true, false, not, ◌&&◌, ◌||◌, List, [], ◌∷◌, map, Option, none, some,
  if◌then◌else◌, ◌==◌, text_eq, eqb, eqb_iff, any, keep, keep-ext, keep_all, keep-keep, Assoc,
  arith, sym, Bool-cases, inl, inr,
}
use vstutils.Base.Text.{Text}
use vstutils.Base.Members.{has}
use vstutils.Webpush.Tables.{Device, Kind, State, deleter}

-- A push is done; or it raises a WebPushException, with the status of its response if it has one; or it raises
-- something else.
pub data Pushed (E : Type 0) : Type 0 where
  done : Pushed E
  web_push_exception : (status : Option ℕ) → Pushed E
  raises : E → Pushed E

-- `exc.response is not None and exc.response.status_code in {404, 410}`
unfoldable pub is_inactive : Option ℕ → Bool
is_inactive none = false
is_inactive (some status) = has status (404 ∷ 410 ∷ [])

abbrev pub is_subscribed : (key : Text) → (users : List ℕ) → Assoc Kind Bool → ℕ → Bool
is_subscribed key users settings u =
    any (λ r. r.0.1 == key && (r.1 && (has r.0.0 users && eqb r.0.0 u))) settings

-- What a push does for the ids that were found, and to the rest of the loop; other failures are logged.
unfoldable pub after_push :
    {E : Type 0} → Pushed E → (id : ℕ) → (List ℕ → Option E × List ℕ) → List ℕ → Option E × List ℕ
unfolding is_inactive
after_push done id next found = next found
after_push (web_push_exception status) id next found =
    next (if is_inactive status then id ∷ found else found)
after_push (raises e) id next found = (some e, found)

abbrev pub raised_or : {E : Type 0} → Pushed E → Option E → Option E
raised_or (raises e) next = some e
raised_or done next = next
raised_or (web_push_exception status) next = next

-- Whether a device is gone by how its push ended, or by the rest, unless that is not run
abbrev pub gone_or : {E : Type 0} → Pushed E → (same : Bool) → Bool → Bool
gone_or (raises e) same next = false
gone_or done same next = next
gone_or (web_push_exception none) same next = next
gone_or (web_push_exception (some status)) same next =
    ((eqb status 404 || eqb status 410) && same) || next

marked :
    (n : ℕ) (a b c : Bool)
    → is_inactive (some n) ≡ true
    → (a || (b || c)) ≡ ((((eqb n 404 || eqb n 410) && b) || a) || c)
unfolding is_inactive
marked n a b c h = ground arith

unmarked :
    (n : ℕ) (a b c : Bool)
    → is_inactive (some n) ≡ false
    → (a || c) ≡ ((((eqb n 404 || eqb n 410) && b) || a) || c)
unfolding is_inactive
unmarked n a b c h = ground arith

is_subscribed-deleter :
    (key : Text) (users : List ℕ) (user_id : ℕ) (settings : Assoc Kind Bool) (u : ℕ)
    → not (eqb u user_id) ≡ true
    → is_subscribed key users
        (map (λ r. (r.0, if eqb r.0.0 user_id then false else r.1)) settings)
        u
      ≡ is_subscribed key users settings u
is_subscribed-deleter key users user_id [] u h = refl
is_subscribed-deleter key users user_id (((v, t), b) ∷ settings) u h =
    rw (is_subscribed-deleter key users user_id settings u h)
      (ground (arith, eqb_iff v user_id, eqb_iff u user_id, eqb_iff v u))

module _ {D : Type 0} where
  -- `get_subscriptions`, for the key of the class and its `get_users_ids`
  unfoldable pub get_subscriptions :
      (key : Text) → (users : List ℕ) → State D → Assoc Text (Device D)
  get_subscriptions key users s =
      keep (λ r. is_subscribed key users s.settings r.1.user_id) s.devices

  -- All but the devices with these ids
  abbrev pub without_ids : List ℕ → Assoc Text (Device D) → Assoc Text (Device D)
  without_ids ids devices = keep (λ r. not (has r.1.id ids)) devices

  module _ {E : Type 0} (pushed : Text × Device D → Pushed E) where
    -- The loop, with the ids found inactive, and what was raised
    unfoldable pub push_all : Assoc Text (Device D) → (found : List ℕ) → Option E × List ℕ
    unfolding after_push
    push_all [] found = (none, found)
    push_all (r ∷ rest) found = after_push (pushed r) r.1.id (push_all rest) found

    -- `finally`
    abbrev pub finished : State D → Option E × List ℕ → Option E × State D
    finished s (e, found) = (e, record s { devices = without_ids found s.devices })

    -- `send` to these subscriptions, which the method `prepare` may end
    unfoldable pub send_to :
        Assoc Text (Device D) → (prepare : Option E) → State D → Option E × State D
    unfolding push_all
    send_to [] prepare s = (none, s)
    send_to (r ∷ rest) none s = finished s (push_all (r ∷ rest) [])
    send_to (r ∷ rest) (some e) s = (some e, s)

    unfoldable pub send :
        (key : Text) → (users : List ℕ) → (prepare : Option E) → State D → Option E × State D
    unfolding get_subscriptions send_to
    send key users prepare s = send_to (get_subscriptions key users s) prepare s

    -- The first exception that is no WebPushException
    abbrev pub first_raised : Assoc Text (Device D) → Option E
    first_raised [] = none
    first_raised (r ∷ rest) = raised_or (pushed r) (first_raised rest)

    -- Whether a device with this id was found inactive, before something was raised
    abbrev pub is_gone : ℕ → Assoc Text (Device D) → Bool
    is_gone id [] = false
    is_gone id (r ∷ rest) = gone_or (pushed r) (eqb id r.1.id) (is_gone id rest)

    -- What a run of the loop has raised, and found besides what was found before
    abbrev Finds : Option E → (ℕ → Bool) → (List ℕ → Option E × List ℕ) → Type 0
    Finds e gone next =
        (found : List ℕ)
        → ((next found).0 ≡ e) × ((id : ℕ) → has id (next found).1 ≡ (gone id || has id found))

    after_push-found :
        (x : Pushed E) (j : ℕ) (e : Option E) (gone : ℕ → Bool) (next : List ℕ → Option E × List ℕ)
        → Finds e gone next
        → Finds (raised_or x e) (λ id. gone_or x (eqb id j) (gone id)) (after_push x j next)
    unfolding after_push
    after_push-found done j e gone next h found = h found
    after_push-found (web_push_exception none) j e gone next h found = h found
    after_push-found (web_push_exception (some n)) j e gone next h found =
        elim (Bool-cases (is_inactive (some n))) [
          | inl gone_ ↦
              let (same, ids) = h (j ∷ found) in
              rw (gone_, after_push)
                (same, λ id. ids id ∙ marked n (gone id) (eqb id j) (has id found) gone_)
          | inr lives ↦
              let (same, ids) = h found in
              rw (lives, after_push)
                (same, λ id. ids id ∙ unmarked n (gone id) (eqb id j) (has id found) lives)
        ]
    after_push-found (raises x) j e gone next h found = (refl, λ id. refl)

    push_all-found :
        (subscriptions : Assoc Text (Device D))
        → Finds
            (first_raised subscriptions)
            (λ id. is_gone id subscriptions)
            (push_all subscriptions)
    unfolding push_all
    push_all-found [] found = (refl, λ id. refl)
    push_all-found (r ∷ rest) found =
        after_push-found (pushed r) r.1.id (first_raised rest) (λ id. is_gone id rest)
          (push_all rest) (push_all-found rest) found

    or_nothing : (b : Bool) → (b || false) ≡ b
    or_nothing true = refl
    or_nothing false = refl

    send_to-found :
        (subscriptions : Assoc Text (Device D)) (s : State D)
        → ((send_to subscriptions none s).0 ≡ first_raised subscriptions)
          × ((send_to subscriptions none s).1.devices
              ≡ keep (λ r. not (is_gone r.1.id subscriptions)) s.devices)
          × ((send_to subscriptions none s).1.settings ≡ s.settings)
    unfolding send_to
    send_to-found [] s = (refl, sym (keep_all s.devices), refl)
    send_to-found (r ∷ rest) s =
        let (same, ids) = push_all-found (r ∷ rest) [] in
        (
          same,
          keep-ext _ _ s.devices
              (λ d. ap not (ids d.1.id ∙ or_nothing (is_gone d.1.id (r ∷ rest)))),
          refl,
        )

    -- Where preparing goes well: sending raises just the first exception that is no WebPushException, which
    -- ends it; and whether or not it ends so, it removes all devices with an id whose push raised till then a
    -- WebPushException with a response of the status 404 or 410, and no others.
    pub send-push_all :
        (key : Text) (users : List ℕ) (s : State D)
        → ((send key users none s).0 ≡ first_raised (get_subscriptions key users s))
          × ((send key users none s).1.devices
              ≡ keep (λ r. not (is_gone r.1.id (get_subscriptions key users s))) s.devices)
          × ((send key users none s).1.settings ≡ s.settings)
    unfolding send
    send-push_all key users s = send_to-found (get_subscriptions key users s) s

  -- After a user's subscriptions are deleted, a message reaches no device of the user; it reaches the
  -- devices of others as before.
  pub get_subscriptions-deleter :
      (key : Text) (users : List ℕ) (user_id : ℕ) (s : State D)
      → get_subscriptions key users (deleter user_id s)
        ≡ keep (λ r. not (eqb r.1.user_id user_id)) (get_subscriptions key users s)
  unfolding get_subscriptions deleter
  get_subscriptions-deleter key users user_id s =
      keep-keep (λ r. is_subscribed key users s.settings r.1.user_id)
        (λ r. is_subscribed key users (deleter user_id s).settings r.1.user_id)
        (λ r. not (eqb r.1.user_id user_id)) s.devices
        (λ r. is_subscribed-deleter key users user_id s.settings r.1.user_id)
