-- ===== src/Notify.antt =====
-- vstutils/models/cent_notify.py: `Notificator`, the queue of messages for Centrifugo.
-- What the settings, the client library and asyncio decide is the parameter `Site`; an exception is
-- `none`. The database signals, which hold the handler, are part of the state.
mod Distinct
mod Merging
mod Messages
mod Signals
pub mod Tests
use vstutils.Base.{
  ◌≡◌, ◌↔◌, Bool, true, false, ◌&&◌, ◌||◌, not, List, [], ◌∷◌, ◌++◌, Option, none, some, arith,
  if◌then◌else◌, Eq, ◌==◌, text_eq, text_beq, text_beq_iff, any, get_elem?, ℕ, zero, suc, ◌+◌,
  length,
}
use vstutils.Base.Text.{Text}

-- `post_save` and `post_delete`, and those that a caller connects.
pub data Signal : Type 0 where
  post_save : Signal
  post_delete : Signal
  custom : Text → Signal

abbrev pub signal_beq : Signal → Signal → Bool
signal_beq post_save post_save = true
signal_beq post_delete post_delete = true
signal_beq (custom s) (custom t) = text_beq s t
signal_beq _ _ = false

pub signal_beq_iff : (s t : Signal) → (signal_beq s t ≡ true) ↔ (s ≡ t)
signal_beq_iff post_save post_save = ground arith
signal_beq_iff post_save post_delete = ground arith
signal_beq_iff post_save (custom t) = ground arith
signal_beq_iff post_delete post_save = ground arith
signal_beq_iff post_delete post_delete = ground arith
signal_beq_iff post_delete (custom t) = ground arith
signal_beq_iff (custom s) post_save = ground arith
signal_beq_iff (custom s) post_delete = ground arith
signal_beq_iff (custom s) (custom t) = ground (arith, text_beq_iff s t)

instance abbrev pub signal_eq : Eq Signal
signal_eq = record { is_same = signal_beq; is_same_iff = signal_beq_iff }

module _ {A : Type 0} ⦃e : Eq A⦄ where
  -- `x in xs`, and `xs.remove(x)`, which takes the first entry that is `x`.
  abbrev pub is_in : A → List A → Bool
  is_in x xs = any (λ y. y == x) xs

  unfoldable pub remove_first : A → List A → List A
  remove_first x [] = []
  remove_first x (y ∷ ys) = let rest = remove_first x ys in if y == x then ys else y ∷ rest

-- `PublishRequest`
pub record Publish (D : Type 0) : Type 0 where
  pub channel : Text
  pub payload : D

-- How a batch is sent: by the synchronous client or by the asynchronous one.
pub data Client : Type 0 where
  synchronous asynchronous : Client

-- `settings`, and the outside: whether there are keyword arguments for a client, the prefix, whether
-- `get_client` gives a client of each kind, whether an event loop is running, what the server answers,
-- and `orjson.loads` of the rendered data.
pub record Site (D R : Type 0) : Type 0 where
  pub has_kwargs : Bool
  pub prefix : Text
  pub get_client : Client → Bool
  pub in_loop : Bool
  pub batch : Client → List (Publish D) → Option R
  pub normalize : D → Option D

-- `connected` are the signals that hold the handler, `sent` the batches that were given to a client.
pub record Notificator (D : Type 0) : Type 0 where
  pub queue : List (List Text × D)
  pub cent_client : Bool
  pub label : Option Text
  pub signals : List Signal
  pub connected : List Signal
  pub sent : List (Client × List (Publish D))

-- What a handler reads of the saved object.
pub record Instance (D : Type 0) : Type 0 where
  pub is_watched : Bool
  pub notify_update : Bool
  pub model_label : Text
  pub proxy_labels : List Text
  pub pk_data : D

module _ {D R : Type 0} (site : Site D R) where
  abbrev pub is_usable : Notificator D → Bool
  is_usable n = site.has_kwargs || n.cent_client

  unfoldable pub connect_signal : Signal → Notificator D → Notificator D
  connect_signal s n =
      if is_in s n.signals
      then n
      else record n { connected = n.connected ++ s ∷ []; signals = n.signals ++ s ∷ [] }

  unfoldable pub disconnect_signal : Signal → Notificator D → Notificator D
  unfolding remove_first
  disconnect_signal s n =
      if is_in s n.signals
      then record n { connected = remove_first s n.connected; signals = remove_first s n.signals }
      else n

  -- The `for` loop over a list that its body shortens, from the given index; it makes at most as many
  -- rounds as the list has entries.
  unfoldable pub disconnect_from : (fuel : ℕ) → (index : ℕ) → Notificator D → Notificator D
  unfolding disconnect_signal
  disconnect_from zero index n = n
  disconnect_from (suc fuel) index n = elim (get_elem? n.signals index) [
    | none ↦ n
    | some s ↦ disconnect_from fuel (index + 1) (disconnect_signal s n)
  ]

  unfoldable pub disconnect_all : Notificator D → Notificator D
  unfolding disconnect_from
  disconnect_all n = disconnect_from (length n.signals) 0 n

  -- `__init__`, with the signals' state before it
  unfoldable pub init :
      List (List Text × D)
      → (client : Bool) → Option Text
      → (autoconnect : Bool) → List Signal
      → Notificator D
  unfolding connect_signal
  init queue client label autoconnect connected =
      let n : Notificator D = record {
        queue = queue;
        cent_client = client;
        label = label;
        signals = [];
        connected = connected;
        sent = [];
      } in
      if autoconnect && is_usable n
      then connect_signal post_delete (connect_signal post_save n)
      else n

  unfoldable pub create_notification_from_instance : Instance D → Notificator D → Notificator D
  create_notification_from_instance i n =
      if is_usable n
      then record n { queue = n.queue ++ (i.model_label ∷ i.proxy_labels, i.pk_data) ∷ [] }
      else n

  unfoldable pub signal_handler : Instance D → Notificator D → Notificator D
  unfolding create_notification_from_instance
  signal_handler i n =
      if i.is_watched && i.notify_update then create_notification_from_instance i n else n

  -- `none`: the data has no JSON form. A single label is a list of one.
  unfoldable pub create_notification : List Text → D → Notificator D → Option (Notificator D)
  create_notification labels d n =
      if is_usable n
      then (elim (site.normalize d) [
        | none ↦ none
        | some j ↦ some (record n { queue = n.queue ++ (labels, j) ∷ [] })
      ])
      else some n

  unfoldable pub clear_messages : Notificator D → Notificator D
  clear_messages n = record n { queue = [] }

  abbrev pub get_subscription_channel : Text → Text
  get_subscription_channel label = site.prefix ++ b'.' ∷ label

  abbrev pub chosen : Option Text → Text → Text
  chosen none label = label
  chosen (some []) label = label
  chosen (some (c ∷ s)) label = c ∷ s

  module _ ⦃e : Eq (Publish D)⦄ where
    -- One label of one message.
    unfoldable pub publish : Publish D → List (Publish D) → List (Publish D)
    unfolding remove_first
    publish r rs = (if is_in r rs then remove_first r rs else rs) ++ r ∷ []

    unfoldable pub prep_labels : Option Text → D → List Text → List (Publish D) → List (Publish D)
    unfolding publish
    prep_labels provided d [] rs = rs
    prep_labels provided d (l ∷ ls) rs = prep_labels provided d ls (
        publish (record { channel = get_subscription_channel (chosen provided l); payload = d }) rs)

    -- The requests of `_prep_messages`; its set of channels is only logged.
    unfoldable pub prep_messages :
        Option Text → List (List Text × D) → List (Publish D) → List (Publish D)
    unfolding prep_labels
    prep_messages provided [] rs = rs
    prep_messages provided ((labels, d) ∷ objects) rs =
        prep_messages provided objects (prep_labels provided d labels rs)

    unfoldable pub hand_over : Client → List (Publish D) → Notificator D → Option R × Notificator D
    hand_over c [] n = (none, n)
    hand_over c (r ∷ rs) n = (site.batch c (r ∷ rs), record n { sent = n.sent ++ (c, r ∷ rs) ∷ [] })

    -- The end of `send` and of `asend`: one batch, if there is anything to send. An exception is
    -- suppressed.
    unfoldable pub deliver :
        Client → List (List Text × D) → Notificator D → Option R × Notificator D
    unfolding hand_over prep_messages
    deliver c objects n = hand_over c (prep_messages n.label objects []) n

    unfoldable pub asend_objects : List (List Text × D) → Notificator D → Option R × Notificator D
    unfolding deliver
    asend_objects [] n = (none, n)
    asend_objects (o ∷ os) n =
        if n.cent_client
        then deliver asynchronous (o ∷ os) n
        else if site.get_client asynchronous
        then deliver asynchronous (o ∷ os) (record n { cent_client = true })
        else (none, n)

    unfoldable pub asend : Notificator D → Option R × Notificator D
    unfolding asend_objects
    asend n = asend_objects n.queue (record n { queue = [] })

    -- Without a synchronous client the messages go back into the queue for `asend`, which cannot be
    -- called where an event loop is running, and whose answer is dropped.
    unfoldable pub send_objects : List (List Text × D) → Notificator D → Option R × Notificator D
    unfolding asend deliver
    send_objects [] n = (none, n)
    send_objects (o ∷ os) n =
        if site.get_client synchronous
        then deliver synchronous (o ∷ os) n
        else let restored : Notificator D = record n { queue = n.queue ++ o ∷ os } in
          if site.in_loop then (none, restored) else (none, (asend restored).1)

    unfoldable pub send : Notificator D → Option R × Notificator D
    unfolding send_objects
    send n = send_objects n.queue (record n { queue = [] })

    -- `__exit__`
    unfoldable pub exit : Notificator D → Notificator D
    unfolding send
    exit n = if is_usable n then (send n).1 else n
