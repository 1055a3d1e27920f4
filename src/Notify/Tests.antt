-- ===== src/Notify/Tests.antt =====
-- vstutils/models/cent_notify.py: a site, sample notificators, and the theorems at inputs.
use vstutils.Base.{
  ◌≡◌, ◌↔◌, ◌⊎◌, refl, ℕ, Bool, true, false, ◌&&◌, List, [], ◌∷◌, none, some, arith, Eq, text_eq,
  text_beq, text_beq_iff,
}
use vstutils.Base.Text.{Text, codes}
use vstutils.Notify.{
  post_save, post_delete, signal_eq, Publish, synchronous, asynchronous, Site, Notificator,
  remove_first, connect_signal, disconnect_signal, disconnect_from, disconnect_all, init,
  create_notification, publish, prep_labels, prep_messages, hand_over, deliver, asend_objects,
  asend, send_objects, send, Instance, create_notification_from_instance, signal_handler, exit,
  clear_messages,
}
use vstutils.Notify.Merging.{keep_last, prep_messages_lem}
use vstutils.Notify.Messages.{IsKept, IsHandedOver, IsLost, send_lem}
use vstutils.Notify.Signals.{every_other}

abbrev publish_beq : Publish Text → Publish Text → Bool
publish_beq p q = text_beq p.channel q.channel && text_beq p.payload q.payload

publish_beq_iff : (p q : Publish Text) → (publish_beq p q ≡ true) ↔ (p ≡ q)
publish_beq_iff p q =
    ground (arith, text_beq_iff p.channel q.channel, text_beq_iff p.payload q.payload)

instance abbrev publish_eq : Eq (Publish Text)
publish_eq = record { is_same = publish_beq; is_same_iff = publish_beq_iff }

-- A site whose server answers 7, with the given clients and no running loop.
abbrev site : (has_sync has_async : Bool) → Site Text ℕ
site has_sync has_async = record {
  has_kwargs = true;
  prefix = codes "app";
  get_client = λ c. elim c [ synchronous ↦ has_sync | asynchronous ↦ has_async ];
  in_loop = false;
  batch = λ c rs. some 7;
  normalize = λ d. some d;
}

abbrev two_labels : List Text × Text
two_labels = (codes "User" ∷ codes "Proxy" ∷ [], codes "1")

abbrev queued : Notificator Text
queued = record {
  queue = two_labels ∷ (codes "User" ∷ [], codes "1") ∷ [];
  cent_client = false;
  label = none;
  signals = post_save ∷ post_delete ∷ [];
  connected = post_save ∷ post_delete ∷ [];
  sent = [];
}

notify : Unit {0}
unfolding init connect_signal disconnect_signal disconnect_from disconnect_all remove_first
    create_notification publish prep_labels prep_messages hand_over deliver asend_objects asend
    send_objects send create_notification_from_instance signal_handler exit clear_messages keep_last
    every_other
notify = tt

abbrev user_batch : List (Publish Text)
user_batch =
    record { channel = codes "app.Proxy"; payload = codes "1" }
    ∷ record { channel = codes "app.User"; payload = codes "1" }
    ∷ []

-- Equal requests are sent once, at the place of the last.
sent_once : (send (site true false) queued).1.sent ≡ (synchronous, user_batch) ∷ []
unfolding notify
sent_once = refl

-- Without a client of either kind the messages are lost.
lost : (send (site false false) queued).1 ≡ record queued { queue = [] }
unfolding notify
lost = refl

-- One of the two signals that `__init__` connects stays connected.
half_connected :
    (disconnect_all (site true true) (init (site true true) [] false none true [])).connected
    ≡ post_delete ∷ []
unfolding notify
half_connected = refl

abbrev saved : Instance Text
saved = record {
  is_watched = true;
  notify_update = true;
  model_label = codes "User";
  proxy_labels = [];
  pk_data = codes "1";
}

handled :
    (signal_handler (site true true) saved (clear_messages (site true true) queued)).queue
    ≡ (codes "User" ∷ [], codes "1") ∷ []
unfolding notify
handled = refl

prep_messages_lem_example :
    prep_messages (site true true) none (two_labels ∷ (codes "User" ∷ [], codes "1") ∷ []) []
    ≡ user_batch
unfolding keep_last
prep_messages_lem_example =
    prep_messages_lem (site true true) none (two_labels ∷ (codes "User" ∷ [], codes "1") ∷ [])

send_lem_example :
    IsKept (site false true) queued (send (site false true) queued).1
    ⊎ (IsHandedOver (site false true) queued (send (site false true) queued).1
        ⊎ IsLost (site false true) queued (send (site false true) queued).1)
send_lem_example = send_lem (site false true) queued
