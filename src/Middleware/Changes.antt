-- ===== src/Middleware/Changes.antt =====
-- vstutils/middleware.py: `FrontendChangesNotifications`, which sends what its notificator has queued
-- during a request.
use vstutils.Base.{true, false, [], Option, none, some, if◌then◌else◌, Eq}
use vstutils.Notify.{Site, Notificator, Publish, is_usable, init, asend}

module _ {D R : Type 0} (site : Site D R) ⦃e : Eq (Publish D)⦄ where
  -- `__init__`, over the signals that have handlers
  abbrev pub new_notificator : Notificator D
  new_notificator = init site [] false none true []

  -- The notificator that the request gets, if any.
  unfoldable pub attached : Notificator D → Option (Notificator D)
  attached n = if is_usable site n then some n else none

  -- `handler`; what `asend` gives back is dropped.
  unfoldable pub after_response : Notificator D → Notificator D
  after_response n = if is_usable site n then (asend site n).1 else n
