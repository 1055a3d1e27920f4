-- ===== src/Api/Etag/Conditional.antt =====
-- A tag that was sent with a response, and the conditional requests that bring it back.
use vstutils.Base.{Bool, true, List, Option, some, text_eq}
use vstutils.Base.Text.{Text}
use vstutils.Utils.Headers.{form}

-- The tag of a response, as a client may write it down again: as it is, or marked as weak.
abbrev pub returned : (weak : Option Bool) → Text → Option Text
returned weak tag = some (form weak true tag)
