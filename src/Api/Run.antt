-- ===== src/Api/Run.antt =====
-- A step over a database which may raise. `transaction.atomic` is Django's: an exception that leaves it
-- undoes what was written in it.
use vstutils.Base.{◌≡◌, refl, ◌∙◌, sym, ap, List, [], ◌∷◌}

pub data Outcome (E A : Type 0) : Type 0 where
  ok : A → Outcome E A
  raised : E → Outcome E A

-- A step over the state `S` of the database.
abbrev pub Run : (S E A : Type 0) → Type 0
Run S E A = S → Outcome E A × S

abbrev pub and_then : {S E A B : Type 0} → Outcome E A × S → (A → Run S E B) → Outcome E B × S
and_then (ok a, s) f = f a s
and_then (raised e, s) f = (raised e, s)

infixl 5 ◌>>=◌ ◌>>◌
abbrev pub ◌>>=◌ : {S E A B : Type 0} → Run S E A → (A → Run S E B) → Run S E B
◌>>=◌ m f s = and_then (m s) f

abbrev pub ◌>>◌ : {S E B : Type 0} → Run S E (Unit {0}) → Run S E B → Run S E B
m >> k = m >>= λ _. k

abbrev pub return : {S E A : Type 0} → A → Run S E A
return a s = (ok a, s)

-- `transaction.atomic()`
abbrev pub undone : {S E A : Type 0} → S → Outcome E A × S → Outcome E A × S
undone before (ok a, s) = (ok a, s)
undone before (raised e, s) = (raised e, before)

abbrev pub in_transaction : {S E A : Type 0} → Run S E A → Run S E A
in_transaction m s = undone s (m s)

-- A step that writes nothing, whether it raises or not.
abbrev pub Keeps : {S E A : Type 0} → Run S E A → Type 0
Keeps {S} m = (s : S) → (m s).1 ≡ s

and_then-Keeps :
    {S E A B : Type 0} (o : Outcome E A × S) (f : A → Run S E B) (s : S)
    → o.1 ≡ s
    → ((a : A) → Keeps (f a))
    → (and_then o f).1 ≡ s
and_then-Keeps (ok a, s') f s h k = k a s' ∙ h
and_then-Keeps (raised e, s') f s h k = h

pub bind-Keeps :
    {S E A B : Type 0} (m : Run S E A) (f : A → Run S E B)
    → Keeps m
    → ((a : A) → Keeps (f a))
    → Keeps (m >>= f)
bind-Keeps m f h k s = and_then-Keeps (m s) f s (h s) k

-- A result without a step
abbrev pub lift : {S E A : Type 0} → Outcome E A → Run S E A
lift o s = (o, s)

-- `[f(a) for a in ...]`, which ends at the first exception
unfoldable pub each : {S E A B : Type 0} → (A → Run S E B) → List A → Run S E (List B)
each f [] = return []
each f (a ∷ rest) = do b ← f a; bs ← each f rest; return (b ∷ bs)

-- What went before a step that gave a result
pub before_ok :
    {S E A B : Type 0} (o : Outcome E A × S) (f : A → Run S E B) (b : B) (s : S)
    → and_then o f ≡ (ok b, s)
    → (a : A) × (t : S) × (o ≡ (ok a, t)) × (f a t ≡ (ok b, s))
before_ok (ok a, t) f b s h = (a, t, refl, h)
before_ok (raised e, t) f b s h = cc

pub ok_injective :
    {S E A : Type 0} (a b : A) (s t : S)
    → ◌≡◌ {A = Outcome E A × S} (ok a, s) (ok b, t)
    → (a ≡ b) × (s ≡ t)
ok_injective a b s t h = (cc, cc)

pub committed :
    {S E A : Type 0} (t : S) (x : Outcome E A × S) (a : A) (s : S)
    → undone t x ≡ (ok a, s)
    → x ≡ (ok a, s)
committed t (ok b, s') a s h = h
committed t (raised e, s') a s h = cc

-- Where a step that writes nothing ends
pub kept_at :
    {S E A : Type 0} (m : Run S E A) (o : Outcome E A) (s t : S) → Keeps m → m s ≡ (o, t) → t ≡ s
kept_at m o s t keeps h = ap (λ x. x.1) (sym h) ∙ keeps s
