-- ===== src/Api/Nested/Append.antt =====
-- Posting to a nested view that may append.
use vstutils.Base.{
  ◌≡◌, refl, sym, ap, ◌∙◌, Bool, true, List, [], ◌∷◌, ◌++◌, map, Option, text_eq, keep, Eq, All,
  All-append, All-weaken, length,
}
use mathlib.Core.List.{Memᴰ}
use vstutils.Api.Run.{
  Outcome, ok, raised, Run, and_then, ◌>>=◌, return, lift, each, before_ok, Keeps, ok_injective,
  kept_at,
}
use vstutils.Api.Nested.Defs.{
  Parts, data_create, is_not_created, append_found, append_create, perform_create_nested, key_of,
  ensure,
}
use vstutils.Api.Nested.Naming.{Left, keep-Left}
use vstutils.Api.Nested.Links.{Laws, Grows, data_create-Linked}

raises_at :
    {S E A B : Type 0} (r : Outcome E A × S) (f : A → Run S E B) (s : S) (e : E)
    → r.0 ≡ raised e
    → r.1 ≡ s
    → and_then r f ≡ (raised e, s)
raises_at (ok a, t) f s e h k = cc
raises_at (raised e', t) f s e h k = cc

module _ {S E O : Type 0} (check : O → Run S E (Unit {0})) (keeps : (o : O) → Keeps (check o)) where
  -- Where all checks go through
  each_ok :
      (os : List O) (us : List (Unit {0})) (s s' : S)
      → each check os s ≡ (ok us, s')
      → (s' ≡ s) × All (λ o. check o s ≡ (ok tt, s)) os
  unfolding each
  each_ok [] us s s' h = let (e, es) = ok_injective [] us s s' h in (sym es, tt)
  each_ok (o ∷ os) us s s' h =
      let (u, t, h1, h2) = before_ok (check o s) _ us s' h in
      let same = kept_at (check o) (ok u) s t (keeps o) h1 in
      let (vs, t2, h3, h4) = before_ok (each check os t) _ us s' h2 in
      let (e, es) = ok_injective (u ∷ vs) us t2 s' h4 in
      let (et, all) = each_ok os vs t t2 h3 in (sym es ∙ et ∙ same, (rw same at h1, rw same at all))

  each_tail :
      (o : O) (os : List O) (s : S) (r : Outcome E (Unit {0}) × S) (e : E)
      → r.1 ≡ s
      → (e' : E) × (each check os s ≡ (raised e', s))
      → (e' : E) × (and_then r (λ u. each check os >>= λ us. return (u ∷ us)) ≡ (raised e', s))
  each_tail o os s (ok u, t) e k (e', h) = (e', rw (k, h) refl)
  each_tail o os s (raised e1, t) e k (e', h) = (e1, rw k refl)

  -- One check that raises ends them all, and nothing is written.
  each_raises :
      (o : O) (os : List O) (s : S) (e : E)
      → Memᴰ o os
      → (check o s).0 ≡ raised e
      → (e' : E) × (each check os s ≡ (raised e', s))
  unfolding each
  each_raises o [] s e m h = elim m [ ]
  each_raises o (x ∷ os) s e (Memᴰ.head same) h =
      (e, raises_at (check x s) _ s e (rw same at h) (keeps x s))
  each_raises o (x ∷ os) s e (Memᴰ.tail m) h =
      each_tail x os s (check x s) e (keeps x s) (each_raises o os s e m h)

module _ {S E D V O K R : Type 0} ⦃k : Eq K⦄ (p : Parts S E D V O K R) (Linked : S → O → Type 0)
    (laws : Laws p Linked) where
  -- Once the values are read and their objects found
  append_found-Linked :
      (ds : List D) (objects : List O) (ids : List K) (s s' : S)
      → append_found p ds objects s ≡ (ok ids, s')
      → (handler : (Option V → Outcome E K)) × (created : List O) × (left : List D) × Left p handler
          objects ds left
        × (p.handler ≡ ok handler)
        × (ids ≡ map p.pk objects ++ map p.append_value created)
        × (length created ≡ length left)
        × ((t : S) × (t' : S) × (data_create p left t ≡ (ok (map p.append_value created), t')))
        × All (λ o. p.check_object_permissions o s ≡ (ok tt, s)) objects
        × All (Linked s') (objects ++ created)
        × Grows Linked s s'
  unfolding append_found
  append_found-Linked ds objects ids s s' h =
      let (us, t1, h1, k1) = before_ok (each p.check_object_permissions objects s) _ ids s' h in
      let (same, permitted) =
        each_ok p.check_object_permissions laws.check-Keeps objects us s t1 h1 in
      let (u, t2, h2, k2) = before_ok (p.add objects t1) _ ids s' k1 in
      let (handler, t3, h3, k3) = before_ok (lift p.handler t2) _ ids s' k2 in
      let eh = ap (λ r. r.0) h3 in
      let e3 = ap (λ r. r.1) h3 in
      let rest = keep (is_not_created p handler (map p.pk objects)) ds in
      let (keys, t4, h4, k4) = before_ok (data_create p rest t3) _ ids s' k3 in
      let (v, t5, h5, k5) = before_ok (p.notify_clients objects t4) _ ids s' k4 in
      let (ei, e5) = ok_injective (map p.pk objects ++ keys) ids t5 s' k5 in
      let (old, more) = laws.add-Linked objects t1 t2 h2 in
      let (created, ek, n, new, grows) = data_create-Linked p Linked laws rest keys t3 t4 h4 in
      let e4 = ap (λ r. r.1) h5 in
      let stays : (x : O) → Linked t4 x → Linked s' x =
        λ x l. rw (sym e5, sym e4) (laws.notify-Linked objects t4 x l) in
      let kept : (x : O) → Linked t2 x → Linked s' x = λ x l. stays x (grows x (rw e3 at l)) in
      (
        handler,
        created,
        rest,
        keep-Left p handler objects ds,
        eh,
        sym ei ∙ ap (λ ks. map p.pk objects ++ ks) ek,
        n,
        (t3, t4, h4 ∙ ap (λ ks. (ok ks, t4)) ek),
        permitted,
        All-append (Linked s') objects created (All-weaken (Linked t2) (Linked s') objects kept old)
            (All-weaken (Linked t4) (Linked s') created stays new),
        λ x l. kept x (more x (rw (sym same) at l)),
      )

  append_create-found :
      (items ds : List D) (keys : List (Option V)) (objects : List O) (s : S)
      → each (ensure p) items s ≡ (ok ds, s)
      → each (key_of p) ds s ≡ (ok keys, s)
      → p.find keys s ≡ (ok objects, s)
      → append_create p items s ≡ append_found p ds objects s
  unfolding append_create
  append_create-found items ds keys objects s hd hk hf = rw (hd, hk, hf) refl

  -- Where the laws hold, posting values, whose objects with their keys are found, to a view that may
  -- append gives, if it ends well, the primary keys of the objects found, then the values of
  -- `nested_append_arg` of one new object for each value that names none of them: one whose
  -- `nested_append_arg` is not there, or is represented as no primary key of an object found. Each object
  -- found was permitted, both are linked to the parent, and what was linked before stays so.
  pub append_create-Linked :
      (items ds : List D) (keys : List (Option V)) (objects : List O) (ids : List K) (s s' : S)
      → each (ensure p) items s ≡ (ok ds, s)
      → each (key_of p) ds s ≡ (ok keys, s)
      → p.find keys s ≡ (ok objects, s)
      → append_create p items s ≡ (ok ids, s')
      → (handler : (Option V → Outcome E K)) × (created : List O) × (left : List D) × Left p handler
          objects ds left
        × (p.handler ≡ ok handler)
        × (ids ≡ map p.pk objects ++ map p.append_value created)
        × (length created ≡ length left)
        × ((t : S) × (t' : S) × (data_create p left t ≡ (ok (map p.append_value created), t')))
        × All (λ o. p.check_object_permissions o s ≡ (ok tt, s)) objects
        × All (Linked s') (objects ++ created)
        × Grows Linked s s'
  append_create-Linked items ds keys objects ids s s' hd hk hf h =
      let found = append_create-found items ds keys objects s hd hk hf in
      append_found-Linked ds objects ids s s' (sym found ∙ h)

  append_found_refused :
      (ds : List D) (objects : List O) (o : O) (s : S) (e : E)
      → Memᴰ o objects
      → (p.check_object_permissions o s).0 ≡ raised e
      → (e' : E) × (append_found p ds objects s ≡ (raised e', s))
  unfolding append_found
  append_found_refused ds objects o s e m h =
      let (e', raises) =
        each_raises p.check_object_permissions laws.check-Keeps o objects s e m h in
      (e', rw raises refl)

  -- Where the laws hold: posting values, whose objects with their keys are found, to a view that may
  -- append fails if the user has no permission for one of these objects, and nothing is written, also of
  -- the other values.
  pub perform_create_nested_refused :
      (items ds : List D) (keys : List (Option V)) (objects : List O) (o : O) (many : Bool) (s : S)
      (e : E)
      → each (ensure p) items s ≡ (ok ds, s)
      → each (key_of p) ds s ≡ (ok keys, s)
      → p.find keys s ≡ (ok objects, s)
      → Memᴰ o objects
      → (p.check_object_permissions o s).0 ≡ raised e
      → (e' : E) × (perform_create_nested p true items many s ≡ (raised e', s))
  unfolding perform_create_nested
  perform_create_nested_refused items ds keys objects o many s e hd hk hf m h =
      let (e', raises) = append_found_refused ds objects o s e m h in
      let found = append_create-found items ds keys objects s hd hk hf in
      (e', rw (found, raises) refl)
