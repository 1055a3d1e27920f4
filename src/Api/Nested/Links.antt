-- ===== src/Api/Nested/Links.antt =====
-- What a nested view relies on, and the links of the objects that it creates.
use vstutils.Base.{
  ◌≡◌, refl, sym, false, List, [], ◌∷◌, map, Option, some, ◌==◌, text_eq, Eq, Assoc, insert, lookup,
  lookup-insert, All, length, beq_refl,
}
use vstutils.Base.Text.{Text}
use vstutils.Api.Run.{
  ok, ◌>>=◌, ◌>>◌, return, each, before_ok, Keeps, ok_injective, committed, kept_at,
}
use vstutils.Api.Nested.Defs.{
  Manager, by_field, by_content_type, other, Parts, create_by, create_with_iteration, data_create,
}

-- The validated data name the parent as the manager has it.
pub data IsOwned {V : Type 0} : Manager V → Assoc Text V → Type 0 where
  field :
      (name : Text) (i : V) (v : Assoc Text V)
      → lookup name v ≡ some i
      → IsOwned (by_field name i) v
  content_type :
      (ct_name id_name : Text) (ct id : V) (v : Assoc Text V)
      → lookup ct_name v ≡ some ct
      → lookup id_name v ≡ some id
      → IsOwned (by_content_type ct_name ct id_name id) v

-- The two fields of a content type have different names.
abbrev pub IsApart : {V : Type 0} → Manager V → Type 0
IsApart (by_field name i) = Unit
IsApart (by_content_type ct_name ct id_name id) = (id_name == ct_name) ≡ false
IsApart other = Unit

-- What the manager, the serializer and the permissions do: reading and checking write nothing, and an
-- object is linked to the parent once it is added, or created with data that name the parent, and stays so.
pub record Laws {S E D V O K R : Type 0} (p : Parts S E D V O K R) (Linked : S → O → Type 0)
    : Type 0 where
  pub apart : IsApart p.manager
  pub find-Keeps : (keys : List (Option V)) → Keeps (p.find keys)
  pub check-Keeps : (o : O) → Keeps (p.check_object_permissions o)
  pub get_valid-Keeps : (d : D) → Keeps (p.get_valid d)
  pub add-Linked :
      (os : List O) (s s' : S)
      → p.add os s ≡ (ok tt, s')
      → All (Linked s') os × ((x : O) → Linked s x → Linked s' x)
  pub create-Linked :
      (v : Assoc Text V) (o : O) (s s' : S)
      → p.perform_create v s ≡ (ok o, s')
      → (IsOwned p.manager v → Linked s' o) × ((x : O) → Linked s x → Linked s' x)
  pub notify-Linked :
      (os : List O) (s : S) (x : O) → Linked s x → Linked (p.notify_clients os s).1 x

-- A step that only adds links
abbrev pub Grows : {S O : Type 0} → (S → O → Type 0) → S → S → Type 0
Grows {O = O} Linked s s' = (x : O) → Linked s x → Linked s' x

module _ {S E D V O K R : Type 0} ⦃k : Eq K⦄ (p : Parts S E D V O K R) (Linked : S → O → Type 0)
    (laws : Laws p Linked) where
  IsOwned-both :
      (ct_name id_name : Text) (ct id : V) (v : Assoc Text V)
      → (id_name == ct_name) ≡ false
      → IsOwned (by_content_type ct_name ct id_name id) (insert id_name id (insert ct_name ct v))
  IsOwned-both ct_name id_name ct id v h =
      content_type ct_name id_name ct id _
        (rw
          (
            lookup-insert id_name ct_name id (insert ct_name ct v),
            h,
            lookup-insert ct_name ct_name ct v,
            beq_refl ct_name,
          )
          refl)
        (rw (lookup-insert id_name id_name id (insert ct_name ct v), beq_refl id_name) refl)

  -- Creating with data that name the parent
  created-Linked :
      (d : D) (f : Assoc Text V → Assoc Text V) (o : O) (s s' : S)
      → ((v : Assoc Text V) → IsOwned p.manager (f v))
      → (p.get_valid d >>= λ v. p.perform_create (f v)) s ≡ (ok o, s')
      → Linked s' o × Grows Linked s s'
  created-Linked d f o s s' owned h =
      let (v, t, hv, ho) = before_ok (p.get_valid d s) _ o s' h in
      let same = kept_at (p.get_valid d) (ok v) s t (laws.get_valid-Keeps d) hv in
      let (links, grows) = laws.create-Linked (f v) o t s' ho in
      (links (owned v), λ x l. grows x (rw same l))

  added-Linked :
      (v : Assoc Text V) (o : O) (t s' : S)
      → (p.perform_create v >>= λ o. (p.add (o ∷ []) >> return o)) t ≡ (ok o, s')
      → Linked s' o × Grows Linked t s'
  added-Linked v o t s' h =
      let (o1, t1, h1, h2) = before_ok (p.perform_create v t) _ o s' h in
      let (u, t2, h3, h4) = before_ok (p.add (o1 ∷ []) t1) _ o s' h2 in
      let (eo, es) = ok_injective o1 o t2 s' h4 in
      let (new, grows) = laws.add-Linked (o1 ∷ []) t1 t2 h3 in
      let before = laws.create-Linked v o1 t t1 h1 in
      rw (sym eo, sym es) (new.0, λ x l. grows x (before.1 x l))

  create_by-Linked :
      (m : Manager V) (d : D) (o : O) (s s' : S)
      → p.manager ≡ m
      → IsApart m
      → create_by p m d s ≡ (ok o, s')
      → Linked s' o × Grows Linked s s'
  unfolding create_by
  create_by-Linked (by_field name i) d o s s' e apart h =
      created-Linked d (insert name i) o s s'
        (λ v.
          rw e
            (field name i (insert name i v) (rw (lookup-insert name name i v, beq_refl name) refl)))
        h
  create_by-Linked (by_content_type ct_name ct id_name id) d o s s' e apart h =
      created-Linked d (λ v. insert id_name id (insert ct_name ct v)) o s s'
        (λ v. rw e (IsOwned-both ct_name id_name ct id v apart)) h
  create_by-Linked other d o s s' e apart h =
      let (v, t, hv, ho) = before_ok (p.get_valid d s) _ o s' h in
      let same = kept_at (p.get_valid d) (ok v) s t (laws.get_valid-Keeps d) hv in
      let (new, grows) = added-Linked v o t s' (committed t _ o s' ho) in
      (new, λ x l. grows x (rw same l))

  -- The objects that a creation of several values gives
  pub data_create-Linked :
      (ds : List D) (ids : List K) (s s' : S)
      → data_create p ds s ≡ (ok ids, s')
      → (created : List O) × (ids ≡ map p.append_value created)
        × (length created ≡ length ds)
        × All (Linked s') created
        × Grows Linked s s'
  unfolding data_create create_with_iteration each
  data_create-Linked [] ids s s' h =
      let (e, es) = ok_injective [] ids s s' h in ([], sym e, refl, tt, λ x l. rw es at l)
  data_create-Linked (d ∷ ds) ids s s' h =
      let (key, t, h1, h2) = before_ok _ _ ids s' h in
      let (o, t1, h3, h4) = before_ok (create_by p p.manager d s) _ key t h1 in
      let (ek, et) = ok_injective (p.append_value o) key t1 t h4 in
      let (keys, t2, h5, h6) = before_ok (data_create p ds t) _ ids s' h2 in
      let (ei, es) = ok_injective (key ∷ keys) ids t2 s' h6 in
      let (new, grows) = create_by-Linked p.manager d o s t1 refl laws.apart h3 in
      let (os, eo, n, all, more) = data_create-Linked ds keys t t2 h5 in
      rw (sym ei, sym es)
        (
          o ∷ os,
          rw (sym ek, eo) refl,
          rw n refl,
          (more o (rw et at new), all),
          λ x l. more x (rw et at (grows x l)),
        )
