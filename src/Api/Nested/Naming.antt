-- ===== src/Api/Nested/Naming.antt =====
-- vstutils/api/decorators.py: which values name an object that was found, when posting to a nested view
-- that may append.
use vstutils.Base.{
  ◌≡◌, refl, sym, ap, inl, inr, true, List, [], ◌∷◌, map, Option, keep, Eq, Bool-cases, arith,
}
use mathlib.Core.List.{Memᴰ}
use vstutils.Api.Run.{Outcome, ok, raised}
use vstutils.Api.Nested.Defs.{Parts, is_not_created, is_listed, represented}

module _ {S E D V O K R : Type 0} ⦃k : Eq K⦄ (p : Parts S E D V O K R)
    (handler : Option V → Outcome E K) where
  -- A value names an object where its `nested_append_arg` is there, and is represented as the object's
  -- primary key.
  pub record Names (d : D) (o : O) : Type 0 where
    pub value : Option V
    pub got : p.get d ≡ ok value
    pub key : handler value ≡ ok (p.pk o)

  -- What is left of some values without just those that name one of the objects, in their order.
  pub data Left (objects : List O) : List D → List D → Type 0 where
    end : Left objects [] []
    named :
        (d : D) (o : O) {ds left : List D}
        → Memᴰ o objects
        → Names d o
        → Left objects ds left
        → Left objects (d ∷ ds) left
    nameless :
        (d : D) {ds left : List D}
        → ((o : O) → Memᴰ o objects → ¬ Names d o)
        → Left objects ds left
        → Left objects (d ∷ ds) (d ∷ left)

  pub record Found (r : Outcome E K) (objects : List O) : Type 0 where
    pub object : O
    pub is_there : Memᴰ object objects
    pub is_pk : r ≡ ok (p.pk object)

  is_listed-Found :
      (r : Outcome E K) (objects : List O)
      → is_listed p r (map p.pk objects) ≡ true
      → Found r objects
  is_listed-Found (raised e) objects h = cc
  is_listed-Found (ok key) [] h = cc
  is_listed-Found (ok key) (o ∷ os) h = elim (Bool-cases (k.is_same (p.pk o) key)) [
    | inl same ↦ record {
      object = o;
      is_there = Memᴰ.head refl;
      is_pk = ap ok (sym ((k.is_same_iff (p.pk o) key).0 same));
    }
    | inr other ↦
        let f = is_listed-Found (ok key) os (rw other at h) in
        record { object = f.object; is_there = Memᴰ.tail f.is_there; is_pk = f.is_pk }
  ]

  Found-is_listed :
      (o : O) (objects : List O)
      → Memᴰ o objects
      → is_listed p (ok (p.pk o)) (map p.pk objects) ≡ true
  Found-is_listed o [] m = elim m [ ]
  Found-is_listed o (x ∷ os) (Memᴰ.head e) =
      rw ((k.is_same_iff (p.pk x) (p.pk o)).1 (ap p.pk (sym e))) refl
  Found-is_listed o (x ∷ os) (Memᴰ.tail m) = ground (arith, Found-is_listed o os m)

  represented-Names : (d : D) (o : O) → represented p handler (p.get d) ≡ ok (p.pk o) → Names d o
  represented-Names d o h = go (p.get d) refl h
    where
      go :
          (r : Outcome E (Option V))
          → p.get d ≡ r
          → represented p handler r ≡ ok (p.pk o)
          → Names d o
      go (ok v) e h = record { value = v; got = e; key = h }
      go (raised x) e h = cc

  Names-represented : (d : D) (o : O) → Names d o → represented p handler (p.get d) ≡ ok (p.pk o)
  Names-represented d o n = rw n.got n.key

  -- The values that `is_not_created` lets through are those that are left.
  pub keep-Left :
      (objects : List O) (ds : List D)
      → Left objects ds (keep (is_not_created p handler (map p.pk objects)) ds)
  unfolding is_not_created
  keep-Left objects [] = end
  keep-Left objects (d ∷ ds) =
      let rest = keep-Left objects ds in
      elim (Bool-cases (is_listed p (represented p handler (p.get d)) (map p.pk objects))) [
        | inl listed ↦
            let f = is_listed-Found (represented p handler (p.get d)) objects listed in
            rw listed (named d f.object f.is_there (represented-Names d f.object f.is_pk) rest)
        | inr new ↦ rw new (
            nameless d
              (λ o m n.
                let h = Found-is_listed o objects m in
                let h' : is_listed p (represented p handler (p.get d)) (map p.pk objects) ≡ true =
                  rw (Names-represented d o n) h in
                cc)
              rest)
      ]
