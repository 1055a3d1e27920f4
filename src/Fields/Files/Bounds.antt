-- ===== src/Fields/Files/Bounds.antt =====
-- What a file that is accepted keeps to.
use vstutils.Base.{
  ℕ, ◌&&◌, ◌<◌, ◌≤◌, ◌≡◌, refl, sym, ap, Bool, true, false, if◌then◌else◌, ◌⊎◌, inl, inr, text_eq,
  text_beq_iff, All, [], ◌∷◌, Option, none, all, lookup, ltb, lt→ltb, arith, Bool-cases, some,
}
use vstutils.Base.Text.{Text, codes}
use vstutils.Fields.Files.Links.{before_ok, ok_injective, IsLink, should_not_handle-IsLink}
use vstutils.Fields.Files.Defs.{
  Value, File, Sent, object, no_object, invalid, Result, ok, fault, valid_keys, is_valid_key,
  has_value, validate_value, size_of, Field, should_not_handle, with_content, or_false, check_size,
  name_bound, check_sizes, run_validators, run_validation,
}

accepted : (r : Result Bool) → or_false r ≡ true → r ≡ ok true
accepted (ok b) h = ap ok h
accepted (fault e) h = cc

and_true : (a b : Bool) → (a && b) ≡ true → (a ≡ true) × (b ≡ true)
and_true true b h = (refl, h)
and_true false b h = cc

-- The object has just the three keys.
pub record HasKeys (file : File) : Type 0 where
  pub only :
      All (λ r. (r.0 ≡ codes "name") ⊎ ((r.0 ≡ codes "content") ⊎ (r.0 ≡ codes "mediaType"))) file
  pub name : (v : Value) × (lookup (codes "name") file ≡ some v)
  pub content : (v : Value) × (lookup (codes "content") file ≡ some v)
  pub media_type : (v : Value) × (lookup (codes "mediaType") file ≡ some v)

one_of_three :
    (k : Text)
    → is_valid_key k ≡ true
    → (k ≡ codes "name") ⊎ ((k ≡ codes "content") ⊎ (k ≡ codes "mediaType"))
one_of_three k h = ground (
  arith,
  text_beq_iff (codes "name") k,
  text_beq_iff (codes "content") k,
  text_beq_iff (codes "mediaType") k,
)

only_keys :
    (file : File)
    → all (λ r. is_valid_key r.0) file ≡ true
    → All (λ r. (r.0 ≡ codes "name") ⊎ ((r.0 ≡ codes "content") ⊎ (r.0 ≡ codes "mediaType"))) file
only_keys [] h = tt
only_keys (r ∷ file) h =
    let (a, b) = and_true (is_valid_key r.0) (all (λ r. is_valid_key r.0) file) h in
    (one_of_three r.0 a, only_keys file b)

value_at : (o : Option Value) → has_value o ≡ true → (v : Value) × (o ≡ some v)
value_at none h = cc
value_at (some v) h = (v, refl)

keys :
    (file : File)
    → all (λ r. is_valid_key r.0) file ≡ true
    → all (λ k. has_value (lookup k file)) valid_keys ≡ true
    → HasKeys file
keys file k m =
    let (a, rest) = and_true (has_value (lookup (codes "name") file)) _ m in
    let (b, last) = and_true (has_value (lookup (codes "content") file)) _ rest in
    let (c, end) = and_true (has_value (lookup (codes "mediaType") file)) _ last in
    record {
      only = only_keys file k;
      name = value_at (lookup (codes "name") file) a;
      content = value_at (lookup (codes "content") file) b;
      media_type = value_at (lookup (codes "mediaType") file) c;
    }

at_most : (bound n : ℕ) → ltb bound n ≡ false → n ≤ bound
at_most bound n h = ground arith

validate_value-HasKeys :
    (sent : Sent) (file : File)
    → validate_value sent ≡ ok file
    → (sent ≡ object file) × HasKeys file
unfolding validate_value
validate_value-HasKeys no_object file h = cc
validate_value-HasKeys (object g) file h = elim (Bool-cases (all (λ r. is_valid_key r.0) g)) [
  | inr k ↦ let f = rw k at h in cc
  | inl k ↦ elim (Bool-cases (all (λ k. has_value (lookup k g)) valid_keys)) [
    | inr m ↦ let f = rw (k, m) at h in cc
    | inl m ↦ let e = ok_injective g file (rw (k, m) at h) in (ap object e, rw e at (keys g k m))
  ]
]

module _ (f : Field) where
  -- The size of an entry, where there is a bound for it, is one that does not fail.
  check_size-ok :
      (key : Text) (bound : ℕ) (fails : ℕ → Bool) (file : File)
      → check_size f key bound fails file ≡ ok tt
      → 0 < bound
      → (n : ℕ) × (size_of key file ≡ ok n) × (fails n ≡ false)
  unfolding check_size
  check_size-ok key bound fails file h k =
      let (n, e, r) = before_ok (size_of key file) _ tt (rw (lt→ltb 0 bound k) at h) in
      (n, e, passes (fails n) r)
    where
      passes : (b : Bool) → (if b then fault invalid else ok tt) ≡ ok tt → b ≡ false
      passes true h = cc
      passes false h = refl

  -- The sizes are in their bounds, where there are such.
  pub record InBounds (file : File) : Type 0 where
    pub name :
        (most : ℕ)
        → f.file ≡ true
        → f.max_length ≡ some most
        → 0 < most
        → (n : ℕ) × (size_of (codes "name") file ≡ ok n) × (n ≤ most)
    pub max :
        0 < f.max_content_size
        → (n : ℕ) × (size_of (codes "content") file ≡ ok n) × (n ≤ f.max_content_size)
    pub min :
        0 < f.min_content_size
        → (n : ℕ) × (size_of (codes "content") file ≡ ok n) × (f.min_content_size ≤ n)

  check_sizes-InBounds : (file g : File) → check_sizes f file ≡ ok g → (file ≡ g) × InBounds file
  unfolding check_sizes
  check_sizes-InBounds file g h =
      let bound = name_bound f in
      let max = f.max_content_size in
      let min = f.min_content_size in
      let (a, ha, ka) =
        before_ok (check_size f (codes "name") bound (λ n. ltb bound n) file) _ g h in
      let (b, hb, kb) =
        before_ok (check_size f (codes "content") max (λ n. ltb max n) file) _ g ka in
      let (c, hc, kc) =
        before_ok (check_size f (codes "content") min (λ n. ltb n min) file) _ g kb in
      (
        ok_injective file g kc,
        record {
          name = λ most with_file bounded k.
              let same : bound ≡ most = rw (with_file, bounded) refl in
              let (n, e, r) =
                check_size-ok (codes "name") bound (λ n. ltb bound n) file ha (rw same k) in
              (n, e, rw (sym same) (at_most bound n r));
          max = λ k.
              let (n, e, r) = check_size-ok (codes "content") max (λ n. ltb max n) file hb k in
              (n, e, at_most max n r);
          min = λ k.
              let (n, e, r) = check_size-ok (codes "content") min (λ n. ltb n min) file hc k in
              (n, e, at_most n min r);
        },
      )

  run_validators-InBounds : (file g : File) → run_validators f file ≡ ok g → IsLink f g ⊎ InBounds g
  unfolding run_validators
  run_validators-InBounds file g h = elim (Bool-cases (or_false (should_not_handle f file))) [
    | inl e ↦
        let same = ok_injective file g (rw e at h) in
        inl (should_not_handle-IsLink f g (rw (sym same) (accepted (should_not_handle f file) e)))
    | inr e ↦
        let (v, hv, k) = before_ok (f.validators file) (check_sizes f) g (rw e at h) in
        let (same, bounds) = check_sizes-InBounds v g k in inr (rw (sym same) bounds)
  ]

  -- A value that is accepted, as far as it has no files to handle, was sent as an object with just the three
  -- keys. And then it either has no media type and a content that is a text, begins with a slash or with
  -- `http` and ends in its name as it is quoted in a URL (the sign of a file that there is already); or its name is no longer
  -- than `max_length`, in a field with a file that has one above 0, and its content, as the text in Base64
  -- that it is and not in bytes, is no longer than `max_content_size` and no shorter than
  -- `min_content_size`, where these are above 0. `min_length` bounds nothing.
  pub run_validation-InBounds :
      (sent : Sent) (g : File)
      → run_validation f sent ≡ ok g
      → ((file : File) × (sent ≡ object file) × HasKeys file) × (IsLink f g ⊎ InBounds g)
  unfolding run_validation
  run_validation-InBounds sent g h =
      let (file, hf, k) = before_ok (validate_value sent) _ g h in
      let (linked, hl, r) = before_ok (should_not_handle f file) _ g k in
      let (same, keys) = validate_value-HasKeys sent file hf in
      (
        (file, same, keys),
        run_validators-InBounds (if linked then file else with_content file (f.pre_handled file)) g
            r,
      )
