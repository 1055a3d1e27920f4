-- ===== src/Filters/Negated.antt =====
-- What a filter with "__not" keeps, beside the filter without it.
use vstutils.Base.{
  ℕ, ◌≡◌, refl, ap, Bool, true, false, not, ◌&&◌, ◌||◌, List, [], ◌∷◌, ◌++◌, Option, none, some,
  ◌==◌, text_eq, keep, keep-ext, Bool-cases, inl, inr, text_beq_iff,
}
use mathlib.Core.List.{append-nil}
use vstutils.Base.Text.{Text, codes, upper, upper_char}
use vstutils.Filters.Defs.{
  Value, rsplit, is_not, value_of, extra_query_search, extra_search, Handler, field_and_suffix,
  pk_value, list_of_q, call, name_filter_method,
}

abbrev suffix : Text
suffix = codes "__not"

-- The last "__" is that of the suffix.
pub rsplit-suffix : (field : Text) → rsplit (field ++ suffix) ≡ some (field, codes "not")
unfolding rsplit
rsplit-suffix [] = refl
rsplit-suffix (c ∷ []) = refl
rsplit-suffix (c ∷ d ∷ field) = rw (rsplit-suffix (d ∷ field)) refl

pub query-suffix :
    (field value stype : Text)
    → extra_query_search (field ++ suffix) value stype ≡ record {
      lookup = field ++ codes "__" ++ stype;
      value = value_of stype value;
      negate = true;
    }
unfolding extra_query_search upper upper_char
query-suffix field value stype = rw (rsplit-suffix field) refl

pub query_plain :
    (field value stype : Text)
    → is_not (rsplit field) ≡ false
    → extra_query_search field value stype ≡ record {
      lookup = field ++ codes "__" ++ stype;
      value = value_of stype value;
      negate = false;
    }
unfolding extra_query_search
query_plain field value stype h = rw h refl

field_and_suffix-plain :
    (field : Text) (o : Option (Text × Text))
    → is_not o ≡ false
    → field_and_suffix field o ≡ (field, [])
unfolding upper upper_char
field_and_suffix-plain field none h = refl
field_and_suffix-plain field (some (name, tp)) h = elim (Bool-cases (tp == codes "not")) [
  | inl e ↦ let f = rw ((text_beq_iff tp (codes "not")).0 e) at h in cc
  | inr e ↦ rw e refl
]

either_not : (a b : Bool) → (not a || not b) ≡ not (a && b)
either_not true b = refl
either_not false b = refl

module _ {R : Type 0} (matches : Text → Value → R → Bool) where
  -- A filter by key or by name on a field that does not end in "__not" itself keeps just the rows whose
  -- lookup succeeds; with "__not" behind the field it keeps just the others, in either case.
  pub extra_search_lem :
      (queryset : List R) (field value stype : Text)
      → is_not (rsplit field) ≡ false
      → (extra_search matches queryset field value stype
          ≡ keep (λ r. matches (field ++ codes "__" ++ stype) (value_of stype value) r) queryset)
        × (extra_search matches queryset (field ++ suffix) value stype
            ≡ keep
                (λ r. not (matches (field ++ codes "__" ++ stype) (value_of stype value) r))
                queryset)
  unfolding extra_search
  extra_search_lem queryset field value stype h =
      (rw (query_plain field value stype h) refl, rw (query-suffix field value stype) refl)

  -- The object of the row has one of the keys that the value is, or "0" where it is none.
  abbrev pub has_key :
      (p : ℕ) → (pk : Text) → (Text → Option Text) → (field value : Text) → R → Bool
  has_key p pk handler field value r =
      matches (field ++ codes "__" ++ (p ∷ pk) ++ codes "__" ++ codes "in")
        (value_of (codes "in") (pk_value (handler value))) r

  -- The name of the object of the row has the text.
  abbrev pub has_name :
      (n : ℕ) → (name : Text) → (case_sensitive : Bool) → (field value : Text) → R → Bool
  has_name n name case_sensitive field value r =
      let method = name_filter_method case_sensitive in
      matches (field ++ codes "__" ++ (n ∷ name) ++ codes "__" ++ method) (value_of method value) r

  -- For a handler with both names, on a field that does not end in "__not" itself: the rows are kept whose
  -- object has one of the keys, or has the text in its name. With "__not" behind the field all rows are
  -- kept but those whose object has both.
  pub call_lem :
      (p n : ℕ) (pk name : Text) (handler : Text → Option Text) (case_sensitive : Bool)
      (queryset : List R) (field value : Text)
      → is_not (rsplit field) ≡ false
      → is_not (rsplit (field ++ codes "__" ++ (p ∷ pk))) ≡ false
      → is_not (rsplit (field ++ codes "__" ++ (n ∷ name))) ≡ false
      → let h : Handler = record {
        related_pk = p ∷ pk;
        related_name = n ∷ name;
        pk_handler = handler;
      } in
        let has_key : R → Bool = has_key p pk handler field value in
        let has_name : R → Bool = has_name n name case_sensitive field value in
        (call matches h case_sensitive queryset field value
          ≡ some (keep (λ r. has_key r || has_name r) queryset))
        × (call matches h case_sensitive queryset (field ++ suffix) value
            ≡ some (keep (λ r. not (has_key r && has_name r)) queryset))
  unfolding call list_of_q
  call_lem p n pk name handler case_sensitive queryset field value hf hp hn =
      let in_pk = field ++ codes "__" ++ (p ∷ pk) in
      let in_name = field ++ codes "__" ++ (n ∷ name) in
      (
        rw
            (
              field_and_suffix-plain field (rsplit field) hf,
              append-nil in_pk,
              append-nil in_name,
              query_plain in_pk (pk_value (handler value)) (codes "in") hp,
              query_plain in_name value (name_filter_method case_sensitive) hn,
            )
            refl,
        rw
            (
              rsplit-suffix field,
              query-suffix in_pk (pk_value (handler value)) (codes "in"),
              query-suffix in_name value (name_filter_method case_sensitive),
            )
            (ap some (
              keep-ext _ _ queryset λ r.
                either_not (has_key p pk handler field value r)
                  (has_name n name case_sensitive field value r))),
      )
