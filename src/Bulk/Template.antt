-- ===== src/Bulk/Template.antt =====
-- vstutils/api/endpoint.py: `FormatDataFieldMixin`, `TemplateStringField`, `RequestDataField`,
-- `MethodChoicesField` and `PathField`. `str.format` (with the results and variables of the request),
-- `orjson.loads`, `str` of a JSON value and the base class's `to_internal_value` are parameters.
use vstutils.Base.{
  ◌≡◌, refl, Bool, true, not, ◌&&◌, List, [], ◌∷◌, Option, none, some, arith, if◌then◌else◌, map,
  any, ◌==◌, text_eq,
}
use vstutils.Base.Text.{Text, codes, contains, has_char, replace_pair, upper}
use vstutils.Bulk.Value.{
  Value, null, bool, num, str, arr, obj, Items, nil, cons, Fields, end, field, items, keys,
}
use vstutils.Bulk.Paths.{join_paths}
pub use vstutils.Base.{◌>>=◌}

-- `format` gives `none` when it raises; `loads` too, which `raise_context` then swallows.
pub record Formatter : Type 0 where
  pub format : Text → Option Text
  pub loads : Text → Option Value
  pub to_str : Value → Text
  pub char_field : Value → Option Text

-- The test of `FormatDataFieldMixin.to_internal_value`; a bulk context always has 'results'.
unfoldable pub is_template : Text → Bool
unfolding contains has_char
is_template s =
    contains s (codes "<<") && (contains s (codes ">>") && not (has_char b'{' s && has_char b'}' s))

abbrev or_text : Text → Option Value → Value
or_text s none = str s
or_text s (some v) = v

module _ (f : Formatter) where
  -- `FormatDataFieldMixin.to_internal_value`, on a result of the base class that is a text
  unfoldable pub render : Text → Option Value
  render s =
      if is_template s
      then (do
        t ← f.format (replace_pair b'>' b'>' (b'}' ∷ []) (replace_pair b'<' b'<' (b'{' ∷ []) s))
        some (or_text t (f.loads t)))
      else some (str s)

  -- `TemplateStringField`
  unfoldable pub template_field : Value → Option Value
  template_field v = do s ← f.char_field v; render s

  -- The key of a rebuilt object; `str` of what a key's template gives.
  abbrev render_key : Text → Option Text
  render_key k = do v ← render k; some (f.to_str v)

  -- `RequestDataField`: every text inside the data is rendered, the keys of its objects too.
  unfoldable mutual
    pub fill : Value → Option Value
    fill (str s) = render s
    fill (arr xs) = do ys ← fill_items xs; some (arr ys)
    fill (obj fs) = do gs ← fill_fields fs; some (obj gs)
    fill null = some null
    fill (bool b) = some (bool b)
    fill (num n) = some (num n)

    pub fill_items : Items → Option Items
    fill_items nil = some nil
    fill_items (cons v vs) = do w ← fill v; ws ← fill_items vs; some (cons w ws)

    pub fill_fields : Fields → Option Fields
    fill_fields end = some end
    fill_fields (field k v fs) = do
      j ← render_key k
      w ← fill v
      gs ← fill_fields fs
      some (field j w gs)

  -- What a path may be given as: one text, a list, or the keys of an object.
  fragments : Value → Option (List Value)
  fragments (str s) = some (str s ∷ [])
  fragments (arr xs) = some (items xs)
  fragments (obj fs) = some (map str (keys fs))
  fragments _ = none

  render_all : List Value → Option (List Text)
  unfolding template_field
  render_all [] = some []
  render_all (v ∷ vs) = do w ← template_field v; ws ← render_all vs; some (f.to_str w ∷ ws)

  -- `PathField`
  unfoldable pub path_field : Value → Option Text
  unfolding fragments render_all
  path_field v = do vs ← fragments v; ts ← render_all vs; some (join_paths ts)

  -- `MethodChoicesField`; the choices are `REST_METHODS`.
  unfoldable pub method_field : List Text → Value → Option Text
  method_field choices v =
      let m = upper (f.to_str v) in if any (λ c. c == m) choices then some m else none

-- No text of the value is a template.
unfoldable mutual
  pub is_plain : Value → Bool
  is_plain (str s) = not (is_template s)
  is_plain (arr xs) = is_plain_items xs
  is_plain (obj fs) = is_plain_fields fs
  is_plain null = true
  is_plain (bool b) = true
  is_plain (num n) = true

  pub is_plain_items : Items → Bool
  is_plain_items nil = true
  is_plain_items (cons v vs) = is_plain v && is_plain_items vs

  pub is_plain_fields : Fields → Bool
  is_plain_fields end = true
  is_plain_fields (field k v fs) = not (is_template k) && (is_plain v && is_plain_fields fs)

module _ (f : Formatter) (to_str-str : (s : Text) → f.to_str (str s) ≡ s) where
  render_plain : (s : Text) → not (is_template s) ≡ true → render f s ≡ some (str s)
  unfolding render
  render_plain s h = ground arith

  mutual
    unfolding fill is_plain

    fill_plain : (v : Value) → is_plain v ≡ true → fill f v ≡ some v
    fill_plain (str s) h = render_plain s h
    fill_plain (arr xs) h = rw (fill_items_plain xs h)
    fill_plain (obj fs) h = rw (fill_fields_plain fs h)
    fill_plain null h = refl
    fill_plain (bool b) h = refl
    fill_plain (num n) h = refl

    fill_items_plain : (xs : Items) → is_plain_items xs ≡ true → fill_items f xs ≡ some xs
    fill_items_plain nil h = refl
    fill_items_plain (cons v vs) h =
        rw (fill_plain v (ground arith)) (rw (fill_items_plain vs (ground arith)))

    fill_fields_plain : (fs : Fields) → is_plain_fields fs ≡ true → fill_fields f fs ≡ some fs
    fill_fields_plain end h = refl
    fill_fields_plain (field k v fs) h = rw (render_plain k (ground arith)) (
        rw (to_str-str k)
          (rw (fill_plain v (ground arith)) (rw (fill_fields_plain fs (ground arith)))))

  -- Data in which no text and no key is a template comes through unchanged, whatever the results and
  -- variables of the request are.
  pub fill-of_plain : (v : Value) → is_plain v ≡ true → fill f v ≡ some v
  fill-of_plain v h = fill_plain v h
