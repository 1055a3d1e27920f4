-- ===== src/Fields/Files/Links.antt =====
-- vstutils/api/fields.py: which files `should_not_handle` takes for links to files that there are already.
use vstutils.Base.{
  ◌≢◌, ◌&&◌, ◌||◌, ◌∙◌, Option-cases, ◌≡◌, refl, ap, Bool, true, false, if◌then◌else◌, ◌⊎◌, inl,
  inr, text_eq, lookup, some,
}
use vstutils.Base.Text.{Text, codes, starts_with}
use vstutils.Fields.Files.Defs.{
  Value, text, other, crash, item, as_text, is_true, ends_with, is_link, is_linked, File, Result,
  ok, fault, ◌>>=◌, Field, should_not_handle,
}

-- What went before a step that gave a result
pub before_ok :
    {A B : Type 0} (r : Result A) (k : A → Result B) (b : B)
    → (r >>= k) ≡ ok b
    → (a : A) × (r ≡ ok a) × (k a ≡ ok b)
before_ok (ok a) k b h = (a, refl, h)
before_ok (fault e) k b h = cc

pub ok_injective : {A : Type 0} (a b : A) → ok a ≡ ok b → a ≡ b
ok_injective a b h = cc

crash-ne : {A : Type 0} (v : A) → fault crash ≢ ok v
crash-ne v h = cc

item-lookup :
    (key : Text) (file : File) (v : Value) → item key file ≡ ok v → lookup key file ≡ some v
item-lookup key file v h = elim (Option-cases (lookup key file)) [
  | inl e ↦ let h' = (rw (e, item) at h) in absurd (crash-ne v h')
  | inr (w, e) ↦ e ∙ ap some (ok_injective w v (rw (e, item) at h))
]

as_text-text : (v : Value) (t : Text) → as_text v ≡ ok t → v ≡ text t
as_text-text (text s) t h = ap text (ok_injective s t h)
as_text-text (other b size) t h = cc

untyped_then :
    (b : Bool) (r : Result Bool)
    → (if b then ok false else r) ≡ ok true
    → (b ≡ false) × (r ≡ ok true)
untyped_then true r h = cc
untyped_then false r h = (refl, h)

rooted_then :
    (a b : Bool) (r : Result Bool)
    → (if a || b then r else ok false) ≡ ok true
    → ((a ≡ true) ⊎ (b ≡ true)) × (r ≡ ok true)
rooted_then true b r h = (inl refl, h)
rooted_then false true r h = (inr refl, h)
rooted_then false false r h = cc

and-second : (a b : Bool) → (a && b) ≡ true → b ≡ true
and-second true b h = h
and-second false b h = cc

module _ (f : Field) where
  -- No media type, and a content that is a path or an address and ends in the name
  pub record IsLink (file : File) : Type 0 where
    pub media : Value
    pub media_at : lookup (codes "mediaType") file ≡ some media
    pub untyped : is_true media ≡ false
    pub content : Text
    pub content_at : lookup (codes "content") file ≡ some (text content)
    pub rooted :
        (starts_with content (codes "/") ≡ true) ⊎ (starts_with content (codes "http") ≡ true)
    pub name : Text
    pub name_at : lookup (codes "name") file ≡ some (text name)
    pub ends : ends_with content (f.quote name) ≡ true

  pub should_not_handle-IsLink : (file : File) → should_not_handle f file ≡ ok true → IsLink file
  unfolding should_not_handle is_linked
  should_not_handle-IsLink file h =
      let (media, hm, km) = before_ok (item (codes "mediaType") file) _ true h in
      let (untyped, kl) = untyped_then (is_true media) (is_linked f file) km in
      let (c, hc, kc) = before_ok (item (codes "content") file) _ true kl in
      let (content, ht, kt) = before_ok (as_text c) _ true kc in
      let (rooted, kr) = rooted_then (starts_with content (codes "/")) _ _ kt in
      let (n, hn, kn) = before_ok (item (codes "name") file) _ true kr in
      let (name, hs, ks) = before_ok (as_text n) _ true kn in
      record {
        media = media;
        media_at = item-lookup (codes "mediaType") file media hm;
        untyped = untyped;
        content = content;
        content_at = item-lookup (codes "content") file c hc ∙ ap some (as_text-text c content ht);
        rooted = rooted;
        name = name;
        name_at = item-lookup (codes "name") file n hn ∙ ap some (as_text-text n name hs);
        ends = and-second _ _ (ok_injective (is_link f content name) true ks);
      }
