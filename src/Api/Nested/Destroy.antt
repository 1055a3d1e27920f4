-- ===== src/Api/Nested/Destroy.antt =====
-- Removing an object through a nested view.
use vstutils.Base.{
  ◌≡◌, sym, ap, ◌∙◌, ◌↔◌, Bool, true, false, not, ◌||◌, List, [], ◌∷◌, Option, text_eq, Eq, inl,
  inr, Bool-cases,
}
use vstutils.Base.Text.{Text}
use vstutils.Api.Run.{ok, ◌>>◌, before_ok, ok_injective}
use vstutils.Api.Nested.Defs.{Parts, purge_nested, perform_destroy}

-- What removing and deleting do, if they end well, to the objects that are linked to the parent and to
-- those that there are; to notify changes neither.
pub record Laws {S E D V O K R : Type 0} (p : Parts S E D V O K R) (Linked Exists : S → O → Type 0)
    : Type 0 where
  pub removed :
      (o : O) (s s' : S) → p.remove o s ≡ (ok tt, s') → ¬ Linked s' o × (Exists s o → Exists s' o)
  pub deleted : (o : O) (s s' : S) → p.delete o s ≡ (ok tt, s') → ¬ Linked s' o × ¬ Exists s' o
  pub notified : (os : List O) (s : S) → (p.notify_clients os s).1 ≡ s
  pub notified_parent : (s : S) → (p.notify_parent s).1 ≡ s

module _ {S E D V O K R : Type 0} ⦃k : Eq K⦄ (p : Parts S E D V O K R)
    (Linked Exists : S → O → Type 0) (laws : Laws p Linked Exists) where
  unlinked :
      (o : O) (s s' : S)
      → (p.remove o >> (p.notify_clients (o ∷ []) >> p.notify_parent)) s ≡ (ok tt, s')
      → ¬ Linked s' o × (Exists s o → Exists s' o)
  unlinked o s s' h =
      let (u, t, h1, k1) = before_ok (p.remove o s) _ tt s' h in
      let (v, t1, h2, k2) = before_ok (p.notify_clients (o ∷ []) t) _ tt s' k1 in
      let e1 = ap (λ r. r.1) (sym h2) ∙ laws.notified (o ∷ []) t in
      let e2 = ap (λ r. r.1) (sym k2) ∙ laws.notified_parent t1 in
      rw (e2, e1) (laws.removed o s t h1)

  -- Where the laws hold, and removing an object through a nested view ends well: it is linked to the
  -- parent no more; and it is deleted just if the view does not append or the header X-Purge-Nested says
  -- so, and else there is it still.
  pub perform_destroy_lem :
      (allow_append : Bool) (header : Option Text) (o : O) (s s' : S)
      → Exists s o
      → perform_destroy p allow_append header o s ≡ (ok tt, s')
      → ¬ Linked s' o × ((Exists s' o) ↔ ((not allow_append || purge_nested p header) ≡ false))
  unfolding perform_destroy
  perform_destroy_lem false header o s s' x h =
      let (apart, gone) = laws.deleted o s s' h in (apart, (λ e. absurd (gone e), λ e. cc))
  perform_destroy_lem true header o s s' x h =
      let removal = p.remove o >> (p.notify_clients (o ∷ []) >> p.notify_parent) in
      let (u, t, h1, k1) = before_ok (removal s) _ tt s' h in
      let (apart, stays) = unlinked o s t h1 in
      elim (Bool-cases (purge_nested p header)) [
        | inl purge ↦
            let (apart, gone) = laws.deleted o t s' (rw purge at k1) in
            (apart, (λ e. absurd (gone e), λ e. cc))
        | inr keep ↦
            let (e, same) = ok_injective tt tt t s' (rw keep at k1) in
            rw (sym same) (apart, (λ e. keep, λ e. stays x))
      ]
