-- ===== src/Oauth/Session/Revoke.antt =====
-- vstutils/oauth2/authorization_server.py: the end of a session.
use vstutils.Base.{
  ◌≡◌, ℕ, refl, sym, ap, ◌∙◌, false, none, some, if◌then◌else◌, ◌==◌, text_eq, arith, lookup,
  Bool-cases, inl, inr, text_beq_iff,
}
use vstutils.Base.Text.{Text, codes}
use vstutils.Oauth.Session.{
  str, Claims, Jwt, Store, StoreLaws, Users, decode, session_of, get_user, revoke, refresh,
  revocation_endpoint,
}

module _ {T S U : Type 0} (jwt : Jwt T) (store : Store S U) (users : Users U) (issuer : Text)
    (store_laws : StoreLaws store) where
  session_of-jti :
      (c : Claims) (k : Text) (s : S)
      → lookup (codes "jti") c ≡ some (str k)
      → session_of jwt store users issuer c s ≡ (if store.exists k s then some k else none)
  unfolding session_of
  session_of-jti c k s h = rw (h, session_of) refl

  pub get_user-jti :
      (c : Claims) (k : Text) (s : S)
      → lookup (codes "jti") c ≡ some (str k)
      → get_user jwt store users issuer c s ≡ (if store.exists k s then store.user_of k s else none)
  unfolding get_user
  get_user-jti c k s h = elim (Bool-cases (store.exists k s)) [
    | inl e ↦ rw (session_of-jti c k s h, e, get_user) refl
    | inr e ↦ rw (session_of-jti c k s h, e, get_user) refl
  ]

  gone :
      (k j : Text) (s : S)
      → (if store.exists j (store.delete k s) then store.user_of j (store.delete k s) else none)
        ≡ (if k == j then none else if store.exists j s then store.user_of j s else none)
  gone k j s = elim (Bool-cases (k == j)) [
    | inl e ↦ ground (arith, e, store_laws.exists-delete k j s)
    | inr e ↦ ground (arith, e, store_laws.exists-delete k j s, store_laws.user_of-delete k j s e)
  ]

  never :
      (k j : Text) (s : S)
      → store.exists k s ≡ false
      → (if store.exists j s then store.user_of j s else none)
        ≡ (if k == j then none else if store.exists j s then store.user_of j s else none)
  never k j s h = elim (Bool-cases (k == j)) [
    | inl e ↦ rw (e, ap (λ i. store.exists i s) (sym ((text_beq_iff k j).0 e)) ∙ h) refl
    | inr e ↦ rw e refl
  ]

  get_user-revoke :
      (c d : Claims) (k j : Text) (s : S)
      → lookup (codes "jti") c ≡ some (str k)
      → lookup (codes "jti") d ≡ some (str j)
      → get_user jwt store users issuer d (revoke jwt store users issuer c s)
        ≡ (if k == j then none else get_user jwt store users issuer d s)
  unfolding revoke
  get_user-revoke c d k j s ek ej =
      rw (get_user-jti d j s ej, session_of-jti c k s ek, revoke)
        (elim (Bool-cases (store.exists k s)) [
          | inl e ↦ rw e (rw (get_user-jti d j (store.delete k s) ej) (gone k j s))
          | inr e ↦ rw e (rw (get_user-jti d j s ej) (never k j s e))
        ])

  -- Revoking a refresh token takes the session from every token with the same `jti`, and leaves all
  -- other tokens with the users that they had.
  pub refresh-revocation_endpoint :
      (now later : ℕ) (revoked other : T) (c d : Claims) (k j : Text) (s : S)
      → decode jwt store users issuer now revoked ≡ some c
      → lookup (codes "jti") c ≡ some (str k)
      → decode jwt store users issuer later other ≡ some d
      → lookup (codes "jti") d ≡ some (str j)
      → refresh jwt store users issuer later other
          (revocation_endpoint jwt store users issuer now revoked s)
        ≡ (if k == j then none else refresh jwt store users issuer later other s)
  unfolding refresh revocation_endpoint
  refresh-revocation_endpoint now later revoked other c d k j s ec ek ed ej =
      rw (ec, ed, revocation_endpoint) (get_user-revoke c d k j s ek ej)
