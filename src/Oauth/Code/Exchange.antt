-- ===== src/Oauth/Code/Exchange.antt =====
-- vstutils/oauth2/authorization_code.py: a code from its issue to its exchange.
use vstutils.Base.{
  ◌≡◌, ℕ, ◌+◌, ◌≤◌, ◌++◌, refl, true, false, ◌&&◌, [], ◌∷◌, none, some, if◌then◌else◌, ◌==◌,
  text_eq, text_beq, ltb, arith, Bool-cases, inl, inr,
}
use vstutils.Base.Text.{Text, has_char}
use vstutils.Oauth.Code.{
  AuthorizationCode, auth_code_ttl, CodeCache, CacheLaws, get_cache_key, is_expired, unexpired,
  query, save, delete, query_authorization_code,
}

dash_beq :
    (a b c d : Text)
    → has_char b'-' a ≡ false
    → has_char b'-' b ≡ false
    → text_beq (a ++ b'-' ∷ c) (b ++ b'-' ∷ d) ≡ (text_beq a b && text_beq c d)
unfolding has_char
dash_beq [] [] c d h k = refl
dash_beq [] (y ∷ b) c d h k = ground (arith, h, k)
dash_beq (x ∷ a) [] c d h k = ground (arith, h, k)
dash_beq (x ∷ a) (y ∷ b) c d h k = ground (arith, h, k, dash_beq a b c d)

get_cache_key-beq :
    (a b c d : Text)
    → has_char b'-' a ≡ false
    → has_char b'-' b ≡ false
    → (get_cache_key a c == get_cache_key b d) ≡ ((a == b) && (c == d))
unfolding get_cache_key
get_cache_key-beq a b c d h k = dash_beq a b c d h k

unexpired-fresh :
    (later : ℕ) (c : AuthorizationCode)
    → ltb later (c.auth_time + auth_code_ttl) ≡ true
    → unexpired later (some c) ≡ some c
unfolding unexpired is_expired
unexpired-fresh later c h = ground (arith, h)

module _ {C : Type 0} (cache : CodeCache C) (laws : CacheLaws cache) where
  -- A code that is saved is found by its client until 300 seconds are over, and not afterwards; what
  -- other codes and clients find stays the same. Codes have no dash in them.
  pub query_authorization_code-save :
      (later : ℕ) (c : AuthorizationCode) (code client_id : Text) (s : C)
      → c.auth_time ≤ later
      → has_char b'-' c.code ≡ false
      → has_char b'-' code ≡ false
      → query_authorization_code cache later code client_id (save cache c.auth_time c s) ≡ (
          if (c.code == code) && (c.client_id == client_id)
          then if ltb later (c.auth_time + auth_code_ttl) then some c else none
          else query_authorization_code cache later code client_id s)
  unfolding query_authorization_code query save unexpired
  query_authorization_code-save later c code client_id s h d e =
      let stored =
        laws.get-set c.auth_time later (get_cache_key c.code c.client_id)
          (get_cache_key code client_id) c auth_code_ttl s h in
      elim (Bool-cases ((c.code == code) && (c.client_id == client_id))) [
        | inl m ↦ elim (Bool-cases (ltb later (c.auth_time + auth_code_ttl))) [
          | inl t ↦
              rw (stored, get_cache_key-beq c.code code c.client_id client_id d e, m, t)
                (unexpired-fresh later c t)
          | inr t ↦ rw (stored, get_cache_key-beq c.code code c.client_id client_id d e, m, t) refl
        ]
        | inr m ↦ rw (stored, get_cache_key-beq c.code code c.client_id client_id d e, m) refl
      ]

  -- A code that is deleted, as it is after its exchange, is found no more, at whatever time; what other
  -- codes and clients find stays the same.
  pub query_authorization_code-delete :
      (now : ℕ) (c : AuthorizationCode) (code client_id : Text) (s : C)
      → has_char b'-' c.code ≡ false
      → has_char b'-' code ≡ false
      → query_authorization_code cache now code client_id (delete cache c s) ≡ (
          if (c.code == code) && (c.client_id == client_id)
          then none
          else query_authorization_code cache now code client_id s)
  unfolding query_authorization_code query delete unexpired
  query_authorization_code-delete now c code client_id s d e =
      let removed =
        laws.get-delete now (get_cache_key c.code c.client_id) (get_cache_key code client_id) s in
      elim (Bool-cases ((c.code == code) && (c.client_id == client_id))) [
        | inl m ↦ rw (removed, get_cache_key-beq c.code code c.client_id client_id d e, m) refl
        | inr m ↦ rw (removed, get_cache_key-beq c.code code c.client_id client_id d e, m) refl
      ]
