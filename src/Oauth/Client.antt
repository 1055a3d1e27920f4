-- ===== src/Oauth/Client.antt =====
-- vstutils/oauth2/client.py, and `same_origin_client_secret_post` of
-- vstutils/oauth2/authorization_server.py.
use mathlib.Core.Path.{subst}
use vstutils.Base.{
  ◌≡◌, ap, sym, ◌∙◌, ◌⊎◌, inl, inr, refl, Bool, true, false, ◌&&◌, ◌||◌, List, [], ◌∷◌, Option,
  none, some, if◌then◌else◌, ◌==◌, text_eq, any, arith, text_beq_iff, Assoc, lookup, Bool-cases,
  Option-cases,
}
use vstutils.Base.Text.{Text, codes}

pub record SimpleClient : Type 0 where
  pub id : Text
  pub allowed_grant_types : List Text
  pub secret : Option Text
  pub allowed_redirect_uris : List Text
  pub allowed_response_types : List Text
  pub token_endpoint_auth_methods : List Text
  pub default_redirect_uri : Option Text

-- An entry of `OAUTH_SERVER_CLIENTS`, with what it leaves out.
pub record ClientData : Type 0 where
  pub allowed_grant_types : List Text
  pub secret : Option Text
  pub allowed_redirect_uris : Option (List Text)
  pub allowed_response_types : Option (List Text)
  pub token_endpoint_auth_methods : Option (List Text)
  pub default_redirect_uri : Option Text

abbrev or_empty : Option (List Text) → List Text
or_empty none = []
or_empty (some l) = l

abbrev is_one_of : Text → List Text → Bool
is_one_of t l = any (λ s. s == t) l

abbrev same_secret : Option Text → Option Text → Bool
same_secret none none = true
same_secret (some s) (some t) = s == t
same_secret _ _ = false

-- `not client_secret`
abbrev is_blank : Option Text → Bool
is_blank none = true
is_blank (some []) = true
is_blank (some (c ∷ s)) = false

abbrev is_none : Option Text → Bool
is_none none = true
is_none (some s) = false

unfoldable pub check_client_secret : SimpleClient → Option Text → Bool
check_client_secret c given = same_secret c.secret given || (is_none c.secret && is_blank given)

unfoldable pub check_endpoint_auth_method : SimpleClient → (method endpoint : Text) → Bool
check_endpoint_auth_method c method endpoint =
    if endpoint == codes "token" then is_one_of method c.token_endpoint_auth_methods else true

unfoldable pub check_grant_type : SimpleClient → Text → Bool
check_grant_type c t = is_one_of t c.allowed_grant_types

unfoldable pub check_redirect_uri : SimpleClient → Text → Bool
check_redirect_uri c uri = is_one_of uri c.allowed_redirect_uris

unfoldable pub check_response_type : SimpleClient → Text → Bool
check_response_type c t = is_one_of t c.allowed_response_types

-- Over `OAUTH_SERVER_CLIENTS`
unfoldable pub query_simple_client : Assoc Text ClientData → Text → Option SimpleClient
query_simple_client clients id = elim (lookup id clients) [
  | none ↦ none
  | some d ↦ some (record {
    id = id;
    allowed_grant_types = d.allowed_grant_types;
    secret = d.secret;
    allowed_redirect_uris = or_empty d.allowed_redirect_uris;
    allowed_response_types = or_empty d.allowed_response_types;
    token_endpoint_auth_methods = or_empty d.token_endpoint_auth_methods;
    default_redirect_uri = d.default_redirect_uri;
  })
]

-- What a client authentication ends with: an `InvalidClientError`, no client, or one.
pub data Answer : Type 0 where
  invalid_client : Answer
  no_client : Answer
  found : SimpleClient → Answer

-- The headers and the form of the request; `basic` is what `extract_basic_authorization` reads.
pub record Post : Type 0 where
  pub fetch_site : Option Text
  pub form : Assoc Text Text
  pub basic : Option Text × Option Text

-- `data`, as the client's name and secret
abbrev pub credentials : Post → Option Text × Option Text
credentials p = elim (lookup (codes "client_id") p.form) [
  | some id ↦ (some id, lookup (codes "client_secret") p.form)
  | none ↦ p.basic
]

unfoldable pub check_found : Option SimpleClient → Option Text → Answer
unfolding check_client_secret
check_found none secret = invalid_client
check_found (some c) secret = if check_client_secret c secret then found c else no_client

unfoldable pub check_named : Assoc Text ClientData → Option Text → Option Text → Answer
unfolding query_simple_client check_found
check_named clients none secret = no_client
check_named clients (some []) secret = no_client
check_named clients (some (c ∷ s)) secret = check_found (query_simple_client clients (c ∷ s)) secret

unfoldable pub same_origin_client_secret_post : Assoc Text ClientData → Post → Answer
unfolding check_named
same_origin_client_secret_post clients p = elim p.fetch_site [
  | none ↦ no_client
  | some site ↦
      if site == codes "same-origin"
      then check_named clients (credentials p).0 (credentials p).1
      else no_client
]

-- The secret is the client's, or blank where it has none.
abbrev pub IsRight : SimpleClient → Option Text → Type 0
IsRight c given = (given ≡ c.secret) ⊎ ((c.secret ≡ none) × (given ≡ some []))

accepted :
    (own given : Option Text)
    → (same_secret own given || (is_none own && is_blank given)) ≡ true
    → (given ≡ own) ⊎ ((own ≡ none) × (given ≡ some []))
accepted none none h = inl refl
accepted none (some []) h = inr (refl, refl)
accepted none (some (c ∷ s)) h = ground arith
accepted (some s) none h = ground arith
accepted (some s) (some t) h = inl (ap some (sym ((text_beq_iff s t).0 (ground (arith, h)))))

query_simple_client-id :
    (clients : Assoc Text ClientData) (id : Text) (c : SimpleClient)
    → query_simple_client clients id ≡ some c
    → c.id ≡ id
unfolding query_simple_client
query_simple_client-id clients id c h = elim (Option-cases (lookup id clients)) [
  | inl e ↦ ground (arith, e, h)
  | inr (d, e) ↦ ground (arith, e, h)
]

check_found_sound :
    (o : Option SimpleClient) (secret : Option Text) (c : SimpleClient)
    → check_found o secret ≡ found c
    → (o ≡ some c) × IsRight c secret
unfolding check_found check_client_secret
check_found_sound none secret c h = ground arith
check_found_sound (some d) secret c h = elim (Bool-cases (check_client_secret d secret)) [
  | inl e ↦
      let same : d ≡ c = ground (arith, e, h) in
      (ap some same, subst (λ x. IsRight x secret) same (accepted d.secret secret e))
  | inr e ↦ ground (arith, e, h)
]

check_named_sound :
    (clients : Assoc Text ClientData) (id secret : Option Text) (c : SimpleClient)
    → check_named clients id secret ≡ found c
    → (id ≡ some c.id) × (query_simple_client clients c.id ≡ some c) × IsRight c secret
unfolding check_named
check_named_sound clients none secret c h = ground arith
check_named_sound clients (some []) secret c h = ground arith
check_named_sound clients (some (b ∷ s)) secret c h =
    let (known, right) = check_found_sound (query_simple_client clients (b ∷ s)) secret c h in
    let name = query_simple_client-id clients (b ∷ s) c known in
    (
      ap some (sym name),
      subst (λ i. query_simple_client clients i ≡ some c) (sym name) known,
      right,
    )

-- A client is found only in a request from the server's own origin; it is the one that the settings
-- have under the name given, and the secret given is the client's, or blank where it has none.
pub same_origin_client_secret_post_sound :
    (clients : Assoc Text ClientData) (p : Post) (c : SimpleClient)
    → same_origin_client_secret_post clients p ≡ found c
    → (p.fetch_site ≡ some (codes "same-origin"))
      × ((credentials p).0 ≡ some c.id)
      × (query_simple_client clients c.id ≡ some c)
      × IsRight c (credentials p).1
unfolding same_origin_client_secret_post
same_origin_client_secret_post_sound clients p c h = elim (Option-cases p.fetch_site) [
  | inl e ↦ ground (arith, e, h)
  | inr (site, e) ↦ elim (Bool-cases (site == codes "same-origin")) [
    | inl o ↦
        let named : check_named clients (credentials p).0 (credentials p).1 ≡ found c =
          ground (arith, e, o, h) in
        let (name, known, right) =
          check_named_sound clients (credentials p).0 (credentials p).1 c named in
        (e ∙ ap some ((text_beq_iff site (codes "same-origin")).0 o), name, known, right)
    | inr o ↦ ground (arith, e, o, h)
  ]
]
