-- ===== src/Users/TwoFactor.antt =====
-- vstutils/api/models.py: `TwoFactor.verify`; vstutils/api/auth.py: `TwoFASerializer` and the view
-- `twofa`. The time-based codes are those of pyotp, a parameter.
use vstutils.Base.{
  ℕ, ◌≡◌, ◌≢◌, ◌≤◌, refl, Bool, true, false, not, ◌&&◌, zero, suc, List, [], ◌∷◌, Option, none,
  some, if◌then◌else◌, ◌==◌, text_eq, text_beq_iff, any, keep, take, length, All, arith, ap, ◌∙◌,
}
use vstutils.Base.Text.{Text, join}
use vstutils.Base.Split.{split, Lacks, split-join}

-- The row, and the keys of its recovery codes.
pub record TwoFactor : Type 0 where
  pub secret : Text
  pub recovery : List Text

abbrev pub is_nonempty : Text → Bool
is_nonempty [] = false
is_nonempty (c ∷ t) = true

-- `enabled`
abbrev pub enabled : TwoFactor → Bool
enabled f = is_nonempty f.secret

abbrev pub is_among : Text → List Text → Bool
is_among t ts = any (λ s. s == t) ts

-- `filter(key=pin).delete()`
abbrev pub without_code : Text → List Text → List Text
without_code pin ts = keep (λ s. not (s == pin)) ts

-- `validated_data`; the secret may be null, the others may be missing.
pub record Enrolment : Type 0 where
  pub secret : Option Text
  pub pin : Option Text
  pub recovery : Option Text

pub data Enrolled : Type 0 where
  ok : TwoFactor → Enrolled
  no_secret_provided : Enrolled
  invalid_pin : Enrolled

abbrev pub text_or_empty : Option Text → Text
text_or_empty none = []
text_or_empty (some t) = t

-- What the user has, and the flag `2fa` of the session.
pub record State : Type 0 where
  pub twofa : Option TwoFactor
  pub passed : Bool

-- `pyotp.TOTP(secret).verify(pin)` at the time of the call
module _ (totp : Text → Text → Bool) where
  -- `TwoFactor.verify`; the count of deleted rows is a truth value.
  unfoldable pub verify : TwoFactor → Text → TwoFactor × Bool
  verify f pin =
      if totp f.secret pin
      then (f, true)
      else (record f { recovery = without_code pin f.recovery }, is_among pin f.recovery)

  -- `TwoFASerializer.verify_pin` and `create`
  unfoldable pub create : Enrolment → Enrolled
  create e =
      let secret = text_or_empty e.secret in
      if not (is_nonempty secret)
      then no_secret_provided
      else if not (totp secret (text_or_empty e.pin))
      then invalid_pin
      else ok record {
        secret = secret;
        recovery = take 15 (keep is_nonempty (split b',' (text_or_empty e.recovery)));
      }

  abbrev pub enrolled : State → Enrolled → State × Enrolled
  enrolled s (ok f) = (record { twofa = some f; passed = true }, ok f)
  enrolled s no_secret_provided = (s, no_secret_provided)
  enrolled s invalid_pin = (s, invalid_pin)

  -- PUT of the view `twofa`, with valid data: `serializer.save`, which creates a row or, where there is
  -- one, calls `update`, which deletes it.
  unfoldable pub put : Enrolment → State → State × Enrolled
  unfolding create
  put e s = elim s.twofa [
    | none ↦ enrolled s (create e)
    | some f ↦ (record { twofa = none; passed = true }, ok (record f { secret = [] }))
  ]

is_among-without :
    (d c : Text) (ts : List Text) → is_among d (without_code c ts) ≡ (is_among d ts && not (d == c))
is_among-without d c [] = refl
is_among-without d c (t ∷ ts) =
    ground (arith, is_among-without d c ts, text_beq_iff t d, text_beq_iff t c, text_beq_iff d c)

keep_nonempty : (ts : List Text) → All (λ t. is_nonempty t ≡ true) ts → keep is_nonempty ts ≡ ts
keep_nonempty [] h = refl
keep_nonempty (t ∷ ts) h = rw h.0 (ap (◌∷◌ t) (keep_nonempty ts h.1))

take_enough {ℓ} : {A : Type ℓ} (n : ℕ) (xs : List A) → length xs ≤ n → take n xs ≡ xs
take_enough zero [] h = refl
take_enough zero (x ∷ xs) h = absurd (omega arith)
take_enough (suc n) [] h = refl
take_enough (suc n) (x ∷ xs) h = ap (◌∷◌ x) (take_enough n xs (omega arith))

module _ (totp : Text → Text → Bool) where
  -- What a code does that is no code of the time.
  verify_code :
      (f : TwoFactor) (c : Text)
      → totp f.secret c ≡ false
      → verify totp f c ≡ (record f { recovery = without_code c f.recovery }, is_among c f.recovery)
  unfolding verify
  verify_code f c h = rw h refl

  -- A recovery code passes once, if at all: afterwards it is refused, and every other one is as good as
  -- before.
  pub verify-verify :
      (f : TwoFactor) (c d : Text)
      → totp f.secret c ≡ false
      → totp f.secret d ≡ false
      → ((verify totp f c).1 ≡ is_among c f.recovery)
        × ((verify totp (verify totp f c).0 d).1 ≡ ((verify totp f d).1 && not (d == c)))
  verify-verify f c d hc hd = (
    rw (verify_code f c hc) refl,
    rw
        (
          verify_code f c hc,
          verify_code f d hd,
          verify_code (record f { recovery = without_code c f.recovery }) d hd,
        )
        (is_among-without d c f.recovery),
  )

  -- The data of an enrolment with these recovery codes.
  abbrev pub with_codes : (secret pin : Text) → List Text → Enrolment
  with_codes secret pin cs = record {
    secret = some secret;
    pin = some pin;
    recovery = some (join (b',' ∷ []) cs);
  }

  put_codes :
      (s : State) (secret pin : Text) (cs : List Text)
      → s.twofa ≡ none
      → is_nonempty secret ≡ true
      → totp secret pin ≡ true
      → cs ≢ []
      → All (Lacks b',') cs
      → All (λ t. is_nonempty t ≡ true) cs
      → length cs ≤ 15
      → (put totp (with_codes secret pin cs) s).0
        ≡ record { twofa = some (record { secret = secret; recovery = cs }); passed = true }
  unfolding put create
  put_codes s secret pin cs none_yet named valid some_ apart full few =
      rw
        (
          none_yet,
          named,
          valid,
          split-join b',' cs some_ apart,
          keep_nonempty cs full,
          take_enough 15 cs few,
        )
        refl

  -- With a secret that is not empty, a valid code of the time and one to 15 recovery codes that are not
  -- empty and have no comma, a user without a second factor gets one, whose recovery codes are just
  -- these. As long as the codes of the time stay the same: of two codes that are tried one after the other
  -- and are no codes of the time (one that is passes as such, and stays a recovery code if it is one), the
  -- first passes just if it is a recovery code, and the second just if it is one and not the same; so each
  -- passes once, and using one leaves the others as they were.
  pub put-verify :
      (s : State) (secret pin : Text) (cs : List Text) (c d : Text)
      → s.twofa ≡ none
      → is_nonempty secret ≡ true
      → totp secret pin ≡ true
      → cs ≢ []
      → All (Lacks b',') cs
      → All (λ t. is_nonempty t ≡ true) cs
      → length cs ≤ 15
      → totp secret c ≡ false
      → totp secret d ≡ false
      → (f : TwoFactor) × ((put totp (with_codes secret pin cs) s).0
          ≡ record { twofa = some f; passed = true })
        × ((verify totp f c).1 ≡ is_among c cs)
        × ((verify totp (verify totp f c).0 d).1 ≡ (is_among d cs && not (d == c)))
  put-verify s secret pin cs c d none_yet named valid some_ apart full few hc hd =
      let f : TwoFactor = record { secret = secret; recovery = cs } in
      let once = verify-verify f c d hc hd in
      (
        f,
        put_codes s secret pin cs none_yet named valid some_ apart full few,
        once.0,
        once.1 ∙ rw (verify_code f d hd) refl,
      )
