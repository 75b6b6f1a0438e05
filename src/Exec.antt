-- ===== src/Exec.antt =====
-- Exceptions (app/game/exceptions.py, app/quiz/exceptions.py, app/auth/exceptions.py) and the
-- methods that mutate state and raise.
use askit_backend.Prelude.{Bool, Option, if◌then◌else◌, inl, inr, none, refl, some, ◌≡◌, ◌⊎◌}

-- The exception classes that the modelled code raises or meets. `data_error` and `integrity_error`
-- are SQLAlchemy's; those from `key_error` on, but for `integrity_error`, are Python's own, and
-- pydantic's `ValidationError` is a `ValueError`.
pub data Error : Type 0 where
  room_not_found room_full game_already_started not_host nickname_already_taken : Error
  host_cannot_join already_answered question_not_active : Error
  quiz_not_found quiz_access_denied quiz_published quiz_not_playable invalid_quiz_data : Error
  account_locked invalid_credentials user_inactive not_authenticated token_expired : Error
  invalid_token token_revoked refresh_token_missing registration_failed : Error
  username_already_exists invalid_username invalid_password : Error
  data_error key_error integrity_error value_error zero_division attribute_error index_error : Error

pub data Result (A : Type 0) : Type 0 where
  ok : A → Result A
  err : Error → Result A

-- What was done before a raise stays done, so the state comes back beside the error too.
abbrev pub Exec : Type 0 → Type 0 → Type 0
Exec W A = W → Result A × W

infixl 5 ◌>>=◌ ◌>>◌
abbrev pub ◌>>=◌ : {W A B : Type 0} → Exec W A → (A → Exec W B) → Exec W B
◌>>=◌ m f w = let (r, w') = m w in elim r [ ok a ↦ f a w' | err e ↦ (err e, w') ]

abbrev pub ◌>>◌ : {W A B : Type 0} → Exec W A → Exec W B → Exec W B
m >> k = m >>= λ _. k

module _ {W : Type 0} where
  abbrev pub pure : {A : Type 0} → A → Exec W A
  pure a w = (ok a, w)

  abbrev pub raise : {A : Type 0} → Error → Exec W A
  raise e w = (err e, w)

  abbrev pub gets : {A : Type 0} → (W → A) → Exec W A
  gets f w = (ok (f w), w)

  abbrev pub modify : (W → W) → Exec W (Unit {0})
  modify f w = (ok tt, f w)

  abbrev pub lift : {A : Type 0} → Result A → Exec W A
  lift r w = (r, w)

  abbrev pub raise_if : Bool → Error → Exec W (Unit {0})
  raise_if b e w = (if b then err e else ok tt, w)

  abbrev pub or_raise : {A : Type 0} → Option A → Error → Exec W A
  or_raise o e w = (elim o [ none ↦ err e | some a ↦ ok a ], w)

pub Result-cases :
    {A : Type 0} (r : Result A) → ((a : A) × (r ≡ ok a)) ⊎ ((e : Error) × (r ≡ err e))
Result-cases (ok a) = inl (a, refl)
Result-cases (err e) = inr (e, refl)

-- What holds of the state after either end of the first step holds of the state after both steps.
module _ {W A B : Type 0} (P : W → Type 0) (f : A → Exec W B) where
  after_result :
      (r : Result A) (w : W)
      → ((e : Error) → r ≡ err e → P w)
      → ((a : A) → r ≡ ok a → P (f a w).1)
      → P (let out : Result B × W = elim r [ ok a ↦ f a w | err e ↦ (err e, w) ] in out.1)
  after_result (ok a) w failed went_on = went_on a refl
  after_result (err e) w failed went_on = failed e refl

  pub bind_cases :
      (m : Exec W A) (w : W)
      → ((e : Error) → (m w).0 ≡ err e → P (m w).1)
      → ((a : A) → (m w).0 ≡ ok a → P (f a (m w).1).1)
      → P ((m >>= f) w).1
  bind_cases m w failed went_on = after_result (m w).0 (m w).1 failed went_on
