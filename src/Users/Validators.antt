-- ===== src/Users/Validators.antt =====
-- `AuthValidators` of app/auth/validators.py.
-- Reads only.
use Prim.Native.Char.{code}
use askit_backend.Exec.{Result, invalid_password, invalid_username, ok}
use askit_backend.Prelude.{
  Bool, Bool-cases, List, String, [], any, arith, false, if◌then◌else◌, inl, inr, is_empty, leb,
  len, ltb, nat_eq, not, refl, string_eq, suc, sym, true, ℕ, ◌&&◌, ◌==◌, ◌||◌, ◌↔◌, ◌∙◌, ◌∷◌, ◌≡◌,
  ◌≤◌, ◌⊎◌,
}
use askit_backend.Reading.{fail_if, ◌>>◌}

-- `\d` also takes the decimal digits of other scripts.
pub record Digits : Type 0 where
  pub is_decimal : ℕ → Bool

abbrev pub codes : String → List ℕ
codes String.[] = []
codes (String.◌∷◌ c text) = code c ∷ codes text

abbrev pub between : ℕ → ℕ → ℕ → Bool
between low high c = leb low c && leb c high

abbrev pub is_letter : ℕ → Bool
is_letter c = between 65 90 c || between 97 122 c

-- `[A-Za-z0-9_]`
abbrev pub is_word : ℕ → Bool
is_word c = is_letter c || (between 48 57 c || c == 95)

-- `^[A-Za-z0-9_]{3,30}$` after n characters: `$` stands at the end, and before a newline there.
abbrev pub username_pattern : ℕ → List ℕ → Bool
username_pattern n [] = between 3 30 n
username_pattern n (c ∷ cs) =
    let rest = username_pattern (suc n) cs in
    if is_word c then rest else elim cs [ [] ↦ c == 10 && between 3 30 n | d ∷ ds ↦ false ]

unfoldable pub validate_username : String → Result String
validate_username username = do
  fail_if (is_empty username) invalid_username
  fail_if (ltb (len username) 3) invalid_username
  fail_if (ltb 30 (len username)) invalid_username
  fail_if (not (username_pattern 0 (codes username))) invalid_username
  ok username

abbrev pub special_characters : String
special_characters = "!@#$%^&*(),.?\":{}|<>_-+=[]\\/;~`"

abbrev pub is_special : ℕ → Bool
is_special c = any (λ d. d == c) (codes special_characters)

-- A letter of ASCII.
abbrev pub ascii_letter : ℕ → Bool
ascii_letter c = leb 65 c && leb c 90 || leb 97 c && leb c 122

-- A visible character of ASCII that is no letter, no digit and no apostrophe.
abbrev pub symbol : ℕ → Bool
symbol c =
    leb 33 c && leb c 126 && not (ascii_letter c) && not (leb 48 c && leb c 57) && not (c == 39)

is_special-symbol : (c : ℕ) → is_special c ≡ symbol c
is_special-symbol c = ground arith

any-symbol : (cs : List ℕ) → any is_special cs ≡ any symbol cs
any-symbol [] = refl
any-symbol (c ∷ cs) = rw (is_special-symbol c, any-symbol cs) refl

between-le : (low high n : ℕ) → (between low high n ≡ true) ↔ ((low ≤ n) × (n ≤ high))
between-le low high n = (λ h. (ground (arith, h), ground (arith, h)), λ h. ground (arith, h.0, h.1))

module _ ⦃digits : Digits⦄ where
  unfoldable pub validate_password : String → Result String
  validate_password password = do
    fail_if (is_empty password) invalid_password
    fail_if (ltb (len password) 8) invalid_password
    fail_if (ltb 128 (len password)) invalid_password
    fail_if (not (any is_letter (codes password))) invalid_password
    fail_if (not (any digits.is_decimal (codes password))) invalid_password
    fail_if (not (any is_special (codes password))) invalid_password
    ok password

  validate_password_checks :
      (password : String)
      → (validate_password password ≡ ok password) ↔ (
          (between 8 128 (len password) ≡ true)
          × (any is_letter (codes password) ≡ true)
          × (any digits.is_decimal (codes password) ≡ true)
          × (any is_special (codes password) ≡ true))
  unfolding validate_password
  validate_password_checks String.[] = (λ h. ground (arith, h), λ h. ground (arith, h.0))
  validate_password_checks (String.◌∷◌ c password) = (
    λ h. (ground (arith, h), ground (arith, h), ground (arith, h), ground (arith, h)),
    λ h. ground (arith, h.0, h.1, h.2, h.3),
  )

  -- A password is accepted exactly where it has 8 to 128 characters, among them a letter of ASCII, a
  -- digit, and a visible character of ASCII that is no letter, no digit and no apostrophe.
  pub validate_password_iff :
      (password : String)
      → (validate_password password ≡ ok password) ↔ (
          (8 ≤ len password)
          × (len password ≤ 128)
          × (any ascii_letter (codes password) ≡ true)
          × (any digits.is_decimal (codes password) ≡ true)
          × (any symbol (codes password) ≡ true))
  validate_password_iff password =
      let checks = validate_password_checks password in
      let same = any-symbol (codes password) in
      (
        λ h.
            let (size, letter, digit, special) = checks.0 h in
            let (low, high) = (between-le 8 128 (len password)).0 size in
            (low, high, letter, digit, sym same ∙ special),
        λ (low, high, letter, digit, special).
            checks.1
              ((between-le 8 128 (len password)).1 (low, high), letter, digit, same ∙ special),
      )

-- Word characters, and perhaps a newline at the end.
abbrev pub IsName : List ℕ → Type 0
IsName [] = Unit
IsName (c ∷ cs) = ((is_word c ≡ true) × IsName cs) ⊎ ((c ≡ 10) × (cs ≡ []))

last_newline :
    (n c : ℕ) (cs : List ℕ)
    → is_word c ≡ false
    → username_pattern n (c ∷ cs) ≡ true
    → (c ≡ 10) × (cs ≡ [])
last_newline n c [] e h =
    let h' : (c == 10 && between 3 30 n) ≡ true = rw e at h in (ground (arith, h'), refl)
last_newline n c (d ∷ cs) e h = absurd (ground (arith, rw e at h))

pattern-IsName : (n : ℕ) (cs : List ℕ) → username_pattern n cs ≡ true → IsName cs
pattern-IsName n [] h = tt
pattern-IsName n (c ∷ cs) h = elim (Bool-cases (is_word c)) [
  | inl e ↦ inl (e, pattern-IsName (suc n) cs (rw e at h))
  | inr e ↦ inr (last_newline n c cs e h)
]

-- A username that is accepted has 3 to 30 characters, all letters, digits and underscores, but for a
-- newline that may stand at the end.
pub validate_username-IsName :
    (username : String) {name : String}
    → validate_username username ≡ ok name
    → (name ≡ username) × (between 3 30 (len username) ≡ true) × IsName (codes username)
unfolding validate_username
validate_username-IsName username {name} h =
    (ground (arith, h), ground (arith, h), pattern-IsName 0 (codes username) (ground (arith, h)))

abbrev pub with_newline : String → String
with_newline String.[] = "\n"
with_newline (String.◌∷◌ c text) = String.◌∷◌ c (with_newline text)
