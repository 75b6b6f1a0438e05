-- ===== src/External/Memory.antt =====
-- Concrete instances of the interfaces: a Redis in memory, ids written in unary, and numbers rounded
-- down to integers. They show that the laws can hold, and run the examples.
use Prim.Native.Nat.{max}
use native.Mathlib.Nat.{le_refl, le_trans, zero-div}
use Prim.Native.Char.{Char, code}
use Prim.Native.String.{String}
use askit_backend.External.{
  FieldValue, Fields, Floats, Key, Redis, Texts, Value, count, counter, key_beq, key_beq_refl,
  of_text, of_uuid,
}
use askit_backend.External.Tokens.{
  Claims, Decoded, Hashes, Jwt, Secrets, decoded, expired, not_valid, raw_claims, seconds,
}
use askit_backend.Models.{Time}
use askit_backend.Prelude.{
  Bool, Bool-cases, Option, ap, arith, beq_refl, false, if◌then◌else◌, inl, inr, leb, nat_eq, none,
  not, refl, some, string_eq, suc, true, zero, ℕ, ◌&&◌, ◌*◌, ◌-◌, ◌/◌, ◌<◌, ◌==◌, ◌≡◌, ◌≤◌,
}
use askit_backend.Prelude.Int.{negsuc, pos, pos_part, ℤ, ◌≤ℤ◌}

-- The values, the sets, and the seconds that a key has left.
pub record Tables : Type 0 where
  pub values : Key → Option Value
  pub members : Key → String → Bool
  pub left : Key → Option ℕ

abbrev pub no_tables : Tables
no_tables = record { values = λ k. none; members = λ k m. false; left = λ k. none }

abbrev count_up : Option Value → Option Value
count_up (some (count n)) = some (count (suc n))
count_up _ = some (count 1)

pub count_up-counter :
    (v : Option Value) (n : ℕ) → counter v ≡ some n → count_up v ≡ some (count (suc n))
count_up-counter none n h = ground (arith, h)
count_up-counter (some v) n h = ground (arith, h)

abbrev is_over : Option ℕ → ℕ → Bool
is_over none t = false
is_over (some n) t = leb n t

abbrev left_after : Option ℕ → ℕ → Option ℕ
left_after none t = none
left_after (some n) t = if leb n t then none else some (n - t)

abbrev pass_by : ℕ → Tables → Tables
pass_by t s = record {
  values = λ k. if is_over (s.left k) t then none else s.values k;
  members = λ k m. if is_over (s.left k) t then false else s.members k m;
  left = λ k. left_after (s.left k) t;
}

abbrev set_for : Key → Value → ℕ → Tables → Tables
set_for k v t s = record {
  values = λ j. if key_beq k j then some v else s.values j;
  members = s.members;
  left = λ j. if key_beq k j then some t else s.left j;
}

pub pass_by-set_for :
    (t ttl : ℕ) (k : Key) (v : Value) (s : Tables)
    → t < ttl
    → (pass_by t (set_for k v ttl s)).values k ≡ some v
pass_by-set_for t ttl k v s h =
    let soon : leb ttl t ≡ false = ground (arith, h) in rw (key_beq_refl k, soon) refl

pub pass_by-none :
    (t : ℕ) (k : Key) (s : Tables) → s.values k ≡ none → (pass_by t s).values k ≡ none
pass_by-none t k s h = elim (Bool-cases (is_over (s.left k) t)) [
  | inl e ↦ rw e refl
  | inr e ↦ rw e h
]

instance abbrev pub memory : Redis
memory = record {
  Store = Tables;
  get = λ s k. s.values k;
  set = set_for;
  expire = λ k t s. record s { left = λ j. if key_beq k j then some t else s.left j };
  incr = λ k s. record {
    values = λ j. if key_beq k j then count_up (s.values k) else s.values j;
    members = s.members;
    left = s.left;
  };
  delete = λ k s. record {
    values = λ j. if key_beq k j then none else s.values j;
    members = s.members;
    left = λ j. if key_beq k j then none else s.left j;
  };
  sismember = λ s k m. s.members k m;
  sadd = λ k m s. record {
    values = s.values;
    members = λ j n. if key_beq k j && m == n then true else s.members j n;
    left = s.left;
  };
  pass = pass_by;
  get-set = λ k j v t s. refl;
  get-expire = λ k j t s. refl;
  get-incr = λ k j n s h. rw (count_up-counter (s.values k) n h) refl;
  get-delete = λ k j s. refl;
  get-sadd = λ k j m s e. refl;
  sismember-sadd = λ k j m n s. refl;
  sismember-expire = λ k j t n s. refl;
  get-pass_set = pass_by-set_for;
  get-pass_none = pass_by-none;
}

abbrev unary : ℕ → String
unary zero = String.[]
unary (suc n) = String.◌∷◌ "i" (unary n)

-- Only the letter A has a small one.
abbrev lower_letter : Char → Char
lower_letter c = if code c == 65 then "a" else c

abbrev lower_text : String → String
lower_text String.[] = String.[]
lower_text (String.◌∷◌ c s) = String.◌∷◌ (lower_letter c) (lower_text s)

pub lower_letter_again : (c : Char) → lower_letter (lower_letter c) ≡ lower_letter c
lower_letter_again c = elim (Bool-cases (code c == 65)) [
  | inl e ↦ rw e refl
  | inr e ↦ rw (e, e) refl
]

pub lower_text_again : (s : String) → lower_text (lower_text s) ≡ lower_text s
lower_text_again String.[] = refl
lower_text_again (String.◌∷◌ c s) = cc (lower_letter_again c, lower_text_again s)

abbrev read_unary : String → ℕ
read_unary String.[] = 0
read_unary (String.◌∷◌ c s) = suc (read_unary s)

abbrev read_id : String → Option ℕ
read_id String.[] = none
read_id (String.◌∷◌ c s) = some (read_unary s)

pub read_unary-unary : (n : ℕ) → read_unary (unary n) ≡ n
read_unary-unary zero = refl
read_unary-unary (suc n) = ap suc (read_unary-unary n)

instance abbrev pub plain_texts : Texts
plain_texts = record {
  str = λ u. String.◌∷◌ "u" (unary u);
  parse_uuid = read_id;
  upper = λ s. s;
  lower = lower_text;
  strip = λ s. s;
  parse_uuid-str = λ u. ap some (read_unary-unary u);
  len-strip = λ text. omega arith;
  str-is_empty = λ u. refl;
  strip_strip = λ text. refl;
  lower_lower = lower_text_again;
  strip-lower_strip = λ text. refl;
}

pub pos_part_mono : (a b : ℤ) → a ≤ℤ b → pos_part a ≤ pos_part b
pos_part_mono (pos a) (pos b) h = omega arith
pos_part_mono (pos a) (negsuc b) h = omega arith
pos_part_mono (negsuc a) b h = omega arith

pub whole_mul_mono : (a b n : ℕ) → a ≤ b → (n * a ≤ n * b) × (a * n ≤ b * n)
whole_mul_mono a b n h = (grind arith, grind arith)

pub whole_div_mono : (a b c : ℤ) → a ≤ℤ b → pos_part a / pos_part c ≤ pos_part b / pos_part c
whole_div_mono a b c h = grind (arith, pos_part_mono a b h)

pub whole_max : (a b c : ℕ) → a ≤ c → b ≤ c → max a b ≤ c
whole_max a b c h k = omega arith

instance abbrev pub whole_floats : Floats
whole_floats = record {
  Float = ℕ;
  Le = λ a b. a ≤ b;
  of_int = pos_part;
  true_div = λ a c. pos_part a / pos_part c;
  sub = λ a b. a - b;
  mul = λ a b. a * b;
  max = λ a b. max a b;
  trunc = pos;
  le_refl = le_refl;
  le_trans = λ a b c h k. le_trans h k;
  of_int_mono = pos_part_mono;
  true_div_mono = λ a b c h k. whole_div_mono a b c h;
  zero-true_div = λ c h. zero-div _;
  sub_anti = λ a b n h. omega arith;
  sub-zero = λ a. omega arith;
  mul_mono = whole_mul_mono;
  mul-zero = λ n. omega arith;
  zero-mul = λ n. omega arith;
  mul-one = λ a. omega arith;
  le-max_left = λ a b. omega arith;
  le-max_right = λ a b. omega arith;
  max-le = whole_max;
  trunc_mono = λ a b h. omega arith;
  trunc-of_int = λ n h. refl;
}

abbrev text_field : FieldValue → Option String
text_field (of_uuid u) = none
text_field (of_text t) = some t

instance abbrev pub strict_fields : Fields
strict_fields = record {
  str_field = text_field;
  str_field-text = λ t. refl;
  str_field-uuid = λ u. refl;
}

-- A token is its claims in clear beside its key, and a password is its own hash.
abbrev plain_decode : Time → Claims × String → String → Decoded
plain_decode now (c, key) key' =
    if not (key == key')
    then not_valid
    else if leb (seconds c.exp * 1000000) now
    then expired
    else decoded (raw_claims c)

instance abbrev pub plain_jwt : Jwt
plain_jwt = record {
  Token = Claims × String;
  encode = λ c key. (c, key);
  decode = plain_decode;
  hash_token = λ t. t.0.jti;
  decode-encode = λ now c key h. rw (beq_refl key) refl;
}

instance abbrev pub plain_hashes : Hashes
plain_hashes = record {
  hash = λ password salt. password;
  verify = λ password hashed. password == hashed;
  verify-hash = λ password salt. beq_refl password;
}

instance abbrev pub two_secrets : Secrets
two_secrets = record { access_secret = "access"; refresh_secret = "refresh" }
