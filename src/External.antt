-- ===== src/External.antt =====
-- What the program uses and does not implement, as interfaces with the behaviour it relies on:
-- Redis, UUID and letter-case functions of Python, and floating point numbers.
pub mod Memory
pub mod Tokens
use askit_backend.Models.{Uuid}
use askit_backend.Prelude.{
  Bool, Bool-cases, List, Option, String, ap, arith, beq_refl, false, if◌then◌else◌, inl, inr,
  is_empty, len, nat_beq_iff, nat_eq, none, refl, some, some-injective, string_eq, suc, sym, true,
  ℕ, ◌&&◌, ◌<◌, ◌==◌, ◌∙◌, ◌≡◌, ◌≤◌,
}
use askit_backend.Prelude.Int.{pos, ℤ, ◌≤ℤ◌}

-- The keys under which app/game/services.py and app/core/security.py store values in Redis, one
-- constructor for each format string.
pub data Key : Type 0 where
  questions_key question_start prev_ranking : String → Key
  answered : String → ℕ → Key
  ws_token blacklist login_attempts : String → Key

abbrev pub key_beq : Key → Key → Bool
key_beq (questions_key a) (questions_key b) = a == b
key_beq (question_start a) (question_start b) = a == b
key_beq (prev_ranking a) (prev_ranking b) = a == b
key_beq (answered a i) (answered b j) = a == b && i == j
key_beq (ws_token a) (ws_token b) = a == b
key_beq (blacklist a) (blacklist b) = a == b
key_beq (login_attempts a) (login_attempts b) = a == b
key_beq _ _ = false

-- The values that the program encodes as text (by `json.dumps`, `isoformat`, `str`) and decodes.
pub data Value : Type 0 where
  ids : List String → Value
  time : ℕ → Value
  ranking : List (String × ℕ) → Value
  word : String → Value
  count : ℕ → Value

-- The number that `INCR` reads: 0 where there is none, and an error where the value is another.
abbrev pub counter : Option Value → Option ℕ
counter none = some 0
counter (some (count n)) = some n
counter (some _) = none

pub record Redis : Type 1 where
  pub Store : Type 0
  pub get : Store → Key → Option Value
  -- `SET key value EX seconds`
  pub set : Key → Value → ℕ → Store → Store
  pub expire : Key → ℕ → Store → Store
  pub incr : Key → Store → Store
  pub delete : Key → Store → Store
  pub sismember : Store → Key → String → Bool
  pub sadd : Key → String → Store → Store
  -- What is left when so many seconds have gone by.
  pub pass : ℕ → Store → Store
  pub get-set :
      (k j : Key) (v : Value) (t : ℕ) (s : Store)
      → get (set k v t s) j ≡ (if key_beq k j then some v else get s j)
  pub get-expire : (k j : Key) (t : ℕ) (s : Store) → get (expire k (suc t) s) j ≡ get s j
  pub get-incr :
      (k j : Key) (n : ℕ) (s : Store)
      → counter (get s k) ≡ some n
      → get (incr k s) j ≡ (if key_beq k j then some (count (suc n)) else get s j)
  pub get-delete :
      (k j : Key) (s : Store) → get (delete k s) j ≡ (if key_beq k j then none else get s j)
  pub get-sadd :
      (k j : Key) (m : String) (s : Store) → key_beq k j ≡ false → get (sadd k m s) j ≡ get s j
  pub sismember-sadd :
      (k j : Key) (m n : String) (s : Store)
      → sismember (sadd k m s) j n ≡ (if key_beq k j && m == n then true else sismember s j n)
  pub sismember-expire :
      (k j : Key) (t : ℕ) (n : String) (s : Store)
      → sismember (expire k (suc t) s) j n ≡ sismember s j n
  pub get-pass_set :
      (t ttl : ℕ) (k : Key) (v : Value) (s : Store)
      → t < ttl
      → get (pass t (set k v ttl s)) k ≡ some v
  pub get-pass_none : (t : ℕ) (k : Key) (s : Store) → get s k ≡ none → get (pass t s) k ≡ none

-- `str(uuid)`, `UUID(text)` (`none` for its ValueError), `str.upper`, `str.lower` and `str.strip`.
pub record Texts : Type 0 where
  pub str : ℕ → String
  pub parse_uuid : String → Option ℕ
  pub upper : String → String
  pub lower : String → String
  pub strip : String → String
  pub parse_uuid-str : (u : ℕ) → parse_uuid (str u) ≡ some u
  pub len-strip : (text : String) → len (strip text) ≤ len text
  pub str-is_empty : (u : ℕ) → is_empty (str u) ≡ false
  pub strip_strip : (text : String) → strip (strip text) ≡ strip text
  pub lower_lower : (text : String) → lower (lower text) ≡ lower text
  pub strip-lower_strip : (text : String) → strip (lower (strip text)) ≡ lower (strip text)

-- What a field of pydantic type `str` makes of a value: it takes a text as it is, and no `UUID`.
pub data FieldValue : Type 0 where
  of_uuid : ℕ → FieldValue
  of_text : String → FieldValue

pub record Fields : Type 0 where
  pub str_field : FieldValue → Option String
  pub str_field-text : (t : String) → str_field (of_text t) ≡ some t
  pub str_field-uuid : (u : ℕ) → str_field (of_uuid u) ≡ none

-- The finite floating point numbers. `true_div` is `/` between integers, `trunc` is `int()`.
-- The laws say that rounding is monotone and exact at the small integers that the code uses.
pub record Floats : Type 1 where
  pub Float : Type 0
  pub Le : Float → Float → Type 0
  pub of_int : ℤ → Float
  pub true_div : ℤ → ℤ → Float
  pub sub : Float → Float → Float
  pub mul : Float → Float → Float
  pub max : Float → Float → Float
  pub trunc : Float → ℤ
  pub le_refl : (a : Float) → Le a a
  pub le_trans : (a b c : Float) → Le a b → Le b c → Le a c
  pub of_int_mono : (a b : ℤ) → a ≤ℤ b → Le (of_int a) (of_int b)
  pub true_div_mono : (a b c : ℤ) → a ≤ℤ b → pos 1 ≤ℤ c → Le (true_div a c) (true_div b c)
  pub zero-true_div : (c : ℤ) → pos 1 ≤ℤ c → true_div (pos 0) c ≡ of_int (pos 0)
  pub sub_anti :
      (a b : Float) (n : ℕ) → Le a b → Le (sub (of_int (pos n)) b) (sub (of_int (pos n)) a)
  pub sub-zero : (a : Float) → sub a (of_int (pos 0)) ≡ a
  pub mul_mono :
      (a b : Float) (n : ℕ)
      → Le a b
      → Le (mul (of_int (pos n)) a) (mul (of_int (pos n)) b)
        × Le (mul a (of_int (pos n))) (mul b (of_int (pos n)))
  pub mul-zero : (n : ℕ) → mul (of_int (pos n)) (of_int (pos 0)) ≡ of_int (pos 0)
  pub zero-mul : (n : ℕ) → mul (of_int (pos 0)) (of_int (pos n)) ≡ of_int (pos 0)
  pub mul-one : (a : Float) → mul a (of_int (pos 1)) ≡ a
  pub le-max_left : (a b : Float) → Le a (max a b)
  pub le-max_right : (a b : Float) → Le b (max a b)
  pub max-le : (a b c : Float) → Le a c → Le b c → Le (max a b) c
  pub trunc_mono : (a b : Float) → Le a b → trunc a ≤ℤ trunc b
  pub trunc-of_int : (n : ℕ) → n ≤ 9007199254740992 → trunc (of_int (pos n)) ≡ pos n

pub key_beq_refl : (k : Key) → key_beq k k ≡ true
key_beq_refl (questions_key a) = beq_refl a
key_beq_refl (question_start a) = beq_refl a
key_beq_refl (prev_ranking a) = beq_refl a
key_beq_refl (answered a i) = rw (beq_refl a, beq_refl i)
key_beq_refl (ws_token a) = beq_refl a
key_beq_refl (blacklist a) = beq_refl a
key_beq_refl (login_attempts a) = beq_refl a

module _ ⦃redis : Redis⦄ where
  -- What is set is read back.
  pub get-set_same :
      (k : Key) (v : Value) (t : ℕ) (s : redis.Store) → redis.get (redis.set k v t s) k ≡ some v
  get-set_same k v t s = redis.get-set k k v t s ∙ (rw (key_beq_refl k) refl)

module _ ⦃texts : Texts⦄ where
  -- Two ids have the same text only where they are the same.
  pub str_beq : (i j : Uuid) → (texts.str i == texts.str j) ≡ (i == j)
  str_beq i j = elim (Bool-cases (i == j)) [
    | inl e ↦ let same : i ≡ j = (nat_beq_iff i j).0 e in rw (e, same) (beq_refl (texts.str j))
    | inr e ↦ elim (Bool-cases (texts.str i == texts.str j)) [
      | inr e' ↦ e' ∙ sym e
      | inl e' ↦
          let same : texts.str i ≡ texts.str j = (string_eq.beq_iff _ _).0 e' in
          let eq : some i ≡ some j =
            sym (texts.parse_uuid-str i) ∙ ap texts.parse_uuid same ∙ texts.parse_uuid-str j in
          absurd (ground (arith, some-injective _ _ eq, e))
    ]
  ]
