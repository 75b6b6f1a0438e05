-- ===== src/Quizzes/Validation/Again.antt =====
-- What has been accepted is accepted again, as it is.
use askit_backend.Exec.{Result-cases, ok}
use askit_backend.External.{Texts}
use askit_backend.Prelude.{
  All, All-of, Bool-cases, List, Option, String, [], any-append, ap, append-nil, append_assoc,
  arith, false, inl, inr, is_empty, length, nat_eq, none, refl, some, string_eq, sym, ◌++◌, ◌==◌,
  ◌∙◌, ◌∷◌, ◌≡◌, ◌≤◌,
}
use askit_backend.Quizzes.Forms.{QuizQuestionCreate, QuizSettingsCreate}
use askit_backend.Quizzes.Validation.{
  from_keys, has, max_tags_per_quiz, normal, validate_description, validate_question,
  validate_settings, validate_tags, validate_title, validated,
}
use askit_backend.Quizzes.Validation.Accepted.{
  IsTag, TagsDistinct, from_keys-All, from_keys-TagsDistinct, validate_title_done, validated_lem,
}
use askit_backend.Quizzes.Validation.Bodies.{validate_questions}

-- Each of the tags is new behind the keys and the tags before it.
Fits : List String → List String → Type 0
Fits keys [] = Unit
Fits keys (tag ∷ tags) = (has tag keys ≡ false) × Fits (keys ++ tag ∷ []) tags

from_keys-append : (keys tags : List String) → Fits keys tags → from_keys keys tags ≡ keys ++ tags
unfolding Fits
from_keys-append keys [] h = sym (append-nil keys)
from_keys-append keys (tag ∷ tags) h =
    rw (from_keys, h.0)
      (from_keys-append (keys ++ tag ∷ []) tags h.1 ∙ append_assoc keys (tag ∷ []) tags)

apart_from :
    (tag : String) (keys tags : List String)
    → has tag tags ≡ false
    → All (λ t. has t keys ≡ false) tags
    → All (λ t. has t (keys ++ tag ∷ []) ≡ false) tags
apart_from tag keys [] h away = tt
apart_from tag keys (t ∷ tags) h away = (
  any-append (λ u. u == t) keys (tag ∷ [])
      ∙ (ground (arith, away.0, h, string_eq.beq_iff t tag, string_eq.beq_iff tag t)),
  apart_from tag keys tags (ground (arith, h)) away.1,
)

distinct-Fits :
    (keys tags : List String)
    → All (λ t. has t keys ≡ false) tags
    → TagsDistinct tags
    → Fits keys tags
unfolding Fits
distinct-Fits keys [] away d = tt
distinct-Fits keys (tag ∷ tags) away d =
    (away.0, distinct-Fits (keys ++ tag ∷ []) tags (apart_from tag keys tags d.0 away.1) d.1)

pub from_keys-distinct : (tags : List String) → TagsDistinct tags → from_keys [] tags ≡ tags
from_keys-distinct tags d =
    from_keys-append [] tags (distinct-Fits [] tags (All-of _ tags (λ t. refl)) d)

module _ ⦃texts : Texts⦄ where
  normal-normal : (tag : String) → normal (normal tag) ≡ normal tag
  normal-normal tag =
      ap texts.lower (texts.strip-lower_strip tag) ∙ texts.lower_lower (texts.strip tag)

  validated-normal :
      (raw_tags : List String) {tags : List String}
      → validated raw_tags ≡ ok tags
      → All (λ t. normal t ≡ t) tags
  validated-normal [] {tags} h = let e : tags ≡ [] = cc in rw e tt
  validated-normal (raw_tag ∷ raw_tags) {tags} h = elim (Bool-cases (is_empty (normal raw_tag))) [
    | inl e ↦ validated-normal raw_tags {tags = tags} (ground (arith, h, e))
    | inr e ↦ elim (Result-cases (validated raw_tags)) [
      | inr (x, failed) ↦ absurd (ground (arith, h, e, failed))
      | inl (rest, e') ↦
          let whole : tags ≡ normal raw_tag ∷ rest = ground (arith, h, e, e') in
          rw whole (normal-normal raw_tag, validated-normal raw_tags {tags = rest} e')
    ]
  ]

  validated-fixed :
      (tags : List String)
      → All IsTag tags
      → All (λ t. normal t ≡ t) tags
      → validated tags ≡ ok tags
  validated-fixed [] fit same = refl
  validated-fixed (tag ∷ tags) fit same =
      ground (arith, validated-fixed tags fit.1 same.1, same.0, fit.0.0, fit.0.1)

  pub validate_tags-again :
      (raw_tags : List String) {tags : List String}
      → validate_tags raw_tags ≡ ok tags
      → validate_tags tags ≡ ok tags
  unfolding validate_tags
  validate_tags-again raw_tags {tags} h = elim (Result-cases (validated raw_tags)) [
    | inr (x, failed) ↦ absurd (ground (arith, h, failed))
    | inl (sent, e) ↦
        let whole : tags ≡ from_keys [] sent = ground (arith, h, e) in
        let few : length (from_keys [] sent) ≤ max_tags_per_quiz = ground (arith, h, e) in
        let distinct = from_keys-TagsDistinct sent [] tt in
        let fit = from_keys-All IsTag sent [] tt (validated_lem raw_tags {tags = sent} e).0 in
        let same =
          from_keys-All (λ t. normal t ≡ t) sent [] tt
            (validated-normal raw_tags {tags = sent} e) in
        ground (
          arith,
          validated-fixed (from_keys [] sent) fit same,
          from_keys-distinct (from_keys [] sent) distinct,
          few,
          whole,
        )
  ]

  pub validate_title-again :
      (v : String) {title : String} → validate_title v ≡ ok title → validate_title title ≡ ok title
  validate_title-again v {title} h =
      let (same, full, short) = validate_title_done v h in
      let still : texts.strip title ≡ title = rw same (texts.strip_strip v) in
      unfold validate_title in ground (arith, still, full, short)

-- The other validators return what they were given.
pub validate_description-same :
    (v : Option String) {description : Option String}
    → validate_description v ≡ ok description
    → description ≡ v
unfolding validate_description
validate_description-same none {description} h = cc
validate_description-same (some v) {description} h = ground (arith, h)

pub validate_settings-same :
    (v : QuizSettingsCreate) {settings : QuizSettingsCreate}
    → validate_settings v ≡ ok settings
    → settings ≡ v
unfolding validate_settings
validate_settings-same v {settings} h = ground (arith, h)

pub validate_question-same :
    (v : QuizQuestionCreate) {question : QuizQuestionCreate}
    → validate_question v ≡ ok question
    → question ≡ v
unfolding validate_question
validate_question-same v {question} h = ground (arith, h)

pub validate_questions-same :
    (forms : List QuizQuestionCreate) {checked : List QuizQuestionCreate}
    → validate_questions forms ≡ ok checked
    → checked ≡ forms
unfolding validate_questions
validate_questions-same [] {checked} h = cc
validate_questions-same (form ∷ forms) {checked} h = elim (Result-cases (validate_question form)) [
  | inr (x, e) ↦ absurd (ground (arith, h, e))
  | inl (first, e) ↦ elim (Result-cases (validate_questions forms)) [
    | inr (x, e') ↦ absurd (ground (arith, h, e, e'))
    | inl (rest, e') ↦
        let whole : checked ≡ first ∷ rest = ground (arith, h, e, e') in
        rw (whole, validate_question-same form e, validate_questions-same forms e') refl
  ]
]
