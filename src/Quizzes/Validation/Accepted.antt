-- ===== src/Quizzes/Validation/Accepted.antt =====
-- What the validators of titles and tags accept.
use askit_backend.Exec.{Result-cases, ok}
use askit_backend.External.{Texts}
use askit_backend.Prelude.{
  All, All-append, Bool-cases, List, String, [], any-append, arith, false, inl, inr, is_empty, len,
  length, map, nat_eq, not, refl, string_eq, subst, true, ◌&&◌, ◌++◌, ◌==◌, ◌||◌, ◌∙◌, ◌∷◌, ◌≡◌,
  ◌≤◌,
}
use askit_backend.Quizzes.Validation.{
  from_keys, has, max_tag_length, max_tags_per_quiz, max_title_length, normal, validate_tags,
  validate_title, validated,
}

abbrev pub IsTag : String → Type 0
IsTag tag = (is_empty tag ≡ false) × (len tag ≤ max_tag_length)

-- No tag stands twice.
abbrev pub TagsDistinct : List String → Type 0
TagsDistinct [] = Unit
TagsDistinct (tag ∷ tags) = (has tag tags ≡ false) × TagsDistinct tags

distinct_added :
    (tag : String) (keys : List String)
    → TagsDistinct keys
    → has tag keys ≡ false
    → TagsDistinct (keys ++ tag ∷ [])
distinct_added tag [] d h = (refl, tt)
distinct_added tag (k ∷ keys) d h = (
  any-append (λ t. t == k) keys (tag ∷ [])
      ∙ (ground (arith, d.0, h, string_eq.beq_iff k tag, string_eq.beq_iff tag k)),
  distinct_added tag keys d.1 (ground (arith, h)),
)

pub from_keys-TagsDistinct :
    (tags keys : List String) → TagsDistinct keys → TagsDistinct (from_keys keys tags)
from_keys-TagsDistinct [] keys d = d
from_keys-TagsDistinct (tag ∷ tags) keys d = elim (Bool-cases (has tag keys)) [
  | inl e ↦ rw (from_keys, e) (from_keys-TagsDistinct tags keys d)
  | inr e ↦
      rw (from_keys, e)
        (from_keys-TagsDistinct tags (keys ++ tag ∷ []) (distinct_added tag keys d e))
]

pub from_keys-All :
    (P : String → Type 0) (tags keys : List String)
    → All P keys
    → All P tags
    → All P (from_keys keys tags)
from_keys-All P [] keys hk ht = hk
from_keys-All P (tag ∷ tags) keys hk ht = elim (Bool-cases (has tag keys)) [
  | inl e ↦ rw (from_keys, e) (from_keys-All P tags keys hk ht.1)
  | inr e ↦
      rw (from_keys, e)
        (from_keys-All P tags (keys ++ tag ∷ []) (All-append P keys (tag ∷ []) hk (ht.0, tt)) ht.1)
]

counted_once :
    (t tag : String) (tags keys : List String)
    → has tag keys ≡ true
    → (has t keys || has t tags) ≡ (has t keys || has t (tag ∷ tags))
counted_once t tag tags keys e = elim (Bool-cases (tag == t)) [
  | inr differ ↦ ground (arith, differ)
  | inl same ↦
      let there : has t keys ≡ true =
        subst (λ u. has u keys ≡ true) ((string_eq.beq_iff tag t).0 same) e in
      ground (arith, there)
]

-- What is in the list of keys.
has-from_keys :
    (t : String) (tags keys : List String)
    → has t (from_keys keys tags) ≡ (has t keys || has t tags)
has-from_keys t [] keys = ground arith
has-from_keys t (tag ∷ tags) keys = elim (Bool-cases (has tag keys)) [
  | inl e ↦ rw (from_keys, e) (has-from_keys t tags keys ∙ counted_once t tag tags keys e)
  | inr e ↦
      rw (from_keys, e)
        (has-from_keys t tags (keys ++ tag ∷ [])
          ∙ (ground (arith, any-append (λ u. u == t) keys (tag ∷ []))))
]

blank_dropped :
    (t tag : String) (tags : List String)
    → is_empty tag ≡ true
    → (has t tags && not (is_empty t)) ≡ (has t (tag ∷ tags) && not (is_empty t))
blank_dropped t tag tags e = elim (Bool-cases (tag == t)) [
  | inr differ ↦ ground (arith, differ)
  | inl same ↦
      let blank : is_empty t ≡ true =
        subst (λ u. is_empty u ≡ true) ((string_eq.beq_iff tag t).0 same) e in
      ground (arith, blank)
]

kept :
    (t tag : String) (tags rest : List String)
    → is_empty tag ≡ false
    → has t rest ≡ (has t tags && not (is_empty t))
    → has t (tag ∷ rest) ≡ (has t (tag ∷ tags) && not (is_empty t))
kept t tag tags rest e h = elim (Bool-cases (tag == t)) [
  | inr differ ↦ ground (arith, differ, h)
  | inl same ↦
      let full : is_empty t ≡ false =
        subst (λ u. is_empty u ≡ false) ((string_eq.beq_iff tag t).0 same) e in
      ground (arith, full, same)
]

module _ ⦃texts : Texts⦄ where
  pub validated_lem :
      (raw_tags : List String) {tags : List String}
      → validated raw_tags ≡ ok tags
      → All IsTag tags
        × ((t : String) → has t tags ≡ (has t (map normal raw_tags) && not (is_empty t)))
  validated_lem [] {tags} h = let e : tags ≡ [] = cc in rw e (tt, λ t. refl)
  validated_lem (raw_tag ∷ raw_tags) {tags} h = elim (Bool-cases (is_empty (normal raw_tag))) [
    | inl e ↦
        let (fit, same) = validated_lem raw_tags {tags = tags} (ground (arith, h, e)) in
        (fit, λ t. same t ∙ blank_dropped t (normal raw_tag) (map normal raw_tags) e)
    | inr e ↦ elim (Result-cases (validated raw_tags)) [
      | inr (x, failed) ↦ absurd (ground (arith, h, e, failed))
      | inl (rest, e') ↦
          let (fit, same) = validated_lem raw_tags {tags = rest} e' in
          let whole : tags ≡ normal raw_tag ∷ rest = ground (arith, h, e, e') in
          rw whole (
            ((e, ground (arith, h, e, e')), fit),
            λ t. kept t (normal raw_tag) (map normal raw_tags) rest e (same t),
          )
    ]
  ]

  -- Tags that are accepted are five at most and all different, each with 1 to 30 characters, and they
  -- are the tags that were sent, trimmed and in lower case, but for the empty ones.
  pub validate_tags_done :
      (raw_tags : List String) {tags : List String}
      → validate_tags raw_tags ≡ ok tags
      → (length tags ≤ max_tags_per_quiz)
        × TagsDistinct tags
        × All IsTag tags
        × ((t : String) → has t tags ≡ (has t (map normal raw_tags) && not (is_empty t)))
  unfolding validate_tags
  validate_tags_done raw_tags {tags} h = elim (Result-cases (validated raw_tags)) [
    | inr (x, failed) ↦ absurd (ground (arith, h, failed))
    | inl (sent, e) ↦
        let (fit, same) = validated_lem raw_tags {tags = sent} e in
        let whole : tags ≡ from_keys [] sent = ground (arith, h, e) in
        let few : length (from_keys [] sent) ≤ max_tags_per_quiz = ground (arith, h, e) in
        rw whole (
          few,
          from_keys-TagsDistinct sent [] tt,
          from_keys-All IsTag sent [] tt fit,
          λ t. has-from_keys t sent [] ∙ same t,
        )
  ]

  -- A title that is accepted has 1 to 50 characters.
  pub validate_title_done :
      (v : String) {title : String}
      → validate_title v ≡ ok title
      → (title ≡ texts.strip v) × (is_empty title ≡ false) × (len title ≤ max_title_length)
  unfolding validate_title
  validate_title_done v {title} h =
      let same : title ≡ texts.strip v = ground (arith, h) in
      let short : len v ≤ max_title_length = ground (arith, h) in
      rw same (refl, ground (arith, h), omega (arith, short, texts.len-strip v))
