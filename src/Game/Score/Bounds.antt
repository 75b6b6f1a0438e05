-- ===== src/Game/Score/Bounds.antt =====
-- What a correct answer earns, and how it depends on the time taken.
use askit_backend.Exec.{ok}
use askit_backend.External.{Floats}
use askit_backend.Game.Score.{
  calculate_score, elapsed_ms, max_points_per_question, min_points_per_question, speed_bonus,
  time_factor,
}
use askit_backend.Prelude.{
  Bool, ap, arith, false, if◌then◌else◌, refl, subst, true, ℕ, ◌<◌, ◌∙◌, ◌≡◌, ◌≤◌,
}
use askit_backend.Prelude.Int.{int_laws, pos, ℤ, ◌+ℤ◌, ◌-ℤ◌, ◌≤ℤ◌}

module _ ⦃floats : Floats⦄ where
  open floats use {
    Float, Le, of_int, true_div, sub, mul, trunc, of_int_mono, true_div_mono, zero-true_div,
    sub_anti, sub-zero, mul_mono, mul-zero, zero-mul, mul-one, le-max_left, le-max_right, max-le,
    trunc_mono, trunc-of_int,
  }

  abbrev zero_f : Float
  zero_f = of_int (pos 0)

  abbrev one_f : Float
  one_f = of_int (pos 1)

  -- The share of the limit that a non-negative time takes is not negative.
  share_nonneg : (t : ℤ) (l : ℕ) → pos 0 ≤ℤ t → 0 < l → Le zero_f (true_div t (pos l))
  share_nonneg t l ht hl =
      subst (λ x. Le x (true_div t (pos l))) (zero-true_div (pos l) (omega arith))
        (true_div_mono (pos 0) t (pos l) ht (omega arith))

  time_factor_bounds :
      (t : ℤ) (l : ℕ)
      → pos 0 ≤ℤ t
      → 0 < l
      → Le zero_f (time_factor t l) × Le (time_factor t l) one_f
  unfolding time_factor
  time_factor_bounds t l ht hl = (
    le-max_left _ _,
    max-le _ _ _ (of_int_mono (pos 0) (pos 1) (omega arith)) (
        subst (λ x. Le (sub one_f (true_div t (pos l))) x) (sub-zero one_f)
          (sub_anti _ _ 1 (share_nonneg t l ht hl))),
  )

  speed_bonus_bounds :
      (t : ℤ) (l : ℕ)
      → pos 0 ≤ℤ t
      → 0 < l
      → (pos 0 ≤ℤ speed_bonus t l) × (speed_bonus t l ≤ℤ pos 900)
  unfolding speed_bonus
  speed_bonus_bounds t l ht hl = (
    subst (λ x. x ≤ℤ trunc (mul (of_int (pos 900)) (time_factor t l)))
        (ap trunc (mul-zero 900) ∙ trunc-of_int 0 (omega arith))
        (trunc_mono _ _ (mul_mono _ _ 900 (time_factor_bounds t l ht hl).0).0),
    subst (λ x. trunc (mul (of_int (pos 900)) (time_factor t l)) ≤ℤ x)
        (ap trunc (mul-one _) ∙ trunc-of_int 900 (omega arith))
        (trunc_mono _ _ (mul_mono _ _ 900 (time_factor_bounds t l ht hl).1).0),
  )

  -- For a time that is not negative and a limit that is not 0, a wrong answer scores 0 and a right
  -- one between the minimum and the maximum of points.
  pub calculate_score_range :
      (t : ℤ) (l : ℕ) (is_correct : Bool)
      → pos 0 ≤ℤ t
      → 0 < l
      → (points : ℤ) × (calculate_score t l is_correct ≡ ok points)
        × (if is_correct
            then (pos min_points_per_question ≤ℤ points) × (points ≤ℤ pos max_points_per_question)
            else points ≡ pos 0)
  unfolding calculate_score
  calculate_score_range t l false ht hl = (pos 0, refl, refl)
  calculate_score_range t l true ht hl =
      (pos 100 +ℤ speed_bonus t l, ground arith, omega (int_laws, speed_bonus_bounds t l ht hl))

  time_factor_anti : (s t : ℤ) (l : ℕ) → s ≤ℤ t → 0 < l → Le (time_factor t l) (time_factor s l)
  unfolding time_factor
  time_factor_anti s t l h hl = max-le _ _ _ (le-max_left _ _) (
      floats.le_trans _ _ _ (sub_anti _ _ 1 (true_div_mono s t (pos l) h (omega arith)))
        (le-max_right _ _))

  speed_bonus_anti : (s t : ℤ) (l : ℕ) → s ≤ℤ t → 0 < l → speed_bonus t l ≤ℤ speed_bonus s l
  unfolding speed_bonus
  speed_bonus_anti s t l h hl = trunc_mono _ _ (mul_mono _ _ 900 (time_factor_anti s t l h hl)).0

  score_of_correct :
      (t : ℤ) (l : ℕ) → 0 < l → calculate_score t l true ≡ ok (pos 100 +ℤ speed_bonus t l)
  unfolding calculate_score
  score_of_correct t l hl = ground arith

  -- A correct answer never earns more than one that took no longer, for the same limit other than
  -- 0.
  calculate_score_anti :
      (s t : ℤ) (l : ℕ) {points later_points : ℤ}
      → s ≤ℤ t
      → 0 < l
      → calculate_score s l true ≡ ok points
      → calculate_score t l true ≡ ok later_points
      → later_points ≤ℤ points
  calculate_score_anti s t l {points} {later_points} h hl es et =
      let ep : points ≡ pos 100 +ℤ speed_bonus s l = cc (score_of_correct s l hl) in
      let el : later_points ≡ pos 100 +ℤ speed_bonus t l = cc (score_of_correct t l hl) in
      rw (ep, el) (omega (int_laws, speed_bonus_anti s t l h hl))

  -- An answer timed after the start of its question has taken no negative time.
  pub elapsed_ms_nonneg : (now start : ℕ) → start ≤ now → pos 0 ≤ℤ elapsed_ms now start
  unfolding elapsed_ms
  elapsed_ms_nonneg now start h =
      subst (λ x. x ≤ℤ elapsed_ms now start)
        (ap trunc (
            ap (λ x. mul x (of_int (pos 1000))) (zero-true_div (pos 1_000_000) (omega arith))
            ∙ zero-mul 1000)
          ∙ trunc-of_int 0 (omega arith))
        (trunc_mono _ _
          (mul_mono _ _ 1000 (
            true_div_mono (pos 0) (pos now -ℤ pos start) (pos 1_000_000) (omega int_laws)
              (omega arith))).1)
