-- ===== src/Game/Score.antt =====
-- `calculate_score` of app/game/services.py and the time that `submit_answer` hands it.
pub mod Bounds
use askit_backend.Exec.{Result, err, ok, zero_division}
use askit_backend.External.{Floats}
use askit_backend.Models.{Time}
use askit_backend.Prelude.{Bool, false, if◌then◌else◌, nat_eq, string_eq, true, ℕ, ◌-◌, ◌==◌}
use askit_backend.Prelude.Int.{pos, ℤ, ◌+ℤ◌, ◌-ℤ◌}

abbrev pub max_points_per_question : ℕ
max_points_per_question = 1000

abbrev pub min_points_per_question : ℕ
min_points_per_question = 100

module _ ⦃floats : Floats⦄ where
  open floats use {Float, of_int, true_div, sub, mul, max, trunc}

  unfoldable pub time_factor : ℤ → ℕ → Float
  time_factor time_taken_ms time_limit_ms =
      max (of_int (pos 0)) (sub (of_int (pos 1)) (true_div time_taken_ms (pos time_limit_ms)))

  unfoldable pub speed_bonus : ℤ → ℕ → ℤ
  speed_bonus time_taken_ms time_limit_ms = trunc (
      mul (of_int (pos (max_points_per_question - min_points_per_question)))
        (time_factor time_taken_ms time_limit_ms))

  -- Only a correct answer divides by the limit, so only there does a limit of 0 raise.
  unfoldable pub calculate_score : ℤ → ℕ → Bool → Result ℤ
  calculate_score time_taken_ms time_limit_ms false = ok (pos 0)
  calculate_score time_taken_ms time_limit_ms true =
      if time_limit_ms == 0
      then err zero_division
      else ok (pos min_points_per_question +ℤ speed_bonus time_taken_ms time_limit_ms)

  -- `int((now - start).total_seconds() * 1000)`
  unfoldable pub elapsed_ms : Time → Time → ℤ
  elapsed_ms now start =
      trunc (mul (true_div (pos now -ℤ pos start) (pos 1_000_000)) (of_int (pos 1000)))
