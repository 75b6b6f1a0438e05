-- ===== src/Quizzes/Stats/Totals.antt =====
-- What the statistics of quizzes come to.
use Prim.Native.Nat.{min}
use askit_backend.External.{Floats}
use askit_backend.Models.{GamePlayer}
use askit_backend.Prelude.{
  All, All-map, Bool, List, String, [], ap, arith, length, length-append, length-take, map, refl,
  suc, take, take-All, zero, ℕ, ◌*◌, ◌+◌, ◌/◌, ◌∷◌, ◌≡◌, ◌≤◌,
}
use askit_backend.Prelude.Int.{+ℤ_parts, floor_div, neg_part, negsuc, pos, pos_part, ℤ, ◌≤ℤ◌}
use askit_backend.Prelude.Sorting.{
  IsSorted, length-sort_by, sort_by, sort_by-All_back, sort_by-IsSorted,
}
use askit_backend.Quizzes.Forms.{TopPlayerOut}
use askit_backend.Quizzes.Stats.{
  Played, all_players, average, by_top_score, players_out, stats_of, sum_ℤ, top_player, top_ten,
}

take-IsSorted :
    {A : Type 0} (before : A → A → Bool) (n : ℕ) (xs : List A)
    → IsSorted before xs
    → IsSorted before (take n xs)
take-IsSorted before zero xs h = tt
take-IsSorted before (suc n) [] h = tt
take-IsSorted before (suc n) (x ∷ xs) h = (take-All _ n xs h.0, take-IsSorted before n xs h.1)

length-map : {A B : Type 0} (f : A → B) (xs : List A) → length (map f xs) ≡ length xs
length-map f [] = refl
length-map f (x ∷ xs) = omega (arith, length-map f xs)

length-players_out :
    (sessions : List Played) → length (players_out sessions) ≡ length (all_players sessions)
length-players_out [] = refl
length-players_out ((s, players) ∷ sessions) = omega (
  arith,
  length-append (map (top_player s) players) (players_out sessions),
  length-append players (all_players sessions),
  length-map (top_player s) players,
  length-players_out sessions,
)

-- A whole quotient of a sum of n numbers is at most what bounds each of them.
scaled : (a k n : ℕ) → a ≤ suc n * k → a / suc n ≤ k
scaled a k n h = grind arith

scaled_below : (a k n : ℕ) → suc n * suc k ≤ suc a → k ≤ a / suc n
scaled_below a k n h = grind arith

-- The quotient of a sum by the number of its terms is at most what bounds them.
floor_div-le :
    (a m : ℤ) (n : ℕ)
    → pos_part a + suc n * neg_part m ≤ neg_part a + suc n * pos_part m
    → floor_div a (suc n) ≤ℤ m
floor_div-le (pos a) (pos m) n h = omega (arith, scaled a m n (omega arith))
floor_div-le (pos a) (negsuc m) n h = absurd (grind arith)
floor_div-le (negsuc a) (pos m) n h = omega arith
floor_div-le (negsuc a) (negsuc m) n h = omega (arith, scaled_below a m n (omega arith))

sum_ℤ-le :
    (m : ℤ) (ns : List ℤ)
    → All (λ n. n ≤ℤ m) ns
    → pos_part (sum_ℤ ns) + length ns * neg_part m ≤ neg_part (sum_ℤ ns) + length ns * pos_part m
sum_ℤ-le m [] h = omega arith
sum_ℤ-le m (n ∷ ns) h = grind (arith, +ℤ_parts n (sum_ℤ ns), sum_ℤ-le m ns h.1, h.0)

average-le : (m n : ℤ) (ns : List ℤ) → All (λ k. k ≤ℤ m) (n ∷ ns) → average (n ∷ ns) ≤ℤ m
average-le m n ns h = floor_div-le (sum_ℤ (n ∷ ns)) m (length ns) (sum_ℤ-le m (n ∷ ns) h)

scores_bounded :
    (m : ℤ) (sessions : List Played)
    → All (λ (t : TopPlayerOut). t.score ≤ℤ m) (players_out sessions)
    → All (λ k. k ≤ℤ m) (map (λ (p : GamePlayer). p.score) (all_players sessions))
scores_bounded m [] h = tt
scores_bounded m ((s, []) ∷ sessions) h = scores_bounded m sessions h
scores_bounded m ((s, p ∷ players) ∷ sessions) h =
    (h.0, scores_bounded m ((s, players) ∷ sessions) h.1)

top_ten-IsSorted : (sessions : List Played) → IsSorted by_top_score (top_ten sessions)
top_ten-IsSorted sessions = take-IsSorted by_top_score 10 _ (
    sort_by-IsSorted by_top_score (λ x y h. ground arith) (λ x y z h k. ground arith)
      (players_out sessions))

length-top_ten :
    (sessions : List Played) → length (top_ten sessions) ≡ min 10 (length (all_players sessions))
length-top_ten sessions = omega (
  arith,
  length-take 10 (sort_by by_top_score (players_out sessions)),
  length-sort_by by_top_score (players_out sessions),
  length-players_out sessions,
)

someone :
    (sessions : List Played) {best : TopPlayerOut} {rest : List TopPlayerOut}
    → top_ten sessions ≡ best ∷ rest
    → 1 ≤ length (all_players sessions)
someone sessions {best} {rest} h =
    let few : length (top_ten sessions) ≡ suc (length rest) = ap length h in
    omega (arith, few, length-top_ten sessions)

first_of :
    (xs : List TopPlayerOut) {best : TopPlayerOut} {rest : List TopPlayerOut}
    → IsSorted by_top_score xs
    → take 10 xs ≡ best ∷ rest
    → All (λ (t : TopPlayerOut). t.score ≤ℤ best.score) xs
first_of [] sorted h = tt
first_of (x ∷ xs) {best} sorted h =
    let same : x ≡ best = ground (arith, h) in
    rw⁻¹ same (omega arith, All-map _ _ xs (λ t k. ground (arith, k)) sorted.0)

-- The first of the top players has at least the score of every player.
best_of_players :
    (sessions : List Played) (best : TopPlayerOut) (rest : List TopPlayerOut)
    → top_ten sessions ≡ best ∷ rest
    → All (λ (t : TopPlayerOut). t.score ≤ℤ best.score) (players_out sessions)
best_of_players sessions best rest h = sort_by-All_back by_top_score _ (players_out sessions) (
    first_of (sort_by by_top_score (players_out sessions))
      (sort_by-IsSorted by_top_score (λ x y h. ground arith) (λ x y z h k. ground arith)
        (players_out sessions))
      h)

nonempty_average : (m : ℤ) (ns : List ℤ) → 1 ≤ length ns → All (λ k. k ≤ℤ m) ns → average ns ≤ℤ m
nonempty_average m [] nonempty h = absurd (omega arith)
nonempty_average m (n ∷ ns) nonempty h = average-le m n ns h

average_of_players-le :
    (m : ℤ) (sessions : List Played)
    → 1 ≤ length (all_players sessions)
    → All (λ (t : TopPlayerOut). t.score ≤ℤ m) (players_out sessions)
    → average (map (λ (p : GamePlayer). p.score) (all_players sessions)) ≤ℤ m
average_of_players-le m sessions nonempty h =
    nonempty_average m (map (λ (p : GamePlayer). p.score) (all_players sessions))
      (omega (arith, nonempty, length-map (λ (p : GamePlayer). p.score) (all_players sessions)))
      (scores_bounded m sessions h)

module _ ⦃floats : Floats⦄ where
  -- Where anyone has played, the top players are ten, or all players where these are fewer, in order of
  -- descending scores, and the average score is at most the best player's.
  pub stats_of-top_players :
      (quiz_id : String) (sessions : List Played) {best : TopPlayerOut} {rest : List TopPlayerOut}
      → (stats_of quiz_id sessions).top_players ≡ best ∷ rest
      → (length (stats_of quiz_id sessions).top_players
          ≡ min 10 (stats_of quiz_id sessions).total_players)
        × IsSorted by_top_score (stats_of quiz_id sessions).top_players
        × ((stats_of quiz_id sessions).average_score ≤ℤ best.score)
  stats_of-top_players quiz_id sessions {best} {rest} h = (
    length-top_ten sessions,
    top_ten-IsSorted sessions,
    average_of_players-le best.score sessions (someone sessions h)
        (best_of_players sessions best rest h),
  )
