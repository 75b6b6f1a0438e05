-- ===== src/Game/Handlers/Ending.antt =====
-- The end of a game that the host keeps going on with.
pub mod Stock
pub mod Presses
pub mod Games
pub mod Starts
use askit_backend.Game.Handlers.Course.{
  Event, host_goes_on, host_starts, player_answers, timer_wakes,
}
use askit_backend.Game.Handlers.Progress.{is_finished, turn}
use askit_backend.Game.Play.{mark_question, set_status}
use askit_backend.Game.World.{find_in_quizzes, find_question}
use askit_backend.Models.{Db, GameSession, Uuid, question, revealing}
use askit_backend.Prelude.{
  All, List, [], ap, arith, get_elem?, inl, inr, length, refl, some, some-injective, subst, suc,
  true, zero, ℕ, ◌+◌, ◌<◌, ◌∷◌, ◌≡◌, ◌≤◌, ◌⊎◌,
}

abbrev pub presses : List Event → ℕ
presses [] = 0
presses (host_starts ambient host_id ∷ es) = presses es
presses (host_goes_on ambient ∷ es) = suc (presses es)
presses (timer_wakes ambient i ∷ es) = presses es
presses (player_answers now player_id question_id answer_ids ∷ es) = presses es

-- A game of `n` questions that runs or reveals one of them.
abbrev pub IsRunning : ℕ → GameSession → Type 0
IsRunning n s =
    ((s.status ≡ question) ⊎ (s.status ≡ revealing))
    × (1 ≤ s.current_question_index)
    × (s.current_question_index ≤ n)

-- At most `k` steps of the host from the end.
abbrev pub Near : ℕ → ℕ → GameSession → Type 0
Near n k s =
    (is_finished s.status ≡ true)
    ⊎ (IsRunning n s × (n + n + 2 ≤ turn s.status s.current_question_index + k))

pub Near-over : (n : ℕ) (s : GameSession) → Near n 0 s → is_finished s.status ≡ true
Near-over n s (inl over) = over
Near-over n s (inr ((inl e, least, most), far)) = absurd (ground arith)
Near-over n s (inr ((inr e, least, most), far)) = absurd (ground arith)

pub Near-less : (n k : ℕ) (s : GameSession) → Near n k s → Near n (suc k) s
Near-less n k s (inl over) = inl over
Near-less n k s (inr (runs, far)) = inr (runs, omega arith)

pub Near-reveal :
    (n k : ℕ) (s : GameSession)
    → s.status ≡ question
    → Near n (suc k) s
    → Near n k (set_status revealing s)
Near-reveal n k s e (inl over) = absurd (ground arith)
Near-reveal n k s e (inr (runs, far)) = inr ((inr refl, runs.1, runs.2), ground arith)

pub Near-timed :
    (n k : ℕ) (s : GameSession)
    → s.status ≡ question
    → Near n k s
    → Near n k (set_status revealing s)
Near-timed n k s e (inl over) = absurd (ground arith)
Near-timed n k s e (inr (runs, far)) = inr ((inr refl, runs.1, runs.2), ground arith)

pub Near-ask :
    (n k : ℕ) (s : GameSession)
    → s.status ≡ revealing
    → s.current_question_index + 1 ≤ n
    → Near n (suc k) s
    → Near n k (mark_question (s.current_question_index + 1) s)
Near-ask n k s e inside (inl over) = absurd (ground arith)
Near-ask n k s e inside (inr (runs, far)) = inr ((inl refl, omega arith, inside), ground arith)

pub get_elem?-inside {ℓ} :
    {A : Type ℓ} (xs : List A) (i : ℕ) → i < length xs → (a : A) × (get_elem? xs i ≡ some a)
get_elem?-inside [] i h = absurd (omega arith)
get_elem?-inside (x ∷ xs) zero h = (x, refl)
get_elem?-inside (x ∷ xs) (suc i) h = get_elem?-inside xs i (omega arith)

pub All-get_elem? {ℓ κ} :
    {A : Type ℓ} (P : A → Type κ) (xs : List A) (i : ℕ) {a : A}
    → All P xs
    → get_elem? xs i ≡ some a
    → P a
All-get_elem? P [] i h e = absurd (ground arith)
All-get_elem? P (x ∷ xs) zero h e = subst P (some-injective _ _ e) h.0
All-get_elem? P (x ∷ xs) (suc i) h e = All-get_elem? P xs i h.1 e

pub find_question-same :
    (id : Uuid) (db db' : Db)
    → db'.quizzes ≡ db.quizzes
    → find_question id db' ≡ find_question id db
unfolding find_question
find_question-same id db db' e = ap (find_in_quizzes id) e
