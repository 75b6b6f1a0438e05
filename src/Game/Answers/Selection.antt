-- ===== src/Game/Answers/Selection.antt =====
-- `submitted_ids == correct_answer_ids` of `submit_answer`, the comparison of two sets of ids.
use askit_backend.Game.Answers.Check.{is_subset, same_set}
use askit_backend.Prelude.{All, List, String, [], arith, refl, true, ◌↔◌, ◌∷◌, ◌≡◌}
use askit_backend.Prelude.Listed.{IsListed, any-IsListed}

-- The same ids, in whatever order and as often as may be.
abbrev pub SameIds : List String → List String → Type 0
SameIds xs ys = All (λ x. IsListed x ys) xs × All (λ y. IsListed y xs) ys

is_subset-IsListed : (xs ys : List String) → (is_subset xs ys ≡ true) ↔ All (λ x. IsListed x ys) xs
is_subset-IsListed [] ys = (λ _. tt, λ _. refl)
is_subset-IsListed (x ∷ xs) ys =
    let rest = is_subset-IsListed xs ys in
    let first = any-IsListed x ys in
    (
      λ h. (first.0 (ground (arith, h)), rest.0 (ground (arith, h))),
      λ h. ground (arith, first.1 h.0, rest.1 h.1),
    )

pub same_set-SameIds : (xs ys : List String) → (same_set xs ys ≡ true) ↔ SameIds xs ys
unfolding same_set
same_set-SameIds xs ys =
    let there = is_subset-IsListed xs ys in
    let back = is_subset-IsListed ys xs in
    (
      λ h. (there.0 (ground (arith, h)), back.0 (ground (arith, h))),
      λ h. ground (arith, there.1 h.0, back.1 h.1),
    )
