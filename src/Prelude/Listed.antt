-- ===== src/Prelude/Listed.antt =====
-- Texts that stand in a list.
use Prim.Native.String.{String}
use mathlib.Core.Path.{◌≡◌}
use mathlib.Core.Bool.{true}
use mathlib.Core.Logic.{inl, inr, ◌↔◌, ◌⊎◌}
use mathlib.Core.List.{List, [], ◌∷◌}
use native.Mathlib.Omega.{arith}
use askit_backend.Prelude.Tests.{Bool-cases, ◌==◌, string_eq}
use askit_backend.Prelude.Lists.{any}

abbrev pub IsListed : String → List String → Type 0
IsListed x [] = ⊥
IsListed x (y ∷ xs) = (y ≡ x) ⊎ IsListed x xs

pub any-IsListed : (x : String) (xs : List String) → (any (λ y. y == x) xs ≡ true) ↔ IsListed x xs
any-IsListed x [] = (λ h. absurd (ground (arith, h)), λ h. absurd h)
any-IsListed x (y ∷ xs) =
    let rest = any-IsListed x xs in
    (
      λ h. elim (Bool-cases (y == x)) [
        | inl e ↦ inl ((string_eq.beq_iff y x).0 e)
        | inr e ↦ inr (rest.0 (ground (arith, h, e)))
      ],
      λ h. elim h [
        | inl e ↦ ground (arith, (string_eq.beq_iff y x).1 e)
        | inr there ↦ ground (arith, rest.1 there)
      ],
    )
