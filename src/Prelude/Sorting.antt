-- ===== src/Prelude/Sorting.antt =====
-- Python's `sorted(xs, key=…)`: a stable sort. `before x y` says that `x` must precede `y`; where
-- neither precedes the other, the order of the list is kept.
use Prim.Native.Nat.{suc}
use mathlib.Core.Path.{◌≡◌, refl, ap, ◌∙◌}
use native.Mathlib.Omega.{arith}
use mathlib.Core.Logic.{inl, inr}
use mathlib.Core.Bool.{Bool, true, false}
use mathlib.Core.List.{List, [], ◌∷◌, Perm}
use mathlib.Core.List.Perm
use askit_backend.Prelude.Tests.{if◌then◌else◌, Bool-cases}
use askit_backend.Prelude.Lists.{All, All-map, any, length}

module _ {ℓ} {A : Type ℓ} where
  -- A new element stands in front of what it need not follow.
  abbrev pub insert_by : (A → A → Bool) → A → List A → List A
  insert_by before x [] = x ∷ []
  insert_by before x (y ∷ ys) = if before y x then y ∷ insert_by before x ys else x ∷ y ∷ ys

  unfoldable pub sort_by : (A → A → Bool) → List A → List A
  sort_by before [] = []
  sort_by before (x ∷ xs) = insert_by before x (sort_by before xs)

  -- No element must precede one that stands before it.
  abbrev pub IsSorted : (A → A → Bool) → List A → Type ℓ
  IsSorted before [] = Unit
  IsSorted before (x ∷ xs) = All (λ y. before y x ≡ false) xs × IsSorted before xs

  insert_by-perm :
      (before : A → A → Bool) (x : A) (xs : List A) → Perm (insert_by before x xs) (x ∷ xs)
  insert_by-perm before x [] = Perm.refl _
  insert_by-perm before x (y ∷ ys) = elim (Bool-cases (before y x)) [
    | inl e ↦ rw e (Perm.trans (Perm.cons y (insert_by-perm before x ys)) (Perm.swap _ _ _))
    | inr e ↦ rw e (Perm.refl _)
  ]

  pub sort_by-perm : (before : A → A → Bool) (xs : List A) → Perm (sort_by before xs) xs
  unfolding sort_by
  sort_by-perm before [] = Perm.refl _
  sort_by-perm before (x ∷ xs) =
      Perm.trans (insert_by-perm before x (sort_by before xs))
        (Perm.cons x (sort_by-perm before xs))

  length-insert_by :
      (before : A → A → Bool) (x : A) (xs : List A)
      → length (insert_by before x xs) ≡ suc (length xs)
  length-insert_by before x [] = refl
  length-insert_by before x (y ∷ ys) = ground (arith, length-insert_by before x ys)

  pub length-sort_by :
      (before : A → A → Bool) (xs : List A) → length (sort_by before xs) ≡ length xs
  unfolding sort_by
  length-sort_by before [] = refl
  length-sort_by before (x ∷ xs) =
      length-insert_by before x (sort_by before xs) ∙ ap suc (length-sort_by before xs)

  -- What holds of all elements still does once they are sorted.
  pub insert_by-All :
      (before : A → A → Bool) (P : A → Type 0) (x : A) (xs : List A)
      → P x
      → All P xs
      → All P (insert_by before x xs)
  insert_by-All before P x [] p h = (p, tt)
  insert_by-All before P x (y ∷ ys) p h = elim (Bool-cases (before y x)) [
    | inl e ↦ rw e (h.0, insert_by-All before P x ys p h.1)
    | inr e ↦ rw e (p, h)
  ]

  pub sort_by-All :
      (before : A → A → Bool) (P : A → Type 0) (xs : List A) → All P xs → All P (sort_by before xs)
  unfolding sort_by
  sort_by-All before P [] h = tt
  sort_by-All before P (x ∷ xs) h =
      insert_by-All before P x (sort_by before xs) h.0 (sort_by-All before P xs h.1)

  insert_by-All_back :
      (before : A → A → Bool) (P : A → Type 0) (x : A) (xs : List A)
      → All P (insert_by before x xs)
      → P x × All P xs
  insert_by-All_back before P x [] h = h
  insert_by-All_back before P x (y ∷ ys) h = elim (Bool-cases (before y x)) [
    | inl e ↦
        let (hy, rest) = (rw e at h) in
        let (hx, hys) = insert_by-All_back before P x ys rest in (hx, (hy, hys))
    | inr e ↦ rw e at h
  ]

  pub sort_by-All_back :
      (before : A → A → Bool) (P : A → Type 0) (xs : List A) → All P (sort_by before xs) → All P xs
  unfolding sort_by
  sort_by-All_back before P [] h = tt
  sort_by-All_back before P (x ∷ xs) h =
      let (hx, rest) = insert_by-All_back before P x (sort_by before xs) h in
      (hx, sort_by-All_back before P xs rest)

  insert_by-any :
      (before : A → A → Bool) (p : A → Bool) (x : A) (xs : List A)
      → any p (x ∷ xs) ≡ true
      → any p (insert_by before x xs) ≡ true
  insert_by-any before p x [] h = h
  insert_by-any before p x (y ∷ ys) h = ground (arith, h, insert_by-any before p x ys)

  pub sort_by-any :
      (before : A → A → Bool) (p : A → Bool) (xs : List A)
      → any p xs ≡ true
      → any p (sort_by before xs) ≡ true
  unfolding sort_by
  sort_by-any before p [] h = h
  sort_by-any before p (x ∷ xs) h =
      insert_by-any before p x (sort_by before xs) (ground (arith, h, sort_by-any before p xs))

  -- A sorted list stays as it is.
  insert_by-first :
      (before : A → A → Bool) (x : A) (xs : List A)
      → All (λ y. before y x ≡ false) xs
      → insert_by before x xs ≡ x ∷ xs
  insert_by-first before x [] h = refl
  insert_by-first before x (y ∷ ys) h = rw h.0

  pub sort_by-of_IsSorted :
      (before : A → A → Bool) (xs : List A) → IsSorted before xs → sort_by before xs ≡ xs
  unfolding sort_by
  sort_by-of_IsSorted before [] h = refl
  sort_by-of_IsSorted before (x ∷ xs) h =
      rw (sort_by-of_IsSorted before xs h.1) (insert_by-first before x xs h.0)

module _ {ℓ} {A : Type ℓ} (before : A → A → Bool)
    (asym : (x y : A) → before x y ≡ true → before y x ≡ false)
    (trans : (x y z : A) → before y x ≡ false → before z y ≡ false → before z x ≡ false) where
  insert_by-IsSorted :
      (x : A) (xs : List A) → IsSorted before xs → IsSorted before (insert_by before x xs)
  insert_by-IsSorted x [] h = (tt, tt)
  insert_by-IsSorted x (y ∷ ys) h = elim (Bool-cases (before y x)) [
    | inl e ↦ rw e (
      insert_by-All before (λ z. before z y ≡ false) x ys (asym y x e) h.0,
      insert_by-IsSorted x ys h.1,
    )
    | inr e ↦ rw e ((e, All-map _ _ ys (λ z. trans x y z e) h.0), h)
  ]

  pub sort_by-IsSorted : (xs : List A) → IsSorted before (sort_by before xs)
  unfolding sort_by
  sort_by-IsSorted [] = tt
  sort_by-IsSorted (x ∷ xs) = insert_by-IsSorted x (sort_by before xs) (sort_by-IsSorted xs)
