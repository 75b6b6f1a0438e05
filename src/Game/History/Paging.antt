-- ===== src/Game/History/Paging.antt =====
-- The pages of a game history.
use askit_backend.Exec.{Result-cases, ok}
use askit_backend.External.{Texts}
use askit_backend.Game.History.{GameHistoryOut, GameRole, get_game_history, history_of}
use askit_backend.Models.{Db, User}
use askit_backend.Prelude.{
  List, Option, [], ap, arith, drop, inl, inr, length, refl, suc, sym, take, zero, ℕ, ◌++◌, ◌+◌,
  ◌∙◌, ◌∷◌, ◌≡◌,
}

drop_none : {A : Type 0} (n : ℕ) → drop {A = A} n [] ≡ []
drop_none zero = refl
drop_none (suc n) = refl

take_none : {A : Type 0} (n : ℕ) → take {A = A} n [] ≡ []
take_none zero = refl
take_none (suc n) = refl

drop-drop : {A : Type 0} (m n : ℕ) (xs : List A) → drop n (drop m xs) ≡ drop (m + n) xs
drop-drop zero n xs = ap (λ k. drop k xs) (omega arith)
drop-drop (suc m) n [] = drop_none n ∙ sym (drop_none (suc m + n))
drop-drop (suc m) n (x ∷ xs) =
    let e : suc m + n ≡ suc (m + n) = omega arith in
    drop-drop m n xs ∙ ap (λ k. drop k (x ∷ xs)) (sym e)

take-add : {A : Type 0} (m n : ℕ) (xs : List A) → take (m + n) xs ≡ take m xs ++ take n (drop m xs)
take-add zero n xs = ap (λ k. take k xs) (omega arith)
take-add (suc m) n [] = take_none (suc m + n) ∙ sym (take_none n)
take-add (suc m) n (x ∷ xs) =
    let e : suc m + n ≡ suc (m + n) = omega arith in
    ap (λ k. take k (x ∷ xs)) e ∙ ap (λ l. x ∷ l) (take-add m n xs)

module _ ⦃texts : Texts⦄ where
  -- Two pages that follow each other are one page of both sizes, and all pages give the same total.
  pub get_game_history-pages :
      (db : Db) (user : User) (m n offset : ℕ) (role : Option GameRole) {out : GameHistoryOut}
      → get_game_history db user (m + n) offset role ≡ ok out
      → (first second : GameHistoryOut) × (get_game_history db user m offset role ≡ ok first)
        × (get_game_history db user n (offset + m) role ≡ ok second)
        × (out.items ≡ first.items ++ second.items)
        × (first.total ≡ out.total)
        × (second.total ≡ out.total)
  unfolding get_game_history
  get_game_history-pages db user m n offset role {out} h =
      elim (Result-cases (history_of db user role)) [
        | inr (e, failed) ↦ absurd (ground (arith, h, failed))
        | inl (items, e) ↦
            let whole : out
                ≡ record { items = take (m + n) (drop offset items); total = length items } =
              ground (arith, h, e) in
            (
              record { items = take m (drop offset items); total = length items },
              record { items = take n (drop (offset + m) items); total = length items },
              rw e refl,
              rw e refl,
              ap (λ (o : GameHistoryOut). o.items) whole
                  ∙ take-add m n (drop offset items)
                  ∙ ap (λ l. take m (drop offset items) ++ take n l) (drop-drop offset m items),
              sym (ap (λ (o : GameHistoryOut). o.total) whole),
              sym (ap (λ (o : GameHistoryOut). o.total) whole),
            )
      ]
