-- ===== src/Game/Board/Repeat.antt =====
-- A second call of `get_leaderboard`, on the ranking that the first one has kept.
use mathlib.Core.Bool.{true≢false}
use askit_backend.Exec.{ok}
use askit_backend.External.{Redis, Texts, get-set_same, prev_ranking, ranking}
use askit_backend.Game.Board.{by_score, get_leaderboard, new_ranking, rank_entries, rank_or}
use askit_backend.Game.Messages.{WsLeaderboardEntry}
use askit_backend.Game.Play.{State, session_key_ttl}
use askit_backend.Game.World.{Room, get_room}
use askit_backend.Models.{GamePlayer}
use askit_backend.Prelude.{
  All, Bool-cases, List, String, [], arith, beq_refl, false, inl, inr, nat_eq, refl, some,
  string_eq, suc, sym, ℕ, ◌==◌, ◌∙◌, ◌∷◌, ◌≡◌,
}
use askit_backend.Prelude.Int.{int_laws, pos}
use askit_backend.Prelude.Sorting.{insert_by, insert_by-All, sort_by, sort_by-All}

module _ ⦃texts : Texts⦄ where
  abbrev pub IsOther : GamePlayer → GamePlayer → Type 0
  IsOther p q = (texts.str p.player_id == texts.str q.player_id) ≡ false

  -- No two players share an id.
  abbrev pub IdsDistinct : List GamePlayer → Type 0
  IdsDistinct [] = Unit
  IdsDistinct (p ∷ players) = All (IsOther p) players × IdsDistinct players

  insert-IdsDistinct :
      (p : GamePlayer) (players : List GamePlayer)
      → All (IsOther p) players
      → IdsDistinct players
      → IdsDistinct (insert_by by_score p players)
  insert-IdsDistinct p [] a h = (tt, tt)
  insert-IdsDistinct p (q ∷ players) a h = elim (Bool-cases (by_score q p)) [
    | inl e ↦ rw e (
      insert_by-All by_score (IsOther q) p players (turned p q a.0) h.0,
      insert-IdsDistinct p players a.1 h.1,
    )
    | inr e ↦ rw e (a, h)
  ]
    where
      turned : (p q : GamePlayer) → IsOther p q → IsOther q p
      turned p q h = elim (Bool-cases (texts.str q.player_id == texts.str p.player_id)) [
        | inl e ↦
            absurd
              (true≢false (sym ((string_eq.beq_iff _ _).1 (sym ((string_eq.beq_iff _ _).0 e))) ∙ h))
        | inr e ↦ e
      ]

  sort-IdsDistinct :
      (players : List GamePlayer) → IdsDistinct players → IdsDistinct (sort_by by_score players)
  unfolding sort_by
  sort-IdsDistinct [] h = tt
  sort-IdsDistinct (p ∷ players) h =
      insert-IdsDistinct p (sort_by by_score players) (sort_by-All by_score (IsOther p) players h.0)
        (sort-IdsDistinct players h.1)

  -- The ranking knows each player's place from `rank` on.
  abbrev Knows : List (String × ℕ) → ℕ → List GamePlayer → Type 0
  Knows prev rank [] = Unit
  Knows prev rank (p ∷ players) =
      ((otherwise : ℕ) → rank_or prev (texts.str p.player_id) otherwise ≡ rank)
      × Knows prev (suc rank) players

  Knows-cons :
      (p : GamePlayer) (r : ℕ) (prev : List (String × ℕ)) (rank : ℕ) (players : List GamePlayer)
      → All (IsOther p) players
      → Knows prev rank players
      → Knows ((texts.str p.player_id, r) ∷ prev) rank players
  Knows-cons p r prev rank [] a h = tt
  Knows-cons p r prev rank (q ∷ players) a h =
      (λ otherwise. rw a.0 (h.0 otherwise), Knows-cons p r prev (suc rank) players a.1 h.1)

  new_ranking-Knows :
      (rank : ℕ) (players : List GamePlayer)
      → IdsDistinct players
      → Knows (new_ranking rank players) rank players
  unfolding new_ranking
  new_ranking-Knows rank [] h = tt
  new_ranking-Knows rank (p ∷ players) h = (
    λ otherwise. rw (beq_refl (texts.str p.player_id)) refl,
    Knows-cons p rank (new_ranking (suc rank) players) (suc rank) players h.0
        (new_ranking-Knows (suc rank) players h.1),
  )

  rank_entries-unchanged :
      (prev : List (String × ℕ)) (rank : ℕ) (players : List GamePlayer)
      → Knows prev rank players
      → All (λ (e : WsLeaderboardEntry). e.change ≡ pos 0) (rank_entries prev rank players)
  unfolding rank_entries
  rank_entries-unchanged prev rank [] h = tt
  rank_entries-unchanged prev rank (p ∷ players) h =
      (rw (h.0 rank) (omega int_laws), rank_entries-unchanged prev (suc rank) players h.1)

module _ ⦃redis : Redis⦄ ⦃texts : Texts⦄ where
  repeated :
      (room_code : String) (w : State) {room : Room}
      → get_room room_code w.db ≡ some room
      → (get_leaderboard room_code (get_leaderboard room_code w).1).0
        ≡ ok (
            rank_entries
              (new_ranking 1 (sort_by by_score room.players))
              1
              (sort_by by_score room.players))
  unfolding get_leaderboard
  repeated room_code w {room} found =
      let kept =
        get-set_same (prev_ranking room_code)
          (ranking (new_ranking 1 (sort_by by_score room.players))) session_key_ttl w.redis in
      ground (arith, kept)

  -- Whoever asks for the leaderboard of a room right after another call is told that no rank has
  -- changed, where no two players of the room share an id.
  pub get_leaderboard_forgets :
      (room_code : String) (w : State) {room : Room}
      → get_room room_code w.db ≡ some room
      → IdsDistinct room.players
      → (entries : List WsLeaderboardEntry) × ((get_leaderboard room_code
            (get_leaderboard room_code w).1).0
          ≡ ok entries)
        × All (λ (e : WsLeaderboardEntry). e.change ≡ pos 0) entries
  get_leaderboard_forgets room_code w {room} found distinct =
      let players = sort_by by_score room.players in
      (
        rank_entries (new_ranking 1 players) 1 players,
        repeated room_code w found,
        rank_entries-unchanged (new_ranking 1 players) 1 players
            (new_ranking-Knows 1 players (sort-IdsDistinct room.players distinct)),
      )
