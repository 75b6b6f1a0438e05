-- ===== src/Game/Admission.antt =====
-- The admission checks of the two WebSocket endpoints of app/game/router.py.
pub mod Checks
use askit_backend.External.{Redis, Texts, Value, count, ids, ranking, time, word, ws_token}
use askit_backend.Game.Play.{State, redis_set}
use askit_backend.Game.World.{Room, get_room}
use askit_backend.Models.{Db, GamePlayer, User, Uuid}
use askit_backend.Prelude.{
  Bool, List, Option, String, any, false, find?, if◌then◌else◌, nat_eq, none, not, some, string_eq,
  ℕ, ◌&&◌, ◌==◌,
}

-- The close codes of the refusals, or what the connection is admitted as.
pub data Admission (A : Type 0) : Type 0 where
  close : ℕ → Admission A
  admit : A → Admission A

-- `origin and origin not in ENV_SETTINGS.cors_origins_list`
unfoldable pub is_foreign_origin : List String → Option String → Bool
is_foreign_origin allowed none = false
is_foreign_origin allowed (some origin) = not (origin == "") && not (any (λ o. o == origin) allowed)

-- A cookie that is missing or empty.
abbrev cookie : Option String → Option String
cookie none = none
cookie (some text) = if text == "" then none else some text

abbrev pub as_word : Option Value → Option String
as_word (some (word x)) = some x
as_word (some (ids l)) = none
as_word (some (time t)) = none
as_word (some (ranking l)) = none
as_word (some (count n)) = none
as_word none = none

module _ ⦃redis : Redis⦄ ⦃texts : Texts⦄ where
  -- `create_ws_token` of app/core/security.py; `token` is the text of a fresh UUID.
  unfoldable pub create_ws_token : String → String → State → State
  create_ws_token token player_id = redis_set (ws_token token) (word player_id) 14400

  unfoldable pub verify_ws_token : String → State → Option String
  verify_ws_token token w = as_word (redis.get w.redis (ws_token token))

  abbrev pub admit_to : Option Room → String → Admission GamePlayer
  admit_to none player_id = close 4004
  admit_to (some room) player_id =
      elim (find? (λ (p : GamePlayer). texts.str p.player_id == player_id) room.players) [
        | none ↦ close 4004
        | some p ↦ admit p
      ]

  abbrev pub admit_token : String → Option String → State → Admission GamePlayer
  admit_token room_code none w = close 4001
  admit_token room_code (some player_id) w = admit_to (get_room room_code w.db) player_id

  abbrev admit_cookie : String → Option String → State → Admission GamePlayer
  admit_cookie room_code none w = close 4001
  admit_cookie room_code (some token) w = admit_token room_code (verify_ws_token token w) w

  -- The checks of `websocket_player_endpoint`.
  unfoldable pub admit_player :
      List String → Option String → Option String → String → State → Admission GamePlayer
  admit_player allowed origin token room_code w =
      if is_foreign_origin allowed origin
      then close 4003
      else admit_cookie room_code (cookie token) w

  abbrev pub admit_host_of : Option Room → User → Admission User
  admit_host_of none user = close 4004
  admit_host_of (some room) user =
      if room.session.host_id == user.id then admit user else close 4003

  abbrev pub admit_user : String → Option User → State → Admission User
  admit_user room_code none w = close 4001
  admit_user room_code (some user) w =
      if user.is_active then admit_host_of (get_room room_code w.db) user else close 4001

  abbrev pub find_user : Uuid → Db → Option User
  find_user id db = find? (λ (u : User). u.id == id) db.users

  -- `subject` is the `sub` claim of the token, and `none` where the token does not verify, has no
  -- subject, or one that is no UUID.
  abbrev pub admit_subject : String → Option Uuid → State → Admission User
  admit_subject room_code none w = close 4001
  admit_subject room_code (some id) w = admit_user room_code (find_user id w.db) w

  -- The checks of `websocket_host_endpoint`; `verify` is `jwt_service.verify_access_token` with the
  -- reading of the subject as a UUID.
  unfoldable pub admit_host :
      (String → Option Uuid)
      → List String
      → Option String
      → Option String
      → String
      → State
      → Admission User
  admit_host verify allowed origin token room_code w =
      if is_foreign_origin allowed origin
      then close 4003
      else elim (cookie token) [ none ↦ close 4001 | some t ↦ admit_subject room_code (verify t) w ]
