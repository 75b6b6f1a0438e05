-- ===== src/Examples/Accounts.antt =====
-- The theorems on accounts, tokens and the history of games at the scene.
use askit_backend.Auth.{
  JwtPayload, create_access_token, create_refresh_token, decode, get_current_user,
  refresh_token_lifetime, verify_refresh_token,
}
use askit_backend.Auth.AutoRefresh.{auto_refresh, auto_refresh-get_current_user}
use askit_backend.Auth.Checks.{payload_of}
use askit_backend.Auth.Sessions.{
  Cookies, Request, change_password_of, deactivate, is_refresh_token_blacklisted, issue, login,
  refresh, register,
}
use askit_backend.Auth.Sessions.Entry.{login-register}
use askit_backend.Auth.Sessions.Lockout.{Attempt, login-try_all, try_all}
use askit_backend.Auth.Sessions.Revocation.{change_password_of_revokes}
use askit_backend.Auth.Sessions.Rotation.{passed, refresh_once, spend}
use askit_backend.Examples.Scene.{ada, bob, host, lobby, room_session, str, waiting_room}
use askit_backend.Exec.{account_locked, err, ok, token_expired, token_revoked}
use askit_backend.External.Memory.{
  memory, plain_hashes, plain_jwt, plain_texts, strict_fields, two_secrets, whole_floats,
}
use askit_backend.Game.History.{GameHistoryOut, as_host, get_game_history}
use askit_backend.Game.History.Roles.{FitsRole, get_game_history-FitsRole}
use askit_backend.Game.Play.{State}
use askit_backend.Models.{Db, Time, finished}
use askit_backend.Prelude.{
  All, List, String, [], any, arith, false, len, length, none, refl, some, true, ◌↔◌, ◌∷◌, ◌≡◌, ◌≤◌,
  ◌⊎◌,
}
use askit_backend.Prelude.Sorting.{sort_by}
use askit_backend.Users.{change_password, create_user, new_user, user_to_response}
use askit_backend.Users.Validators.{
  Digits, ascii_letter, between, codes, symbol, validate_password, validate_password_iff,
}

abbrev now_and : Request
now_and = record { now = 10; access_jti = "a"; refresh_jti = "b" }

abbrev soon : Request
soon = record { now = 20; access_jti = "c"; refresh_jti = "d" }

abbrev address : String
address = "host@example.org"

abbrev wrong_attempt : Attempt
wrong_attempt = record { request = now_and; email = address; password = "guess" }

-- The same address with a capital letter, under which no user is found.
abbrev respelled : Attempt
respelled = record { request = now_and; email = "host@exAmple.org"; password = "guess" }

abbrev ten : List Attempt
ten =
    wrong_attempt ∷ respelled ∷ wrong_attempt ∷ respelled ∷ wrong_attempt ∷ respelled
    ∷ wrong_attempt ∷ respelled ∷ wrong_attempt ∷ respelled ∷ []

login-try_all_example :
    login soon "host@exAmple.org" "hash" (try_all ten waiting_room)
    ≡ (err account_locked, try_all ten waiting_room)
login-try_all_example =
    login-try_all ten soon "host@exAmple.org" "hash" waiting_room 0 refl
      (
        (refl, refl),
        (
          (refl, tt),
          (
            (refl, refl),
            (
              (refl, tt),
              (
                (refl, refl),
                ((refl, tt), ((refl, refl), ((refl, tt), ((refl, refl), ((refl, tt), tt))))),
              ),
            ),
          ),
        ),
      )
      (omega arith)

login-register_example :
    (login soon "new@example.org" "secret"
      (register now_and 2 3 "new" "new@example.org" "secret" waiting_room).1).0
    ≡ ok (user_to_response (new_user 2 3 10 "new" "new@example.org" "secret"), issue soon 2 0)
unfolding register create_user
login-register_example =
    login-register now_and soon 2 3 "new" "new@example.org" "secret" waiting_room 0 refl refl
      (omega arith)

abbrev old_token : plain_jwt.Token
old_token = create_refresh_token 5 "r" (str 1) 0

abbrev pair : Cookies
pair = issue now_and 1 0

-- Three seconds later.
abbrev in_a_while : Request
in_a_while = record { now = 3_000_010; access_jti = "c"; refresh_jti = "d" }

refresh_once_example :
    (refresh in_a_while (some old_token) (passed 3 (spend old_token waiting_room))
      ≡ (err token_revoked, passed 3 (spend old_token waiting_room)))
    ⊎ ((604800 ≤ 3)
        × (refresh in_a_while (some old_token) (passed 3 (spend old_token waiting_room))
            ≡ (err token_expired, passed 3 (spend old_token waiting_room))))
unfolding refresh decode
refresh_once_example =
    refresh_once 5 "r" (str 1) 0 now_and in_a_while 3 waiting_room {cookies = pair} (omega arith)
      (omega arith) refl

abbrev held : plain_jwt.Token
held = create_access_token 5 "h" (str 1) 0

abbrev old_claims : JwtPayload
old_claims = payload_of "refresh" 5 "r" (str 1) 0 refresh_token_lifetime

abbrev changed : State
changed = (change_password_of now_and (some held) 3 "hash" "new" waiting_room).1

change_password_of_revokes_example :
    (plain_hashes.verify "hash" host.password_hash ≡ true)
    × (get_current_user 30 (some held) changed.db ≡ err token_revoked)
    × (refresh soon (some old_token) changed ≡ (err token_revoked, changed))
unfolding change_password_of change_password get_current_user decode
change_password_of_revokes_example =
    change_password_of_revokes now_and (some held) 3 "hash" "new" waiting_room
      {cookies = issue now_and 1 1} {user = host} 30 held soon old_token old_claims refl refl refl
      refl refl refl

abbrev left : State
left = (deactivate now_and (some held) waiting_room).1

-- An hour later the access token has expired.
abbrev late : Time
late = 3_700_000_000

auto_refresh-get_current_user_example :
    (renewal : plain_jwt.Token) × (p : JwtPayload) × (some old_token ≡ some renewal)
    × (verify_refresh_token late renewal ≡ ok p)
    × (is_refresh_token_blacklisted renewal waiting_room ≡ false)
    × (plain_texts.parse_uuid p.sub ≡ some 1)
    × (p.ver ≡ host.token_version)
    × (host.is_active ≡ true)
unfolding auto_refresh get_current_user decode
auto_refresh-get_current_user_example =
    auto_refresh-get_current_user late "n" (some held) (some old_token) waiting_room
      {token = create_access_token late "n" (str 1) 0} {user = host} refl refl

instance abbrev ascii_digits : Digits
ascii_digits = record { is_decimal = between 48 57 }

validate_password_iff_example : (validate_password "abcdefg1!" ≡ ok "abcdefg1!") ↔ (
    (8 ≤ len "abcdefg1!")
    × (len "abcdefg1!" ≤ 128)
    × (any ascii_letter (codes "abcdefg1!") ≡ true)
    × (any (between 48 57) (codes "abcdefg1!") ≡ true)
    × (any symbol (codes "abcdefg1!") ≡ true))
validate_password_iff_example = validate_password_iff "abcdefg1!"

abbrev over : Db
over = record lobby {
  sessions = record room_session { status = finished } ∷ [];
  players = record ada { user_id = some 2 } ∷ bob ∷ [];
}

abbrev page : GameHistoryOut
page = record {
  items =
      record {
        session_id = str 41;
        room_code = "ROOM";
        quiz_id = str 11;
        quiz_title = "Sums";
        role = as_host;
        score = none;
        rank = none;
        total_players = 2;
        started_at = none;
        ended_at = none;
        status = finished;
      }
      ∷ [];
  total = 1;
}

get_game_history-FitsRole_example : (length page.items ≤ 2) × All FitsRole page.items
unfolding get_game_history sort_by
get_game_history-FitsRole_example = get_game_history-FitsRole over host 2 0 none {out = page} refl
