-- ===== src/Lib.antt =====
-- A model of the quiz backend, app/ in this repository, and proofs of what makes it correct.
--
-- The program is a web service for live quizzes. A host opens a room for one of its published
-- quizzes (`create_room`), players join it (`join_room`), the host starts the game, and the players
-- answer timed questions over WebSockets. Rooms, players and answers are rows of a database; the
-- order of questions, the start of the running one, the set of those who have answered it and the
-- last ranking are kept in Redis; messages go out through a connection manager. Around the games,
-- users register, log in and hold access and refresh tokens (`app/auth`, `app/user`), and write the
-- quizzes that they own (`app/quiz`).
--
-- The files and the code they model:
--   Prelude            tests, lists, integers, a stable sort and dictionaries that all files share
--   Exec, Reading      exceptions (app/game/exceptions.py) and the monads of fallible code: `Exec`
--                      keeps the state that a raise leaves, `Reading` is code that only reads
--   Models             the tables of app/models, as lists of records in `Db`
--   External           Redis, functions on texts, pydantic's text fields and floating point numbers as
--                      interfaces with the laws that the code relies on; External/Tokens has those
--                      of JWT and password hashing, External/Memory instances of them all
--   Game/Messages      app/game/schemas.py, the payloads of messages
--   Game/World         the state of the handlers and `get_room`
--   Game/Score         `calculate_score`
--   Game/Rooms         `create_room` and `join_room`
--   Game/Play          `start_game`, `get_current_question`, `advance_to_question` and
--                      `build_question_message`
--   Game/Answers       `submit_answer`: Check reads, the parent writes; Overlap has the load of a
--                      player and the commit as two steps
--   Game/Board         the leaderboard, the distribution of answers and the final results
--   Game/RoomState     `build_room_state`
--   Game/Handlers      the handlers of app/game/router.py that run a game; Course has its events
--   Game/Clients       the handlers of client messages
--   Game/Admission     the checks of both WebSocket endpoints
--   Game/Connections   app/game/connection_manager.py
--   Game/Lifetimes     both WebSocket endpoints after the admission, around their receive loops
--   Game/Endpoints     the endpoints of app/game/router.py that read a room and join it
--   Game/History       `get_game_history`
--   Quizzes            app/quiz/services.py: the parent has `set_quiz_status` and `toggle_favorite`,
--                      Authoring `create_quiz`, `update_quiz` and `delete_quiz`, Views the responses,
--                      lists and exports, Stats the statistics; Forms and Validation are
--                      app/quiz/schemas.py, Endpoints is app/quiz/router.py
--   Users              app/user/services/user_service.py; Validators is app/auth/validators.py, Forms
--                      app/user/schemas.py
--   Auth               the tokens of app/auth/services/jwt_service.py and app/auth/dependencies.py;
--                      Sessions has the endpoints of app/auth/router.py and those of
--                      app/user/router.py that issue or delete cookies, with app/core/security.py,
--                      AutoRefresh the middleware of that name in app/core/middleware.py, Profile
--                      the endpoints of app/user/router.py for the profile
--   Http               the exception classes, app/core/exception_handlers.py and what app/main.py
--                      registers; Headers is the other middleware of app/core/middleware.py
--   Examples           concrete runs
-- The modules below these hold lemmas and theorems: Score/Bounds, Rooms/Creation and Rooms/Joining,
-- Play/Order, Answers/Selection, Commit, Recording and Submission, Board/Ranking, Board/Repeat and
-- Board/Distribution, RoomState/Secrecy, Handlers/Progress, Effects, Frame, Steps, Course, Results and Ending
-- with its children,
-- Clients/Effects, Admission/Checks, Connections/Sets, Consistency, Delivery and Refinement,
-- World/Loading, Lifetimes/Cleanup, History/Paging and History/Roles of Game; Owners, Outcomes, Shape,
-- Calls, Transfer, Reread, Links, Links/Calls, Validation/Accepted, Validation/Again,
-- Endpoints/Access, Importable, Changes, Stored and Imports, Stats/Groups and Stats/Totals of Quizzes;
-- Users/Accounts and Users/Uniqueness; Auth/Checks and Auth/Sessions/Lockout, Rotation, Revocation,
-- Entry, Writes and Accounts; Http/Codes.
--
-- How the state corresponds: a `World` is the database, the contents of Redis, the calls of the
-- connection manager so far and the running timers. A method of the services is a function of the
-- same name on it, the commits and Redis calls in the order of the source. Each handler runs to its
-- end as one step, and a sleep ends a step: `send_question` records a timer, and `question_timeout`
-- is what the timer does when it wakes, at any later point. The three seconds of the countdown in
-- `handle_start_game` are not a boundary: its events are one step.
--
-- Ids, times, salts and the unique claims of tokens that a call draws are its arguments (`Fresh`,
-- `Request`). A token is an opaque value: the program encodes, decodes and hashes it and looks whether
-- there is one. A commit that is refused leaves the database as it was.
--
-- Numbers: scores and times are integers without bound as in Python, sizes and indices natural
-- numbers. `generate_room_code` is a parameter, one code for each attempt. The attempts to create a
-- room are recursion on their number, five as in the source; nothing else needs fuel.
--
-- Not modelled: concurrent transactions within a handler, but for the overlapping submissions of
-- Answers/Overlap, the expiry of Redis keys but for the denylist of refresh tokens in Sessions/Rotation,
-- the size of text columns, a failing write of `is_connected`, rate limits, JSON encoding, logging,
-- the receive loops of the WebSockets as loops, the rows of tags, the list of errors that pydantic
-- collects, the messages of exceptions, and the wiring of the application but for its handlers and
-- middleware.
pub mod Prelude
pub mod Exec
pub mod Reading
pub mod Models
pub mod External
pub mod Game
pub mod Quizzes
pub mod Users
pub mod Auth
pub mod Http
mod Examples
