-- ===== src/Auth/Sessions/Writes.antt =====
-- What the requests on accounts write to the users.
use askit_backend.Auth.{get_current_user}
use askit_backend.Auth.Checks.{get_current_user_done}
use askit_backend.Auth.Profile.{update_profile_of}
use askit_backend.Auth.Sessions.{Request, login}
use askit_backend.Exec.{Error, Result-cases, err, ok}
use askit_backend.External.{Redis, Texts}
use askit_backend.External.Tokens.{Hashes, Jwt, Secrets}
use askit_backend.Game.Play.{State}
use askit_backend.Models.{Db, Time, User, Uuid}
use askit_backend.Prelude.{
  Bool-cases, Option, String, [], any, arith, false, inl, inr, len, ltb, nat_eq, none, not, refl,
  some, string_eq, subst, sym, ℕ, ◌&&◌, ◌++◌, ◌==◌, ◌∷◌, ◌≡◌, ◌⊎◌,
}
use askit_backend.Users.{
  clashes, create_user, get_user_by_email, get_user_by_id, mark_login, new_user, rename,
  update_profile, write_user,
}
use askit_backend.Users.Accounts.{get_user_by_id_own}
use askit_backend.Users.Forms.{username_valid}

module _ ⦃redis : Redis⦄ ⦃jwt : Jwt⦄ ⦃secrets : Secrets⦄ ⦃texts : Texts⦄ ⦃hashes : Hashes⦄ where
  -- A user that a request is let in as is the one that its id finds.
  pub let_in_found :
      (now : Time) (cookie : Option jwt.Token) (db : Db) {user : User}
      → get_current_user now cookie db ≡ ok user
      → get_user_by_id db user.id ≡ some user
  let_in_found now none db h = absurd (unfold get_current_user in ground (arith, h))
  let_in_found now (some token) db {user} h =
      let let_in = get_current_user_done now token db h in
      subst (λ i. get_user_by_id db i ≡ some user)
        (sym (get_user_by_id_own db let_in.user_id let_in.found)) let_in.found

  -- A refused row leaves the users as they are, another is inserted behind them.
  pub create_user-db :
      (user_id : Uuid) (salt : ℕ) (now : Time) (username email password : String) (db : Db)
      → let new = new_user user_id salt now username email password in
        ((create_user user_id salt now username email password db).1 ≡ db)
        ⊎ ((any (clashes new) db.users ≡ false)
            × ((create_user user_id salt now username email password db).1
                ≡ record db { users = db.users ++ new ∷ [] }))
  unfolding create_user
  create_user-db user_id salt now username email password db = ground arith

  -- A login writes at most the time of the login.
  pub login-db :
      (request : Request) (email password : String) (w : State) {user : User}
      → get_user_by_email w.db email ≡ some user
      → ((login request email password w).1.db ≡ w.db)
        ⊎ ((login request email password w).1.db ≡ write_user user.id (mark_login request.now) w.db)
  unfolding login
  login-db request email password w found = ground (arith, found)

  pub login_unknown :
      (request : Request) (email password : String) (w : State)
      → get_user_by_email w.db email ≡ none
      → (login request email password w).1.db ≡ w.db
  unfolding login
  login_unknown request email password w missing = ground (arith, missing)

  -- A change of the profile writes at most a name that no other user has.
  pub update_profile-db :
      (user : User) (username : Option String) (db : Db)
      → ((update_profile user username db).1 ≡ db)
        ⊎ ((name : String) × (any
                (λ (u : User). not (u.id == user.id) && u.username == name)
                db.users
              ≡ false)
            × ((update_profile user username db).1 ≡ write_user user.id (rename name) db))
  unfolding update_profile
  update_profile-db user none db = inl refl
  update_profile-db user (some name) db =
      elim (Bool-cases (any (λ (u : User). not (u.id == user.id) && u.username == name) db.users)) [
        | inl e ↦ inl (ground arith)
        | inr e ↦ elim (Bool-cases (ltb 50 (len name))) [
          | inl long ↦ inl (ground arith)
          | inr short ↦ inr (name, e, ground arith)
        ]
      ]

  pub update_profile_of_refused :
      (now : Time) (cookie : Option jwt.Token) (data_username : Option String) (w : State)
      {e : Error}
      → get_current_user now cookie w.db ≡ err e
      → (update_profile_of now cookie data_username w).1.db ≡ w.db
  unfolding update_profile_of
  update_profile_of_refused now cookie data_username w refused = ground (arith, refused)

  pub update_profile_of-db :
      (now : Time) (cookie : Option jwt.Token) (data_username : Option String) (w : State)
      {user : User}
      → get_current_user now cookie w.db ≡ ok user
      → ((update_profile_of now cookie data_username w).1.db ≡ w.db)
        ⊎ ((username : Option String) × ((update_profile_of now cookie data_username w).1.db
              ≡ (update_profile user username w.db).1))
  unfolding update_profile_of
  update_profile_of-db now cookie data_username w {user} let_in =
      elim (Result-cases (username_valid data_username)) [
        | inl (username, e) ↦ inr (username, ground (arith, let_in, e))
        | inr (x, e) ↦ inl (ground (arith, let_in, e))
      ]
