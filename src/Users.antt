-- ===== src/Users.antt =====
-- `UserService` of app/user/services/user_service.py.
pub mod Accounts
pub mod Uniqueness
pub mod Forms
pub mod Validators
use askit_backend.Exec.{
  Exec, data_error, gets, invalid_credentials, modify, pure, raise_if, registration_failed,
  username_already_exists, ◌>>=◌, ◌>>◌,
}
use askit_backend.External.Tokens.{Hashes}
use askit_backend.Models.{Db, Time, User, Uuid}
use askit_backend.Prelude.{
  Bool, Option, String, [], any, false, find?, len, ltb, nat_eq, none, not, some, string_eq, suc,
  true, update, ℕ, ◌&&◌, ◌++◌, ◌==◌, ◌||◌, ◌∷◌,
}

abbrev pub write_user : Uuid → (User → User) → Db → Db
write_user user_id f db = record db { users = update (λ (u : User). u.id == user_id) f db.users }

abbrev pub get_user_by_email : Db → String → Option User
get_user_by_email db email = find? (λ (u : User). u.email == email) db.users

abbrev pub get_user_by_id : Db → Uuid → Option User
get_user_by_id db user_id = find? (λ (u : User). u.id == user_id) db.users

abbrev pub mark_login : Time → User → User
mark_login now u = record u { last_login = some now }

abbrev pub update_last_login : Time → User → Exec Db (Unit {0})
update_last_login now user = modify (write_user user.id (mark_login now))

-- The version is one above that of the user as it was loaded.
abbrev pub deactivated : User → User → User
deactivated user u = record u { is_active = false; token_version = suc user.token_version }

unfoldable pub deactivate_account : User → Exec Db (Unit {0})
deactivate_account user = modify (write_user user.id (deactivated user))

pub record UserOut : Type 0 where
  pub user_id : Uuid
  pub username : String
  pub email : String
  pub created_at : Time

abbrev pub user_to_response : User → UserOut
user_to_response user = record {
  user_id = user.id;
  username = user.username;
  email = user.email;
  created_at = user.created_at;
}

-- What the unique columns of a new row clash with.
abbrev pub clashes : User → User → Bool
clashes user u = u.id == user.id || u.username == user.username || u.email == user.email

abbrev pub rename : String → User → User
rename username u = record u { username = username }

-- Without a name nothing is written. A refused commit is rolled back.
unfoldable pub update_profile : User → Option String → Exec Db UserOut
update_profile user none = pure (user_to_response user)
update_profile user (some username) = do
  raise_if (ltb 50 (len username)) data_error
  db ← gets (λ db. db)
  raise_if (any (λ (u : User). not (u.id == user.id) && u.username == username) db.users)
      username_already_exists
  modify (write_user user.id (rename username))
  pure (user_to_response (rename username user))

module _ ⦃hashes : Hashes⦄ where
  -- A row with the defaults of its columns.
  abbrev pub new_user : Uuid → ℕ → Time → String → String → String → User
  new_user user_id salt now username email password = record {
    id = user_id;
    username = username;
    email = email;
    password_hash = hashes.hash password salt;
    created_at = now;
    last_login = none;
    is_active = true;
    token_version = 0;
  }

  -- The database refuses texts longer than their columns before it looks at the unique ones.
  unfoldable pub create_user : Uuid → ℕ → Time → String → String → String → Exec Db User
  create_user user_id salt now username email password = do
    raise_if
        (ltb 50 (len username) || ltb 100 (len email) || ltb 250 (len (hashes.hash password salt)))
        data_error
    db ← gets (λ db. db)
    raise_if (any (clashes (new_user user_id salt now username email password)) db.users)
        registration_failed
    modify (λ db. record db {
      users = db.users ++ new_user user_id salt now username email password ∷ [];
    })
    pure (new_user user_id salt now username email password)

  abbrev pub with_password : User → String → ℕ → User → User
  with_password user password salt u = record u {
    password_hash = hashes.hash password salt;
    token_version = suc user.token_version;
  }

  unfoldable pub change_password : ℕ → User → String → String → Exec Db (Unit {0})
  change_password salt user current_password next_password = do
    raise_if (not (hashes.verify current_password user.password_hash)) invalid_credentials
    modify (write_user user.id (with_password user next_password salt))
