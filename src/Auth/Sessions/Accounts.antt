-- ===== src/Auth/Sessions/Accounts.antt =====
-- Any sequence of requests on the accounts.
use askit_backend.Auth.{get_current_user}
use askit_backend.Auth.Profile.{update_profile_of}
use askit_backend.Auth.Sessions.{Request, change_password_of, deactivate, login, register}
use askit_backend.Auth.Sessions.Writes.{
  create_user-db, let_in_found, login-db, login_unknown, update_profile-db, update_profile_of-db,
  update_profile_of_refused,
}
use askit_backend.Exec.{Result-cases}
use askit_backend.External.{Redis, Texts}
use askit_backend.External.Tokens.{Hashes, Jwt, Secrets}
use askit_backend.Game.Answers.Check.{unique}
use askit_backend.Game.Play.{State}
use askit_backend.Models.{Db, Time, User, Uuid}
use askit_backend.Prelude.{
  Bool-cases, List, Option, Option-cases, String, [], arith, inl, inr, is_some, nat_eq, refl, some,
  string_eq, ℕ, ◌==◌, ◌∙◌, ◌∷◌, ◌≡◌, ◌≤◌,
}
use askit_backend.Users.{
  change_password, create_user, deactivate_account, deactivated, get_user_by_email, get_user_by_id,
  mark_login, rename, update_profile, with_password, write_user,
}
use askit_backend.Users.Accounts.{get_user_by_email-id}
use askit_backend.Users.Uniqueness.{
  AccountsUnique, AccountsUnique-append, AccountsUnique-ids, AccountsUnique-rename,
  AccountsUnique-update, KeepsColumns, VersionsKept, VersionsKept-append, VersionsKept-refl,
  VersionsKept-trans, VersionsKept-write,
}

module _ ⦃redis : Redis⦄ ⦃jwt : Jwt⦄ ⦃secrets : Secrets⦄ ⦃texts : Texts⦄ ⦃hashes : Hashes⦄ where
  -- The requests that write to the users, with what each of them draws.
  pub data UserCall : Type 0 where
    registers : Request → Uuid → ℕ → String → String → String → UserCall
    logs_in : Request → String → String → UserCall
    renames : Time → Option jwt.Token → Option String → UserCall
    changes_password : Request → Option jwt.Token → ℕ → String → String → UserCall
    deactivates : Request → Option jwt.Token → UserCall

  unfoldable pub serve : UserCall → State → State
  serve (registers request user_id salt username email password) w =
      (register request user_id salt username email password w).1
  serve (logs_in request email password) w = (login request email password w).1
  serve (renames now cookie username) w = (update_profile_of now cookie username w).1
  serve (changes_password request cookie salt current_password next_password) w =
      (change_password_of request cookie salt current_password next_password w).1
  serve (deactivates request cookie) w = (deactivate request cookie w).1

  unfoldable pub serve_all : List UserCall → State → State
  serve_all [] w = w
  serve_all (c ∷ cs) w = serve_all cs (serve c w)

  -- What every request keeps.
  abbrev pub Keeps : Db → Db → Type 0
  Keeps db db' = AccountsUnique db'.users × VersionsKept db db'

  Keeps-same : (db db' : Db) → AccountsUnique db.users → db' ≡ db → Keeps db db'
  Keeps-same db db' h same = rw same (h, VersionsKept-refl db)

  Keeps-write :
      (db : Db) (user : User) (f : User → User)
      → AccountsUnique db.users
      → get_user_by_id db user.id ≡ some user
      → KeepsColumns f
      → user.token_version ≤ (f user).token_version
      → Keeps db (write_user user.id f db)
  Keeps-write db user f h found keeps grows = (
    AccountsUnique-update f (λ (u : User). u.id == user.id) db.users keeps h,
    VersionsKept-write db user f found (λ u. (keeps u).0) grows,
  )

  register-Keeps :
      (request : Request) (user_id : Uuid) (salt : ℕ) (username email password : String) (w : State)
      → AccountsUnique w.db.users
      → Keeps w.db (register request user_id salt username email password w).1.db
  unfolding register
  register-Keeps request user_id salt username email password w h =
      elim (Bool-cases (is_some (get_user_by_email w.db email))) [
        | inl e ↦
            let same : (register request user_id salt username email password w).1.db ≡ w.db =
              ground (arith, e) in
            Keeps-same w.db _ h same
        | inr e ↦
            let created = create_user user_id salt request.now username email password w.db in
            let moved : (register request user_id salt username email password w).1.db ≡ created.1 =
              ground (arith, e) in
            elim (create_user-db user_id salt request.now username email password w.db) [
              | inl same ↦ Keeps-same w.db _ h (moved ∙ same)
              | inr (apart, inserted) ↦
                  rw (moved, inserted)
                    (AccountsUnique-append _ w.db.users h apart, VersionsKept-append w.db _)
            ]
      ]

  login-Keeps :
      (request : Request) (email password : String) (w : State)
      → AccountsUnique w.db.users
      → Keeps w.db (login request email password w).1.db
  login-Keeps request email password w h = elim (Option-cases (get_user_by_email w.db email)) [
    | inl e ↦ Keeps-same w.db _ h (login_unknown request email password w e)
    | inr (user, e) ↦ elim (login-db request email password w e) [
      | inl same ↦ Keeps-same w.db _ h same
      | inr marked ↦ rw marked (
          Keeps-write w.db user (mark_login request.now) h
            (get_user_by_email-id w.db email (AccountsUnique-ids w.db.users h) e)
            (λ u. (refl, refl, refl)) (omega arith))
    ]
  ]

  update_profile-Keeps :
      (user : User) (username : Option String) (db : Db)
      → AccountsUnique db.users
      → get_user_by_id db user.id ≡ some user
      → Keeps db (update_profile user username db).1
  update_profile-Keeps user username db h found = elim (update_profile-db user username db) [
    | inl same ↦ Keeps-same db _ h same
    | inr (name, free, written) ↦ rw written (
      AccountsUnique-rename user.id name db.users h free,
      VersionsKept-write db user (rename name) found (λ u. refl) (omega arith),
    )
  ]

  update_profile_of-Keeps :
      (now : Time) (cookie : Option jwt.Token) (data_username : Option String) (w : State)
      → AccountsUnique w.db.users
      → Keeps w.db (update_profile_of now cookie data_username w).1.db
  update_profile_of-Keeps now cookie data_username w h =
      elim (Result-cases (get_current_user now cookie w.db)) [
        | inr (x, e) ↦ Keeps-same w.db _ h (update_profile_of_refused now cookie data_username w e)
        | inl (user, e) ↦ elim (update_profile_of-db now cookie data_username w e) [
          | inl same ↦ Keeps-same w.db _ h same
          | inr (username, moved) ↦
              rw moved (update_profile-Keeps user username w.db h (let_in_found now cookie w.db e))
        ]
      ]

  change_password_of-Keeps :
      (request : Request) (cookie : Option jwt.Token) (salt : ℕ)
      (current_password next_password : String) (w : State)
      → AccountsUnique w.db.users
      → Keeps w.db (change_password_of request cookie salt current_password next_password w).1.db
  unfolding change_password_of change_password
  change_password_of-Keeps request cookie salt current_password next_password w h =
      elim (Result-cases (get_current_user request.now cookie w.db)) [
        | inr (x, e) ↦
            let same : (change_password_of request cookie salt current_password next_password
                  w).1.db
                ≡ w.db =
              ground (arith, e) in
            Keeps-same w.db _ h same
        | inl (user, e) ↦ elim (Bool-cases (hashes.verify current_password user.password_hash)) [
          | inr e' ↦
              let same : (change_password_of request cookie salt current_password next_password
                    w).1.db
                  ≡ w.db =
                ground (arith, e, e') in
              Keeps-same w.db _ h same
          | inl e' ↦
              let changed : (change_password_of request cookie salt current_password next_password
                    w).1.db
                  ≡ write_user user.id (with_password user next_password salt) w.db =
                ground (arith, e, e') in
              rw changed (
                Keeps-write w.db user (with_password user next_password salt) h
                  (let_in_found request.now cookie w.db e) (λ u. (refl, refl, refl)) (omega arith))
        ]
      ]

  deactivate-Keeps :
      (request : Request) (cookie : Option jwt.Token) (w : State)
      → AccountsUnique w.db.users
      → Keeps w.db (deactivate request cookie w).1.db
  unfolding deactivate deactivate_account
  deactivate-Keeps request cookie w h =
      elim (Result-cases (get_current_user request.now cookie w.db)) [
        | inr (x, e) ↦
            let same : (deactivate request cookie w).1.db ≡ w.db = ground (arith, e) in
            Keeps-same w.db _ h same
        | inl (user, e) ↦
            let left : (deactivate request cookie w).1.db
                ≡ write_user user.id (deactivated user) w.db =
              ground (arith, e) in
            rw left (
              Keeps-write w.db user (deactivated user) h (let_in_found request.now cookie w.db e)
                (λ u. (refl, refl, refl)) (omega arith))
      ]

  serve-Keeps : (c : UserCall) (w : State) → AccountsUnique w.db.users → Keeps w.db (serve c w).db
  unfolding serve
  serve-Keeps (registers request user_id salt username email password) w h =
      register-Keeps request user_id salt username email password w h
  serve-Keeps (logs_in request email password) w h = login-Keeps request email password w h
  serve-Keeps (renames now cookie username) w h = update_profile_of-Keeps now cookie username w h
  serve-Keeps (changes_password request cookie salt current_password next_password) w h =
      change_password_of-Keeps request cookie salt current_password next_password w h
  serve-Keeps (deactivates request cookie) w h = deactivate-Keeps request cookie w h

  -- Whatever requests are served, no two users ever share an id, a name or an address, every user
  -- stays, and no version of a user's tokens is taken back.
  pub serve_all-Keeps :
      (calls : List UserCall) (w : State)
      → AccountsUnique w.db.users
      → Keeps w.db (serve_all calls w).db
  unfolding serve_all
  serve_all-Keeps [] w h = (h, VersionsKept-refl w.db)
  serve_all-Keeps (c ∷ cs) w h =
      let (unique, kept) = serve-Keeps c w h in
      let (unique', kept') = serve_all-Keeps cs (serve c w) unique in
      (unique', VersionsKept-trans w.db (serve c w).db (serve_all cs (serve c w)).db kept kept')
