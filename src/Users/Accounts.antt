-- ===== src/Users/Accounts.antt =====
-- The accounts that the service finds and keeps apart.
use askit_backend.Game.Answers.Check.{unique}
use askit_backend.Models.{Db, User, Uuid}
use askit_backend.Prelude.{
  Bool, Bool-cases, List, String, [], any, arith, beq_refl, false, find?, find?-some,
  find?-some-any, inl, inr, nat_beq_iff, nat_eq, refl, some, some-injective, string_eq, subst, sym,
  true, update, ◌==◌, ◌∷◌, ◌≡◌,
}
use askit_backend.Users.{get_user_by_email, get_user_by_id, write_user}

-- No two users share an id.
abbrev pub UserIdsUnique : List User → Type 0
UserIdsUnique [] = Unit
UserIdsUnique (u ∷ users) = (any (λ (v : User). v.id == u.id) users ≡ false) × UserIdsUnique users

-- Whoever is found in some way is found by id.
find?-id :
    (p : User → Bool) (users : List User) {user : User}
    → UserIdsUnique users
    → find? p users ≡ some user
    → find? (λ (u : User). u.id == user.id) users ≡ some user
find?-id p [] {user} unique h = cc
find?-id p (u ∷ users) {user} unique h = elim (Bool-cases (p u)) [
  | inl e ↦
      let same : u ≡ user = some-injective _ _ (rw e at h) in rw same (rw (beq_refl user.id) refl)
  | inr e ↦
      let rest = find?-id p users unique.1 (rw e at h) in
      elim (Bool-cases (u.id == user.id)) [
        | inr e' ↦ rw e' rest
        | inl e' ↦
            let same : user.id ≡ u.id = ground (arith, e') in
            absurd (
              ground (
                arith,
                unique.0,
                find?-some-any (λ (v : User). v.id == user.id) users {x = user} rest,
                same,
              ))
      ]
]

pub get_user_by_email-id :
    (db : Db) (email : String) {user : User}
    → UserIdsUnique db.users
    → get_user_by_email db email ≡ some user
    → get_user_by_id db user.id ≡ some user
get_user_by_email-id db email {user} unique h =
    find?-id (λ (u : User). u.email == email) db.users unique h

-- A write to a user is read back.
pub find?-update :
    (user_id : Uuid) (f : User → User) (users : List User) {user : User}
    → find? (λ (u : User). u.id == user_id) users ≡ some user
    → (f user).id ≡ user.id
    → find? (λ (u : User). u.id == user_id) (update (λ (u : User). u.id == user_id) f users)
      ≡ some (f user)
find?-update user_id f [] {user} h keep = absurd (ground arith)
find?-update user_id f (u ∷ users) {user} h keep = elim (Bool-cases (u.id == user_id)) [
  | inl e ↦
      let same : u ≡ user = some-injective _ _ (rw e at h) in
      let still : ((f u).id == user_id) ≡ true = ground (arith, e, same, keep) in
      rw (e, still, same) refl
  | inr e ↦ rw e (rw e (find?-update user_id f users (rw e at h) keep))
]

pub get_user_by_id_own :
    (db : Db) (user_id : Uuid) {user : User}
    → get_user_by_id db user_id ≡ some user
    → user.id ≡ user_id
get_user_by_id_own db user_id {user} h =
    (nat_beq_iff _ _).0 (find?-some (λ (u : User). u.id == user_id) db.users {x = user} h)

pub get_user_by_id-write_user :
    (db : Db) (user_id : Uuid) (f : User → User) {user : User}
    → get_user_by_id db user_id ≡ some user
    → (f user).id ≡ user.id
    → get_user_by_id (write_user user.id f db) user_id ≡ some (f user)
get_user_by_id-write_user db user_id f {user} h keep =
    subst (λ i. get_user_by_id (write_user i f db) user_id ≡ some (f user))
      (sym (get_user_by_id_own db user_id h)) (find?-update user_id f db.users h keep)
