-- ===== src/Users/Uniqueness.antt =====
-- The unique columns of the users, and the versions of their tokens.
use askit_backend.Models.{Db, User, Uuid}
use askit_backend.Prelude.{
  Bool, Bool-cases, Eq, List, String, [], any, any-append, arith, beq_refl, false, find?,
  if◌then◌else◌, inl, inr, nat_eq, not, refl, some, some-injective, string_eq, subst, sym, true,
  update, ◌&&◌, ◌++◌, ◌==◌, ◌∙◌, ◌∷◌, ◌≡◌, ◌≤◌,
}
use askit_backend.Users.{clashes, get_user_by_id, rename, write_user}
use askit_backend.Users.Accounts.{UserIdsUnique, find?-update}

-- No two rows share an id, a name or an address.
abbrev pub AccountsUnique : List User → Type 0
AccountsUnique [] = Unit
AccountsUnique (u ∷ users) = (any (clashes u) users ≡ false) × AccountsUnique users

-- Every user is still there, under a version that is not lower.
abbrev pub VersionsKept : Db → Db → Type 0
VersionsKept db db' =
    (user_id : Uuid) (user : User)
    → get_user_by_id db user_id ≡ some user
    → (user' : User) × (get_user_by_id db' user_id ≡ some user')
      × (user.token_version ≤ user'.token_version)

beq_sym {ℓ} : {A : Type ℓ} ⦃e : Eq A⦄ (a b : A) → (a == b) ≡ (b == a)
beq_sym ⦃e⦄ a b = elim (Bool-cases (a == b)) [
  | inl h ↦ let same : a ≡ b = (e.beq_iff a b).0 h in rw (h, same) (sym (beq_refl b))
  | inr h ↦ elim (Bool-cases (b == a)) [
    | inr h' ↦ h ∙ sym h'
    | inl h' ↦
        let back : (a == b) ≡ true = (e.beq_iff a b).1 (sym ((e.beq_iff b a).0 h')) in
        absurd (ground (arith, h, back))
  ]
]

clashes_comm : (u v : User) → clashes u v ≡ clashes v u
clashes_comm u v =
    rw (beq_sym v.id u.id, beq_sym v.username u.username, beq_sym v.email u.email) refl

pub AccountsUnique-ids : (users : List User) → AccountsUnique users → UserIdsUnique users
AccountsUnique-ids [] h = tt
AccountsUnique-ids (u ∷ users) h = (same_id users h.0, AccountsUnique-ids users h.1)
  where
    same_id :
        (us : List User) → any (clashes u) us ≡ false → any (λ (v : User). v.id == u.id) us ≡ false
    same_id [] e = refl
    same_id (v ∷ us) e = ground (arith, same_id us)

-- Inserting a row that clashes with none.
any-clashes-append :
    (u new : User) (users : List User)
    → any (clashes u) users ≡ false
    → clashes new u ≡ false
    → any (clashes u) (users ++ new ∷ []) ≡ false
any-clashes-append u new users h e =
    ground (arith, any-append (clashes u) users (new ∷ []), clashes_comm u new)

pub AccountsUnique-append :
    (new : User) (users : List User)
    → AccountsUnique users
    → any (clashes new) users ≡ false
    → AccountsUnique (users ++ new ∷ [])
AccountsUnique-append new [] h e = (refl, tt)
AccountsUnique-append new (u ∷ users) h e = (
  any-clashes-append u new users h.0 (ground arith),
  AccountsUnique-append new users h.1 (ground arith),
)

-- A write that leaves the unique columns alone.
abbrev pub KeepsColumns : (User → User) → Type 0
KeepsColumns f =
    (u : User) → ((f u).id ≡ u.id) × ((f u).username ≡ u.username) × ((f u).email ≡ u.email)

any-clashes-update :
    (f : User → User) (p : User → Bool) (u w : User) (users : List User)
    → KeepsColumns f
    → (w.id ≡ u.id) × (w.username ≡ u.username) × (w.email ≡ u.email)
    → any (clashes w) (update p f users) ≡ any (clashes u) users
any-clashes-update f p u w [] keeps same = refl
any-clashes-update f p u w (v ∷ users) keeps same =
    let rest = any-clashes-update f p u w users keeps same in
    elim (Bool-cases (p v)) [
      | inl e ↦ rw (e, (keeps v).0, (keeps v).1, (keeps v).2, same.0, same.1, same.2, rest) refl
      | inr e ↦ rw (e, same.0, same.1, same.2, rest) refl
    ]

pub AccountsUnique-update :
    (f : User → User) (p : User → Bool) (users : List User)
    → KeepsColumns f
    → AccountsUnique users
    → AccountsUnique (update p f users)
AccountsUnique-update f p [] keeps h = tt
AccountsUnique-update f p (u ∷ users) keeps h =
    let rest = AccountsUnique-update f p users keeps h.1 in
    elim (Bool-cases (p u)) [
      | inl e ↦ rw e (any-clashes-update f p u (f u) users keeps (keeps u) ∙ h.0, rest)
      | inr e ↦ rw e (any-clashes-update f p u u users keeps (refl, refl, refl) ∙ h.0, rest)
    ]

-- A new name that nobody else has.
module _ (user_id : Uuid) (username : String) where
  abbrev taken : User → Bool
  taken u = not (u.id == user_id) && u.username == username

  abbrev renamed : User → User
  renamed u = if u.id == user_id then rename username u else u

  clashes-renamed :
      (u v : User)
      → clashes u v ≡ false
      → taken u ≡ false
      → taken v ≡ false
      → clashes (renamed u) (renamed v) ≡ false
  clashes-renamed u v apart free_u free_v =
      ground (arith, beq_sym username u.username, beq_sym v.id u.id)

  any-clashes-renamed :
      (u : User) (users : List User)
      → any (clashes u) users ≡ false
      → taken u ≡ false
      → any taken users ≡ false
      → any (clashes (renamed u)) (update (λ (v : User). v.id == user_id) (rename username) users)
        ≡ false
  any-clashes-renamed u [] apart free_u free = refl
  any-clashes-renamed u (v ∷ users) apart free_u free =
      rw (clashes-renamed u v (ground arith) free_u (ground arith))
        (any-clashes-renamed u users (ground arith) free_u (ground arith))

  pub AccountsUnique-rename :
      (users : List User)
      → AccountsUnique users
      → any taken users ≡ false
      → AccountsUnique (update (λ (v : User). v.id == user_id) (rename username) users)
  AccountsUnique-rename [] h free = tt
  AccountsUnique-rename (u ∷ users) h free = (
    any-clashes-renamed u users h.0 (ground arith) (ground arith),
    AccountsUnique-rename users h.1 (ground arith),
  )

find?-update_other :
    (i j : Uuid) (f : User → User) (users : List User)
    → ((u : User) → (f u).id ≡ u.id)
    → (i == j) ≡ false
    → find? (λ (u : User). u.id == j) (update (λ (u : User). u.id == i) f users)
      ≡ find? (λ (u : User). u.id == j) users
find?-update_other i j f [] keeps apart = refl
find?-update_other i j f (u ∷ users) keeps apart =
    let rest = find?-update_other i j f users keeps apart in ground (arith, keeps u)

pub VersionsKept-refl : (db : Db) → VersionsKept db db
VersionsKept-refl db user_id user h = (user, h, omega arith)

pub VersionsKept-trans :
    (db db' db'' : Db) → VersionsKept db db' → VersionsKept db' db'' → VersionsKept db db''
VersionsKept-trans db db' db'' a b user_id user h =
    let (user', h', le) = a user_id user h in
    let (user'', h'', le') = b user_id user' h' in (user'', h'', omega arith)

-- A write to the user that was loaded, to a version that is not lower.
pub VersionsKept-write :
    (db : Db) (user : User) (f : User → User)
    → get_user_by_id db user.id ≡ some user
    → ((u : User) → (f u).id ≡ u.id)
    → user.token_version ≤ (f user).token_version
    → VersionsKept db (write_user user.id f db)
VersionsKept-write db user f found keeps grows user_id u h =
    elim (Bool-cases (user.id == user_id)) [
      | inl e ↦
          let same : user.id ≡ user_id = ground (arith, e) in
          let known : some user ≡ some u =
            sym (subst (λ i. get_user_by_id db i ≡ some user) same found) ∙ h in
          let own : user ≡ u = some-injective _ _ known in
          (
            f user,
            subst (λ i. get_user_by_id (write_user user.id f db) i ≡ some (f user)) same
                (find?-update user.id f db.users found (keeps user)),
            rw (← own) grows,
          )
      | inr e ↦ (u, find?-update_other user.id user_id f db.users keeps e ∙ h, omega arith)
    ]

pub VersionsKept-append :
    (db : Db) (new : User) → VersionsKept db (record db { users = db.users ++ new ∷ [] })
VersionsKept-append db new user_id user h =
    (user, find?-append_found (λ (u : User). u.id == user_id) db.users h, omega arith)
  where
    find?-append_found :
        (p : User → Bool) (us : List User)
        → find? p us ≡ some user
        → find? p (us ++ new ∷ []) ≡ some user
    find?-append_found p [] e = absurd (ground arith)
    find?-append_found p (u ∷ us) e = ground (arith, find?-append_found p us)
