-- ===== src/Game/Connections/Sets.antt =====
-- The sets of sockets and of subscriptions under their updates.
use askit_backend.Game.Connections.{
  Manager, Socket, add, discard, drop_room, enter_room, has_room, is_empty, is_in, leave_room,
  shrink_room, sockets_of, subscribe, subscribes, unsubscribe,
}
use askit_backend.Prelude.{
  Bool, Bool-cases, List, String, [], any-append, arith, eq_iff, false, if◌then◌else◌, inl, inr,
  nat_beq_iff, nat_eq, refl, select, string_eq, subst, true, ◌++◌, ◌==◌, ◌∷◌, ◌≡◌,
}
use askit_backend.Prelude.Dict.{Dict, insert, lookup-insert, lookup-remove, remove}

pub is_in-add :
    (x ws : Socket) (l : List Socket) → is_in x (add ws l) ≡ (if ws == x then true else is_in x l)
is_in-add x ws l = elim (Bool-cases (is_in ws l)) [
  | inl old ↦ rw old (was_in l old)
  | inr new ↦ rw new (rw any-append (ground arith))
]
  where
    was_in :
        (xs : List Socket)
        → is_in ws xs ≡ true
        → is_in x xs ≡ (if ws == x then true else is_in x xs)
    was_in [] h = cc
    was_in (y ∷ ys) h = ground (arith, was_in ys)

pub is_in-discard :
    (x ws : Socket) (l : List Socket)
    → is_in x (discard ws l) ≡ (if ws == x then false else is_in x l)
is_in-discard x ws [] = ground arith
is_in-discard x ws (y ∷ l) = ground (arith, is_in-discard x ws l)

pub is_empty-add : (ws : Socket) (l : List Socket) → is_empty (add ws l) ≡ false
is_empty-add ws [] = refl
is_empty-add ws (y ∷ l) = ground arith

pub is_in-empty : (x : Socket) (l : List Socket) → is_empty l ≡ true → is_in x l ≡ false
is_in-empty x [] h = refl
is_in-empty x (y ∷ l) h = cc

pub is_in-select :
    (x : Socket) (p : Socket → Bool) (l : List Socket)
    → is_in x (select p l) ≡ (if p x then is_in x l else false)
is_in-select x p [] = ground arith
is_in-select x p (y ∷ l) = elim (Bool-cases (y == x)) [
  | inl e ↦ rw ((nat_beq_iff y x).0 e) (ground (arith, is_in-select x p l))
  | inr e ↦ ground (arith, is_in-select x p l)
]

subscribes-append :
    (j k : String) (subs : List String)
    → subscribes j (subs ++ k ∷ []) ≡ (if k == j then true else subscribes j subs)
subscribes-append j k subs = rw any-append (ground arith)

subscribes_old :
    (j k : String) (subs : List String)
    → subscribes k subs ≡ true
    → subscribes j subs ≡ (if k == j then true else subscribes j subs)
subscribes_old j k subs h = elim (Bool-cases (k == j)) [
  | inl e ↦ rw e (subst (λ i. subscribes i subs ≡ true) ((eq_iff k j).0 e) h)
  | inr e ↦ rw e
]

pub subscribes-subscribe :
    (j k : String) (subs : List String)
    → subscribes j (subscribe k subs) ≡ (if k == j then true else subscribes j subs)
subscribes-subscribe j k subs = elim (Bool-cases (subscribes k subs)) [
  | inl old ↦ rw old (subscribes_old j k subs old)
  | inr new ↦ rw new (subscribes-append j k subs)
]

pub subscribes-unsubscribe :
    (j k : String) (subs : List String)
    → subscribes j (unsubscribe k subs) ≡ (if k == j then false else subscribes j subs)
subscribes-unsubscribe j k [] = ground arith
subscribes-unsubscribe j k (s ∷ subs) =
    ground (arith, eq_iff s k, eq_iff s j, eq_iff k j, subscribes-unsubscribe j k subs)

module _ (k j : String) (v : List Socket) (rooms : Dict (List Socket)) where
  pub has_room-insert : has_room j (insert k v rooms) ≡ (if k == j then true else has_room j rooms)
  has_room-insert = ground (arith, lookup-insert k j v rooms)

  pub sockets_of-insert :
      sockets_of j (insert k v rooms) ≡ (if k == j then v else sockets_of j rooms)
  sockets_of-insert = ground (arith, lookup-insert k j v rooms)

module _ (k j : String) (rooms : Dict (List Socket)) where
  pub has_room-remove : has_room j (remove k rooms) ≡ (if k == j then false else has_room j rooms)
  has_room-remove = ground (arith, lookup-remove k j rooms)

  pub sockets_of-remove :
      sockets_of j (remove k rooms) ≡ (if k == j then [] else sockets_of j rooms)
  sockets_of-remove = ground (arith, lookup-remove k j rooms)

-- Entering and leaving a room, as changes of its sockets.
module _ (ws : Socket) (room : String) (m : Manager) where
  pub sockets_of-enter_room :
      (j : String)
      → sockets_of j (enter_room ws room m).rooms
        ≡ (if room == j then add ws (sockets_of room m.rooms) else sockets_of j m.rooms)
  sockets_of-enter_room j = sockets_of-insert room j _ m.rooms

  -- The three ways in which a socket leaves a room.
  pub leave_room_cases {ℓ} :
      (P : Manager → Type ℓ)
      → (is_empty (discard ws (sockets_of room m.rooms)) ≡ true → P (drop_room room m))
      → (has_room room m.rooms ≡ true
          → is_empty (discard ws (sockets_of room m.rooms)) ≡ false
          → P (shrink_room ws room m))
      → (has_room room m.rooms ≡ false → P m)
      → P (leave_room ws room m)
  unfolding leave_room
  leave_room_cases P dropped shrunk absent = elim (Bool-cases (has_room room m.rooms)) [
    | inl present ↦ elim (Bool-cases (is_empty (discard ws (sockets_of room m.rooms)))) [
      | inl e ↦ rw (present, e) (dropped e)
      | inr e ↦ rw (present, e) (shrunk present e)
    ]
    | inr e ↦ rw e (absent e)
  ]

  abbrev IsLeft : Socket → String → Manager → Type 0
  IsLeft x j m' = is_in x (sockets_of j m'.rooms) ≡ (
      if room == j
      then (if ws == x then false else is_in x (sockets_of room m.rooms))
      else is_in x (sockets_of j m.rooms))

  pub is_in-leave_room : (x : Socket) (j : String) → IsLeft x j (leave_room ws room m)
  is_in-leave_room x j =
      leave_room_cases (IsLeft x j)
        (λ e. ground (
          arith,
          sockets_of-remove room j m.rooms,
          is_in-empty x (discard ws (sockets_of room m.rooms)) e,
          is_in-discard x ws (sockets_of room m.rooms),
        ))
        (λ present e. ground (
          arith,
          sockets_of-insert room j (discard ws (sockets_of room m.rooms)) m.rooms,
          is_in-discard x ws (sockets_of room m.rooms),
        ))
        (λ e. ground (arith, eq_iff room j))
