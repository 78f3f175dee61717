-- ===== src/Mailbox/Deltas.antt =====
-- What a change of the users does to the list of users.
use yz_agent.Prelude.{
  ℕ, ◌≡◌, refl, String, false, ◌||◌, List, [], ◌∷◌, ◌==◌, nat_eq, string_eq, nat_beq_iff,
  if◌then◌else◌, Option, none, some, arith,
}
use yz_agent.Mailbox.Members.{
  UserSpec, is_member, put_user, add_users, remove_users, apply_user_delta,
}

module _ {S : Type 0} where
  -- The last member with an id.
  abbrev pub find_user : ℕ → List (UserSpec S) → Option (UserSpec S)
  find_user id [] = none
  find_user id (u ∷ users) =
      let rest = find_user id users in
      elim rest [ none ↦ if u.id == id then some u else none | some v ↦ some v ]

  abbrev pub or_else : Option (UserSpec S) → Option (UserSpec S) → Option (UserSpec S)
  or_else none v = v
  or_else (some u) v = some u

  find_missing :
      (id : ℕ) (users : List (UserSpec S)) → is_member id users ≡ false → find_user id users ≡ none
  find_missing id [] h = refl
  find_missing id (u ∷ users) h = ground (arith, find_missing id users)

  is_member-put_user :
      (user : UserSpec S) (id : ℕ) (users : List (UserSpec S))
      → is_member id (put_user user users) ≡ ((user.id == id) || is_member id users)
  unfolding put_user
  is_member-put_user user id [] = ground arith
  is_member-put_user user id (u ∷ users) = ground (
    arith,
    is_member-put_user user id users,
    nat_beq_iff u.id id,
    nat_beq_iff user.id id,
    nat_beq_iff u.id user.id,
  )

  -- No two users have one id.
  abbrev pub IsUnique : List (UserSpec S) → Type 0
  IsUnique [] = Unit {0}
  IsUnique (u ∷ users) = (is_member u.id users ≡ false) × IsUnique users

  put_user-IsUnique :
      (user : UserSpec S) (users : List (UserSpec S))
      → IsUnique users
      → IsUnique (put_user user users)
  unfolding put_user
  put_user-IsUnique user [] h = (refl, tt)
  put_user-IsUnique user (u ∷ users) (a, h) = ground (
    arith,
    put_user-IsUnique user users h,
    is_member-put_user user u.id users,
    nat_beq_iff u.id user.id,
    nat_beq_iff user.id u.id,
  )

  find_user-put_user :
      (user : UserSpec S) (id : ℕ) (users : List (UserSpec S))
      → find_user id (put_user user users)
        ≡ (if user.id == id then some user else find_user id users)
  unfolding put_user
  find_user-put_user user id [] = ground arith
  find_user-put_user user id (u ∷ users) = ground (
    arith,
    find_user-put_user user id users,
    find_missing id users,
    nat_beq_iff u.id id,
    nat_beq_iff user.id id,
    nat_beq_iff u.id user.id,
  )

  find_user-add_users :
      (id : ℕ) (delta users : List (UserSpec S))
      → find_user id (add_users delta users) ≡ or_else (find_user id delta) (find_user id users)
  unfolding add_users
  find_user-add_users id [] users = refl
  find_user-add_users id (d ∷ delta) users =
      ground (arith, find_user-add_users id delta (put_user d users), find_user-put_user d id users)

  add_users-IsUnique :
      (delta users : List (UserSpec S)) → IsUnique users → IsUnique (add_users delta users)
  unfolding add_users
  add_users-IsUnique [] users h = h
  add_users-IsUnique (d ∷ delta) users h =
      add_users-IsUnique delta (put_user d users) (put_user-IsUnique d users h)

  find_user-remove_users :
      (id : ℕ) (delta users : List (UserSpec S))
      → find_user id (remove_users delta users)
        ≡ (if is_member id delta then none else find_user id users)
  unfolding remove_users
  find_user-remove_users id delta [] = ground arith
  find_user-remove_users id delta (u ∷ users) =
      ground (arith, find_user-remove_users id delta users, nat_beq_iff u.id id)

  -- A user found in the new list, if there is one.
  abbrev pub found_in : ℕ → Option (List (UserSpec S)) → Option (Option (UserSpec S))
  found_in id none = none
  found_in id (some users) = some (find_user id users)

  -- After a change "add" each id has the last user of the change with it, or the one it had; after a
  -- "remove" the ids of the change have no user, and the others the one they had; any other change is
  -- refused.
  pub find_user-apply_user_delta :
      (action : String) (delta users : List (UserSpec S)) (id : ℕ)
      → found_in id (apply_user_delta action delta users) ≡ (
          if action == "add"
          then some (or_else (find_user id delta) (find_user id users))
          else if action == "remove"
          then some (if is_member id delta then none else find_user id users)
          else none)
  unfolding apply_user_delta
  find_user-apply_user_delta action delta users id =
      ground (arith, find_user-add_users id delta users, find_user-remove_users id delta users)
