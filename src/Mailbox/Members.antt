-- ===== src/Mailbox/Members.antt =====
-- `applyUserDelta`. The index of the code points at the last member with an id; new members are
-- appended.
use yz_agent.Prelude.{
  ℕ, String, Bool, not, List, [], ◌∷◌, ◌==◌, nat_eq, string_eq, if◌then◌else◌, any, Option, none,
  some, select,
}

-- A user: his id, and the settings, which no method reads.
pub record UserSpec (S : Type 0) : Type 0 where
  pub id : ℕ
  pub settings : S

module _ {S : Type 0} where
  abbrev pub is_member : ℕ → List (UserSpec S) → Bool
  is_member id users = any (λ u. u.id == id) users

  -- The last member with the id is replaced; without one the user is appended.
  unfoldable pub put_user : UserSpec S → List (UserSpec S) → List (UserSpec S)
  put_user user [] = user ∷ []
  put_user user (u ∷ users) =
      let rest = put_user user users in
      if is_member user.id users
      then u ∷ rest
      else if u.id == user.id
      then user ∷ users
      else u ∷ rest

  unfoldable pub add_users : List (UserSpec S) → List (UserSpec S) → List (UserSpec S)
  unfolding put_user
  add_users [] users = users
  add_users (user ∷ delta) users = add_users delta (put_user user users)

  unfoldable pub remove_users : List (UserSpec S) → List (UserSpec S) → List (UserSpec S)
  remove_users delta users = select (λ u. not (is_member u.id delta)) users

  unfoldable pub apply_user_delta :
      String → List (UserSpec S) → List (UserSpec S) → Option (List (UserSpec S))
  unfolding add_users remove_users
  apply_user_delta action delta users =
      if action == "add"
      then some (add_users delta users)
      else if action == "remove"
      then some (remove_users delta users)
      else none
