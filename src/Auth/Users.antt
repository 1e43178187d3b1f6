-- ===== src/Auth/Users.antt =====
-- app/db/repositories/user.py, base.py: the queries and writes of `user`.
use fastapi.Prelude.{
  ℕ, String, Option, none, some, Bool, true, false, ◌+◌, ◌||◌, ◌==◌, str_eq, leb, is_some,
  if◌then◌else◌, find, update_where,
}
use fastapi.Exec.{Exec, returned, pure, raise, repository_error, try_except, ◌>>=◌, ◌>>◌}
use fastapi.Db.{Session, Tables, User, select, write, perform, roll_back, commit_call, refresh_call}

-- `BaseRepository.save`, of a row that `f` adds.
abbrev pub save : (db : Session) {A : Type 0} → (Tables → Tables) → A → Exec db.State A
save db f row =
    try_except (do write db f; perform db commit_call; perform db refresh_call; pure row)
      (do roll_back db; raise repository_error)

abbrev pub same_id : Option ℕ → Option ℕ → Bool
same_id none _ = false
same_id (some a) none = false
same_id (some a) (some b) = a == b

unfoldable pub user_by_username : String → Tables → Option User
user_by_username username t = find (λ u. str_eq u.username username) t.users

unfoldable pub user_by_email : String → Tables → Option User
user_by_email email t = find (λ u. str_eq u.email email) t.users

unfoldable pub user_by_id : ℕ → Tables → Option User
user_by_id id t = find (λ u. same_id u.id (some id)) t.users

-- Assignments to the fields of one user.
unfoldable pub update_user : Option ℕ → (User → User) → Tables → Tables
update_user id f t = record t { users = update_where (λ u. same_id u.id id) f t.users }

-- The assignments of `register_failed_login`, where the lock would end at `until`.
unfoldable pub count_failure : ℕ → ℕ → User → User
count_failure max_attempts until u =
    if leb max_attempts (u.failed_login_attempts + 1)
    then record u { failed_login_attempts = u.failed_login_attempts + 1; locked_until = some until }
    else record u { failed_login_attempts = u.failed_login_attempts + 1 }

unfoldable pub clear_failures : User → User
clear_failures u = record u { failed_login_attempts = 0; locked_until = none }

module _ (db : Session) where
  open db use {State}

  unfoldable pub get_user_by_username : String → Exec State (Option User)
  get_user_by_username username = select db (user_by_username username)

  unfoldable pub get_user_by_email : String → Exec State (Option User)
  get_user_by_email email = select db (user_by_email email)

  unfoldable pub get_user_by_id : ℕ → Exec State (Option User)
  get_user_by_id user_id = select db (user_by_id user_id)

  unfoldable pub user_exists : String → String → Exec State Bool
  user_exists username email =
      select db
        (λ t. is_some (find (λ u. str_eq u.username username || str_eq u.email email) t.users))

  -- The end of the lock, where one is set.
  abbrev pub lock_end : Bool → ℕ → Exec State ℕ
  lock_end true lockout s = let (t, s') = db.now s in (returned (t + lockout), s')
  lock_end false lockout s = (returned 0, s)

  -- `lockout` is the time of `lockout_seconds`.
  unfoldable pub register_failed_login : User → ℕ → ℕ → Exec State User
  register_failed_login user max_attempts lockout =
      try_except
        (do
          until ← lock_end (leb max_attempts (user.failed_login_attempts + 1)) lockout
          write db (update_user user.id (count_failure max_attempts until))
          perform db commit_call
          perform db refresh_call
          pure (count_failure max_attempts until user))
        (do roll_back db; raise repository_error)

  unfoldable pub clear_failed_login_state : User → Exec State User
  clear_failed_login_state user = save db (update_user user.id clear_failures) (clear_failures user)
