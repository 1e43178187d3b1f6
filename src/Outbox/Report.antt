-- ===== src/Outbox/Report.antt =====
-- app/jobs/report_outbox.py, and the operations on users of app/services/outbox_service.py.
use fastapi.Prelude.{ℕ, Option, none, some, length}
use fastapi.Exec.{Exec, pure, ◌>>=◌, ◌>>◌, ServiceResult, success, failure, user_not_found}
use fastapi.Db.{
  Session, Tables, User, pending, published, failed, select, write, perform, commit_call,
  refresh_call,
}
use fastapi.Auth.Users.{user_by_id, update_user, clear_failures}
use fastapi.Outbox.Events.{count_status}

pub record OutboxSummary : Type 0 where
  pub pending_count : ℕ
  pub published_count : ℕ
  pub failed_count : ℕ
  pub total : ℕ

unfoldable pub summary_of : Tables → OutboxSummary
summary_of t = record {
  pending_count = count_status pending t;
  published_count = count_status published t;
  failed_count = count_status failed t;
  total = length t.outbox_events;
}

module _ (db : Session) where
  open db use {State}

  -- `report_outbox(session)`
  unfoldable pub report_outbox : Exec State OutboxSummary
  report_outbox = select db summary_of

  abbrev pub found_user : Option User → ServiceResult User
  found_user none = failure user_not_found
  found_user (some user) = success user

  unfoldable pub get_user_auth_state : ℕ → Exec State (ServiceResult User)
  get_user_auth_state user_id = do user ← select db (user_by_id user_id); pure (found_user user)

  abbrev pub unlock_found : Option User → Exec State (ServiceResult User)
  unlock_found none = pure (failure user_not_found)
  unlock_found (some user) = do
    write db (update_user user.id clear_failures)
    perform db commit_call
    perform db refresh_call
    pure (success (clear_failures user))

  unfoldable pub unlock_user_account : ℕ → Exec State (ServiceResult User)
  unlock_user_account user_id = do user ← select db (user_by_id user_id); unlock_found user
