-- ===== src/Items/Service.antt =====
-- app/services/item_service.py. The cache is not modelled: `delete_prefix` runs after the commit and
-- what it raises is dropped, so it changes neither the rows nor the result.
use fastapi.Prelude.{ℕ, String, Option, none, some, true, false, not, ◌+◌, ◌==◌, if◌then◌else◌}
use fastapi.Exec.{
  Exec, pure, try_repository, ◌>>=◌, ◌>>◌, ServiceResult, success, failure, common_internal_error,
  item_persist_failed, item_not_found, item_forbidden, item_already_archived, item_not_archived,
}
use fastapi.Db.{
  Session, Tables, User, Item, UsageReservation, UsageEvent, clock, next_id, roll_back,
}
use fastapi.Billing.Enforcement.{
  reserve_feature_usage, commit_reserved_usage, release_reserved_usage,
}
use fastapi.Items.Rows.{add_item, get_item_by_id, insert_item, update_item}

pub record ItemCreate : Type 0 where
  pub title : String
  pub description : Option String

abbrev pub new_item : ℕ → ℕ → ℕ → ItemCreate → Item
new_item id owner_id now item_in = record {
  id = id;
  title = item_in.title;
  description = item_in.description;
  owner_id = owner_id;
  created_at = now;
  is_archived = false;
  archived_at = none;
  restored_at = none;
  restore_count = 0;
}

unfoldable pub archive : ℕ → Item → Item
archive now i = record i { is_archived = true; archived_at = some now }

unfoldable pub restore : ℕ → Item → Item
restore now i = record i {
  is_archived = false;
  archived_at = none;
  restored_at = some now;
  restore_count = i.restore_count + 1;
}

module _ (db : Session) where
  open db use {State}

  abbrev pub commit_answer : Item → ServiceResult UsageEvent → Exec State (ServiceResult Item)
  commit_answer item (success _) = pure (success item)
  commit_answer item (failure code) = do roll_back db; pure (failure code)

  abbrev pub release_answer : ServiceResult (Unit {0}) → Exec State (ServiceResult Item)
  release_answer (success _) = pure (failure item_persist_failed)
  release_answer (failure code) = pure (failure code)

  -- After `add_item`, `none` where that raised `RepositoryError`.
  unfoldable pub settle_write : ℕ → Option Item → Exec State (ServiceResult Item)
  settle_write reservation_id none = do
    result ← release_reserved_usage db reservation_id
    release_answer result
  settle_write reservation_id (some item) = do
    result ← commit_reserved_usage db reservation_id
    commit_answer item result

  -- The write in its `try` block, and the end of the three methods.
  unfoldable pub write_item : ℕ → (Tables → Tables) → Item → Exec State (ServiceResult Item)
  write_item reservation_id f item = do
    added ← try_repository (do row ← add_item db f item; pure (some row)) (pure none)
    settle_write reservation_id added

  unfoldable pub create_reserved :
      ItemCreate → ℕ → ServiceResult UsageReservation → Exec State (ServiceResult Item)
  create_reserved item_in user_id (failure code) = pure (failure code)
  create_reserved item_in user_id (success reservation) = do
    now ← clock db
    id ← next_id db
    write_item reservation.id (insert_item (new_item id user_id now item_in))
        (new_item id user_id now item_in)

  unfoldable pub create_owned : ItemCreate → String → ℕ → Option ℕ → Exec State (ServiceResult Item)
  create_owned item_in request_id user_id none = pure (failure common_internal_error)
  create_owned item_in request_id user_id (some account_id) = do
    reserved ← reserve_feature_usage db account_id "items.create" (some user_id) request_id
    create_reserved item_in user_id reserved

  abbrev pub create_by : ItemCreate → String → Option ℕ → Option ℕ → Exec State (ServiceResult Item)
  create_by item_in request_id none account = pure (failure common_internal_error)
  create_by item_in request_id (some user_id) account =
      create_owned item_in request_id user_id account

  unfoldable pub create_item_for_user : ItemCreate → User → String → Exec State (ServiceResult Item)
  create_item_for_user item_in current_user request_id =
      create_by item_in request_id current_user.id current_user.account_id

  -- An assignment to the item shows in the session at once, before `add_item` flushes it.
  unfoldable pub change_reserved :
      (ℕ → Item → Item) → Item → ServiceResult UsageReservation → Exec State (ServiceResult Item)
  change_reserved change item (failure code) = pure (failure code)
  change_reserved change item (success reservation) = do
    now ← clock db
    write_item reservation.id (update_item item.id (change now)) (change now item)

  unfoldable pub change_owned :
      String → (ℕ → Item → Item) → String → ℕ → Option ℕ → Item → Exec State (ServiceResult Item)
  change_owned feature_key change request_id user_id none item =
      pure (failure common_internal_error)
  change_owned feature_key change request_id user_id (some account_id) item = do
    reserved ← reserve_feature_usage db account_id feature_key (some user_id) request_id
    change_reserved change item reserved

  unfoldable pub archive_found :
      String → ℕ → Option ℕ → Option Item → Exec State (ServiceResult Item)
  archive_found request_id user_id account none = pure (failure item_not_found)
  archive_found request_id user_id account (some item) =
      if not (item.owner_id == user_id)
      then pure (failure item_forbidden)
      else if item.is_archived
      then pure (failure item_already_archived)
      else change_owned "items.archive" archive request_id user_id account item

  abbrev pub archive_by : ℕ → String → Option ℕ → Option ℕ → Exec State (ServiceResult Item)
  archive_by item_id request_id none account = pure (failure common_internal_error)
  archive_by item_id request_id (some user_id) account = do
    item ← get_item_by_id db item_id
    archive_found request_id user_id account item

  unfoldable pub archive_item_for_user : ℕ → User → String → Exec State (ServiceResult Item)
  archive_item_for_user item_id current_user request_id =
      archive_by item_id request_id current_user.id current_user.account_id

  unfoldable pub restore_found :
      String → ℕ → Option ℕ → Option Item → Exec State (ServiceResult Item)
  restore_found request_id user_id account none = pure (failure item_not_found)
  restore_found request_id user_id account (some item) =
      if not (item.owner_id == user_id)
      then pure (failure item_forbidden)
      else if not item.is_archived
      then pure (failure item_not_archived)
      else change_owned "items.restore" restore request_id user_id account item

  abbrev pub restore_by : ℕ → String → Option ℕ → Option ℕ → Exec State (ServiceResult Item)
  restore_by item_id request_id none account = pure (failure common_internal_error)
  restore_by item_id request_id (some user_id) account = do
    item ← get_item_by_id db item_id
    restore_found request_id user_id account item

  unfoldable pub restore_item_for_user : ℕ → User → String → Exec State (ServiceResult Item)
  restore_item_for_user item_id current_user request_id =
      restore_by item_id request_id current_user.id current_user.account_id
