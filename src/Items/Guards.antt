-- ===== src/Items/Guards.antt =====
-- Who may archive and restore an item, and what a refused call leaves.
use fastapi.Prelude.{
  ℕ, String, ◌≡◌, Option, none, some, Bool, not, arith, ◌==◌, if◌then◌else◌, is_some,
}
use fastapi.Exec.{
  Outcome, returned, raised, ServiceResult, success, failure, common_internal_error, item_not_found,
  item_forbidden, item_already_archived, item_not_archived, ErrorCode,
}
use fastapi.Db.{Session, User, Item, query_call, IsClean}
use fastapi.Items.Rows.{item_by_id, get_item_by_id}
use fastapi.Items.Service.{
  archive_found, archive_item_for_user, restore_found, restore_item_for_user, change_owned,
}

-- The code that refuses a change of an item to a user, `none` where nothing does. `code` is the
-- code for an item that has been changed already, which `is_done` tells.
abbrev pub refused_item : ErrorCode → (Item → Bool) → ℕ → Option ℕ → Option Item → Option ErrorCode
refused_item code is_done user_id account none = some item_not_found
refused_item code is_done user_id account (some i) =
    if not (i.owner_id == user_id)
    then some item_forbidden
    else if is_done i
    then some code
    else if is_some account
    then none
    else some common_internal_error

abbrev pub refused_archive : ℕ → Option ℕ → Option Item → Option ErrorCode
refused_archive = refused_item item_already_archived (λ i. i.is_archived)

abbrev pub refused_restore : ℕ → Option ℕ → Option Item → Option ErrorCode
refused_restore = refused_item item_not_archived (λ i. not i.is_archived)

module _ (db : Session) where
  open db use {State, view, saved}

  -- The answer is the code, unless the query raised, and no saved row has changed.
  abbrev pub RefusesWith : ErrorCode → State → Outcome (ServiceResult Item) × State → Type 0
  RefusesWith code s (returned (success _), s') = ⊥
  RefusesWith code s (returned (failure c), s') = (c ≡ code) × (saved s' ≡ saved s)
  RefusesWith code s (raised _, s') = saved s' ≡ saved s

  archive_found-RefusesWith :
      (request_id : String) (user_id : ℕ) (account : Option ℕ) (found : Option Item)
      (code : ErrorCode) (s : State)
      → refused_archive user_id account found ≡ some code
      → RefusesWith code s (archive_found db request_id user_id account found s)
  unfolding archive_found change_owned
  archive_found-RefusesWith request_id user_id account none code s h = ground (arith, h)
  archive_found-RefusesWith request_id user_id none (some i) code s h = ground (arith, h)
  archive_found-RefusesWith request_id user_id (some a) (some i) code s h = ground (arith, h)

  restore_found-RefusesWith :
      (request_id : String) (user_id : ℕ) (account : Option ℕ) (found : Option Item)
      (code : ErrorCode) (s : State)
      → refused_restore user_id account found ≡ some code
      → RefusesWith code s (restore_found db request_id user_id account found s)
  unfolding restore_found change_owned
  restore_found-RefusesWith request_id user_id account none code s h = ground (arith, h)
  restore_found-RefusesWith request_id user_id none (some i) code s h = ground (arith, h)
  restore_found-RefusesWith request_id user_id (some a) (some i) code s h = ground (arith, h)

  -- In a session with no pending change, for a user with an id: where the saved item is missing, is
  -- another user's, is archived already, or the user has no account, `archive_item_for_user` fails
  -- with the code of the first of these that holds, unless the query raises. No saved row
  -- changes, no quota is reserved or charged.
  pub archive_item_for_user_refused :
      (item_id user_id : ℕ) (user : User) (request_id : String) (code : ErrorCode) (s : State)
      → IsClean db s
      → user.id ≡ some user_id
      → refused_archive user_id user.account_id (item_by_id item_id (saved s)) ≡ some code
      → RefusesWith code s (archive_item_for_user db item_id user request_id s)
  unfolding archive_item_for_user get_item_by_id
  archive_item_for_user_refused item_id user_id user request_id code s clean known h =
      let s' = (db.call query_call s).1 in
      ground (
        arith,
        clean,
        known,
        db.view-call query_call s,
        db.saved-query s,
        archive_found-RefusesWith request_id user_id user.account_id (item_by_id item_id (saved s))
            code s' h,
      )

  -- In a session with no pending change, for a user with an id: where the saved item is missing, is
  -- another user's, is not archived, or the user has no account, `restore_item_for_user` fails with
  -- the code of the first of these that holds, unless the query raises. No saved row changes,
  -- no quota is reserved or charged.
  restore_item_for_user_refused :
      (item_id user_id : ℕ) (user : User) (request_id : String) (code : ErrorCode) (s : State)
      → IsClean db s
      → user.id ≡ some user_id
      → refused_restore user_id user.account_id (item_by_id item_id (saved s)) ≡ some code
      → RefusesWith code s (restore_item_for_user db item_id user request_id s)
  unfolding restore_item_for_user get_item_by_id
  restore_item_for_user_refused item_id user_id user request_id code s clean known h =
      let s' = (db.call query_call s).1 in
      ground (
        arith,
        clean,
        known,
        db.view-call query_call s,
        db.saved-query s,
        restore_found-RefusesWith request_id user_id user.account_id (item_by_id item_id (saved s))
            code s' h,
      )
