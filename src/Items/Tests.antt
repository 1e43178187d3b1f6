-- ===== src/Items/Tests.antt =====
-- A concrete item, and one instance of each theorem on the items.
use fastapi.Prelude.{ℕ, String, ◌≡◌, refl, none, some, true, false, not, [], ◌∷◌, find}
use fastapi.Exec.{item_forbidden}
use fastapi.Db.{Tables, User, Item, FeatureEntitlement, active}
use fastapi.Db.Demo.{Demo, demo}
use fastapi.Items.Rows.{item_by_id}
use fastapi.Items.Service.{
  ItemCreate, archive, create_item_for_user, archive_item_for_user, restore_item_for_user,
}
use fastapi.Items.Charged.{ChargedWrite}
use fastapi.Items.Writes.{Creates, create_item_for_user_outcome}
use fastapi.Items.Changes.{
  archived, restored, OwnChange, archive_item_for_user_outcome, restore_item_for_user_outcome,
}
use fastapi.Items.Guards.{RefusesWith, refused_archive, archive_item_for_user_refused}

abbrev ann : User
ann = record {
  id = some 1;
  account_id = some 7;
  username = "ann";
  email = "ann@example.com";
  hashed_password = "h";
  phone = none;
  is_active = true;
  email_verified = true;
  role = "user";
  email_verification_sent_at = none;
  failed_login_attempts = 0;
  locked_until = none;
}

abbrev note : ℕ → ℕ → Item
note id owner_id = record {
  id = id;
  title = "note";
  description = none;
  owner_id = owner_id;
  created_at = 0;
  is_archived = false;
  archived_at = none;
  restored_at = none;
  restore_count = 0;
}

abbrev units : ℕ → String → FeatureEntitlement
units id resource_key = record {
  id = id;
  account_id = 7;
  resource_key = resource_key;
  units_total = 3;
  units_used = 1;
  status = active;
  valid_from = none;
  valid_until = none;
  source_type = "manual";
  source_id = none;
  updated_at = 0;
}

abbrev rows : Tables
rows = record {
  accounts = [];
  users = ann ∷ [];
  entitlements = units 1 "item_create" ∷ units 2 "item_archive" ∷ units 3 "item_restore" ∷ [];
  reservations = [];
  usage_events = [];
  items = note 4 1 ∷ note 5 2 ∷ archive 3 (note 6 1) ∷ [];
  outbox_events = [];
  revoked_tokens = [];
}

abbrev at_rows : Demo
at_rows = record { view = rows; saved = rows; time = 10; script = [] }

not_hers : refused_archive 1 ann.account_id (item_by_id 5 at_rows.saved) ≡ some item_forbidden
unfolding item_by_id find
not_hers = refl

archive_item_for_user_refused_example :
    RefusesWith demo item_forbidden at_rows (archive_item_for_user demo 5 ann "r" at_rows)
archive_item_for_user_refused_example =
    archive_item_for_user_refused demo 5 1 ann "r" item_forbidden at_rows refl refl not_hers

abbrev memo : ItemCreate
memo = record { title = "memo"; description = none }

create_item_for_user_outcome_example :
    ChargedWrite demo 7 "items.create" "item_create" "r"
      (some 1)
      (Creates memo 1)
      at_rows.saved
      (create_item_for_user demo memo ann "r" at_rows)
create_item_for_user_outcome_example =
    create_item_for_user_outcome demo "r" 1 7 memo ann at_rows refl refl refl

archive_item_for_user_outcome_example :
    OwnChange demo "r" 1 7 "items.archive" "item_archive"
      (λ i. i.is_archived)
      archived
      4
      at_rows.saved
      (archive_item_for_user demo 4 ann "r" at_rows)
archive_item_for_user_outcome_example =
    archive_item_for_user_outcome demo "r" 1 7 4 ann at_rows refl refl refl

restore_item_for_user_outcome_example :
    OwnChange demo "r" 1 7 "items.restore" "item_restore"
      (λ i. not i.is_archived)
      restored
      6
      at_rows.saved
      (restore_item_for_user demo 6 ann "r" at_rows)
restore_item_for_user_outcome_example =
    restore_item_for_user_outcome demo "r" 1 7 6 ann at_rows refl refl refl
