-- ===== src/Db/Rows.antt =====
-- The tables of app/db/models. A date is a number of microseconds, a key is a number. The rows
-- hold what the code reads or writes; relationships are not columns.
use fastapi.Prelude.{
  ◌≡◌, arith, ℕ, String, Bool, true, false, false, Option, List, ◌*◌, ◌||◌, str_eq,
}

abbrev pub seconds : ℕ → ℕ
seconds n = n * 1_000_000

abbrev pub minutes : ℕ → ℕ
minutes n = seconds (n * 60)

pub record Account : Type 0 where
  pub id : ℕ
  pub name : String

-- `id` is `None` before the row is stored.
pub record User : Type 0 where
  pub id : Option ℕ
  pub account_id : Option ℕ
  pub username : String
  pub email : String
  pub hashed_password : String
  pub phone : Option String
  pub is_active : Bool
  pub email_verified : Bool
  pub role : String
  pub email_verification_sent_at : Option ℕ
  pub failed_login_attempts : ℕ
  pub locked_until : Option ℕ

-- `User.is_ops_admin`
unfoldable pub is_ops_admin : User → Bool
is_ops_admin u = str_eq u.role "ops_admin" || str_eq u.role "platform_admin"

-- The column `status` of entitlements and reservations; `inactive` stands for any other text.
pub data Status : Type 0 where
  active committed released inactive : Status

abbrev pub is_status_active : Status → Bool
is_status_active active = true
is_status_active _ = false

abbrev pub same_status : Status → Status → Bool
same_status active active = true
same_status committed committed = true
same_status released released = true
same_status inactive inactive = true
same_status _ _ = false

pub record FeatureEntitlement : Type 0 where
  pub id : ℕ
  pub account_id : ℕ
  pub resource_key : String
  pub units_total : ℕ
  pub units_used : ℕ
  pub status : Status
  pub valid_from : Option ℕ
  pub valid_until : Option ℕ
  pub source_type : String
  pub source_id : Option String
  pub updated_at : ℕ

pub record UsageReservation : Type 0 where
  pub id : ℕ
  pub account_id : ℕ
  pub entitlement_id : ℕ
  pub user_id : Option ℕ
  pub resource_key : String
  pub feature_key : String
  pub units_reserved : ℕ
  pub request_id : String
  pub status : Status
  pub expires_at : ℕ
  pub updated_at : ℕ

pub record UsageEvent : Type 0 where
  pub id : ℕ
  pub account_id : ℕ
  pub entitlement_id : ℕ
  pub reservation_id : Option ℕ
  pub user_id : Option ℕ
  pub resource_key : String
  pub feature_key : String
  pub units : ℕ
  pub request_id : String
  pub status : Status
  pub created_at : ℕ

pub record Item : Type 0 where
  pub id : ℕ
  pub title : String
  pub description : Option String
  pub owner_id : ℕ
  pub created_at : ℕ
  pub is_archived : Bool
  pub archived_at : Option ℕ
  pub restored_at : Option ℕ
  pub restore_count : ℕ

-- The column `status` of the outbox.
pub data OutboxStatus : Type 0 where
  pending published failed : OutboxStatus

-- A payload of app/worker/schemas.py, dumped: of a registration or a welcome, of a message with a
-- link, or of an alert.
pub data TaskPayload : Type 0 where
  user_payload : Option ℕ → String → String → TaskPayload
  link_payload : Option ℕ → String → String → String → TaskPayload
  alert_payload : String → String → String → TaskPayload

pub record OutboxEvent : Type 0 where
  pub id : ℕ
  pub task_id : String
  pub task_name : String
  pub payload : TaskPayload
  pub source : String
  pub status : OutboxStatus
  pub attempts : ℕ
  pub available_at : ℕ
  pub published_at : Option ℕ
  pub last_error : Option String

pub record RevokedToken : Type 0 where
  pub jti : String
  pub token_type : String
  pub expires_at : ℕ

pub record Tables : Type 0 where
  pub accounts : List Account
  pub users : List User
  pub entitlements : List FeatureEntitlement
  pub reservations : List UsageReservation
  pub usage_events : List UsageEvent
  pub items : List Item
  pub outbox_events : List OutboxEvent
  pub revoked_tokens : List RevokedToken

pub is_status_active→eq : (st : Status) → is_status_active st ≡ true → st ≡ active
is_status_active→eq st h = ground arith
