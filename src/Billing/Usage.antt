-- ===== src/Billing/Usage.antt =====
-- app/db/repositories/usage_event.py: the queries and writes of `usage_event`.
use fastapi.Prelude.{
  ℕ, Bool, true, Option, none, some, String, List, ◌&&◌, ◌==◌, str_eq, leb, if◌then◌else◌, take,
  drop, sort_by, filter, length, [], ◌∷◌, ◌++◌,
}
use fastapi.Exec.{Exec, pure, raise, repository_error, try_except, ◌>>=◌, ◌>>◌}
use fastapi.Db.{
  Status, same_status, select, Session, Tables, UsageEvent, write, perform, roll_back, next_id,
  flush_call, refresh_call,
}

unfoldable pub insert_usage_event : UsageEvent → Tables → Tables
insert_usage_event e t = record t { usage_events = t.usage_events ++ e ∷ [] }

-- The optional filters of the usage queries.
pub record UsageFilter : Type 0 where
  pub resource_key : Option String
  pub feature_key : Option String
  pub status : Option Status
  pub created_after : Option ℕ
  pub created_before : Option ℕ

-- `None` adds no clause.
abbrev pub clause : {A : Type 0} → (A → Bool) → Option A → Bool
clause test none = true
clause test (some a) = test a

-- The `WHERE` clauses of the usage queries.
unfoldable pub is_listed : ℕ → UsageFilter → UsageEvent → Bool
is_listed account_id f e =
    e.account_id == account_id
    && (clause (str_eq e.resource_key) f.resource_key
        && (clause (str_eq e.feature_key) f.feature_key
            && (clause (same_status e.status) f.status
                && (clause (λ t. leb t e.created_at) f.created_after
                    && clause (λ t. leb e.created_at t) f.created_before))))

-- `ORDER BY id`, ascending if `sort` is `asc`.
abbrev pub in_order : String → UsageEvent → UsageEvent → Bool
in_order sort a b = if str_eq sort "asc" then leb a.id b.id else leb b.id a.id

unfoldable pub usage_page : ℕ → UsageFilter → String → ℕ → ℕ → Tables → List UsageEvent
usage_page account_id f sort offset limit t =
    take limit
      (drop offset (sort_by (in_order sort) (filter (is_listed account_id f) t.usage_events)))

unfoldable pub usage_count : ℕ → UsageFilter → Tables → ℕ
usage_count account_id f t = length (filter (is_listed account_id f) t.usage_events)

module _ (db : Session) where
  open db use {State}

  unfoldable pub create_usage_event : UsageEvent → Exec State UsageEvent
  create_usage_event event =
      try_except
        (do
          id ← next_id db
          write db (insert_usage_event (record event { id = id }))
          perform db flush_call
          perform db refresh_call
          pure (record event { id = id }))
        (do roll_back db; raise repository_error)

  unfoldable pub list_filtered_account_usage_events :
      ℕ → UsageFilter → String → ℕ → ℕ → Exec State (List UsageEvent)
  list_filtered_account_usage_events account_id f sort offset limit =
      select db (usage_page account_id f sort offset limit)

  unfoldable pub count_filtered_account_usage_events : ℕ → UsageFilter → Exec State ℕ
  count_filtered_account_usage_events account_id f = select db (usage_count account_id f)
