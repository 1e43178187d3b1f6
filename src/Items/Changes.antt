-- ===== src/Items/Changes.antt =====
-- Archiving and restoring an item: the guards, the change and one charge of the feature.
use mathlib.Core.Path.{subst}
use fastapi.Prelude.{
  true, false, ◌+◌, ℕ, String, ◌≡◌, refl, sym, ap, ◌∙◌, inl, inr, Option, none, some, Bool, not,
  arith, Bool-cases, ◌==◌,
}
use fastapi.Exec.{
  Outcome, returned, ServiceResult, failure, item_forbidden, item_already_archived,
  item_not_archived,
}
use fastapi.Db.{Session, Tables, User, Item, IsClean}
use fastapi.Db.Attempt.{after_select}
use fastapi.Billing.Enforcement.{get_policy}
use fastapi.Items.Rows.{item_by_id, get_item_by_id}
use fastapi.Items.Charged.{ChargedWrite, unchanged}
use fastapi.Items.Service.{
  archive, restore, change_owned, archive_found, archive_item_for_user, restore_found,
  restore_item_for_user,
}
use fastapi.Items.Writes.{ChangesOwn, change_owned-ChargedWrite}

-- The item archived at a time, and restored at a time, its restores counted.
unfoldable pub archived : ℕ → Item → Item
archived now i = record i { is_archived = true; archived_at = some now }

unfoldable pub restored : ℕ → Item → Item
restored now i = record i {
  is_archived = false;
  archived_at = none;
  restored_at = some now;
  restore_count = i.restore_count + 1;
}

module _ (db : Session) (request_id : String) (user_id account_id : ℕ) where
  open db use {State, view, saved}

  -- The outcome of a change by the user's request, relative to the saved rows.
  abbrev pub OwnChange :
      String
      → String
      → (Item → Bool)
      → (ℕ → Item → Item)
      → ℕ
      → Tables
      → Outcome (ServiceResult Item) × State
      → Type 0
  OwnChange feature_key resource_key is_done change item_id t o =
      ChargedWrite db account_id feature_key resource_key request_id (some user_id)
        (ChangesOwn is_done change item_id user_id t) t o

  archive_found-OwnChange :
      (item_id : ℕ) (found : Option Item) (s : State)
      → item_by_id item_id (saved s) ≡ found
      → IsClean db s
      → OwnChange "items.archive" "item_archive"
          (λ i. i.is_archived)
          archived
          item_id
          (saved s)
          (archive_found db request_id user_id (some account_id) found s)
  archive_found-OwnChange item_id none s e clean =
      unfold archive_found in unchanged (saved s) (saved s) refl
  archive_found-OwnChange item_id (some item) s e clean =
      elim (Bool-cases (item.owner_id == user_id)) [
        | inl own ↦ elim (Bool-cases (item.is_archived)) [
          | inl done ↦
              let step : archive_found db request_id user_id (some account_id) (some item) s
                  ≡ (returned (failure item_already_archived), s) =
                unfold archive_found in ground (arith, own, done) in
              rw step (unchanged (saved s) (saved s) refl)
          | inr todo ↦
              let step : archive_found db request_id user_id (some account_id) (some item) s
                  ≡ change_owned db "items.archive" archive request_id user_id (some account_id)
                      item s =
                unfold archive_found in ground (arith, own, todo) in
              rw step (
                unfold archive archived in
                change_owned-ChargedWrite db request_id user_id account_id "items.archive"
                  "item_archive" (unfold get_policy in refl) (λ i. i.is_archived) archive item_id
                  (saved s) item s (λ x f c. (item, (e, (ground (arith, own), (todo, c))))) clean)
        ]
        | inr foreign ↦
            let step : archive_found db request_id user_id (some account_id) (some item) s
                ≡ (returned (failure item_forbidden), s) =
              unfold archive_found in ground (arith, foreign) in
            rw step (unchanged (saved s) (saved s) refl)
      ]

  -- `archive_item_for_user`, in a session with no pending change, for a user with an id and an account.
  -- If it succeeds, the saved item was the user's own and not archived; it answers with the item
  -- archived, and it has saved that change of the item together with one charge of
  -- `items.archive`. Any other outcome leaves the saved items, entitlements and usage events as
  -- they were.
  pub archive_item_for_user_outcome :
      (item_id : ℕ) (user : User) (s : State)
      → IsClean db s
      → user.id ≡ some user_id
      → user.account_id ≡ some account_id
      → OwnChange "items.archive" "item_archive"
          (λ i. i.is_archived)
          archived
          item_id
          (saved s)
          (archive_item_for_user db item_id user request_id s)
  unfolding archive_item_for_user get_item_by_id
  archive_item_for_user_outcome item_id user s clean known account =
      rw (known, account)
        (after_select db
          (OwnChange "items.archive" "item_archive" (λ i. i.is_archived) archived item_id (saved s))
          (item_by_id item_id) (archive_found db request_id user_id (some account_id)) s
          (λ s' v w.
            subst
              (λ t.
                OwnChange "items.archive" "item_archive" (λ i. i.is_archived) archived item_id t
                  (archive_found db request_id user_id (some account_id)
                    (item_by_id item_id (view s)) s'))
              w
              (archive_found-OwnChange item_id (item_by_id item_id (view s)) s'
                (ap (item_by_id item_id) (w ∙ sym clean)) (v ∙ clean ∙ sym w)))
          (λ s' w. unchanged (saved s) (saved s') w))

  restore_found-OwnChange :
      (item_id : ℕ) (found : Option Item) (s : State)
      → item_by_id item_id (saved s) ≡ found
      → IsClean db s
      → OwnChange "items.restore" "item_restore"
          (λ i. not i.is_archived)
          restored
          item_id
          (saved s)
          (restore_found db request_id user_id (some account_id) found s)
  restore_found-OwnChange item_id none s e clean =
      unfold restore_found in unchanged (saved s) (saved s) refl
  restore_found-OwnChange item_id (some item) s e clean =
      elim (Bool-cases (item.owner_id == user_id)) [
        | inl own ↦ elim (Bool-cases (not item.is_archived)) [
          | inl done ↦
              let step : restore_found db request_id user_id (some account_id) (some item) s
                  ≡ (returned (failure item_not_archived), s) =
                unfold restore_found in ground (arith, own, done) in
              rw step (unchanged (saved s) (saved s) refl)
          | inr todo ↦
              let step : restore_found db request_id user_id (some account_id) (some item) s
                  ≡ change_owned db "items.restore" restore request_id user_id (some account_id)
                      item s =
                unfold restore_found in ground (arith, own, todo) in
              rw step (
                unfold restore restored in
                change_owned-ChargedWrite db request_id user_id account_id "items.restore"
                  "item_restore" (unfold get_policy in refl) (λ i. not i.is_archived) restore
                  item_id (saved s) item s (λ x f c. (item, (e, (ground (arith, own), (todo, c)))))
                  clean)
        ]
        | inr foreign ↦
            let step : restore_found db request_id user_id (some account_id) (some item) s
                ≡ (returned (failure item_forbidden), s) =
              unfold restore_found in ground (arith, foreign) in
            rw step (unchanged (saved s) (saved s) refl)
      ]

  -- `restore_item_for_user`, in a session with no pending change, for a user with an id and an account.
  -- If it succeeds, the saved item was the user's own and archived; it answers with the item
  -- restored, its restores counted, and it has saved that change of the item together with one
  -- charge of `items.restore`. Any other outcome leaves the saved items, entitlements and usage
  -- events as they were.
  pub restore_item_for_user_outcome :
      (item_id : ℕ) (user : User) (s : State)
      → IsClean db s
      → user.id ≡ some user_id
      → user.account_id ≡ some account_id
      → OwnChange "items.restore" "item_restore"
          (λ i. not i.is_archived)
          restored
          item_id
          (saved s)
          (restore_item_for_user db item_id user request_id s)
  unfolding restore_item_for_user get_item_by_id
  restore_item_for_user_outcome item_id user s clean known account =
      rw (known, account)
        (after_select db
          (OwnChange "items.restore" "item_restore" (λ i. not i.is_archived) restored item_id
            (saved s))
          (item_by_id item_id) (restore_found db request_id user_id (some account_id)) s
          (λ s' v w.
            subst
              (λ t.
                OwnChange "items.restore" "item_restore" (λ i. not i.is_archived) restored item_id t
                  (restore_found db request_id user_id (some account_id)
                    (item_by_id item_id (view s)) s'))
              w
              (restore_found-OwnChange item_id (item_by_id item_id (view s)) s'
                (ap (item_by_id item_id) (w ∙ sym clean)) (v ∙ clean ∙ sym w)))
          (λ s' w. unchanged (saved s) (saved s') w))
