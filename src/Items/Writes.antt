-- ===== src/Items/Writes.antt =====
-- Creating, archiving and restoring an item: the change, and one charge of its feature.
use fastapi.Prelude.{
  none, [], ◌∷◌, ◌++◌, ◌==◌, update_where, ℕ, String, ◌≡◌, refl, some, Bool, false,
}
use fastapi.Exec.{success}
use fastapi.Db.{Session, Tables, User, Item, UsageReservation, IsClean}
use fastapi.Items.Rows.{item_by_id, insert_item, update_item}
use fastapi.Items.Charge.{write_item-WritesItem}
use fastapi.Billing.Enforcement.{get_policy, feature_policies}
use fastapi.Items.Charged.{
  one_unit, ChargedWrite, IsReserved, ChargedWrite-intro, after_clock, reserve-ChargedWrite,
  keeps-insert_item, keeps-update_item,
}
use fastapi.Items.Service.{
  ItemCreate, new_item, write_item, create_reserved, create_owned, create_item_for_user,
  change_reserved, change_owned,
}

-- The item is a new one of the user, as asked for, and the change adds its row.
abbrev pub Creates : ItemCreate → ℕ → Item → (Tables → Tables) → Type 0
Creates item_in user_id x f =
    (id : ℕ) × ((now : ℕ) × ((x ≡ record {
      id = id;
      title = item_in.title;
      description = item_in.description;
      owner_id = user_id;
      created_at = now;
      is_archived = false;
      archived_at = none;
      restored_at = none;
      restore_count = 0;
    })
        × (f ≡ λ (t : Tables). record t { items = t.items ++ x ∷ [] })))

-- The rows with the item of this key changed.
unfoldable pub with_item : ℕ → (Item → Item) → Tables → Tables
with_item id g t = record t { items = update_where (λ i. i.id == id) g t.items }

-- The item is `item` changed at some time, and the change updates its row alike.
abbrev pub Changes : (ℕ → Item → Item) → Item → Item → (Tables → Tables) → Type 0
Changes change item x f = (now : ℕ) × ((x ≡ change now item) × (f ≡ with_item item.id (change now)))

-- The item `item_id` of the rows `t` is the user's own and `is_done` does not hold of it; it is
-- changed at some time, in the answer and in its row.
abbrev pub ChangesOwn :
    (Item → Bool) → (ℕ → Item → Item) → ℕ → ℕ → Tables → Item → (Tables → Tables) → Type 0
ChangesOwn is_done change item_id user_id t x f =
    (item : Item) × ((item_by_id item_id t ≡ some item)
      × ((item.owner_id ≡ user_id) × ((is_done item ≡ false) × Changes change item x f)))

module _ (db : Session) (request_id : String) (user_id account_id : ℕ) where
  open db use {State, view, saved}

  -- The session after the key of the new item has been taken is the same one.
  create_reserved-ChargedWrite :
      (item_in : ItemCreate) (r : UsageReservation) (t : Tables) (s : State)
      → IsReserved db account_id "items.create" "item_create" request_id
          (some user_id)
          (Creates item_in user_id)
          r
          t
          s
      → ChargedWrite db account_id "items.create" "item_create" request_id
          (some user_id)
          (Creates item_in user_id)
          t
          (create_reserved db item_in user_id (success r) s)
  unfolding create_reserved
  create_reserved-ChargedWrite item_in r t s h =
      let s1 = (db.now s).1 in
      let id = db.serial s1 in
      let item = new_item id user_id (db.now s).0 item_in in
      let h1 =
        after_clock db account_id "items.create" "item_create" request_id (some user_id)
          (Creates item_in user_id) r t s h in
      ChargedWrite-intro db account_id "items.create" "item_create" request_id (some user_id)
        (Creates item_in user_id) r (insert_item item) item t s1
        (write_item db r.id (insert_item item) item s1) h1
        (id, ((db.now s).0, (refl, unfold insert_item in refl)))
        (write_item-WritesItem db r (insert_item item) item t h.new (keeps-insert_item item r.id) s1
          h1.clean h1.rows)

  -- `create_item_for_user`, in a session with no pending change, for a user with an id and an account.
  -- If it succeeds, it answers with a new item of the user as asked for, and it has saved that item
  -- together with one charge of `items.create`: a committed reservation drawn on a usable
  -- entitlement with enough units left, the units used and the usage event. Any other outcome
  -- leaves the saved items, entitlements and usage events as they were.
  pub create_item_for_user_outcome :
      (item_in : ItemCreate) (user : User) (s : State)
      → IsClean db s
      → user.id ≡ some user_id
      → user.account_id ≡ some account_id
      → ChargedWrite db account_id "items.create" "item_create" request_id
          (some user_id)
          (Creates item_in user_id)
          (saved s)
          (create_item_for_user db item_in user request_id s)
  unfolding create_item_for_user create_owned
  create_item_for_user_outcome item_in user s clean known account =
      rw (known, account)
        (reserve-ChargedWrite db account_id "items.create" "item_create" request_id (some user_id)
          (Creates item_in user_id) (unfold get_policy in refl) (create_reserved db item_in user_id)
          (λ code s'. unfold create_reserved in refl) (create_reserved-ChargedWrite item_in) s
          clean)

  module _ (feature_key resource_key : String)
      (price : get_policy feature_policies feature_key ≡ some (one_unit resource_key))
      (is_done : Item → Bool) (change : ℕ → Item → Item) (item_id : ℕ) (t0 : Tables) where
    change_reserved-ChargedWrite :
        (item : Item)
        → ((x : Item) (f : Tables → Tables)
            → Changes change item x f
            → ChangesOwn is_done change item_id user_id t0 x f)
        → (r : UsageReservation) (t : Tables) (s : State)
        → IsReserved db account_id feature_key resource_key request_id
            (some user_id)
            (ChangesOwn is_done change item_id user_id t0)
            r
            t
            s
        → ChargedWrite db account_id feature_key resource_key request_id
            (some user_id)
            (ChangesOwn is_done change item_id user_id t0)
            t
            (change_reserved db change item (success r) s)
    unfolding change_reserved
    change_reserved-ChargedWrite item own r t s h =
        let s1 = (db.now s).1 in
        let g = change (db.now s).0 in
        let f = update_item item.id g in
        let h1 =
          after_clock db account_id feature_key resource_key request_id (some user_id)
            (ChangesOwn is_done change item_id user_id t0) r t s h in
        ChargedWrite-intro db account_id feature_key resource_key request_id (some user_id)
          (ChangesOwn is_done change item_id user_id t0) r f (g item) t s1
          (write_item db r.id f (g item) s1) h1
          (own (g item) f ((db.now s).0, (refl, unfold update_item with_item in refl)))
          (write_item-WritesItem db r f (g item) t h.new (keeps-update_item item.id g r.id) s1
            h1.clean h1.rows)

    pub change_owned-ChargedWrite :
        (item : Item) (s : State)
        → ((x : Item) (f : Tables → Tables)
            → Changes change item x f
            → ChangesOwn is_done change item_id user_id t0 x f)
        → IsClean db s
        → ChargedWrite db account_id feature_key resource_key request_id
            (some user_id)
            (ChangesOwn is_done change item_id user_id t0)
            (saved s)
            (change_owned db feature_key change request_id user_id (some account_id) item s)
    unfolding change_owned
    change_owned-ChargedWrite item s own clean =
        reserve-ChargedWrite db account_id feature_key resource_key request_id (some user_id)
          (ChangesOwn is_done change item_id user_id t0) price (change_reserved db change item)
          (λ code s'. unfold change_reserved in refl) (change_reserved-ChargedWrite item own) s
          clean
