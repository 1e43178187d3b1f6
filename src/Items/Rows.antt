-- ===== src/Items/Rows.antt =====
-- app/db/repositories/item.py.
use fastapi.Prelude.{
  ℕ, Bool, Option, List, [], ◌∷◌, ◌++◌, ◌==◌, ◌&&◌, ◌||◌, not, find, filter, update_where, take,
  drop,
}
use fastapi.Exec.{Exec, pure, raise, repository_error, try_except, ◌>>◌}
use fastapi.Db.{Session, Tables, Item, select, write, perform, roll_back, flush_call, refresh_call}

unfoldable pub item_by_id : ℕ → Tables → Option Item
item_by_id id t = find (λ i. i.id == id) t.items

unfoldable pub insert_item : Item → Tables → Tables
insert_item item t = record t { items = t.items ++ item ∷ [] }

-- Assignments to the fields of one item.
unfoldable pub update_item : ℕ → (Item → Item) → Tables → Tables
update_item id f t = record t { items = update_where (λ i. i.id == id) f t.items }

unfoldable pub items_page : ℕ → ℕ → ℕ → Bool → Tables → List Item
items_page owner_id offset limit include_archived t = take limit (
    drop offset
      (filter (λ i. i.owner_id == owner_id && (include_archived || not i.is_archived)) t.items))

module _ (db : Session) where
  open db use {State}

  -- `f` are the changes that the call stages, `item` the row after them.
  unfoldable pub add_item : (Tables → Tables) → Item → Exec State Item
  add_item f item =
      try_except (do write db f; perform db flush_call; perform db refresh_call; pure item)
        (do roll_back db; raise repository_error)

  unfoldable pub get_item_by_id : ℕ → Exec State (Option Item)
  get_item_by_id item_id = select db (item_by_id item_id)

  unfoldable pub list_items_by_owner_id : ℕ → ℕ → ℕ → Bool → Exec State (List Item)
  list_items_by_owner_id owner_id offset limit include_archived =
      select db (items_page owner_id offset limit include_archived)
