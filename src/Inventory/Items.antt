-- ===== src/Inventory/Items.antt =====
-- `lockInventoryItems`, `cleanupEmptyItem` and `lockOrCreateItem`. Row locks are not modelled, only
-- the rows that a statement reads and the order in which it locks them; what other transactions
-- commit while `lockOrCreateItem` runs is a parameter. The unique index on an item's key counts a
-- missing warehouse as a value.
pub mod Laws
pub mod Creation
use wbme.Common.{
  ℕ, ◌+◌, Bool, true, false, not, ◌&&◌, Option, none, some, List, [], ◌∷◌, ◌++◌, String, Result, ok,
  err, if◌then◌else◌, ◌==◌, ltb, leb, str_eq, any, keep_if, order_by,
}

pub record InventoryItem : Type 0 where
  pub id : ℕ
  pub consumable_id : ℕ
  pub spec : String
  pub warehouse_id : Option ℕ
  pub warehouse_name : String
  pub warehouse_path : String
  pub book_qty : ℕ
  pub reserved_qty : ℕ

pub record Consumable : Type 0 where
  pub id : ℕ
  pub name : String

pub record BorrowRecord : Type 0 where
  pub inventory_item_id : ℕ
  pub qty : ℕ
  pub returned_qty : ℕ
  pub written_off_qty : ℕ

-- `[...new Set(ids)]`: each id once, in the order of first occurrence.
unfoldable pub to_set : List ℕ → List ℕ
to_set [] = []
to_set (i ∷ ids) = i ∷ keep_if (λ j. not (j == i)) (to_set ids)

abbrev pub includes : List ℕ → ℕ → Bool
includes ids i = any (λ j. j == i) ids

abbrev pub id_le : InventoryItem → InventoryItem → Bool
id_le a b = leb a.id b.id

-- The INNER JOIN keeps the items whose consumable exists.
abbrev pub is_joined : List Consumable → InventoryItem → Bool
is_joined consumables item = any (λ c. c.id == item.consumable_id) consumables

abbrev pub select_items : List Consumable → List InventoryItem → List ℕ → List InventoryItem
select_items consumables items [] = []
select_items consumables items (i ∷ ids) =
    order_by id_le (keep_if (λ r. includes (i ∷ ids) r.id && is_joined consumables r) items)

-- The items that are locked, in the order of locking; the sorted ids only feed `= ANY`.
unfoldable pub lock_inventory_items :
    List Consumable → List InventoryItem → List ℕ → List InventoryItem
unfolding to_set
lock_inventory_items consumables items ids =
    select_items consumables items (order_by leb (to_set ids))

-- br.qty > br.returned_qty + br.written_off_qty, for a record of the item.
abbrev pub is_unsettled : ℕ → BorrowRecord → Bool
is_unsettled item_id b =
    b.inventory_item_id == item_id && ltb (b.returned_qty + b.written_off_qty) b.qty

abbrev pub is_empty_item : List BorrowRecord → ℕ → InventoryItem → Bool
is_empty_item borrows item_id r =
    r.id == item_id
    && r.book_qty == 0
    && r.reserved_qty == 0
    && not (any (is_unsettled r.id) borrows)

unfoldable pub cleanup_empty_item : List BorrowRecord → List InventoryItem → ℕ → List InventoryItem
cleanup_empty_item borrows items item_id =
    keep_if (λ r. not (is_empty_item borrows item_id r)) items

unfoldable pub find_item : ℕ → List InventoryItem → Option InventoryItem
find_item id [] = none
find_item id (r ∷ items) = if r.id == id then some r else find_item id items

pub record ItemInput : Type 0 where
  pub consumable_id : ℕ
  pub spec : String
  pub warehouse_id : Option ℕ
  pub warehouse_name : String
  pub warehouse_path : String

-- IS NOT DISTINCT FROM
abbrev pub same_warehouse : Option ℕ → Option ℕ → Bool
same_warehouse none none = true
same_warehouse (some a) (some b) = a == b
same_warehouse none (some b) = false
same_warehouse (some a) none = false

abbrev pub has_key : ItemInput → InventoryItem → Bool
has_key input r =
    r.consumable_id == input.consumable_id
    && str_eq r.spec input.spec
    && same_warehouse r.warehouse_id input.warehouse_id

unfoldable pub find_by_key : ItemInput → List InventoryItem → Option InventoryItem
find_by_key input [] = none
find_by_key input (r ∷ items) = if has_key input r then some r else find_by_key input items

-- The new row has the database's defaults.
abbrev pub new_item : ItemInput → ℕ → InventoryItem
new_item input id = record {
  id = id;
  consumable_id = input.consumable_id;
  spec = input.spec;
  warehouse_id = input.warehouse_id;
  warehouse_name = input.warehouse_name;
  warehouse_path = input.warehouse_path;
  book_qty = 0;
  reserved_qty = 0;
}

pub record LockedItem : Type 0 where
  pub id : ℕ
  pub book_qty : ℕ

pub data CreateError : Type 0 where
  unique_violation transaction_aborted : CreateError

abbrev pub locked : InventoryItem → LockedItem
locked r = record { id = r.id; book_qty = r.book_qty }

-- The second read, after the insertion met the unique index. `survives` says whether the database
-- goes on with a transaction in which a statement failed.
abbrev reread :
    Bool
    → List InventoryItem
    → Option InventoryItem
    → List InventoryItem × Result CreateError LockedItem
reread false items found = (items, err transaction_aborted)
reread true items none = (items, err unique_violation)
reread true items (some r) = (items, ok (locked r))

abbrev create :
    Bool → List InventoryItem → ItemInput → ℕ → List InventoryItem × Result CreateError LockedItem
create survives items input new_id =
    if any (has_key input) items
    then reread survives items (find_by_key input items)
    else (items ++ new_item input new_id ∷ [], ok (record { id = new_id; book_qty = 0 }))

abbrev locked_or_created :
    Bool
    → List InventoryItem
    → List InventoryItem
    → ItemInput
    → ℕ
    → Option InventoryItem
    → List InventoryItem × Result CreateError LockedItem
locked_or_created survives items committed input new_id (some r) = (items, ok (locked r))
locked_or_created survives items committed input new_id none =
    create survives (items ++ committed) input new_id

-- `committed` are the items that others commit between the first read and the insertion.
unfoldable pub lock_or_create_item :
    Bool
    → List InventoryItem
    → List InventoryItem
    → ItemInput
    → ℕ
    → List InventoryItem × Result CreateError LockedItem
unfolding find_by_key
lock_or_create_item survives items committed input new_id =
    locked_or_created survives items committed input new_id (find_by_key input items)
