-- ===== src/Inventory/Flows.antt =====
-- `writeStockFlow`: one more row of the stock flows, with a snapshot of the item. The kinds of flow
-- are a parameter, as is the new row's id.
use wbme.Common.{ℕ, Option, List, [], ◌∷◌, ◌++◌, String}
use wbme.Inventory.Items.{InventoryItem}

pub data Direction : Type 0 where
  incoming outgoing : Direction

pub record Operator : Type 0 where
  pub id : ℕ
  pub name : String

-- The locked item comes with the name of its consumable.
pub record StockFlowInput (Kind : Type 0) : Type 0 where
  pub flow_type : Kind
  pub direction : Direction
  pub item : InventoryItem
  pub consumable_name : String
  pub batch_id : Option ℕ
  pub qty : ℕ
  pub book_before : ℕ
  pub book_after : ℕ
  pub ref_type : String
  pub ref_id : ℕ
  pub operator : Operator

pub record StockFlow (Kind : Type 0) : Type 0 where
  pub id : ℕ
  pub flow_type : Kind
  pub direction : Direction
  pub inventory_item_id : ℕ
  pub batch_id : Option ℕ
  pub consumable_name : String
  pub spec : String
  pub warehouse_name : String
  pub warehouse_path : String
  pub qty : ℕ
  pub book_before : ℕ
  pub book_after : ℕ
  pub ref_type : String
  pub ref_id : ℕ
  pub operator_id : ℕ
  pub operator_name : String

abbrev pub flow_row : {Kind : Type 0} → StockFlowInput Kind → ℕ → StockFlow Kind
flow_row flow id = record {
  id = id;
  flow_type = flow.flow_type;
  direction = flow.direction;
  inventory_item_id = flow.item.id;
  batch_id = flow.batch_id;
  consumable_name = flow.consumable_name;
  spec = flow.item.spec;
  warehouse_name = flow.item.warehouse_name;
  warehouse_path = flow.item.warehouse_path;
  qty = flow.qty;
  book_before = flow.book_before;
  book_after = flow.book_after;
  ref_type = flow.ref_type;
  ref_id = flow.ref_id;
  operator_id = flow.operator.id;
  operator_name = flow.operator.name;
}

abbrev pub write_stock_flow :
    {Kind : Type 0} → List (StockFlow Kind) → StockFlowInput Kind → ℕ → List (StockFlow Kind) × ℕ
write_stock_flow flows flow id = (flows ++ flow_row flow id ∷ [], id)
