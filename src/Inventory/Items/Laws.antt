-- ===== src/Inventory/Items/Laws.antt =====
-- The lock order, and what a cleanup may delete.
use wbme.Common.{
  ℕ, Bool, true, not, ◌&&◌, none, some, List, [], ◌∷◌, if◌then◌else◌, ◌==◌, ltb, leb, any, keep_if,
  order_by, ◌≡◌, refl, sym, ap, ◌∙◌, ◌≢◌, inl, inr, arith, All, Distinct, Sorted, order_by-Sorted,
  any-order_by, Bool-cases, ==_iff, Distinct-order_by, Distinct-keep_if, All-imp,
}
use wbme.Inventory.Items.{
  InventoryItem, Consumable, BorrowRecord, to_set, includes, id_le, is_joined, select_items,
  lock_inventory_items, is_empty_item, cleanup_empty_item, find_item,
}

abbrev pub id_lt : InventoryItem → InventoryItem → Bool
id_lt a b = ltb a.id b.id

strict : (xs : List InventoryItem) → Sorted id_le xs → Distinct (λ r. r.id) xs → Sorted id_lt xs
strict [] h d = tt
strict (x ∷ xs) h d = (each xs h.0 d.0, strict xs h.1 d.1)
  where
    each :
        (ys : List InventoryItem)
        → All (λ y. id_le x y ≡ true) ys
        → All (λ y. y.id ≢ x.id) ys
        → All (λ y. id_lt x y ≡ true) ys
    each [] a b = tt
    each (y ∷ ys) a b = (ground (arith, a.0, b.0), each ys a.1 b.1)

select_items-Sorted :
    (consumables : List Consumable) (items : List InventoryItem) (ids : List ℕ)
    → Distinct (λ r. r.id) items
    → Sorted id_lt (select_items consumables items ids)
select_items-Sorted consumables items [] d = tt
select_items-Sorted consumables items (i ∷ ids) d =
    let test = λ (r : InventoryItem). includes (i ∷ ids) r.id && is_joined consumables r in
    strict (order_by id_le (keep_if test items))
      (order_by-Sorted id_le (λ x y e. ground arith) (λ x y z e f. ground arith)
        (keep_if test items))
      (Distinct-order_by (λ r. r.id) id_le (keep_if test items)
        (Distinct-keep_if (λ r. r.id) test items d))

-- Whatever ids are asked for, items are locked in strictly ascending order of id, in a table with
-- distinct item ids.
pub lock_inventory_items-Sorted :
    (consumables : List Consumable) (items : List InventoryItem) (ids : List ℕ)
    → Distinct (λ r. r.id) items
    → Sorted id_lt (lock_inventory_items consumables items ids)
unfolding lock_inventory_items
lock_inventory_items-Sorted consumables items ids d =
    select_items-Sorted consumables items (order_by leb (to_set ids)) d

abbrev pub holds : ℕ → List InventoryItem → Bool
holds id = any (λ r. r.id == id)

includes-keep_if_ne :
    (i j : ℕ) (ids : List ℕ) → j ≢ i → includes (keep_if (λ k. not (k == i)) ids) j ≡ includes ids j
includes-keep_if_ne i j [] d = refl
includes-keep_if_ne i j (k ∷ ids) d = ground (arith, includes-keep_if_ne i j ids d)

includes-to_set : (ids : List ℕ) (j : ℕ) → includes (to_set ids) j ≡ includes ids j
unfolding to_set
includes-to_set [] j = refl
includes-to_set (i ∷ ids) j = elim (Bool-cases (i == j)) [
  | inl e ↦ ground arith
  | inr e ↦ ground (arith, includes-keep_if_ne i j (to_set ids), includes-to_set ids j)
]

holds-keep_if :
    (id : ℕ) (consumables : List Consumable) (items : List InventoryItem) (ids : List ℕ)
    → holds id (keep_if (λ r. includes ids r.id && is_joined consumables r) items)
      ≡ (includes ids id && holds id (keep_if (is_joined consumables) items))
holds-keep_if id consumables [] ids = ground arith
holds-keep_if id consumables (r ∷ items) ids = elim (Bool-cases (r.id == id)) [
  | inl e ↦
      ground
        (arith, holds-keep_if id consumables items ids, ap (includes ids) ((==_iff r.id id).0 e))
  | inr e ↦ ground (arith, holds-keep_if id consumables items ids)
]

holds-select_items :
    (id : ℕ) (consumables : List Consumable) (items : List InventoryItem) (ids : List ℕ)
    → holds id (select_items consumables items ids)
      ≡ (includes ids id && holds id (keep_if (is_joined consumables) items))
holds-select_items id consumables items [] = refl
holds-select_items id consumables items (i ∷ ids) =
    any-order_by (λ r. r.id == id) id_le
      (keep_if (λ r. includes (i ∷ ids) r.id && is_joined consumables r) items)
    ∙ holds-keep_if id consumables items (i ∷ ids)

-- Exactly the items that were asked for, exist and have a consumable are locked, however often and
-- in whatever order they were named.
pub lock_inventory_items-holds :
    (consumables : List Consumable) (items : List InventoryItem) (ids : List ℕ) (id : ℕ)
    → holds id (lock_inventory_items consumables items ids)
      ≡ (includes ids id && holds id (keep_if (is_joined consumables) items))
unfolding lock_inventory_items
lock_inventory_items-holds consumables items ids id =
    holds-select_items id consumables items (order_by leb (to_set ids))
    ∙ ap (λ b. b && holds id (keep_if (is_joined consumables) items))
        (any-order_by (λ j. j == id) leb (to_set ids) ∙ includes-to_set ids id)

find_absent :
    (id : ℕ) (p : InventoryItem → Bool) (items : List InventoryItem)
    → All (λ r. r.id ≢ id) items
    → find_item id (keep_if p items) ≡ none
unfolding find_item
find_absent id p [] h = refl
find_absent id p (r ∷ items) h = ground (arith, h.0, find_absent id p items h.1)

-- A cleanup deletes an item exactly if it is the one named, has no book and no reserved quantity,
-- and no unsettled loan; every other item stays as it was. Item ids are distinct.
pub cleanup_empty_item_lem :
    (borrows : List BorrowRecord) (items : List InventoryItem) (item_id id : ℕ) (r : InventoryItem)
    → Distinct (λ s. s.id) items
    → find_item id items ≡ some r
    → find_item id (cleanup_empty_item borrows items item_id)
      ≡ (if is_empty_item borrows item_id r then none else some r)
unfolding find_item cleanup_empty_item
cleanup_empty_item_lem borrows [] item_id id r d e = absurd (cc)
cleanup_empty_item_lem borrows (s ∷ items) item_id id r d e = elim (Bool-cases (s.id == id)) [
  | inl k ↦
      let same : s.id ≡ id = (==_iff s.id id).0 k in
      let absent =
        find_absent id (λ q. not (is_empty_item borrows item_id q)) items
          (All-imp (λ q. q.id ≢ s.id) (λ q. q.id ≢ id) items (λ q f g. f (g ∙ sym same)) d.0) in
      elim (Bool-cases (is_empty_item borrows item_id s)) [
        | inl x ↦ ground (arith, absent)
        | inr x ↦ ground (arith, absent)
      ]
  | inr k ↦ ground (arith, cleanup_empty_item_lem borrows items item_id id r d.1)
]
