-- ===== src/Inventory/Items/Creation.antt =====
-- `lockOrCreateItem`, alone and against a concurrent creation.
use wbme.Common.{
  ℕ, ◌≤◌, Bool, true, false, Option, none, some, List, [], ◌∷◌, ◌++◌, ok, err, any, ◌≡◌, refl, sym,
  ◌∙◌, inl, inr, ◌⊎◌, ◌↔◌, subst, arith, Bool-cases, Option-cases, eq_refl, count_if,
}
use wbme.Inventory.Items.{
  InventoryItem, ItemInput, has_key, find_by_key, new_item, locked, lock_or_create_item, create,
  transaction_aborted, same_warehouse,
}

find_by_key_of_any :
    (input : ItemInput) (items : List InventoryItem)
    → any (has_key input) items ≡ true
    → (r : InventoryItem) × (find_by_key input items ≡ some r)
unfolding find_by_key
find_by_key_of_any input [] h = absurd (cc)
find_by_key_of_any input (r ∷ items) h = elim (Bool-cases (has_key input r)) [
  | inl e ↦ (r, rw e refl)
  | inr e ↦ let (s, f) = find_by_key_of_any input items (rw e at h) in (s, rw e f)
]

same_warehouse_refl : (w : Option ℕ) → same_warehouse w w ≡ true
same_warehouse_refl none = refl
same_warehouse_refl (some w) = ground arith

-- The key of a new item is the one it was asked for.
has_key_new : (input : ItemInput) (id : ℕ) → has_key input (new_item input id) ≡ true
has_key_new input id = ground (arith, eq_refl input.spec, same_warehouse_refl input.warehouse_id)

find_by_key-append :
    (input : ItemInput) (items : List InventoryItem) (new : InventoryItem)
    → any (has_key input) items ≡ false
    → has_key input new ≡ true
    → (find_by_key input (items ++ new ∷ []) ≡ some new)
      × (count_if (has_key input) (items ++ new ∷ []) ≡ 1)
unfolding find_by_key
find_by_key-append input [] new h k = (rw k refl, rw k refl)
find_by_key-append input (r ∷ items) new h k = ground (arith, find_by_key-append input items new)

count_of_find :
    (input : ItemInput) (items : List InventoryItem) (r : InventoryItem)
    → find_by_key input items ≡ some r
    → 1 ≤ count_if (has_key input) items
unfolding find_by_key
count_of_find input [] r e = absurd (cc)
count_of_find input (s ∷ items) r e = ground (arith, count_of_find input items r)

count-append-le :
    (p : InventoryItem → Bool) (xs ys : List InventoryItem) → count_if p xs ≤ count_if p (xs ++ ys)
count-append-le p [] ys = omega arith
count-append-le p (x ∷ xs) ys = ground (arith, count-append-le p xs ys)

-- What is returned is the one item with the key asked for, at its current book quantity.
pub record IsLocked (input : ItemInput) (items : List InventoryItem) (r : InventoryItem)
    : Type 0 where
  pub found : find_by_key input items ≡ some r
  pub unique : count_if (has_key input) items ≡ 1

any_of_new :
    (input : ItemInput) (items committed : List InventoryItem)
    → find_by_key input items ≡ none
    → any (has_key input) (items ++ committed) ≡ any (has_key input) committed
unfolding find_by_key
any_of_new input [] committed e = refl
any_of_new input (r ∷ items) committed e = ground (arith, any_of_new input items committed)

-- The insertion is not refused, or the database goes on after a refused statement.
abbrev pub CanCreate : Bool → ItemInput → List InventoryItem → Type 0
CanCreate survives input items = (survives ≡ true) ⊎ (any (has_key input) items ≡ false)

create-IsLocked :
    (survives : Bool) (now : List InventoryItem) (input : ItemInput) (new_id : ℕ)
    → CanCreate survives input now
    → count_if (has_key input) now ≤ 1
    → (r : InventoryItem) × ((create survives now input new_id).1 ≡ ok (locked r))
      × IsLocked input (create survives now input new_id).0 r
create-IsLocked false now input new_id c u = elim c [
  | inl k ↦ absurd (cc)
  | inr e ↦
      let (f, n) =
        find_by_key-append input now (new_item input new_id) e (has_key_new input new_id) in
      (new_item input new_id, rw e refl, rw e (record { found = f; unique = n }))
]
create-IsLocked true now input new_id c u = elim (Bool-cases (any (has_key input) now)) [
  | inl e ↦
      let (r, f) = find_by_key_of_any input now e in
      (
        r,
        rw (e, f) refl,
        rw (e, f) (record { found = f; unique = omega (arith, count_of_find input now r f) }),
      )
  | inr e ↦
      let (f, n) =
        find_by_key-append input now (new_item input new_id) e (has_key_new input new_id) in
      (new_item input new_id, rw e refl, rw e (record { found = f; unique = n }))
]

-- Looking up or creating an item succeeds if nobody commits an item with the same key in between, or
-- if the database goes on with a transaction in which a statement failed: it returns the id and the
-- book quantity of the item that has the key, and afterwards exactly one item has it, if no two had
-- it before.
pub lock_or_create_item-IsLocked :
    (survives : Bool) (items committed : List InventoryItem) (input : ItemInput) (new_id : ℕ)
    → CanCreate survives input committed
    → count_if (has_key input) (items ++ committed) ≤ 1
    → (r : InventoryItem) × ((lock_or_create_item survives items committed input new_id).1
        ≡ ok (locked r))
      × IsLocked input (lock_or_create_item survives items committed input new_id).0 r
unfolding lock_or_create_item
lock_or_create_item-IsLocked survives items committed input new_id c u =
    elim (Option-cases (find_by_key input items)) [
      | inl e ↦ rw e (
          create-IsLocked survives (items ++ committed) input new_id
            (subst (λ b. (survives ≡ true) ⊎ (b ≡ false)) (sym (any_of_new input items committed e))
              c)
            u)
      | inr (r, e) ↦ (
        r,
        rw e refl,
        rw e (record {
          found = e;
          unique = omega (
            arith,
            count_of_find input items r e,
            count-append-le (has_key input) items committed,
          );
        }),
      )
    ]

-- In a database that refuses every statement after a failed one, looking up or creating an item
-- fails exactly if no item has the key at the first read and another transaction commits one before
-- the insertion.
pub lock_or_create_item-aborted_iff :
    (items committed : List InventoryItem) (input : ItemInput) (new_id : ℕ)
    → ((lock_or_create_item false items committed input new_id).1 ≡ err transaction_aborted)
      ↔ ((find_by_key input items ≡ none) × (any (has_key input) committed ≡ true))
unfolding lock_or_create_item
lock_or_create_item-aborted_iff items committed input new_id =
    elim (Option-cases (find_by_key input items)) [
      | inl e ↦
          let new = any_of_new input items committed e in
          elim (Bool-cases (any (has_key input) committed)) [
            | inl a ↦ (λ h. (e, a), λ h. rw (e, new ∙ a) refl)
            | inr a ↦ (λ h. absurd (cc (rw (e, new ∙ a) at h)), λ h. absurd (cc (sym a ∙ h.1)))
          ]
      | inr (r, e) ↦ (λ h. absurd (cc (rw e at h)), λ h. absurd (cc (sym e ∙ h.0)))
    ]
