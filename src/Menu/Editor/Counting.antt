-- ===== src/Menu/Editor/Counting.antt =====
-- A tree seen as a multiset of its nodes' kinds, keys and names: how many nodes pass a test.
use wbme.Common.{
  ℕ, zero, suc, ◌+◌, ◌≤◌, Bool, true, false, ◌||◌, Option, none, some, List, String, str_eq, ◌≡◌,
  refl, ap, arith, Bool-cases, inl, inr, ◌⊎◌,
}
use wbme.Menu.Editor.{
  Node, Nodes, item, group, nil, cons, find_group_node, is_found, or_else, append_node, insert_at,
  has_group, subtree_has, change_children, DragRef, drag_item, drag_group,
}

-- A node without its children.
pub data Label : Type 0 where
  item_label : String → Option (List ℕ) → Label
  group_label : String → Option (List ℕ) → Label

abbrev pub one : Bool → ℕ
one true = 1
one false = 0

-- How many nodes of the forest, at any depth, have a label that passes the test.
unfoldable pub count : (Label → Bool) → Nodes → ℕ
count q nil = 0
count q (cons (item k n) rest) = one (q (item_label k n)) + count q rest
count q (cons (group k n cs) rest) = one (q (group_label k n)) + count q cs + count q rest

unfoldable pub count_node : (Label → Bool) → Node → ℕ
unfolding count
count_node q (item k n) = one (q (item_label k n))
count_node q (group k n cs) = one (q (group_label k n)) + count q cs

-- The labels of the groups with a key, and of what a drag reference names.
abbrev pub is_group : String → Label → Bool
is_group key (item_label k n) = false
is_group key (group_label k n) = str_eq k key

abbrev pub is_ref : DragRef → Label → Bool
is_ref (drag_item key) (item_label k n) = str_eq k key
is_ref (drag_item key) (group_label k n) = false
is_ref (drag_group key) l = is_group key l

pub count-cons :
    (q : Label → Bool) (x : Node) (xs : Nodes) → count q (cons x xs) ≡ count_node q x + count q xs
unfolding count count_node
count-cons q (item k n) xs = refl
count-cons q (group k n cs) xs = omega arith

count_nil : (q : Label → Bool) → count q nil ≡ 0
unfolding count
count_nil q = refl

pub count-append_node :
    (q : Label → Bool) (xs : Nodes) (new : Node)
    → count q (append_node xs new) ≡ count q xs + count_node q new
unfolding append_node
count-append_node q nil new = omega (arith, count-cons q new nil, count_nil q)
count-append_node q (cons x xs) new =
    omega
      (arith, count-cons q x (append_node xs new), count-cons q x xs, count-append_node q xs new)

pub count-insert_at :
    (q : Label → Bool) (xs : Nodes) (i : ℕ) (new : Node)
    → count q (insert_at xs i new) ≡ count q xs + count_node q new
unfolding insert_at
count-insert_at q nil i new = omega (arith, count-cons q new nil, count_nil q)
count-insert_at q (cons x xs) zero new = omega (arith, count-cons q new (cons x xs))
count-insert_at q (cons x xs) (suc i) new =
    omega
      (arith, count-cons q x (insert_at xs i new), count-cons q x xs, count-insert_at q xs i new)

found_either :
    (a b : Option Node) → is_found (or_else a b) ≡ true → (is_found a ≡ true) ⊎ (is_found b ≡ true)
found_either none b h = inr h
found_either (some x) b h = inl refl

-- Searching for a group finds one only if there is one.
pub find_group_node-count :
    (key : String) (xs : Nodes)
    → (is_found (find_group_node key xs) ≡ true)
    → 1 ≤ count (is_group key) xs
unfolding find_group_node count
find_group_node-count key nil h = absurd (cc)
find_group_node-count key (cons (item k n) rest) h = omega (arith, find_group_node-count key rest h)
find_group_node-count key (cons (group k n cs) rest) h = elim (Bool-cases (str_eq k key)) [
  | inl e ↦ rw e (omega arith)
  | inr e ↦
      elim (found_either (find_group_node key cs) (find_group_node key rest)
        (rw (e, find_group_node) at h)) [
          | inl a ↦ omega (arith, find_group_node-count key cs a)
          | inr a ↦ omega (arith, find_group_node-count key rest a)
        ]
]

pub find_group_node-none :
    (key : String) (xs : Nodes) → count (is_group key) xs ≡ 0 → find_group_node key xs ≡ none
unfolding find_group_node count
find_group_node-none key nil h = refl
find_group_node-none key (cons (item k n) rest) h = find_group_node-none key rest (omega arith)
find_group_node-none key (cons (group k n cs) rest) h =
    ground (arith, find_group_node-none key cs, find_group_node-none key rest)

all_false : (a b c : Bool) → (a || b || c) ≡ false → (a ≡ false) × (b ≡ false) × (c ≡ false)
all_false a b c h = ground arith

pub has_group-count :
    (key : String) (xs : Nodes) → has_group key xs ≡ false → count (is_group key) xs ≡ 0
unfolding has_group count
has_group-count key nil h = refl
has_group-count key (cons (item k n) rest) h = omega (arith, has_group-count key rest h)
has_group-count key (cons (group k n cs) rest) h =
    let (a, b, c) = all_false (str_eq k key) (has_group key cs) (has_group key rest) h in
    omega (arith, ap one a, has_group-count key cs b, has_group-count key rest c)

pub subtree_has-count :
    (key : String) (x : Node) → subtree_has key x ≡ false → count_node (is_group key) x ≡ 0
unfolding subtree_has count_node
subtree_has-count key (item k n) h = refl
subtree_has-count key (group k n cs) h = ground (arith, has_group-count key cs)

one_of : (a b : ℕ) → a + b ≡ 1 → ((a ≡ 1) × (b ≡ 0)) ⊎ ((a ≡ 0) × (b ≡ 1))
one_of a b h = ground arith

-- With exactly one group of the key, what is put into its children is in the tree once.
change_children_absent :
    (f : Nodes → Nodes) (key : String) (xs : Nodes)
    → count (is_group key) xs ≡ 0
    → change_children f key xs ≡ xs
unfolding change_children count
change_children_absent f key nil h = refl
change_children_absent f key (cons (item k n) rest) h =
    ap (cons (item k n)) (change_children_absent f key rest (omega arith))
change_children_absent f key (cons (group k n cs) rest) h =
    ground (arith, change_children_absent f key cs, change_children_absent f key rest)

pub count-change_children :
    (q : Label → Bool) (f : Nodes → Nodes) (added : ℕ) (key : String) (xs : Nodes)
    → ((cs : Nodes) → count q (f cs) ≡ count q cs + added)
    → count (is_group key) xs ≡ 1
    → count q (change_children f key xs) ≡ count q xs + added
unfolding change_children count
count-change_children q f added key nil g h = absurd (omega arith)
count-change_children q f added key (cons (item k n) rest) g h =
    omega (arith, count-change_children q f added key rest g (omega arith))
count-change_children q f added key (cons (group k n cs) rest) g h =
    elim (Bool-cases (str_eq k key)) [
      | inl e ↦ rw e (
          omega (
            arith,
            g cs,
            ap (count q) (change_children_absent f key rest (omega (arith, ap one e))),
          ))
      | inr e ↦
          elim (one_of (count (is_group key) cs) (count (is_group key) rest)
            (omega (arith, ap one e))) [
              | inl (a, b) ↦ rw e (
                  omega (
                    arith,
                    count-change_children q f added key cs g a,
                    ap (count q) (change_children_absent f key rest b),
                  ))
              | inr (a, b) ↦ rw e (
                  omega (
                    arith,
                    ap (count q) (change_children_absent f key cs a),
                    count-change_children q f added key rest g b,
                  ))
            ]
    ]
