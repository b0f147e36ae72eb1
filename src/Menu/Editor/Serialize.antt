-- ===== src/Menu/Editor/Serialize.antt =====
-- `serializeEditorState`: the rows that are saved, in the order in which they are pushed.
use wbme.Common.{
  ℕ, suc, ◌+◌, Bool, Option, none, some, List, [], ◌∷◌, ◌++◌, String, if◌then◌else◌, count_if, ◌≡◌,
  refl, arith,
}
use wbme.Menu.Editor.{Nodes, item, group, nil, cons}
use wbme.Menu.Editor.Counting.{Label, item_label, group_label, count, one}

pub record MenuGroupConfigRow : Type 0 where
  pub node_key : String
  pub parent_key : Option String
  pub name_override : Option (List ℕ)
  pub sort_order : ℕ

pub record MenuItemConfigRow : Type 0 where
  pub item_key : String
  pub parent_key : Option String
  pub name_override : Option (List ℕ)
  pub sort_order : ℕ

pub record SystemMenuConfig : Type 0 where
  pub groups : List MenuGroupConfigRow
  pub items : List MenuItemConfigRow

abbrev pub push_item : MenuItemConfigRow → SystemMenuConfig → SystemMenuConfig
push_item row c = record c { items = row ∷ c.items }

abbrev push_group : MenuGroupConfigRow → SystemMenuConfig → SystemMenuConfig
push_group row c = record c { groups = row ∷ c.groups }

abbrev both : SystemMenuConfig → SystemMenuConfig → SystemMenuConfig
both a b = record { groups = a.groups ++ b.groups; items = a.items ++ b.items }

-- `walk` from the node with the given index on.
unfoldable pub walk : Option String → ℕ → Nodes → SystemMenuConfig
walk parent index nil = record { groups = []; items = [] }
walk parent index (cons (item k n) rest) =
    push_item (record { item_key = k; parent_key = parent; name_override = n; sort_order = index })
      (walk parent (suc index) rest)
walk parent index (cons (group k n cs) rest) =
    push_group (record { node_key = k; parent_key = parent; name_override = n; sort_order = index })
      (both (walk (some k) 0 cs) (walk parent (suc index) rest))

unfoldable pub serialize_editor_state : Nodes → SystemMenuConfig
unfolding walk
serialize_editor_state state = walk none 0 state

abbrev pub item_row_label : MenuItemConfigRow → Label
item_row_label row = item_label row.item_key row.name_override

abbrev pub group_row_label : MenuGroupConfigRow → Label
group_row_label row = group_label row.node_key row.name_override

count_if-append {ℓ} :
    {A : Type ℓ} (p : A → Bool) (xs ys : List A)
    → count_if p (xs ++ ys) ≡ count_if p xs + count_if p ys
count_if-append p [] ys = omega arith
count_if-append p (x ∷ xs) ys = ground (arith, count_if-append p xs ys)

-- How many rows have a label that passes the test.
abbrev pub rows : (Label → Bool) → SystemMenuConfig → ℕ
rows q c =
    count_if (λ row. q (item_row_label row)) c.items
    + count_if (λ row. q (group_row_label row)) c.groups

one_if : (b : Bool) (n : ℕ) → (if b then suc n else n) ≡ one b + n
one_if b n = ground arith

count-walk :
    (q : Label → Bool) (parent : Option String) (index : ℕ) (xs : Nodes)
    → rows q (walk parent index xs) ≡ count q xs
unfolding walk count
count-walk q parent index nil = refl
count-walk q parent index (cons (item k n) rest) =
    let c = walk parent (suc index) rest in
    omega (
      arith,
      one_if (q (item_label k n)) (count_if (λ row. q (item_row_label row)) c.items),
      count-walk q parent (suc index) rest,
    )
count-walk q parent index (cons (group k n cs) rest) =
    let inner = walk (some k) 0 cs in
    let c = walk parent (suc index) rest in
    omega (
      arith,
      one_if (q (group_label k n))
          (count_if (λ row. q (group_row_label row)) (inner.groups ++ c.groups)),
      count_if-append (λ row. q (group_row_label row)) inner.groups c.groups,
      count_if-append (λ row. q (item_row_label row)) inner.items c.items,
      count-walk q (some k) 0 cs,
      count-walk q parent (suc index) rest,
    )

-- Saving writes every node exactly once: of every kind of node, told apart by kind, key and name,
-- there are as many rows as nodes in the tree, at any depth.
pub serialize_editor_state-count :
    (q : Label → Bool) (state : Nodes) → rows q (serialize_editor_state state) ≡ count q state
unfolding serialize_editor_state
serialize_editor_state-count q state = count-walk q none 0 state
