-- ===== src/Overtime/Months/Laws.antt =====
-- A filter that passes the check asks for one month.
use wbme.Common.{
  ◌++◌, ◌≤◌, ◌≡◌, refl, sym, ap, ◌∙◌, subst, Bool, true, Bool-cases, inl, inr, Option, some, List,
  [], ◌∷◌, String, ok, bind-eq-ok, ok-injective, str_eq, eq_iff, eq_refl, any, All, All-imp, ltb,
  length, arith, if◌then◌else◌,
}
use wbme.TableQuery.{
  TableFilterCondition, TableFilterTreeNode, TableFilterTreeNodes, TableFilterTreeGroup, leaf,
  group, no_nodes, node, Platform,
}
use wbme.TableQuery.Filters.{normalize_table_filters}
use wbme.Overtime.Months.{
  month_conditions, month_conditions_each, conditions_of, collect_months, single, first_month,
  assert_month_equals_only, extract_month_equals_value,
}

abbrev Asks : List String → TableFilterCondition → Type 0
Asks months c = (str_eq c.operator "EQUALS" ≡ true) × (any (λ m. str_eq m c.value) months ≡ true)

abbrev has_month : List String → String → Bool
has_month months v = any (λ m. str_eq m v) months

abbrev added : List String → TableFilterCondition → List String
added months c = if has_month months c.value then months else c.value ∷ months

has_month-added_self :
    (months : List String) (c : TableFilterCondition) → has_month (added months c) c.value ≡ true
has_month-added_self months c = elim (Bool-cases (has_month months c.value)) [
  | inl t ↦ rw (t, t) refl
  | inr t ↦ rw t (ground (arith, eq_refl c.value))
]

has_month-added :
    (months : List String) (c : TableFilterCondition) (v : String)
    → has_month months v ≡ true
    → has_month (added months c) v ≡ true
has_month-added months c v h = elim (Bool-cases (has_month months c.value)) [
  | inl t ↦ rw t h
  | inr t ↦ rw t (ground (arith, h))
]

-- Every condition that is visited asks for one of the months, by EQUALS.
collect_months-Asks :
    (months : List String) (cs : List TableFilterCondition) {out : List String}
    → collect_months months cs ≡ ok out
    → All (Asks out) cs × ((v : String) → has_month months v ≡ true → has_month out v ≡ true)
unfolding collect_months
collect_months-Asks months [] {out} e =
    (tt, λ v h. subst (λ o. has_month o v ≡ true) (ok-injective e) h)
collect_months-Asks months (c ∷ cs) e = elim (Bool-cases (str_eq c.operator "EQUALS")) [
  | inl t ↦
      let (asks, keeps) = collect_months-Asks (added months c) cs (rw t at e) in
      (
        ((t, keeps c.value (has_month-added_self months c)), asks),
        λ v h. keeps v (has_month-added months c v h),
      )
  | inr t ↦ absurd (cc (rw t at e))
]

-- At most one month is the same for all that ask for a month.
one_month :
    (months : List String) (v w : String)
    → length months ≤ 1
    → has_month months v ≡ true
    → has_month months w ≡ true
    → v ≡ w
one_month [] v w short a b = absurd (cc a)
one_month (m ∷ []) v w short a b =
    sym ((eq_iff m v).0 (ground arith)) ∙ (eq_iff m w).0 (ground arith)
one_month (m ∷ n ∷ months) v w short a b = absurd (omega arith)

first_month-Asks :
    (months : List String) (cs : List TableFilterCondition)
    → length months ≤ 1
    → All (Asks months) cs
    → All (λ c. (str_eq c.operator "EQUALS" ≡ true) × (first_month cs ≡ some c.value)) cs
unfolding first_month
first_month-Asks months [] short h = tt
first_month-Asks months (c ∷ cs) short h = (
  (h.0.0, rw h.0.0 refl),
  All-imp (Asks months)
      (λ x. (str_eq x.operator "EQUALS" ≡ true) × (first_month (c ∷ cs) ≡ some x.value)) cs
      (λ x a. (a.0, rw h.0.0 (ap some (one_month months c.value x.value short h.0.1 a.1)))) h.1,
)

single-le : (months : List String) {u : Unit {0}} → single months ≡ ok u → length months ≤ 1
single-le months h = elim (Bool-cases (ltb 1 (length months))) [
  | inl t ↦ absurd (cc (rw t at h))
  | inr t ↦ ground arith
]

-- A condition on the month compares by EQUALS, with this month.
abbrev pub AsksFor : Option String → TableFilterCondition → Type 0
AsksFor month c = (str_eq c.operator "EQUALS" ≡ true) × (month ≡ some c.value)

-- Every condition on the month in a tree, at any depth, asks for this month.
unfoldable mutual
  pub NodeAsksFor : Option String → TableFilterTreeNode → Type 0
  NodeAsksFor month (leaf c) = c.field ≡ "month" → AsksFor month c
  NodeAsksFor month (group logic ns) = NodesAskFor month ns

  pub NodesAskFor : Option String → TableFilterTreeNodes → Type 0
  NodesAskFor month no_nodes = Unit
  NodesAskFor month (node n ns) = NodeAsksFor month n × NodesAskFor month ns

All-split {ℓ} :
    {A : Type ℓ} (P : A → Type 0) (xs ys : List A) → All P (xs ++ ys) → All P xs × All P ys
All-split P [] ys h = (tt, h)
All-split P (x ∷ xs) ys h = let (a, b) = All-split P xs ys h.1 in ((h.0, a), b)

leaf_asks :
    (month : Option String) (c : TableFilterCondition)
    → All (AsksFor month) (month_conditions (leaf c))
    → str_eq c.field "month" ≡ true
    → AsksFor month c
unfolding month_conditions
leaf_asks month c h e = (rw e at h).0

-- The conditions on the month that are visited are all that there are.
mutual
  unfolding NodeAsksFor NodesAskFor month_conditions month_conditions_each

  NodeAsksFor-visited :
      (month : Option String) (n : TableFilterTreeNode)
      → All (AsksFor month) (month_conditions n)
      → NodeAsksFor month n
  NodeAsksFor-visited month (leaf c) h = λ e. leaf_asks month c h ((eq_iff c.field "month").1 e)
  NodeAsksFor-visited month (group logic ns) h = NodesAskFor-visited month ns h

  NodesAskFor-visited :
      (month : Option String) (ns : TableFilterTreeNodes)
      → All (AsksFor month) (month_conditions_each ns)
      → NodesAskFor month ns
  NodesAskFor-visited month no_nodes h = tt
  NodesAskFor-visited month (node n ns) h =
      let (a, b) = All-split (AsksFor month) (month_conditions n) (month_conditions_each ns) h in
      (NodeAsksFor-visited month n a, NodesAskFor-visited month ns b)

-- If a filter passes the check, every condition on the month in it, at any depth of its groups,
-- compares by EQUALS, with the month that is extracted.
pub extract_month_equals_value_unique :
    (p : Platform) (raw : String) (tree : TableFilterTreeGroup) (month : Option String)
    → normalize_table_filters p raw ≡ ok tree
    → assert_month_equals_only p raw ≡ ok tt
    → extract_month_equals_value p raw ≡ ok month
    → NodesAskFor month tree.conditions
unfolding assert_month_equals_only extract_month_equals_value
extract_month_equals_value_unique p raw tree month parsed passed got =
    let cs = month_conditions_each tree.conditions in
    let found : conditions_of p raw ≡ ok cs = rw (parsed, conditions_of) refl in
    let (months, em, last) = bind-eq-ok (collect_months [] cs) _ (rw found at passed) in
    NodesAskFor-visited month tree.conditions (
      subst (λ m. All (AsksFor m) cs) (ok-injective (rw found at got))
        (first_month-Asks months cs (single-le months last) (collect_months-Asks [] cs em).0))
