-- ===== src/TableQuery/Memory/Rows/Matching.antt =====
-- Which rows a filter selects: its tree read as a proposition.
use wbme.Common.{
  ℕ, suc, ◌≡◌, refl, sym, ap, ◌∙◌, subst, ◌↔◌, ◌⊎◌, inl, inr, Bool, true, Bool-cases, ◌&&◌, ◌||◌,
  List, [], ◌∷◌, count_if, String, ok, bind-eq-ok, ok-injective, Option, none, some, All, arith,
  if◌then◌else◌,
}
use wbme.TableQuery.{
  and, or, TableFilterTreeNode, TableFilterTreeNodes, leaf, group, no_nodes, node,
  TableFilterTreeGroup, TableQueryInput, Platform,
}
use wbme.TableQuery.Filters.{parse_filters}
use wbme.TableQuery.Memory.{TableInMemoryField}
use wbme.TableQuery.Memory.Rows.{
  matches_memory_condition, matches_node, matches_nodes, matches_filters, filter_rows,
  filter_and_sort_table_rows,
}
use wbme.TableQuery.Memory.Rows.Laws.{is_hit, run-steps, filter_and_sort_table_rows-count}

module _ {ℓ} {A : Type ℓ} where
  count-same :
      (h s q : A → Bool) (xs : List A)
      → All (λ x. h x ≡ s x) xs
      → count_if (λ x. h x && q x) xs ≡ count_if (λ x. s x && q x) xs
  count-same h s q [] a = refl
  count-same h s q (x ∷ xs) a = ground (arith, a.0, count-same h s q xs a.1)

module _ {ℓ} {Row : Type ℓ} (p : Platform) (now : ℕ)
    (fields : List (String × TableInMemoryField Row)) where
  -- Of a group by AND all members hold, of one by OR some member holds.
  unfoldable mutual
    pub NodeHolds : Row → TableFilterTreeNode → Type 0
    NodeHolds row (leaf c) = matches_memory_condition p now fields row c ≡ ok true
    NodeHolds row (group and ns) = AllHold row ns
    NodeHolds row (group or ns) = SomeHolds row ns

    pub AllHold : Row → TableFilterTreeNodes → Type 0
    AllHold row no_nodes = Unit
    AllHold row (node n ns) = NodeHolds row n × AllHold row ns

    pub SomeHolds : Row → TableFilterTreeNodes → Type 0
    SomeHolds row no_nodes = ⊥
    SomeHolds row (node n ns) = NodeHolds row n ⊎ SomeHolds row ns

  -- No filter selects every row.
  unfoldable pub Selects : Option TableFilterTreeGroup → Row → Type 0
  unfolding NodeHolds
  Selects none row = Unit
  Selects (some tree) row = NodeHolds row (group tree.logic tree.conditions)

  mutual
    unfolding matches_node matches_nodes NodeHolds AllHold SomeHolds

    matches_node_iff :
        (row : Row) (n : TableFilterTreeNode) (b : Bool)
        → matches_node p now fields row n ≡ ok b
        → (b ≡ true) ↔ NodeHolds row n
    matches_node_iff row (leaf c) b e = ((λ t. e ∙ ap ok t), λ h. ok-injective (sym e ∙ h))
    matches_node_iff row (group and ns) b e = matches_nodes_and_iff row ns b e
    matches_node_iff row (group or ns) b e = matches_nodes_or_iff row ns b e

    matches_nodes_and_iff :
        (row : Row) (ns : TableFilterTreeNodes) (b : Bool)
        → matches_nodes p now fields row and ns ≡ ok b
        → (b ≡ true) ↔ AllHold row ns
    matches_nodes_and_iff row no_nodes b e = ((λ t. tt), λ h. sym (ok-injective e))
    matches_nodes_and_iff row (node n ns) b e =
        let (x, ex, more) = bind-eq-ok (matches_node p now fields row n) _ e in
        let (y, ey, last) = bind-eq-ok (matches_nodes p now fields row and ns) _ more in
        let f = matches_node_iff row n x ex in
        let g = matches_nodes_and_iff row ns y ey in
        let same : (x && y) ≡ b = ok-injective last in
        ((λ t. (f.0 (ground arith), g.0 (ground arith))), λ h. ground (arith, f.1 h.0, g.1 h.1))

    matches_nodes_or_iff :
        (row : Row) (ns : TableFilterTreeNodes) (b : Bool)
        → matches_nodes p now fields row or ns ≡ ok b
        → (b ≡ true) ↔ SomeHolds row ns
    matches_nodes_or_iff row no_nodes b e = ((λ t. cc (t, ok-injective e)), λ h. absurd h)
    matches_nodes_or_iff row (node n ns) b e =
        let (x, ex, more) = bind-eq-ok (matches_node p now fields row n) _ e in
        let (y, ey, last) = bind-eq-ok (matches_nodes p now fields row or ns) _ more in
        let f = matches_node_iff row n x ex in
        let g = matches_nodes_or_iff row ns y ey in
        let same : (x || y) ≡ b = ok-injective last in
        (
          (λ t. elim (Bool-cases x) [ inl k ↦ inl (f.0 k) | inr k ↦ inr (g.0 (ground arith)) ]),
          λ h. elim h [ inl k ↦ ground (arith, f.1 k) | inr k ↦ ground (arith, g.1 k) ],
        )

  matches_filters_iff :
      (filters : Option TableFilterTreeGroup) (row : Row) (b : Bool)
      → matches_filters p now fields filters row ≡ ok b
      → (b ≡ true) ↔ Selects filters row
  unfolding Selects matches_node
  matches_filters_iff none row b e = ((λ t. tt), λ h. sym (ok-injective e))
  matches_filters_iff (some tree) row b e =
      matches_node_iff row (group tree.logic tree.conditions) b e

  -- Of every row the filter is decided.
  filter_rows-decided :
      (filters : Option TableFilterTreeGroup) (index : ℕ) (rows : List Row) {kept : List (Row × ℕ)}
      → filter_rows p now fields filters index rows ≡ ok kept
      → All (λ r. (b : Bool) × (matches_filters p now fields filters r ≡ ok b)) rows
  unfolding filter_rows
  filter_rows-decided filters index [] e = tt
  filter_rows-decided filters index (row ∷ rows) e =
      let (hit, eh, more) = bind-eq-ok (matches_filters p now fields filters row) _ e in
      let (rest, er, last) =
        bind-eq-ok (filter_rows p now fields filters (if hit then suc index else index) rows) _
          more in
      ((hit, eh), filter_rows-decided filters (if hit then suc index else index) rows er)

  hits :
      (filters : Option TableFilterTreeGroup) (selects : Row → Bool) (rows : List Row)
      → All (λ r. (b : Bool) × (matches_filters p now fields filters r ≡ ok b)) rows
      → All (λ r. (selects r ≡ true) ↔ Selects filters r) rows
      → All (λ r. is_hit (matches_filters p now fields filters r) ≡ selects r) rows
  hits filters selects [] d h = tt
  hits filters selects (r ∷ rows) d h =
      let (b, e) = d.0 in
      let m = matches_filters_iff filters r b e in
      let same : b ≡ selects r = elim (Bool-cases b) [
        | inl t ↦ t ∙ sym (h.0.1 (m.0 t))
        | inr t ↦ elim (Bool-cases (selects r)) [
          | inl u ↦ absurd (cc (t, m.1 (h.0.0 u)))
          | inr u ↦ t ∙ sym u
        ]
      ] in
      (ap is_hit e ∙ same, hits filters selects rows d.1 h.1)

  -- Exactly the rows that a filter selects come back, each as often as it was given, whatever the
  -- sorts are: for every test, as many rows pass it as selected ones among those given. Of a group
  -- by AND all members must hold, of one by OR at least one; no filter selects every row. `selects`
  -- is any test that decides this.
  pub filter_and_sort_table_rows-Selects :
      (input : TableQueryInput) (filters : Option TableFilterTreeGroup) (rows out : List Row)
      (selects q : Row → Bool)
      → parse_filters p input.filters ≡ ok filters
      → filter_and_sort_table_rows p now fields input rows ≡ ok out
      → All (λ r. (selects r ≡ true) ↔ Selects filters r) rows
      → count_if q out ≡ count_if (λ r. selects r && q r) rows
  filter_and_sort_table_rows-Selects input filters rows out selects q parsed e h =
      let (fs, sorts, kept, ranked, ef, es, ek, er, last) =
        run-steps p now fields input rows out e in
      let found : fs ≡ filters = ok-injective (sym ef ∙ parsed) in
      let decided =
        filter_rows-decided filters 0 rows
          (subst (λ f. filter_rows p now fields f 0 rows ≡ ok kept) found ek) in
      filter_and_sort_table_rows-count p now fields input filters rows out q parsed e
      ∙ count-same _ selects q rows (hits filters selects rows decided h)
